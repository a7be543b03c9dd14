-- ===== src/Telecom/Joining.antt =====
-- What the dialling of the center promises: its pauses, when it gives up, and that it arrives.
use native.Mathlib.Nat.{mod-eq_of_lt, mod-add-mod}
use ssoc_broker.Base.{
  zero, suc, ◌%◌, ◌<◌, sym, ap, ◌∙◌, List, length, get_elem?, ℕ, ◌+◌, ◌*◌, Option, none, refl, ◌≤◌,
  ◌≡◌, some, true, arith, Text, inl, inr, ◌⊎◌, Option-cases, subst,
}
use ssoc_broker.Store.{Result-cases, ok}
use ssoc_broker.Telecom.Order.{iter_dial_lem}
use ssoc_broker.Telecom.{Address, iter_dial}
use ssoc_broker.Telecom.Client.{
  Wire, Ended, connected, cancelled, rejected, second, sleep_for, consult, is_final, turn, dial,
  Dialling,
}

-- The pause after a failed turn is between a second and ten minutes, and it never gets shorter.
pub sleep_for_bounds :
    (a b : ℕ)
    → a ≤ b
    → (second ≤ sleep_for a) × (sleep_for a ≤ sleep_for b) × (sleep_for b ≤ 600 * second)
unfolding sleep_for
sleep_for_bounds a b h = ground arith

module _ {W Conn Issue : Type 0} (wire : Wire W Conn Issue) where
  -- A turn ends the dialling only with a reason.
  abbrev pub Reason : Address → W → Ended Conn Issue → Type 0
  Reason addr w (connected conn issue a) =
      (w0 : W) × (w1 : W) × (body : Text) × (a ≡ addr)
      × (wire.connect addr w ≡ (w0, some conn))
      × (wire.exchange conn addr w0 ≡ (w1, ok (202, body)))
      × (wire.decrypt body ≡ ok issue)
  Reason addr w (cancelled e) =
      (w1 : W) × ((wire.ctx_err w1 ≡ some e) ⊎ (wire.parent_err w1 ≡ some e))
  Reason addr w (rejected f) = is_final wire f ≡ true

  pub turn-Reason :
      (addr : Address) (w w' : W) (e : Ended Conn Issue)
      → turn wire addr w ≡ (w', some e)
      → Reason addr w e
  unfolding turn
  turn-Reason addr w w' (rejected f) h = ground arith
  turn-Reason addr w w' (cancelled e) h =
      let (w1, dialled) = wire.connect addr w in
      elim (Option-cases (wire.connect addr w).1) [
        | inl q ↦ (w1, inl (ground (arith, q)))
        | inr (conn, q) ↦
            let w3 : W = wire.close conn (consult wire conn addr w1).0 in
            (w3, inr (ground (arith, q)))
      ]
  turn-Reason addr w w' (connected conn issue a) h =
      let w0 : W = (wire.connect addr w).0 in
      elim (Option-cases (wire.connect addr w).1) [
        | inl q ↦ absurd (ground (arith, q))
        | inr (conn', q) ↦ elim (Result-cases (wire.exchange conn' addr w0).1) [
          | inl ((code, body), p) ↦ (
            w0,
            (wire.exchange conn' addr w0).0,
            body,
            ground arith,
            ground arith,
            ground arith,
            ground arith,
          )
          | inr (inl p) ↦ absurd (ground arith)
          | inr (inr (x, p)) ↦ absurd (ground arith)
        ]
      ]

  -- A turn that either connects or leaves the loop to go on.
  abbrev pub Connects : Option (Ended Conn Issue) → Type 0
  Connects none = ⊥
  Connects (some (connected conn issue addr)) = Unit
  Connects (some (cancelled e)) = ⊥
  Connects (some (rejected f)) = ⊥

  abbrev pub GoesOn : Option (Ended Conn Issue) → Type 0
  GoesOn none = Unit
  GoesOn (some e) = ⊥

  connects-some :
      (o : Option (Ended Conn Issue))
      → Connects o
      → (e : Ended Conn Issue) × (o ≡ some e) × Connects (some e)
  connects-some none c = absurd c
  connects-some (some e) c = (e, refl, c)

  GoesOn-none : (o : Option (Ended Conn Issue)) → GoesOn o → o ≡ none
  GoesOn-none none g = refl
  GoesOn-none (some e) g = absurd g

  module _ (addrs : List Address)
      (patient : (addr : Address) (w : W)
        → Connects (turn wire addr w).1 ⊎ GoesOn (turn wire addr w).1) where
    after_next :
        (index steps : ℕ)
        → get_elem? addrs (((index + 1) % length addrs + steps) % length addrs)
          ≡ get_elem? addrs ((index + suc steps) % length addrs)
    after_next index steps =
        ap (get_elem? addrs)
          (mod-add-mod (index + 1) (length addrs) steps ∙ ap (λ i. i % length addrs) (omega arith))

    abbrev Arrives : ℕ → Dialling W → Type 0
    Arrives steps d =
        (d' : Dialling W) × (e : Ended Conn Issue) × (dial wire (suc steps) addrs d
          ≡ some (d', some e))
        × Connects (some e)

    Arrives-now :
        (steps next : ℕ) (a : Address) (d : Dialling W)
        → iter_dial addrs d.index ≡ some (a, next)
        → Connects (turn wire a d.world).1
        → Arrives steps d
    unfolding dial
    Arrives-now steps next a d dialled now =
        let (e, got, c) = connects-some (turn wire a d.world).1 now in
        (
          record { index = next; world = (turn wire a d.world).0 },
          e,
          rw (dialled, dial) (rw got refl),
          c,
        )

    Arrives-later :
        (steps next : ℕ) (a : Address) (d : Dialling W)
        → iter_dial addrs d.index ≡ some (a, next)
        → GoesOn (turn wire a d.world).1
        → Arrives steps (record { index = next; world = (turn wire a d.world).0 })
        → Arrives (suc steps) d
    unfolding dial
    Arrives-later steps next a d dialled on later =
        let (d', e, ran, c) = later in (d', e, rw (dialled, dial) (rw (GoesOn-none _ on) ran), c)

    -- If no turn is cancelled or refused for good, and the address `steps` places further in the list
    -- always connects, then the dialling connects within `steps + 1` turns.
    pub dial-Connects :
        (steps : ℕ) (good : Address) (d : Dialling W)
        → d.index < length addrs
        → get_elem? addrs ((d.index + steps) % length addrs) ≡ some good
        → ((w : W) → Connects (turn wire good w).1)
        → (d' : Dialling W) × (e : Ended Conn Issue) × (dial wire (suc steps) addrs d
            ≡ some (d', some e))
          × Connects (some e)
    unfolding dial
    dial-Connects zero good d h at works =
        let (a, here, dialled) = iter_dial_lem addrs d.index h in
        let stays : (d.index + 0) % length addrs ≡ d.index =
          ap (λ i. i % length addrs) (omega arith) ∙ mod-eq_of_lt h in
        let same : good ≡ a = ground (arith, sym at ∙ ap (get_elem? addrs) stays ∙ here) in
        Arrives-now zero _ a d dialled
          (subst (λ x. Connects (turn wire x d.world).1) same (works d.world))
    dial-Connects (suc k) good d h at works =
        let (a, here, dialled) = iter_dial_lem addrs d.index h in
        elim (patient a d.world) [
          | inl now ↦ Arrives-now (suc k) _ a d dialled now
          | inr on ↦ Arrives-later k _ a d dialled on (
              dial-Connects k good
                (record { index = (d.index + 1) % length addrs; world = (turn wire a d.world).0 })
                (omega arith) (after_next d.index k ∙ at) works)
        ]
