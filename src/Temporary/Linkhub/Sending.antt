-- ===== src/Temporary/Linkhub/Sending.antt =====
-- Whom a message is addressed to.
use ssoc_broker.Base.{
  ℕ, ◌≡◌, refl, ap, subst, sym, ◌∙◌, ◌↔◌, inl, inr, List, [], ◌∷◌, ◌++◌, Option, none, some, false,
  arith, Elem, map, Option-cases,
}
use ssoc_broker.Base.Int.{ℤ, ℤ_discrete}
use ssoc_broker.GoMap.{lookup, insert, lookup-insert}
use ssoc_broker.Temporary.Linkhub.{OutboxMsg, LinkHub, unicast, multicast_loop, multicast}

-- Ids, none of them twice.
abbrev pub Unrepeated : List ℤ → Type 0
Unrepeated [] = Unit
Unrepeated (id ∷ ids) = (Elem id ids → ⊥) × Unrepeated ids

module _ {D : Type 0} (opcode : ℕ) (body : Option D) where
  abbrev pub addressed : ℤ → OutboxMsg D
  addressed id = record { minion_id = id; broadcast = false; opcode = opcode; body = body }

  abbrev Seen : Type 0
  Seen = List (ℤ × Unit {0})

  -- The ids that the loop sends to.
  unfoldable targets : Seen → List ℤ → List ℤ
  targets seen [] = []
  targets seen (id ∷ ids) = elim (lookup ℤ_discrete id seen) [
    | some _ ↦ targets seen ids
    | none ↦ id ∷ targets (insert ℤ_discrete id tt seen) ids
  ]

  targets_seen :
      (seen : Seen) (id : ℤ) (ids : List ℤ) (u : Unit {0})
      → lookup ℤ_discrete id seen ≡ some u
      → targets seen (id ∷ ids) ≡ targets seen ids
  unfolding targets
  targets_seen seen id ids u e = rw (e, targets) refl

  targets_new :
      (seen : Seen) (id : ℤ) (ids : List ℤ)
      → lookup ℤ_discrete id seen ≡ none
      → targets seen (id ∷ ids) ≡ id ∷ targets (insert ℤ_discrete id tt seen) ids
  unfolding targets
  targets_new seen id ids e = rw (e, targets) refl

  append_assoc : {A : Type 0} (xs ys zs : List A) → (xs ++ ys) ++ zs ≡ xs ++ (ys ++ zs)
  append_assoc [] ys zs = refl
  append_assoc (x ∷ xs) ys zs = ap (λ l. x ∷ l) (append_assoc xs ys zs)

  append_nil : {A : Type 0} (xs : List A) → xs ++ [] ≡ xs
  append_nil [] = refl
  append_nil (x ∷ xs) = ap (λ l. x ∷ l) (append_nil xs)

  multicast_loop-outbox :
      (ids : List ℤ) (seen : Seen) (h : LinkHub D)
      → (multicast_loop ids opcode body seen h).outbox
        ≡ h.outbox ++ map addressed (targets seen ids)
  unfolding multicast_loop unicast targets
  multicast_loop-outbox [] seen h = sym (append_nil h.outbox)
  multicast_loop-outbox (id ∷ ids) seen h = elim (Option-cases (lookup ℤ_discrete id seen)) [
    | inl e ↦ rw (targets_new seen id ids e) (
        rw (e, multicast_loop)
          (multicast_loop-outbox ids (insert ℤ_discrete id tt seen) (unicast id opcode body h)
            ∙ append_assoc h.outbox (addressed id ∷ [])
                (map addressed (targets (insert ℤ_discrete id tt seen) ids))))
    | inr (u, e) ↦
        rw (targets_seen seen id ids u e)
          (rw (e, multicast_loop) (multicast_loop-outbox ids seen h))
  ]

  still_seen :
      (seen : Seen) (i id : ℤ)
      → lookup ℤ_discrete id (insert ℤ_discrete i tt seen) ≡ none
      → (i ≡ id → ⊥) × (lookup ℤ_discrete id seen ≡ none)
  still_seen seen i id e = ground (arith, lookup-insert ℤ_discrete i id tt seen)

  unseen :
      (seen : Seen) (i id : ℤ)
      → (i ≡ id → ⊥)
      → lookup ℤ_discrete id seen ≡ none
      → lookup ℤ_discrete id (insert ℤ_discrete i tt seen) ≡ none
  unseen seen i id n e = ground (arith, lookup-insert ℤ_discrete i id tt seen)

  -- What the loop sends to is one of the ids and was not seen.
  Elem-targets :
      (ids : List ℤ) (seen : Seen) (id : ℤ)
      → Elem id (targets seen ids)
      → Elem id ids × (lookup ℤ_discrete id seen ≡ none)
  unfolding targets
  Elem-targets [] seen id h = elim h [ ]
  Elem-targets (i ∷ ids) seen id h = elim (Option-cases (lookup ℤ_discrete i seen)) [
    | inl e ↦ elim (rw (targets_new seen i ids e) at h) [
      | inl same ↦ (inl same, subst (λ j. lookup ℤ_discrete j seen ≡ none) same e)
      | inr more ↦
          let (here, free) = Elem-targets ids (insert ℤ_discrete i tt seen) id more in
          (inr here, (still_seen seen i id free).1)
    ]
    | inr (u, e) ↦
        let (here, free) = Elem-targets ids seen id (rw (targets_seen seen i ids u e) at h) in
        (inr here, free)
  ]

  -- Each id that was not seen is sent to.
  targets-Elem :
      (ids : List ℤ) (seen : Seen) (id : ℤ)
      → Elem id ids
      → lookup ℤ_discrete id seen ≡ none
      → Elem id (targets seen ids)
  targets-Elem [] seen id h free = elim h [ ]
  targets-Elem (i ∷ ids) seen id h free = elim (Option-cases (lookup ℤ_discrete i seen)) [
    | inl e ↦ rw (targets_new seen i ids e) (elim (ℤ_discrete i id) [
      | yes same ↦ inl same
      | no n ↦ elim h [
        | inl same ↦ absurd (n same)
        | inr more ↦
            inr (targets-Elem ids (insert ℤ_discrete i tt seen) id more (unseen seen i id n free))
      ]
    ])
    | inr (u, e) ↦ rw (targets_seen seen i ids u e) (elim h [
      | inl same ↦ absurd (seen_not seen i id u e free same)
      | inr more ↦ targets-Elem ids seen id more free
    ])
  ]
    where
      seen_not :
          (seen : Seen) (i id : ℤ) (u : Unit {0})
          → lookup ℤ_discrete i seen ≡ some u
          → lookup ℤ_discrete id seen ≡ none
          → i ≡ id
          → ⊥
      seen_not seen i id u e free same =
          ground (arith, ap (λ (j : ℤ). lookup ℤ_discrete j seen) same)

  targets-Unrepeated : (ids : List ℤ) (seen : Seen) → Unrepeated (targets seen ids)
  unfolding targets
  targets-Unrepeated [] seen = tt
  targets-Unrepeated (i ∷ ids) seen = elim (Option-cases (lookup ℤ_discrete i seen)) [
    | inl e ↦ rw (targets_new seen i ids e) (
      (λ again.
          (still_seen seen i i (Elem-targets ids (insert ℤ_discrete i tt seen) i again).1).0 refl),
      targets-Unrepeated ids (insert ℤ_discrete i tt seen),
    )
    | inr (u, e) ↦ rw (targets_seen seen i ids u e) (targets-Unrepeated ids seen)
  ]

  -- `Multicast` adds one message for each of the ids to the outbox, however often the id is given,
  -- behind the messages that wait, and adds no other.
  pub multicast-outbox :
      (ids : List ℤ) (h : LinkHub D)
      → (sent : List ℤ) × ((multicast ids opcode body h).outbox ≡ h.outbox ++ map addressed sent)
        × Unrepeated sent
        × ((id : ℤ) → Elem id sent ↔ Elem id ids)
  unfolding multicast lookup
  multicast-outbox ids h = (
    targets [] ids,
    multicast_loop-outbox ids [] h,
    targets-Unrepeated ids [],
    λ id. ((λ e. (Elem-targets ids [] id e).0), λ e. targets-Elem ids [] id e refl),
  )
