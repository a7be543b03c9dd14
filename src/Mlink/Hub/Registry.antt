-- ===== src/Mlink/Hub/Registry.antt =====
-- The registry by agent id: `Knockout`, and the list of ids that are online.
use ssoc_broker.Base.{
  ◌≡◌, refl, sym, ap, ◌∙◌, ◌↔◌, ite, inl, inr, Option, none, some, if◌then◌else◌, arith, Text,
  text_dec, Elem, Bool-cases,
}
use ssoc_broker.Base.Int.{ℤ, pos, ℤ_discrete, int_eq}
use ssoc_broker.Base.Decimal.{format_int, format_int-injective}
use ssoc_broker.Mlink.SegmentMap
use ssoc_broker.Mlink.SegmentMap.{SegmentMap}
use ssoc_broker.Mlink.SegmentMap.Laws.{IsValid, contents, del-contents, Elem-ids}
use ssoc_broker.Mlink.Hub.{Hub, Connect, knockout, connect_ids}

-- The connection of an agent, under its id in decimal.
abbrev pub registered : Hub → ℤ → Option Connect
registered h i = contents h.section (format_int i)

-- Two ids have two keys.
pub format_key {ℓ} :
    {A : Type ℓ} (i j : ℤ) (x y : A)
    → ite (text_dec (format_int i) (format_int j)) x y ≡ ite (ℤ_discrete i j) x y
format_key i j x y = ground (arith, format_int-injective i j, ap format_int)

-- Frees the key of one id.
abbrev pub without {ℓ} : {A : Type ℓ} → ℤ → (ℤ → Option A) → ℤ → Option A
without i m j = ite (ℤ_discrete i j) none (m j)

-- On a well-formed registry `Knockout` never panics. For the id 0 it does nothing; for any other it
-- closes the connection of that agent, takes exactly that one out of the registry, and leaves the
-- registry well formed and the database alone.
pub knockout-registered :
    (mid : ℤ) (h : Hub)
    → IsValid h.section
    → (h' : Hub) × (knockout mid h
        ≡ some (h', (if int_eq mid (pos 0) then none else registered h mid)))
      × IsValid h'.section
      × (h'.minions ≡ h.minions)
      × ((j : ℤ)
          → registered h' j
            ≡ (if int_eq mid (pos 0) then registered h j else without mid (registered h) j))
unfolding knockout
knockout-registered mid h w = elim (Bool-cases (int_eq mid (pos 0))) [
  | inl zero ↦ rw (zero, knockout) (h, refl, w, refl, λ j. refl)
  | inr other ↦
      let (s, e, v, law) = del-contents h.section (format_int mid) w in
      rw (other, knockout)
        (
          record h { section = s },
          rw e refl,
          v,
          refl,
          λ j. law (format_int j) ∙ format_key mid j _ _,
        )
]

-- Connections stand under their own ids.
abbrev pub OwnKey : Hub → Type 0
OwnKey h = (k : Text) (c : Connect) → contents h.section k ≡ some c → format_int c.id ≡ k

-- `ConnectIDs` lists exactly the ids that are registered, when connections stand under their own.
pub Elem-connect_ids :
    (h : Hub) (i : ℤ)
    → IsValid h.section
    → OwnKey h
    → Elem i (connect_ids h) ↔ ((c : Connect) × (registered h i ≡ some c))
unfolding connect_ids
Elem-connect_ids h i w own = (there, back)
  where
    there :
        Elem i (SegmentMap.ids (λ c. c.id) h.section) → (c : Connect) × (registered h i ≡ some c)
    there e =
        let (k, c, at, same) = (Elem-ids (λ c. c.id) h.section i w).0 e in
        let key : k ≡ format_int i = sym (own k c at) ∙ ap format_int same in (c, rw key at at)

    back : (c : Connect) × (registered h i ≡ some c) → Elem i (SegmentMap.ids (λ c. c.id) h.section)
    back (c, at) =
        (Elem-ids (λ c. c.id) h.section i w).1
          (format_int i, c, at, format_int-injective c.id i (own _ c at))
