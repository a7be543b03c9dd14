-- ===== src/Binaries/Addresses.antt =====
-- Which addresses are hidden in a binary.
use ssoc_broker.Base.{
  sym, ◌↔◌, inl, inr, ◌⊎◌, List, [], ◌∷◌, ◌++◌, Text, arith, Elem, Elem-append, Bool-cases, subst,
}
use ssoc_broker.Binaries.{hidden_addrs, add_unique}
use ssoc_broker.Collect.Sbom.{has_text}
use ssoc_broker.Collect.Components.{has_text-Elem}

-- No text stands twice.
abbrev pub DistinctTexts : List Text → Type 0
DistinctTexts [] = Unit
DistinctTexts (x ∷ xs) = (Elem x xs → ⊥) × DistinctTexts xs

DistinctTexts-snoc :
    (xs : List Text) (a : Text)
    → DistinctTexts xs
    → (Elem a xs → ⊥)
    → DistinctTexts (xs ++ (a ∷ []))
DistinctTexts-snoc [] a d n = ((λ h. h), tt)
DistinctTexts-snoc (x ∷ xs) a d n = (
  (λ h. elim ((Elem-append x xs (a ∷ [])).0 h) [
    | inl m ↦ d.0 m
    | inr (inl e) ↦ n (inl (sym e))
    | inr (inr z) ↦ absurd z
  ]),
  DistinctTexts-snoc xs a d.1 (λ m. n (inr m)),
)

add_unique-DistinctTexts :
    (addrs more : List Text) → DistinctTexts addrs → DistinctTexts (add_unique addrs more)
unfolding add_unique
add_unique-DistinctTexts addrs [] d = d
add_unique-DistinctTexts addrs (a ∷ more) d = elim (Bool-cases (has_text a addrs)) [
  | inl e ↦ rw (e, add_unique) (add_unique-DistinctTexts addrs more d)
  | inr e ↦
      rw (e, add_unique)
        (add_unique-DistinctTexts (addrs ++ (a ∷ [])) more
          (DistinctTexts-snoc addrs a d (λ m. ground (arith, (has_text-Elem a addrs).1 m))))
]

Elem-add_unique :
    (b : Text) (addrs more : List Text)
    → Elem b (add_unique addrs more) ↔ (Elem b addrs ⊎ Elem b more)
unfolding add_unique
Elem-add_unique b addrs [] = (λ h. inl h, λ h. elim h [ inl m ↦ m | inr z ↦ absurd z ])
Elem-add_unique b addrs (a ∷ more) = elim (Bool-cases (has_text a addrs)) [
  | inl e ↦
      let rest = Elem-add_unique b addrs more in
      rw (e, add_unique)
        (
          λ h. elim (rest.0 h) [ inl m ↦ inl m | inr m ↦ inr (inr m) ],
          λ h. elim h [
            | inl m ↦ rest.1 (inl m)
            | inr (inl q) ↦ rest.1 (inl (subst (λ x. Elem x addrs) q ((has_text-Elem a addrs).0 e)))
            | inr (inr m) ↦ rest.1 (inr m)
          ],
        )
  | inr e ↦
      let rest = Elem-add_unique b (addrs ++ (a ∷ [])) more in
      let mid = Elem-append b addrs (a ∷ []) in
      rw (e, add_unique)
        (
          λ h. elim (rest.0 h) [
            | inl m ↦ elim (mid.0 m) [
              | inl x ↦ inl x
              | inr (inl q) ↦ inr (inl q)
              | inr (inr z) ↦ absurd z
            ]
            | inr m ↦ inr (inr m)
          ],
          λ h. elim h [
            | inl m ↦ rest.1 (inl (mid.1 (inl m)))
            | inr (inl q) ↦ rest.1 (inl (mid.1 (inr (inl q))))
            | inr (inr m) ↦ rest.1 (inr m)
          ],
        )
]

-- The addresses hidden in a binary are exactly those of the broker's two networks, each once.
pub Elem-hidden_addrs :
    (lan vip : List Text) (b : Text)
    → DistinctTexts (hidden_addrs lan vip)
      × (Elem b (hidden_addrs lan vip) ↔ (Elem b lan ⊎ Elem b vip))
unfolding hidden_addrs
Elem-hidden_addrs lan vip b =
    let first_loop = Elem-add_unique b [] lan in
    let both = Elem-add_unique b (add_unique [] lan) vip in
    (
      add_unique-DistinctTexts _ vip (add_unique-DistinctTexts [] lan tt),
      (
        λ h. elim (both.0 h) [
          | inl m ↦ elim (first_loop.0 m) [ inl z ↦ absurd z | inr l ↦ inl l ]
          | inr m ↦ inr m
        ],
        λ h. elim h [ inl l ↦ both.1 (inl (first_loop.1 (inr l))) | inr v ↦ both.1 (inr v) ],
      ),
    )
