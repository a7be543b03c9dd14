-- ===== src/Collect/Components.antt =====
-- The components of a report: one for each package URL.
use ssoc_broker.Base.{
  ◌≡◌, refl, ap, ◌↔◌, List, [], ◌∷◌, map, true, false, arith, Text, text_eq, text_dec, decided,
  subst, Elem, inl, inr, ◌⊎◌, Bool-cases, sym, ◌∙◌,
}
use ssoc_broker.Base.Int.{ℤ}
use ssoc_broker.Collect.Param.{SbomSdk, SbomRequest}
use ssoc_broker.Collect.Sbom.{
  SbomComponent, has_text, versioned, component, components_loop, components,
}

-- No URL stands twice.
abbrev pub DistinctPurls : List SbomComponent → Type 0
DistinctPurls [] = Unit
DistinctPurls (c ∷ cs) = ((d : SbomComponent) → Elem d cs → c.purl ≡ d.purl → ⊥) × DistinctPurls cs

pub text_eq_refl : (s : Text) → text_eq s s ≡ true
text_eq_refl s = elim (text_dec s s) as (λ d. decided d ≡ true) [
  | yes p ↦ refl
  | no n ↦ absurd (n refl)
]

pub has_text-Elem : (p : Text) (seen : List Text) → (has_text p seen ≡ true) ↔ Elem p seen
has_text-Elem p seen = (find seen, give seen)
  where
    find : (xs : List Text) → has_text p xs ≡ true → Elem p xs
    find [] h = cc
    find (x ∷ xs) h = elim (text_dec x p) [ yes e ↦ inl e | no n ↦ inr (find xs (ground arith)) ]

    give : (xs : List Text) → Elem p xs → has_text p xs ≡ true
    give [] h = elim h [ ]
    give (x ∷ xs) (inl e) = ground arith
    give (x ∷ xs) (inr h) = ground (arith, give xs h)

module _ (mid : ℤ) (inet : Text) (pid : ℤ) (filename : Text) where
  abbrev loop : List Text → List SbomSdk → List SbomComponent
  loop = components_loop mid inet pid filename

  abbrev purls : List SbomComponent → List Text
  purls = map (λ (c : SbomComponent). c.purl)

  loop_seen :
      (unique : List Text) (sk : SbomSdk) (sks : List SbomSdk)
      → has_text (versioned sk).purl unique ≡ true
      → loop unique (sk ∷ sks) ≡ loop unique sks
  unfolding components_loop
  loop_seen unique sk sks e = rw e refl

  loop_new :
      (unique : List Text) (sk : SbomSdk) (sks : List SbomSdk)
      → has_text (versioned sk).purl unique ≡ false
      → loop unique (sk ∷ sks)
        ≡ component mid inet pid filename (versioned sk) ∷ loop ((versioned sk).purl ∷ unique) sks
  unfolding components_loop
  loop_new unique sk sks e = rw e refl

  -- What a component has of its project, and a URL that was not met before.
  loop-fresh :
      (unique : List Text) (sks : List SbomSdk) (c : SbomComponent)
      → Elem c (loop unique sks)
      → (c.project_id ≡ pid) × (has_text c.purl unique ≡ false)
  unfolding components_loop
  loop-fresh unique [] c h = elim h [ ]
  loop-fresh unique (sk ∷ sks) c h = elim (Bool-cases (has_text (versioned sk).purl unique)) [
    | inl e ↦ loop-fresh unique sks c (subst (Elem c) (loop_seen unique sk sks e) h)
    | inr e ↦ elim (subst (Elem c) (loop_new unique sk sks e) h) [
      | inl q ↦ (
        ap (λ (x : SbomComponent). x.project_id) (sym q),
        ap (λ (x : SbomComponent). has_text x.purl unique) (sym q) ∙ e,
      )
      | inr m ↦
          let (own, new) = loop-fresh ((versioned sk).purl ∷ unique) sks c m in (own, ground arith)
    ]
  ]

  loop-DistinctPurls : (unique : List Text) (sks : List SbomSdk) → DistinctPurls (loop unique sks)
  unfolding components_loop
  loop-DistinctPurls unique [] = tt
  loop-DistinctPurls unique (sk ∷ sks) = elim (Bool-cases (has_text (versioned sk).purl unique)) [
    | inl e ↦ subst DistinctPurls (sym (loop_seen unique sk sks e)) (loop-DistinctPurls unique sks)
    | inr e ↦ subst DistinctPurls (sym (loop_new unique sk sks e)) (
      (λ d m q.
          let (own, new) = loop-fresh ((versioned sk).purl ∷ unique) sks d m in
          ground (arith, q, new, text_eq_refl d.purl)),
      loop-DistinctPurls ((versioned sk).purl ∷ unique) sks,
    )
  ]

  -- The URLs of the components, and of the packages met before them.
  loop-purls :
      (p : Text) (unique : List Text) (sks : List SbomSdk)
      → Elem p (purls (loop unique sks))
      → Elem p (map (λ sk. (versioned sk).purl) sks)
  unfolding components_loop
  loop-purls p unique [] h = h
  loop-purls p unique (sk ∷ sks) h = elim (Bool-cases (has_text (versioned sk).purl unique)) [
    | inl e ↦
        inr (loop-purls p unique sks (subst (λ l. Elem p (purls l)) (loop_seen unique sk sks e) h))
    | inr e ↦ elim (subst (λ l. Elem p (purls l)) (loop_new unique sk sks e) h) [
      | inl q ↦ inl q
      | inr m ↦ inr (loop-purls p ((versioned sk).purl ∷ unique) sks m)
    ]
  ]

  purls-loop :
      (p : Text) (unique : List Text) (sks : List SbomSdk)
      → Elem p (map (λ sk. (versioned sk).purl) sks)
      → Elem p (purls (loop unique sks)) ⊎ Elem p unique
  unfolding components_loop
  purls-loop p unique [] h = elim h [ ]
  purls-loop p unique (sk ∷ sks) h = elim (Bool-cases (has_text (versioned sk).purl unique)) [
    | inl e ↦
        let back =
          subst (λ l. Elem p (purls l) ⊎ Elem p unique) (sym (loop_seen unique sk sks e)) in
        elim h [
          | inl q ↦ inr (subst (λ x. Elem x unique) q ((has_text-Elem _ unique).0 e))
          | inr m ↦ back (purls-loop p unique sks m)
        ]
    | inr e ↦
        let back = subst (λ l. Elem p (purls l) ⊎ Elem p unique) (sym (loop_new unique sk sks e)) in
        elim h [
          | inl q ↦ back (inl (inl q))
          | inr m ↦ elim (purls-loop p ((versioned sk).purl ∷ unique) sks m) [
            | inl a ↦ back (inl (inr a))
            | inr (inl q) ↦ back (inl (inl q))
            | inr (inr b) ↦ inr b
          ]
        ]
  ]

-- The components of a report stand under its project, no two of them have one URL, and their URLs are
-- exactly those of the reported packages, where one without a version counts as version 0.0.0.
pub purl-components :
    (mid : ℤ) (inet : Text) (pid : ℤ) (r : SbomRequest)
    → DistinctPurls (components mid inet pid r)
      × ((c : SbomComponent) → Elem c (components mid inet pid r) → c.project_id ≡ pid)
      × ((p : Text)
          → Elem p (map (λ (c : SbomComponent). c.purl) (components mid inet pid r))
            ↔ Elem p (map (λ sk. (versioned sk).purl) r.sdks))
unfolding components
purl-components mid inet pid r = (
  loop-DistinctPurls mid inet pid r.filename [] r.sdks,
  λ c m. (loop-fresh mid inet pid r.filename [] r.sdks c m).0,
  λ p. (
    loop-purls mid inet pid r.filename p [] r.sdks,
    λ h. elim (purls-loop mid inet pid r.filename p [] r.sdks h) [ inl a ↦ a | inr b ↦ absurd b ],
  ),
)
