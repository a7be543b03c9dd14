-- ===== src/GoMap.antt =====
-- Go's built-in map, which the components below keep their state in: an association list whose
-- order stands for the order of one `range` over the map, which Go leaves open. A key occurs once
-- (`Distinct`); each write keeps that.
use ssoc_broker.Base.{
  ◌≡◌, refl, ap, ◌↔◌, inl, inr, List, [], ◌∷◌, Option, none, some, arith, ite, Elem,
}

module _ {ℓ} {K V : Type ℓ} where
  -- `for _, v := range m`.
  abbrev pub values : List (K × V) → List V
  values [] = []
  values ((k, v) ∷ m) = v ∷ values m

module _ {ℓ} {K V : Type ℓ} (dec : Discrete K) where
  -- `v, ok := m[k]`.
  unfoldable pub lookup : K → List (K × V) → Option V
  lookup k [] = none
  lookup k ((j, v) ∷ m) = ite (dec j k) (some v) (lookup k m)

  -- `m[k] = v`.
  unfoldable pub insert : K → V → List (K × V) → List (K × V)
  insert k v [] = (k, v) ∷ []
  insert k v ((j, w) ∷ m) = ite (dec j k) ((k, v) ∷ m) ((j, w) ∷ insert k v m)

  -- `delete(m, k)`.
  unfoldable pub remove : K → List (K × V) → List (K × V)
  remove k [] = []
  remove k ((j, w) ∷ m) = ite (dec j k) m ((j, w) ∷ remove k m)

  -- No key occurs twice.
  abbrev pub Distinct : List (K × V) → Type ℓ
  Distinct [] = Unit
  Distinct ((k, v) ∷ m) = (lookup k m ≡ none) × Distinct m

  pub lookup-insert :
      (k j : K) (v : V) (m : List (K × V))
      → lookup j (insert k v m) ≡ ite (dec k j) (some v) (lookup j m)
  unfolding lookup insert
  lookup-insert k j v [] = refl
  lookup-insert k j v ((i, w) ∷ m) = ground (arith, lookup-insert k j v m)

  pub lookup-remove :
      (k j : K) (m : List (K × V))
      → Distinct m
      → lookup j (remove k m) ≡ ite (dec k j) none (lookup j m)
  unfolding lookup remove
  lookup-remove k j [] d = ground arith
  lookup-remove k j ((i, w) ∷ m) d = ground (arith, lookup-remove k j m)

  pub insert-Distinct : (k : K) (v : V) (m : List (K × V)) → Distinct m → Distinct (insert k v m)
  unfolding lookup insert
  insert-Distinct k v [] d = (refl, tt)
  insert-Distinct k v ((i, w) ∷ m) d = ground (arith, insert-Distinct k v m, lookup-insert k i v m)

  pub remove-Distinct : (k : K) (m : List (K × V)) → Distinct m → Distinct (remove k m)
  unfolding lookup remove
  remove-Distinct k [] d = tt
  remove-Distinct k ((i, w) ∷ m) d = ground (arith, remove-Distinct k m, lookup-remove k i m)

-- One `range` over a map meets exactly its entries.
module _ {K V : Type 0} (dec : Discrete K) where
  pub lookup_of-Elem :
      (k : K) (v : V) (m : List (K × V)) → Distinct dec m → Elem (k, v) m → lookup dec k m ≡ some v
  unfolding lookup
  lookup_of-Elem k v [] d h = elim h [ ]
  lookup_of-Elem k v ((j, w) ∷ m) d (inl e) = ground arith
  lookup_of-Elem k v ((j, w) ∷ m) d (inr h) = ground (arith, lookup_of-Elem k v m d.1 h)

  pub Elem-lookup : (k : K) (v : V) (m : List (K × V)) → lookup dec k m ≡ some v → Elem (k, v) m
  unfolding lookup
  Elem-lookup k v [] e = cc
  Elem-lookup k v ((j, w) ∷ m) e = elim (dec j k) [
    | yes p ↦ inl (ground arith)
    | no p ↦ inr (Elem-lookup k v m (ground arith))
  ]

module _ {K V : Type 0} where
  pub Elem-values : (v : V) (m : List (K × V)) → Elem v (values m) ↔ ((k : K) × Elem (k, v) m)
  Elem-values v m = (find m, λ h. drop_key m h.0 h.1)
    where
      find : (n : List (K × V)) → Elem v (values n) → (k : K) × Elem (k, v) n
      find [] h = elim h [ ]
      find ((j, w) ∷ n) (inl e) = (j, inl (ap (λ x. (j, x)) e))
      find ((j, w) ∷ n) (inr h) = let (k, g) = find n h in (k, inr g)

      drop_key : (n : List (K × V)) (k : K) → Elem (k, v) n → Elem v (values n)
      drop_key [] k h = elim h [ ]
      drop_key ((j, w) ∷ n) k (inl e) = inl (ap (λ x. x.1) e)
      drop_key ((j, w) ∷ n) k (inr h) = inr (drop_key n k h)
