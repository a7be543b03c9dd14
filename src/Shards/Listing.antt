-- ===== src/Shards/Listing.antt =====
-- A walk over all slots meets every entry of a valid sharded map, and nothing else.
use ssoc_broker.Base.{
  ℕ, zero, suc, ◌%◌, ◌≡◌, refl, sym, ◌∙◌, ◌↔◌, inl, inr, List, [], ◌∷◌, map, ◌++◌, some, get_elem?,
  Elem, Elem-append, Elem-map,
}
use mathlib.Core.Path.{subst}
use ssoc_broker.GoMap.{lookup, values, lookup_of-Elem, Elem-lookup, Elem-values}
use ssoc_broker.Shards.{Shards, view, IsValid}
use ssoc_broker.Shards.View.{slot_of-eq, slot_of-total, view-eq}

-- The entries in the order of the slots.
abbrev pub flat : {A : Type 0} → List (List A) → List A
flat [] = []
flat (m ∷ ms) = m ++ flat ms

module _ {A : Type 0} (a : A) where
  flat-find :
      (ms : List (List A))
      → Elem a (flat ms)
      → (i : ℕ) × (m : List A) × (get_elem? ms i ≡ some m) × Elem a m
  flat-find [] h = elim h [ ]
  flat-find (m ∷ ms) h = elim ((Elem-append a m (flat ms)).0 h) [
    | inl here ↦ (0, m, refl, here)
    | inr there ↦ let (i, n, e, g) = flat-find ms there in (suc i, n, e, g)
  ]

  flat-Elem :
      (ms : List (List A)) (i : ℕ) (m : List A)
      → get_elem? ms i ≡ some m
      → Elem a m
      → Elem a (flat ms)
  flat-Elem [] i m e h = cc
  flat-Elem (n ∷ ms) zero m e h =
      let same : m ≡ n = cc in (Elem-append a n (flat ms)).1 (inl (subst (Elem a) same h))
  flat-Elem (n ∷ ms) (suc i) m e h = (Elem-append a n (flat ms)).1 (inr (flat-Elem ms i m e h))

module _ {K V : Type 0} (hash : K → ℕ) (dec : Discrete K) (s : Shards K V) where
  pub Elem-entries :
      (k : K) (v : V)
      → IsValid hash dec s
      → Elem (k, v) (flat s.slots) ↔ (view hash dec s k ≡ some v)
  Elem-entries k v w = (seen, met)
    where
      seen : Elem (k, v) (flat s.slots) → view hash dec s k ≡ some v
      seen h =
          let (i, m, e, g) = flat-find (k, v) s.slots h in
          let got : lookup dec k m ≡ some v = lookup_of-Elem dec k v m (w.distinct i m e) g in
          let at : get_elem? s.slots (hash k % s.size) ≡ some m = rw (w.placed i m k v e got) e in
          view-eq hash dec s k (slot_of-eq hash dec s k w.positive ∙ at) ∙ got

      met : view hash dec s k ≡ some v → Elem (k, v) (flat s.slots)
      met h =
          let (m, e, d) = slot_of-total hash dec s k w in
          let at : get_elem? s.slots (hash k % s.size) ≡ some m =
            sym (slot_of-eq hash dec s k w.positive) ∙ e in
          flat-Elem (k, v) s.slots _ m at (Elem-lookup dec k v m (sym (view-eq hash dec s k e) ∙ h))

-- What a walk collects that takes one thing from each value.
abbrev pub walk : {K V B : Type 0} → (V → B) → List (List (K × V)) → List B
walk f [] = []
walk f (m ∷ ms) = map f (values m) ++ walk f ms

module _ {K V B : Type 0} (f : V → B) (b : B) where
  walk-find :
      (ms : List (List (K × V)))
      → Elem b (walk f ms)
      → (k : K) × (v : V) × Elem (k, v) (flat ms) × (f v ≡ b)
  walk-find [] h = elim h [ ]
  walk-find (m ∷ ms) h = elim ((Elem-append b (map f (values m)) (walk f ms)).0 h) [
    | inl here ↦
        let (v, g, e) = (Elem-map f b (values m)).0 here in
        let (k, g') = (Elem-values v m).0 g in
        (k, v, (Elem-append (k, v) m (flat ms)).1 (inl g'), e)
    | inr there ↦
        let (k, v, g, e) = walk-find ms there in
        (k, v, (Elem-append (k, v) m (flat ms)).1 (inr g), e)
  ]

  walk-Elem :
      (ms : List (List (K × V))) (k : K) (v : V)
      → Elem (k, v) (flat ms)
      → f v ≡ b
      → Elem b (walk f ms)
  walk-Elem [] k v h e = elim h [ ]
  walk-Elem (m ∷ ms) k v h e = elim ((Elem-append (k, v) m (flat ms)).0 h) [
    | inl here ↦
        let g : Elem v (values m) = (Elem-values v m).1 (k, here) in
        (Elem-append b (map f (values m)) (walk f ms)).1
          (inl ((Elem-map f b (values m)).1 (v, g, e)))
    | inr there ↦ (Elem-append b (map f (values m)) (walk f ms)).1 (inr (walk-Elem ms k v there e))
  ]

-- A walk collects exactly what the view holds.
pub Elem-walk :
    {K V B : Type 0} (hash : K → ℕ) (dec : Discrete K) (s : Shards K V) (f : V → B) (b : B)
    → IsValid hash dec s
    → Elem b (walk f s.slots) ↔ ((k : K) × (v : V) × (view hash dec s k ≡ some v) × (f v ≡ b))
Elem-walk hash dec s f b w = (
  λ h. let (k, v, g, e) = walk-find f b s.slots h in (k, v, (Elem-entries hash dec s k v w).0 g, e),
  λ h. walk-Elem f b s.slots h.0 h.1 ((Elem-entries hash dec s h.0 h.1 w).1 h.2) h.3,
)
