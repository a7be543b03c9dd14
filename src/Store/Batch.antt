-- ===== src/Store/Batch.antt =====
-- Statements on many rows: `CreateInBatches`, and the rows that a condition selects.
use mathlib.Core.List.{Perm, perm_middle}
use mathlib.Core.List.Perm
use ssoc_broker.Base.{
  ◌≡◌, refl, sym, ap, ◌∙◌, List, [], ◌∷◌, ◌++◌, Bool, true, false, not, ◌&&◌, arith, if◌then◌else◌,
  Elem, inl, inr, ◌⊎◌,
}
use ssoc_broker.Store.{Result, Result-cases, ok, missing, failed, Inserted, between, delete_where}

abbrev reverse_onto : {R : Type 0} → List R → List R → List R
reverse_onto [] t = t
reverse_onto (r ∷ rs) t = reverse_onto rs (r ∷ t)

module _ {R : Type 0} where
  abbrev pub rows : (R → Bool) → List R → List R
  rows p [] = []
  rows p (r ∷ t) = let rest = rows p t in if p r then r ∷ rest else rest

  -- Each of some rows, anywhere.
  pub data Added : List R → List R → List R → Type 0 where
    unchanged : (t : List R) → Added [] t t
    more : (r : R) (rs t t1 t' : List R) → Inserted r t t1 → Added rs t1 t' → Added (r ∷ rs) t t'

  -- Some of the rows, in their order.
  pub data Some : List R → List R → Type 0 where
    none_of : Some [] []
    taken : (r : R) (xs ys : List R) → Some xs ys → Some (r ∷ xs) (r ∷ ys)
    passed : (r : R) (xs ys : List R) → Some xs ys → Some xs (r ∷ ys)

  pub Some-all : (xs : List R) → Some xs xs
  Some-all [] = none_of
  Some-all (x ∷ xs) = taken x xs xs (Some-all xs)

  pub Some-nil : (ys : List R) → Some [] ys
  Some-nil [] = none_of
  Some-nil (y ∷ ys) = passed y [] ys (Some-nil ys)

  pub Some-Elem : (r : R) {xs ys : List R} → Some xs ys → Elem r xs → Elem r ys
  Some-Elem r none_of e = e
  Some-Elem r (taken x xs ys s) (inl e) = inl e
  Some-Elem r (taken x xs ys s) (inr e) = inr (Some-Elem r s e)
  Some-Elem r (passed x xs ys s) e = inr (Some-Elem r s e)

  pub rows-append : (p : R → Bool) (xs ys : List R) → rows p (xs ++ ys) ≡ rows p xs ++ rows p ys
  rows-append p [] ys = refl
  rows-append p (x ∷ xs) ys = ground (arith, rows-append p xs ys)

  pub rows-delete_where :
      (p q : R → Bool) (t : List R)
      → ((r : R) → q r ≡ true → p r ≡ false)
      → rows p (delete_where q t) ≡ rows p t
  rows-delete_where p q [] h = refl
  rows-delete_where p q (r ∷ t) h = ground (arith, rows-delete_where p q t h, h r)

  pub rows-delete_where_self : (p : R → Bool) (t : List R) → rows p (delete_where p t) ≡ []
  rows-delete_where_self p [] = refl
  rows-delete_where_self p (r ∷ t) = ground (arith, rows-delete_where_self p t)

  pub rows-delete_where_and :
      (p q : R → Bool) (t : List R)
      → rows p (delete_where (λ r. p r && q r) t) ≡ rows (λ r. p r && not (q r)) t
  rows-delete_where_and p q [] = refl
  rows-delete_where_and p q (r ∷ t) = ground (arith, rows-delete_where_and p q t)

  pub delete_where-none :
      (q : R → Bool) (t : List R) → ((r : R) → q r ≡ false) → delete_where q t ≡ t
  delete_where-none q [] h = refl
  delete_where-none q (r ∷ t) h = ground (arith, delete_where-none q t h, h r)

  pub rows-Added_ne :
      (p : R → Bool) {rs t t' : List R}
      → Added rs t t'
      → ((r : R) → Elem r rs → p r ≡ false)
      → rows p t' ≡ rows p t
  rows-Added_ne p (unchanged t) h = refl
  rows-Added_ne p (more r rs t t1 t' (between xs ys e e1) a) h =
      let off = h r (inl refl) in
      let one : rows p t1 ≡ rows p t =
        rw (e, e1) (rows-append p xs (r ∷ ys) ∙ rw off (sym (rows-append p xs ys))) in
      rows-Added_ne p a (λ x m. h x (inr m)) ∙ one

  -- Where the condition fits all new rows, it selects them and the rows it selected before.
  pub rows-Added :
      (p : R → Bool) {rs t t' : List R}
      → Added rs t t'
      → ((r : R) → Elem r rs → p r ≡ true)
      → Perm (rows p t') (rs ++ rows p t)
  rows-Added p (unchanged t) h = Perm.refl _
  rows-Added p (more r rs t t1 t' (between xs ys e e1) a) h =
      let on = h r (inl refl) in
      let one : rows p t1 ≡ rows p xs ++ (r ∷ rows p ys) =
        ap (rows p) e1 ∙ rows-append p xs (r ∷ ys) ∙ rw on refl in
      let was : rows p t ≡ rows p xs ++ rows p ys = ap (rows p) e ∙ rows-append p xs ys in
      let rest : Perm (rows p t') (rs ++ rows p t1) = rows-Added p a (λ x m. h x (inr m)) in
      let shown : Perm (rs ++ rows p t1) (r ∷ (rs ++ rows p t)) =
        rw (one, was)
          (Perm.trans (Perm.append_left rs (perm_middle (rows p xs) (rows p ys)))
            (perm_middle rs (rows p xs ++ rows p ys))) in
      Perm.trans rest shown

-- A table on which statements take and write many rows. `insert` is `CreateInBatches` (or `Create`) with
-- `OnConflict{DoNothing: true}`: it leaves out the rows that meet a row of their key, and what it wrote
-- before an error may stay; if it ends well, each row that it left out meets a row of the table:
-- `Meets r x` says that the two have the same value of a unique key. `create` has no such clause: if it
-- ends well, it wrote all rows.
pub record Bulk (R : Type 0) : Type 1 where
  pub Meets : R → R → Type 0
  pub delete : (R → Bool) → List R → Result (List R)
  pub insert : List R → List R → List R × Result (Unit {0})
  pub create : List R → List R → List R × Result (Unit {0})
  pub delete_ok : (p : R → Bool) (t t' : List R) → delete p t ≡ ok t' → t' ≡ delete_where p t
  pub insert_some : (rs t : List R) → (kept : List R) × Some kept rs × Added kept t (insert rs t).0
  pub insert_ok :
      (rs t : List R)
      → (insert rs t).1 ≡ ok tt
      → (r : R) → Elem r rs
      → (x : R) × Elem x (insert rs t).0 × ((x ≡ r) ⊎ Meets r x)
  pub create_some : (rs t : List R) → (kept : List R) × Some kept rs × Added kept t (create rs t).0
  pub create_ok : (rs t : List R) → (create rs t).1 ≡ ok tt → Added rs t (create rs t).0

-- `_, _ = ….Delete()`: an error is dropped.
unfoldable pub discard : {R : Type 0} → Bulk R → (R → Bool) → List R → List R
discard tbl p t = elim (tbl.delete p t) [ ok t' ↦ t' | missing ↦ t | failed e ↦ t ]

pub discard_lem :
    {R : Type 0} (tbl : Bulk R) (q : R → Bool) (t t' : List R)
    → tbl.delete q t ≡ ok t'
    → discard tbl q t ≡ delete_where q t
unfolding discard
discard_lem tbl q t t' e = rw (e, discard) (tbl.delete_ok q t t' e)

pub rows-discard :
    {R : Type 0} (tbl : Bulk R) (p q : R → Bool) (t : List R)
    → ((r : R) → q r ≡ true → p r ≡ false)
    → rows p (discard tbl q t) ≡ rows p t
unfolding discard
rows-discard tbl p q t h = elim (Result-cases (tbl.delete q t)) [
  | inl (t', e) ↦ rw (e, discard) (ap (rows p) (tbl.delete_ok q t t' e) ∙ rows-delete_where p q t h)
  | inr (inl e) ↦ rw (e, discard) refl
  | inr (inr (x, e)) ↦ rw (e, discard) refl
]

-- A table in memory, without keys.
pub Added-front : {R : Type 0} (rs t : List R) → Added rs t (reverse_onto rs t)
Added-front [] t = unchanged t
Added-front (r ∷ rs) t = more r rs t (r ∷ t) _ (between [] t refl refl) (Added-front rs (r ∷ t))

pub memory_delete_ok :
    {R : Type 0} (p : R → Bool) (t t' : List R)
    → ok (delete_where p t) ≡ ok t'
    → t' ≡ delete_where p t
memory_delete_ok p t t' e = ground arith

pub Elem-reverse_onto :
    {R : Type 0} (r : R) (rs t : List R) → Elem r rs ⊎ Elem r t → Elem r (reverse_onto rs t)
Elem-reverse_onto r [] t (inl h) = absurd h
Elem-reverse_onto r [] t (inr h) = h
Elem-reverse_onto r (x ∷ rs) t (inl (inl e)) = Elem-reverse_onto r rs (x ∷ t) (inr (inl e))
Elem-reverse_onto r (x ∷ rs) t (inl (inr h)) = Elem-reverse_onto r rs (x ∷ t) (inl h)
Elem-reverse_onto r (x ∷ rs) t (inr h) = Elem-reverse_onto r rs (x ∷ t) (inr (inr h))

abbrev pub memory : {R : Type 0} → Bulk R
memory = record {
  Meets = λ r x. ⊥;
  delete = λ p t. ok (delete_where p t);
  insert = λ rs t. (reverse_onto rs t, ok tt);
  create = λ rs t. (reverse_onto rs t, ok tt);
  delete_ok = memory_delete_ok;
  insert_some = λ rs t. (rs, Some-all rs, Added-front rs t);
  insert_ok = λ rs t e r m. (r, Elem-reverse_onto r rs t (inl m), inl refl);
  create_some = λ rs t. (rs, Some-all rs, Added-front rs t);
  create_ok = λ rs t e. Added-front rs t;
}
