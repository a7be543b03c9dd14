-- ===== src/Store/Rows.antt =====
-- What a statement leaves to be found.
use ssoc_broker.Base.{
  ◌≡◌, refl, List, [], ◌∷◌, ◌++◌, none, some, Bool, true, false, arith, Elem, inl, inr, Bool-cases,
}
use ssoc_broker.Store.{find, update_where, delete_where, Inserted, between}

-- An update that fits no row changes nothing.
pub update_where-none :
    {R : Type 0} (q : R → Bool) (f : R → R) (t : List R) → find q t ≡ none → update_where q f t ≡ t
update_where-none q f [] h = refl
update_where-none q f (x ∷ t) h = ground (arith, update_where-none q f t)

module _ {R : Type 0} (p : R → Bool) where
  pub find-holds : (t : List R) (r : R) → find p t ≡ some r → p r ≡ true
  find-holds [] r e = cc
  find-holds (x ∷ t) r e = ground (arith, find-holds t r)

  pub find-delete_where :
      (q : R → Bool) (t : List R)
      → ((x : R) → q x ≡ true → p x ≡ false)
      → find p (delete_where q t) ≡ find p t
  find-delete_where q [] h = refl
  find-delete_where q (x ∷ t) h = ground (arith, find-delete_where q t h, h x)

  pub find-delete_where_all :
      (q : R → Bool) (t : List R)
      → ((x : R) → Elem x t → p x ≡ true → q x ≡ true)
      → find p (delete_where q t) ≡ none
  find-delete_where_all q [] h = refl
  find-delete_where_all q (x ∷ t) h =
      ground (arith, find-delete_where_all q t (λ y m. h y (inr m)), h x (inl refl))

  pub find-Elem : (t : List R) (r : R) → find p t ≡ some r → Elem r t
  find-Elem [] r e = cc
  find-Elem (x ∷ t) r e = elim (Bool-cases (p x)) [
    | inl k ↦ inl (ground arith)
    | inr k ↦ inr (find-Elem t r (ground arith))
  ]

  pub find-delete_where_self : (t : List R) → find p (delete_where p t) ≡ none
  find-delete_where_self [] = refl
  find-delete_where_self (x ∷ t) = ground (arith, find-delete_where_self t)

  pub find-delete_where-none :
      (q : R → Bool) (t : List R) → find p t ≡ none → find p (delete_where q t) ≡ none
  find-delete_where-none q [] h = refl
  find-delete_where-none q (x ∷ t) h = ground (arith, find-delete_where-none q t)

  -- Rows that the condition of the update does not fit are found as before.
  pub find-update_where_ne :
      (q : R → Bool) (f : R → R) (t : List R)
      → ((x : R) → q x ≡ true → (p x ≡ false) × (p (f x) ≡ false))
      → find p (update_where q f t) ≡ find p t
  find-update_where_ne q f [] h = refl
  find-update_where_ne q f (x ∷ t) h = ground (arith, find-update_where_ne q f t h, h x)

  -- The first row that `p` fits, if `q` fits it too and `f` keeps `p`.
  pub find-update_where :
      (q : R → Bool) (f : R → R) (t : List R) (r : R)
      → ((x : R) → q x ≡ true → p x ≡ true)
      → find p t ≡ some r
      → q r ≡ true
      → p (f r) ≡ true
      → find p (update_where q f t) ≡ some (f r)
  find-update_where q f [] r h e k m = cc
  find-update_where q f (x ∷ t) r h e k m = ground (arith, find-update_where q f t r h, h x)

  pub find-append_none :
      (xs ys : List R) → find p (xs ++ ys) ≡ none → (find p xs ≡ none) × (find p ys ≡ none)
  find-append_none [] ys e = (refl, e)
  find-append_none (x ∷ xs) ys e = ground (arith, find-append_none xs ys)

  find-middle :
      (r : R) (xs ys : List R)
      → p r ≡ true
      → find p (xs ++ ys) ≡ none
      → find p (xs ++ (r ∷ ys)) ≡ some r
  find-middle r [] ys h e = ground arith
  find-middle r (x ∷ xs) ys h e = ground (arith, find-middle r xs ys)

  find-middle_ne :
      (r : R) (xs ys : List R) → p r ≡ false → find p (xs ++ (r ∷ ys)) ≡ find p (xs ++ ys)
  find-middle_ne r [] ys h = ground arith
  find-middle_ne r (x ∷ xs) ys h = ground (arith, find-middle_ne r xs ys)

  pub find-Inserted :
      {r : R} {t t' : List R} → Inserted r t t' → p r ≡ true → find p t ≡ none → find p t' ≡ some r
  find-Inserted {r} (between xs ys e e') h m = rw e' (find-middle r xs ys h (rw e at m))

  pub find-Inserted_ne :
      {r : R} {t t' : List R} → Inserted r t t' → p r ≡ false → find p t' ≡ find p t
  find-Inserted_ne {r} (between xs ys e e') h = rw (e, e') (find-middle_ne r xs ys h)
