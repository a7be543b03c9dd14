-- ===== src/Store/Memory.antt =====
-- A table in memory, which never fails: what the laws of `Table` ask for can be had.
use ssoc_broker.Base.{
  ℕ, ◌+◌, ◌≡◌, refl, ◌≢◌, List, [], ◌∷◌, Option, none, some, Bool, arith, if◌then◌else◌,
}
use ssoc_broker.Base.Int.{ℤ}
use ssoc_broker.Store.{
  Result, ok, missing, find, update_where, delete_where, Inserted, between, Table,
}

abbrev pub found : {R : Type 0} → Option R → Result R
found none = missing
found (some r) = ok r

abbrev pub count : {R : Type 0} → (R → Bool) → List R → ℕ
count p [] = 0
count p (r ∷ t) = (if p r then 1 else 0) + count p t

pub count_none : {R : Type 0} (p : R → Bool) (t : List R) → find p t ≡ none → count p t ≡ 0
count_none p [] e = refl
count_none p (r ∷ t) e = ground (arith, count_none p t)

pub count_some :
    {R : Type 0} (p : R → Bool) (t : List R) (r : R) → find p t ≡ some r → count p t ≢ 0
count_some p [] r e = λ _. cc
count_some p (x ∷ t) r e = ground (arith, count_some p t r)

module _ {R : Type 0} (with_id : ℤ → R → R) (next : List R → ℤ) where
  pub memory_create_ok :
      (r r' : R) (t t' : List R)
      → ◌≡◌ {A = Result (R × List R)}
          (ok (with_id (next t) r, with_id (next t) r ∷ t))
          (ok (r', t'))
      → (n : ℤ) × (r' ≡ with_id n r) × Inserted r' t t'
  memory_create_ok r r' t t' e = (next t, ground arith, between [] t refl (ground arith))

  pub memory_first_ok :
      (p : R → Bool) (t : List R) (r : R) → found (find p t) ≡ ok r → find p t ≡ some r
  memory_first_ok p t r e = ground arith

  pub memory_first_missing :
      (p : R → Bool) (t : List R) → found (find p t) ≡ missing → find p t ≡ none
  memory_first_missing p t e = ground arith

  -- The database assigns the id `next t`.
  abbrev pub memory : Table with_id
  memory = record {
    first = λ p t. found (find p t);
    create = λ r t. ok (with_id (next t) r, with_id (next t) r ∷ t);
    update = λ p f t. ok (count p t, update_where p f t);
    delete = λ p t. ok (delete_where p t);
    first_ok = memory_first_ok;
    first_missing = memory_first_missing;
    create_ok = memory_create_ok;
    update_ok = λ p f n t t' e. ground arith;
    update_none = λ p f n t t' e h. ground (arith, count_none p t h);
    update_some = λ p f n t t' r c e h. ground (arith, count_some p t r h);
    delete_ok = λ p t t' e. ground arith;
  }
