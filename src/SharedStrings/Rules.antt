-- ===== src/SharedStrings/Rules.antt =====
-- The rules of the three writes, said without the code's own branches, and that the rows in the code
-- follow them.
use ssoc_broker.Base.{
  zero, suc, ◌≡◌, refl, ◌∙◌, ap, inl, inr, [], Option, none, some, Bool, arith, if◌then◌else◌, Text,
  Bool-cases,
}
use ssoc_broker.Base.Int.{ℤ, pos, negsuc, leb_ℤ, int_eq, ◌+ℤ◌, add64}
use ssoc_broker.SharedStrings.{
  KvData, SharedKeyValue, SharedKeyIncr, clamp, value_row, count_row, set_columns, store_columns,
  incr_columns, incr_lifetime, step_of,
}

-- The rules, from the row that was there. A lifetime counts from 0 up; a positive one is
-- taken, and else the row goes on with its own; a step of 0 is a step of 1.
abbrev pub from_0 : ℤ → ℤ
from_0 (pos n) = pos n
from_0 (negsuc n) = pos 0

abbrev pub renewed : ℤ → ℤ → ℤ
renewed (pos (suc n)) old = pos (suc n)
renewed _ old = old

abbrev pub stride : ℤ → ℤ
stride (pos zero) = pos 1
stride n = n

-- A row of version 1 that was never there before.
abbrev pub first_row : ℤ → Text → Text → Text → ℤ → ℤ → ℤ → KvData
first_row now bucket key value count lifetime expired_at = record {
  bucket = bucket;
  key = key;
  value = value;
  count = count;
  lifetime = lifetime;
  expired_at = expired_at;
  created_at = now;
  version = pos 1;
}

-- The next version of a row.
abbrev pub revised : KvData → KvData
revised old = record old { version = add64 old.version (pos 1) }

module _ (expired : KvData → ℤ → Bool) (now : ℤ) where
  abbrev pub new_value : SharedKeyValue → KvData
  new_value req =
      first_row now req.bucket req.key req.value (pos 0) (from_0 req.lifetime)
        (now +ℤ from_0 req.lifetime)

  -- `Incr` stores no lifetime in a new row.
  abbrev pub new_count : SharedKeyIncr → ℤ → KvData
  new_count req own =
      first_row now req.bucket req.key [] (stride req.n) (pos 0) (now +ℤ renewed req.lifetime own)

  abbrev pub after_set : SharedKeyValue → Option KvData → KvData
  after_set req none = new_value req
  after_set req (some old) = if expired old now then new_value req else record (revised old) {
    value = req.value;
    expired_at = now +ℤ renewed req.lifetime old.lifetime;
  }

  abbrev pub after_store : SharedKeyValue → Option KvData → KvData
  after_store req none = new_value req
  after_store req (some old) =
      if expired old now then new_value req else record (revised old) { value = req.value }

  abbrev pub after_incr : SharedKeyIncr → Option KvData → KvData
  after_incr req none = new_count req (pos 0)
  after_incr req (some old) =
      if expired old now then new_count req old.lifetime else record (revised old) {
        count = add64 old.count (stride req.n);
        lifetime = renewed req.lifetime old.lifetime;
        expired_at = now +ℤ renewed req.lifetime old.lifetime;
      }

clamp-from_0 : (l : ℤ) → clamp l ≡ from_0 l
clamp-from_0 (pos n) = ground arith
clamp-from_0 (negsuc n) = ground arith

lifetime-renewed : (l own : ℤ) → (if leb_ℤ l (pos 0) then own else l) ≡ renewed l own
lifetime-renewed (pos zero) own = refl
lifetime-renewed (pos (suc n)) own = ground arith
lifetime-renewed (negsuc n) own = ground arith

clamped-renewed : (l own : ℤ) → (if leb_ℤ (clamp l) (pos 0) then own else clamp l) ≡ renewed l own
clamped-renewed (pos zero) own = refl
clamped-renewed (pos (suc n)) own = ground arith
clamped-renewed (negsuc n) own = ground arith

step_of-stride : (req : SharedKeyIncr) → step_of req ≡ stride req.n
step_of-stride req = go req.n
  where
    go : (n : ℤ) → (if int_eq n (pos 0) then pos 1 else n) ≡ stride n
    go (pos zero) = ground arith
    go (pos (suc n)) = ground arith
    go (negsuc n) = ground arith

-- The rows that the code leaves.
module _ (expired : KvData → ℤ → Bool) (now : ℤ) where
  abbrev pub set_leaves : SharedKeyValue → Option KvData → KvData
  set_leaves req none = value_row now req
  set_leaves req (some old) =
      if expired old now then value_row now req else set_columns now req old old

  abbrev pub store_leaves : SharedKeyValue → Option KvData → KvData
  store_leaves req none = value_row now req
  store_leaves req (some old) =
      if expired old now then value_row now req else store_columns req old old

  abbrev pub incr_leaves : SharedKeyIncr → Option KvData → KvData
  incr_leaves req none = count_row now req (step_of req) (now +ℤ incr_lifetime req none)
  incr_leaves req (some old) =
      if expired old now
      then count_row now req (step_of req) (now +ℤ incr_lifetime req (some old))
      else incr_columns (step_of req) (incr_lifetime req (some old))
          (now +ℤ incr_lifetime req (some old)) old old

-- The code leaves what the rules say.
module _ (expired : KvData → ℤ → Bool) (now : ℤ) where
  value_row-new_value : (req : SharedKeyValue) → value_row now req ≡ new_value expired now req
  unfolding value_row
  value_row-new_value req =
      ap (λ l. first_row now req.bucket req.key req.value (pos 0) l (now +ℤ l))
        (clamp-from_0 req.lifetime)

  set_columns-renewed :
      (req : SharedKeyValue) (old : KvData)
      → set_columns now req old old ≡ record (revised old) {
        value = req.value;
        expired_at = now +ℤ renewed req.lifetime old.lifetime;
      }
  unfolding set_columns
  set_columns-renewed req old =
      ap (λ (l : ℤ). record (revised old) { value = req.value; expired_at = now +ℤ l })
        (clamped-renewed req.lifetime old.lifetime)

  pub set_leaves-after_set :
      (req : SharedKeyValue) (old : Option KvData)
      → set_leaves expired now req old ≡ after_set expired now req old
  set_leaves-after_set req none = value_row-new_value req
  set_leaves-after_set req (some old) = elim (Bool-cases (expired old now)) [
    | inl dead ↦ rw dead (value_row-new_value req)
    | inr alive ↦ rw alive (set_columns-renewed req old)
  ]

  pub store_leaves-after_store :
      (req : SharedKeyValue) (old : Option KvData)
      → store_leaves expired now req old ≡ after_store expired now req old
  unfolding store_columns
  store_leaves-after_store req none = value_row-new_value req
  store_leaves-after_store req (some old) = elim (Bool-cases (expired old now)) [
    | inl dead ↦ rw dead (value_row-new_value req)
    | inr alive ↦ rw alive refl
  ]

  count_row-new_count :
      (req : SharedKeyIncr) (l own : ℤ)
      → l ≡ renewed req.lifetime own
      → count_row now req (step_of req) (now +ℤ l) ≡ new_count expired now req own
  unfolding count_row
  count_row-new_count req l own e =
      ap (λ (n : ℤ). first_row now req.bucket req.key [] n (pos 0) (now +ℤ l)) (step_of-stride req)
      ∙ ap (λ (m : ℤ). first_row now req.bucket req.key [] (stride req.n) (pos 0) (now +ℤ m)) e

  incr_columns-renewed :
      (req : SharedKeyIncr) (old : KvData) (l : ℤ)
      → l ≡ renewed req.lifetime old.lifetime
      → incr_columns (step_of req) l (now +ℤ l) old old ≡ record (revised old) {
        count = add64 old.count (stride req.n);
        lifetime = renewed req.lifetime old.lifetime;
        expired_at = now +ℤ renewed req.lifetime old.lifetime;
      }
  unfolding incr_columns
  incr_columns-renewed req old l e =
      ap
        (λ (n : ℤ). record (revised old) {
          count = add64 old.count n;
          lifetime = l;
          expired_at = now +ℤ l;
        })
        (step_of-stride req)
      ∙ ap
          (λ (m : ℤ). record (revised old) {
            count = add64 old.count (stride req.n);
            lifetime = m;
            expired_at = now +ℤ m;
          })
          e

  pub incr_leaves-after_incr :
      (req : SharedKeyIncr) (old : Option KvData)
      → incr_leaves expired now req old ≡ after_incr expired now req old
  unfolding incr_lifetime
  incr_leaves-after_incr req none =
      count_row-new_count req (incr_lifetime req none) (pos 0)
        (lifetime-renewed req.lifetime (pos 0))
  incr_leaves-after_incr req (some old) = elim (Bool-cases (expired old now)) [
    | inl dead ↦ rw dead (
        count_row-new_count req (incr_lifetime req (some old)) old.lifetime
          (lifetime-renewed req.lifetime old.lifetime))
    | inr alive ↦ rw alive (
        incr_columns-renewed req old (incr_lifetime req (some old))
          (lifetime-renewed req.lifetime old.lifetime))
  ]
