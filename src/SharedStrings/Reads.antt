-- ===== src/SharedStrings/Reads.antt =====
-- `Get`, and what it makes of rows that have expired.
use ssoc_broker.Base.{◌≡◌, ap, ◌≢◌, inl, inr, List, [], ◌∷◌, some, Bool, true, ◌&&◌, arith, Text}
use ssoc_broker.Base.Int.{ℤ, pos, ◌<ℤ◌}
use ssoc_broker.Store.{Result-cases, ok, failed, find, Table}
use ssoc_broker.SharedStrings.{KvData, Db, at, survival, get}
use ssoc_broker.SharedStrings.Writes.{lookup}

find_and :
    {R : Type 0} (p q : R → Bool) (t : List R) (r : R)
    → find p t ≡ some r
    → q r ≡ true
    → find (λ x. p x && q x) t ≡ some r
find_and p q [] r e h = cc
find_and p q (x ∷ t) r e h = ground (arith, find_and p q t r)

-- The comment above the query keeps a row with a positive lifetime from being read after it has
-- expired. The query asks for `lifetime >= 0` where the comment says `lifetime <= 0`, so `Get`
-- returns such a row at every later time.
pub get-expired :
    (tbl : Table {R = KvData} (λ _ r. r)) (now : ℤ) (bucket key : Text) (db : Db) (r : KvData)
    → lookup db bucket key ≡ some r
    → pos 0 <ℤ r.lifetime
    → r.expired_at <ℤ now
    → ((e : Text) → tbl.first (λ x. at bucket key x && survival now x) db.kv ≢ failed e)
    → get tbl now bucket key db ≡ (db, ok r)
unfolding get
get-expired tbl now bucket key db r found lives over reads =
    elim (Result-cases (tbl.first (λ x. at bucket key x && survival now x) db.kv)) [
      | inl (s, q) ↦ ap (λ x. (db, x)) (ground (arith, tbl.first_ok _ db.kv s q, there))
      | inr (inl q) ↦ absurd (ground (arith, tbl.first_missing _ db.kv q, there))
      | inr (inr (x, q)) ↦ absurd (reads x q)
    ]
  where
    survives : survival now r ≡ true
    survives = unfold survival in ground arith

    there : find (λ x. at bucket key x && survival now x) db.kv ≡ some r
    there = find_and (at bucket key) (survival now) db.kv r found survives
