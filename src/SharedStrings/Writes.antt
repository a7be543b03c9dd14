-- ===== src/SharedStrings/Writes.antt =====
-- What `Set`, `Store`, `Incr` and `Del` leave in `kv_data`: the table as a map from bucket and key to
-- rows, of which each call changes one place.
use ssoc_broker.Base.{
  ◌≡◌, inl, inr, List, [], ◌∷◌, Option, none, some, Bool, true, ◌&&◌, arith, if◌then◌else◌, Text,
  text_eq, Bool-cases,
}
use ssoc_broker.Store.{Result-cases, ok, find, update_where, delete_where, Inserted, Table}
use ssoc_broker.Store.Rows.{
  find-holds, find-delete_where, find-delete_where-none, find-update_where_ne, find-update_where,
  find-Inserted, find-Inserted_ne,
}
use ssoc_broker.SharedStrings.{KvData, Db, at, at_version, create_row, update_rows, replace}

-- One row for a bucket and key, as the unique index of the table has it.
abbrev pub IsKeyed : List KvData → Type 0
IsKeyed [] = Unit
IsKeyed (r ∷ t) = (find (at r.bucket r.key) t ≡ none) × IsKeyed t

-- The map after a write of `row` under a bucket and key.
abbrev pub written :
    Text → Text → KvData → (Text → Text → Option KvData) → Text → Text → Option KvData
written bucket key row kv b k = if text_eq bucket b && text_eq key k then some row else kv b k

abbrev pub lookup : Db → Text → Text → Option KvData
lookup db b k = find (at b k) db.kv

find-at-fields :
    (b k : Text) (t : List KvData) (r : KvData)
    → find (at b k) t ≡ some r
    → (r.bucket ≡ b) × (r.key ≡ k)
find-at-fields b k t r e = ground (arith, find-holds (at b k) t r e)

-- In a keyed table the row that is found is the only one under its key.
pub find-delete_version :
    (b k : Text) (t : List KvData) (old : KvData)
    → IsKeyed t
    → find (at b k) t ≡ some old
    → find (at b k) (delete_where (at_version b k old.version) t) ≡ none
find-delete_version b k [] old keyed e = cc
find-delete_version b k (r ∷ t) old keyed e = elim (Bool-cases (at b k r)) [
  | inl here ↦
      let p : r.bucket ≡ b = ground arith in
      let q : r.key ≡ k = ground arith in
      let only : find (at b k) t ≡ none = rw (← p, ← q) keyed.0 in
      let same : r ≡ old = ground arith in
      ground (arith, find-delete_where-none (at b k) (at_version b k old.version) t only)
  | inr other ↦ ground (arith, find-delete_version b k t old keyed.1)
]

module _ (tbl : Table {R = KvData} (λ _ r. r)) where
  create_row-Inserted :
      (row : KvData) (db db' : Db)
      → create_row tbl row db ≡ (db', ok tt)
      → Inserted row db.kv db'.kv
  create_row-Inserted row db db' e = elim (Result-cases (tbl.create row db.kv)) [
    | inl ((r, t), q) ↦
        let (n, same, more) = tbl.create_ok row r db.kv t q in
        let after : db'.kv ≡ t = ground arith in rw after (rw same at more)
    | inr (inl q) ↦ absurd (ground arith)
    | inr (inr (x, q)) ↦ absurd (ground arith)
  ]

  pub create_row-lookup :
      (row : KvData) (db db' : Db) (b k : Text)
      → lookup db row.bucket row.key ≡ none
      → create_row tbl row db ≡ (db', ok tt)
      → lookup db' b k ≡ written row.bucket row.key row (lookup db) b k
  create_row-lookup row db db' b k free e =
      let more = create_row-Inserted row db db' e in
      elim (Bool-cases (at b k row)) [
        | inl here ↦
            let p : row.bucket ≡ b = ground arith in
            let q : row.key ≡ k = ground arith in
            ground (arith, find-Inserted (at b k) more here (rw (p, q) at free))
        | inr other ↦ ground (arith, find-Inserted_ne (at b k) more other)
      ]

  pub update_rows-lookup :
      (bucket key : Text) (old : KvData) (f : KvData → KvData) (db db' : Db) (b k : Text)
      → lookup db bucket key ≡ some old
      → ((r : KvData) → ((f r).bucket ≡ r.bucket) × ((f r).key ≡ r.key))
      → update_rows tbl (at_version bucket key old.version) f db ≡ (db', ok tt)
      → lookup db' b k ≡ written bucket key (f old) (lookup db) b k
  update_rows-lookup bucket key old f db db' b k found keeps e =
      elim (Result-cases (tbl.update fits f db.kv)) [
        | inl ((n, t), q) ↦
            let after : db'.kv ≡ update_where fits f db.kv =
              ground (arith, tbl.update_ok fits f n db.kv t q) in
            rw after (elim (Bool-cases (text_eq bucket b && text_eq key k)) [
              | inl here ↦
                  let p : bucket ≡ b = ground arith in
                  let g : key ≡ k = ground arith in
                  rw (← p, ← g)
                    (ground (
                      arith,
                      find-update_where (at bucket key) fits f db.kv old (λ x h. ground arith) found
                          (ground (arith, find-holds (at bucket key) db.kv old found))
                          (ground (arith, keeps old, find-holds (at bucket key) db.kv old found)),
                    ))
              | inr other ↦ ground (
                arith,
                find-update_where_ne (at b k) fits f db.kv
                    (λ x h. (ground arith, ground (arith, keeps x))),
              )
            ])
        | inr (inl q) ↦ absurd (ground arith)
        | inr (inr (x, q)) ↦ absurd (ground arith)
      ]
    where
      fits : KvData → Bool
      fits = at_version bucket key old.version

  pub replace-lookup :
      (p : KvData → Bool) (old row : KvData) (db db' : Db) (b k : Text)
      → find (at row.bucket row.key) (delete_where p db.kv) ≡ none
      → ((r : KvData) → p r ≡ true → at row.bucket row.key r ≡ true)
      → replace tbl p (some old) row db ≡ (db', ok tt)
      → lookup db' b k ≡ written row.bucket row.key row (lookup db) b k
  unfolding replace
  replace-lookup p old row db db' b k free only e = elim (Result-cases (tbl.delete p db.kv)) [
    | inl (t, q) ↦
        let left : t ≡ delete_where p db.kv = tbl.delete_ok p db.kv t q in
        let db1 : Db = record db { kv = t } in
        let e1 : create_row tbl row db1 ≡ (db', ok tt) = ground arith in
        let last = create_row-lookup row db1 db' b k (rw left free) e1 in
        elim (Bool-cases (text_eq row.bucket b && text_eq row.key k)) [
          | inl here ↦ ground (arith, last)
          | inr other ↦
              let kept : find (at b k) t ≡ find (at b k) db.kv =
                rw left (find-delete_where (at b k) p db.kv (λ x h. ground (arith, only x h))) in
              ground (arith, last, kept)
        ]
    | inr (inl q) ↦ absurd (ground arith)
    | inr (inr (x, q)) ↦ absurd (ground arith)
  ]
