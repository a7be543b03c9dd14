-- ===== src/SharedStrings/Effects.antt =====
-- What a call that ends well has done: the table changed at one bucket and key, to the row that the
-- rules of the write give.
use ssoc_broker.Base.{
  ◌≡◌, refl, sym, ◌∙◌, ap, ◌≢◌, inl, inr, List, [], ◌∷◌, Option, none, some, Bool, true, false,
  ◌&&◌, ◌||◌, arith, if◌then◌else◌, is_empty, Text, text_eq, Bool-cases,
}
use ssoc_broker.Base.Int.{ℤ, ◌+ℤ◌}
use ssoc_broker.Store.{
  Result, Result-cases, ok, failed, find, delete_where, Table, M, ◌>>◌, >>=-eq-ok,
}
use ssoc_broker.Store.Rows.{find-delete_where_self, find-delete_where}
use ssoc_broker.SharedStrings.{
  KvData, KvAudit, Db, SharedKeyValue, SharedKeyIncr, Caller, at, at_version, value_row, count_row,
  set_columns, store_columns, incr_columns, incr_lifetime, step_of, find_row, add_audit, answer,
  set_row, store_row, incr_row, set, store, incr, del, get,
}
use ssoc_broker.SharedStrings.Rules.{
  after_set, after_store, after_incr, set_leaves, store_leaves, incr_leaves, set_leaves-after_set,
  store_leaves-after_store, incr_leaves-after_incr,
}
use ssoc_broker.SharedStrings.Documented.{AsDocumented, after_set-AsDocumented}
use ssoc_broker.SharedStrings.Writes.{
  IsKeyed, written, lookup, find-delete_version, create_row-lookup, update_rows-lookup,
  replace-lookup,
}

module _ (tbl : Table {R = KvData} (λ _ r. r)) (expired : KvData → ℤ → Bool) where
  set_row-lookup :
      (now : ℤ) (req : SharedKeyValue) (old : Option KvData) (db db' : Db) (b k : Text)
      → IsKeyed db.kv
      → lookup db req.bucket req.key ≡ old
      → set_row tbl expired now req old db ≡ (db', ok tt)
      → lookup db' b k ≡ written req.bucket req.key (set_leaves expired now req old) (lookup db) b k
  unfolding set_row value_row set_columns
  set_row-lookup now req none db db' b k keyed found e =
      create_row-lookup tbl (value_row now req) db db' b k found e
  set_row-lookup now req (some old) db db' b k keyed found e = elim (Bool-cases (expired old now)) [
    | inl dead ↦ rw dead (
        replace-lookup tbl (at_version req.bucket req.key old.version) old (value_row now req) db
          db' b k (find-delete_version req.bucket req.key db.kv old keyed found)
          (λ r h. ground arith) (ground arith))
    | inr alive ↦ rw alive (
        update_rows-lookup tbl req.bucket req.key old (set_columns now req old) db db' b k found
          (λ r. (refl, refl)) (ground arith))
  ]

  store_row-lookup :
      (now : ℤ) (req : SharedKeyValue) (old : Option KvData) (db db' : Db) (b k : Text)
      → IsKeyed db.kv
      → lookup db req.bucket req.key ≡ old
      → store_row tbl expired now req old db ≡ (db', ok tt)
      → lookup db' b k
        ≡ written req.bucket req.key (store_leaves expired now req old) (lookup db) b k
  unfolding store_row value_row store_columns
  store_row-lookup now req none db db' b k keyed found e =
      create_row-lookup tbl (value_row now req) db db' b k found e
  store_row-lookup now req (some old) db db' b k keyed found e =
      elim (Bool-cases (expired old now)) [
        | inl dead ↦ rw dead (
            replace-lookup tbl (at_version req.bucket req.key old.version) old (value_row now req)
              db db' b k (find-delete_version req.bucket req.key db.kv old keyed found)
              (λ r h. ground arith) (ground arith))
        | inr alive ↦ rw alive (
            update_rows-lookup tbl req.bucket req.key old (store_columns req old) db db' b k found
              (λ r. (refl, refl)) (ground arith))
      ]

  incr_row-lookup :
      (now : ℤ) (req : SharedKeyIncr) (old : Option KvData) (db db' : Db) (b k : Text)
      → lookup db req.bucket req.key ≡ old
      → incr_row tbl expired now req old db ≡ (db', ok tt)
      → lookup db' b k
        ≡ written req.bucket req.key (incr_leaves expired now req old) (lookup db) b k
  unfolding incr_row count_row incr_columns
  incr_row-lookup now req none db db' b k found e = create_row-lookup tbl _ db db' b k found e
  incr_row-lookup now req (some old) db db' b k found e = elim (Bool-cases (expired old now)) [
    | inl dead ↦ rw dead (
        replace-lookup tbl (at req.bucket req.key) old
          (count_row now req (step_of req) (now +ℤ incr_lifetime req (some old))) db db' b k
          (find-delete_where_self (at req.bucket req.key) db.kv) (λ r h. h) (ground arith))
    | inr alive ↦ rw alive (
        update_rows-lookup tbl req.bucket req.key old
          (incr_columns (step_of req) (incr_lifetime req (some old))
            (now +ℤ incr_lifetime req (some old)) old)
          db db' b k found (λ r. (refl, refl)) (ground arith))
  ]

module _ (tbl : Table {R = KvData} (λ _ r. r)) where
  -- `find` is the lookup, when its query does not fail.
  find_row-lookup :
      (b k : Text) (db : Db)
      → ((e : Text) → tbl.first (at b k) db.kv ≢ failed e)
      → lookup db b k ≡ find_row tbl b k db
  unfolding find_row
  find_row-lookup b k db reads = elim (Result-cases (tbl.first (at b k) db.kv)) [
    | inl (r, q) ↦ ground (arith, tbl.first_ok (at b k) db.kv r q)
    | inr (inl q) ↦ ground (arith, tbl.first_missing (at b k) db.kv q)
    | inr (inr (x, q)) ↦ absurd (reads x q)
  ]

  answer-kv : (on : Bool) (now : ℤ) (b k : Text) (db : Db) → (answer tbl on now b k db).0 ≡ db
  unfolding answer get
  answer-kv false now b k db = refl
  answer-kv true now b k db = ground arith

-- What follows the write leaves `kv_data` alone.
add_audit-kv :
    (upsert : KvAudit → List KvAudit → Result (List KvAudit)) (on : Bool) (who : Caller)
    (b k : Text) (db : Db)
    → (add_audit upsert on who b k db).0.kv ≡ db.kv
unfolding add_audit
add_audit-kv upsert false who b k db = refl
add_audit-kv upsert true who b k db = ground arith

module _ (upsert : KvAudit → List KvAudit → Result (List KvAudit)) (who : Caller) where
  -- A handler writes, notes the audit, and then only reads.
  wrote_first :
      {A : Type 0} (wr : M Db (Unit {0})) (tail : M Db A) (on : Bool) (b k : Text) (db db' : Db)
      (r : A)
      → ((d : Db) → (tail d).0 ≡ d)
      → (wr >> (add_audit upsert on who b k >> tail)) db ≡ (db', ok r)
      → (db1 : Db) × (wr db ≡ (db1, ok tt)) × (db'.kv ≡ db1.kv)
  wrote_first wr tail on b k db db' r still e =
      let (db1, u, w, rest) = >>=-eq-ok wr (λ _. add_audit upsert on who b k >> tail) db db' e in
      let (db2, v, noted, told) =
        >>=-eq-ok (add_audit upsert on who b k) (λ _. tail) db1 db' rest in
      let last : db2 ≡ db' = sym (still db2) ∙ ap (λ p. p.0) told in
      let middle : db2.kv ≡ db1.kv =
        sym (ap (λ p. p.0.kv) noted) ∙ add_audit-kv upsert on who b k db1 in
      (db1, w, sym (ap (λ d. d.kv) last) ∙ middle)

module _ (tbl : Table {R = KvData} (λ _ r. r)) (expired : KvData → ℤ → Bool)
    (upsert : KvAudit → List KvAudit → Result (List KvAudit)) (now : ℤ) (who : Caller) where
  -- `Set` on a table with one row for each key, when its first query does not fail and the call ends
  -- without an error: the key then holds a new row with the value and the requested lifetime, from 0
  -- up, if there was none or it had expired; else the old row with the new value, its version one
  -- higher, and its expiry moved to now plus the requested lifetime, or plus its own if none is
  -- requested. Every other bucket and key is as it was. The row is the one that the comment in the
  -- source asks for, unless the old row has not expired and neither lifetime is positive: then the
  -- comment keeps the expiry, which the call moves to now plus the row's own lifetime.
  pub set-lookup :
      (req : SharedKeyValue) (db db' : Db) (r : Option KvData) (b k : Text)
      → IsKeyed db.kv
      → ((e : Text) → tbl.first (at req.bucket req.key) db.kv ≢ failed e)
      → set tbl expired upsert now who req db ≡ (db', ok r)
      → (lookup db' b k
          ≡ written req.bucket req.key
              (after_set expired now req (lookup db req.bucket req.key))
              (lookup db)
              b
              k)
        × AsDocumented expired now req
            (lookup db req.bucket req.key)
            (after_set expired now req (lookup db req.bucket req.key))
  unfolding set
  set-lookup req db db' r b k keyed reads e =
      let (db1, w, same) =
        wrote_first upsert who (set_row tbl expired now req (find_row tbl req.bucket req.key db))
          (answer tbl req.reply now req.bucket req.key) req.audit req.bucket req.key db db' r
          (answer-kv tbl req.reply now req.bucket req.key) e in
      (
        ap (find (at b k)) same
            ∙ set_row-lookup tbl expired now req (lookup db req.bucket req.key) db db1 b k keyed
                refl (rw (find_row-lookup tbl req.bucket req.key db reads) w)
            ∙ ap (λ row. written req.bucket req.key row (lookup db) b k)
                (set_leaves-after_set expired now req (lookup db req.bucket req.key)),
        after_set-AsDocumented expired now req (lookup db req.bucket req.key),
      )

  -- `Store` on a table with one row for each key, when its first query does not fail and the call ends
  -- without an error: the key then holds a new row with the value and the requested lifetime, from 0
  -- up, if there was none or it had expired, else the old row with the new value and its version one
  -- higher, its expiry unchanged. Every other bucket and key is as it was.
  pub store-lookup :
      (req : SharedKeyValue) (db db' : Db) (r : Option KvData) (b k : Text)
      → IsKeyed db.kv
      → ((e : Text) → tbl.first (at req.bucket req.key) db.kv ≢ failed e)
      → store tbl expired upsert now who req db ≡ (db', ok r)
      → lookup db' b k
        ≡ written req.bucket req.key
            (after_store expired now req (lookup db req.bucket req.key))
            (lookup db)
            b
            k
  unfolding store
  store-lookup req db db' r b k keyed reads e =
      let (db1, w, same) =
        wrote_first upsert who (store_row tbl expired now req (find_row tbl req.bucket req.key db))
          (answer tbl req.reply now req.bucket req.key) req.audit req.bucket req.key db db' r
          (answer-kv tbl req.reply now req.bucket req.key) e in
      ap (find (at b k)) same
      ∙ store_row-lookup tbl expired now req (lookup db req.bucket req.key) db db1 b k keyed refl
          (rw (find_row-lookup tbl req.bucket req.key db reads) w)
      ∙ ap (λ row. written req.bucket req.key row (lookup db) b k)
          (store_leaves-after_store expired now req (lookup db req.bucket req.key))

  -- `Incr`, when its first query does not fail and the call ends without an error: a live counter
  -- goes up by the requested step (1 for a step of 0, modulo 2 ^ 64) and its version by one; where
  -- there is none, or it has expired, a counter starts at the step. Every other bucket and key is as
  -- it was.
  pub incr-lookup :
      (req : SharedKeyIncr) (db db' : Db) (r : KvData) (b k : Text)
      → ((e : Text) → tbl.first (at req.bucket req.key) db.kv ≢ failed e)
      → incr tbl expired upsert now who req db ≡ (db', ok r)
      → lookup db' b k
        ≡ written req.bucket req.key
            (after_incr expired now req (lookup db req.bucket req.key))
            (lookup db)
            b
            k
  unfolding incr get
  incr-lookup req db db' r b k reads e =
      let (db1, w, same) =
        wrote_first upsert who (incr_row tbl expired now req (find_row tbl req.bucket req.key db))
          (get tbl now req.bucket req.key) req.audit req.bucket req.key db db' r (λ d. refl) e in
      ap (find (at b k)) same
      ∙ incr_row-lookup tbl expired now req (lookup db req.bucket req.key) db db1 b k refl
          (rw (find_row-lookup tbl req.bucket req.key db reads) w)
      ∙ ap (λ row. written req.bucket req.key row (lookup db) b k)
          (incr_leaves-after_incr expired now req (lookup db req.bucket req.key))

-- `Del` that ends without an error frees the key, or with an empty key every key of the bucket, and
-- leaves every other bucket and key as it was.
pub del-lookup :
    (tbl : Table {R = KvData} (λ _ r. r)) (bucket key : Text) (db db' : Db) (b k : Text)
    → del tbl bucket key db ≡ (db', ok tt)
    → lookup db' b k
      ≡ (if text_eq bucket b && (is_empty key || text_eq key k) then none else lookup db b k)
unfolding del
del-lookup tbl bucket key db db' b k e = elim (Result-cases (tbl.delete fits db.kv)) [
  | inl (t, q) ↦
      let left : db'.kv ≡ delete_where fits db.kv = ground (arith, tbl.delete_ok fits db.kv t q) in
      rw left (elim (Bool-cases (text_eq bucket b && (is_empty key || text_eq key k))) [
        | inl here ↦ rw here (all_gone db.kv here)
        | inr other ↦ rw other (find-delete_where (at b k) fits db.kv (λ x h. ground arith))
      ])
  | inr (inl q) ↦ absurd (ground arith)
  | inr (inr (x, q)) ↦ absurd (ground arith)
]
  where
    fits : KvData → Bool
    fits = λ r. text_eq r.bucket bucket && (is_empty key || text_eq r.key key)

    all_gone :
        (t : List KvData)
        → (text_eq bucket b && (is_empty key || text_eq key k)) ≡ true
        → find (at b k) (delete_where fits t) ≡ none
    all_gone [] h = refl
    all_gone (x ∷ t) h = ground (arith, all_gone t h)
