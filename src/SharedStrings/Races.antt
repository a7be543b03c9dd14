-- ===== src/SharedStrings/Races.antt =====
-- Two callers of `Incr` at once. The source reads the row, and later updates it under the version
-- that it read; it does not look at the number of rows that the update touched.
use ssoc_broker.Base.{◌≡◌, refl, ◌∙◌, inl, inr, List, [], ◌∷◌, none, some, Bool, true, false, arith}
use ssoc_broker.Base.Int.{ℤ, IsInt64, add64-ne, ◌+ℤ◌}
use ssoc_broker.Store.{Result-cases, ok, find, update_where, Table}
use ssoc_broker.Store.Rows.{update_where-none}
use ssoc_broker.SharedStrings.{
  KvData, Db, SharedKeyIncr, at_version, update_rows, incr_row, incr_columns, incr_lifetime,
  step_of,
}

find-update_where_gone :
    {R : Type 0} (q : R → Bool) (f : R → R) (t : List R)
    → ((x : R) → q x ≡ true → q (f x) ≡ false)
    → find q (update_where q f t) ≡ none
find-update_where_gone q f [] h = refl
find-update_where_gone q f (x ∷ t) h = ground (arith, find-update_where_gone q f t h, h x)

update_rows-kv :
    (tbl : Table {R = KvData} (λ _ r. r)) (q : KvData → Bool) (f : KvData → KvData) (db db' : Db)
    → update_rows tbl q f db ≡ (db', ok tt)
    → db'.kv ≡ update_where q f db.kv
update_rows-kv tbl q f db db' e = elim (Result-cases (tbl.update q f db.kv)) [
  | inl ((n, t), g) ↦ ground (arith, tbl.update_ok q f n db.kv t g)
  | inr (inl g) ↦ absurd (ground arith)
  | inr (inr (x, g)) ↦ absurd (ground arith)
]

-- Two calls of `Incr` on one live counter that read the same row before either wrote: when both writes
-- end without an error, the second has changed nothing, so its increment is lost.
pub incr_row_lost :
    (tbl : Table {R = KvData} (λ _ r. r)) (expired : KvData → ℤ → Bool) (now now' : ℤ)
    (req req' : SharedKeyIncr) (old : KvData) (db db1 db2 : Db)
    → req'.bucket ≡ req.bucket
    → req'.key ≡ req.key
    → expired old now ≡ false
    → expired old now' ≡ false
    → IsInt64 old.version
    → incr_row tbl expired now req (some old) db ≡ (db1, ok tt)
    → incr_row tbl expired now' req' (some old) db1 ≡ (db2, ok tt)
    → db2.kv ≡ db1.kv
unfolding incr_row incr_columns
incr_row_lost tbl expired now now' req req' old db db1 db2 sb sk live live' small e e' =
    let q = at_version req.bucket req.key old.version in
    let f =
      incr_columns (step_of req) (incr_lifetime req (some old))
        (now +ℤ incr_lifetime req (some old)) old in
    let f' =
      incr_columns (step_of req') (incr_lifetime req' (some old))
        (now' +ℤ incr_lifetime req' (some old)) old in
    let first : db1.kv ≡ update_where q f db.kv = update_rows-kv tbl q f db db1 (ground arith) in
    let second : db2.kv ≡ update_where q f' db1.kv =
      update_rows-kv tbl q f' db1 db2 (ground arith) in
    let gone : find q db1.kv ≡ none =
      rw first
        (find-update_where_gone q f db.kv (λ x h. ground (arith, add64-ne old.version small))) in
    second ∙ update_where-none q f' db1.kv gone
