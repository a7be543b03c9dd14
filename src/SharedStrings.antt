-- ===== src/SharedStrings.antt =====
-- app/agtsvc/shared_strings.go: the key-value store that agents share, over the table `kv_data`.
-- `model.KVData` is declared in another module of the organisation: its columns that the service
-- reads or writes are the fields below (`updated_at`, which nothing reads, is left out), and its
-- method `Expired` is a parameter. `time.Now()` is an argument; times and durations are numbers of
-- nanoseconds.
pub mod Writes
pub mod Reads
pub mod Rules
pub mod Documented
pub mod Effects
pub mod Races
use ssoc_broker.Base.{
  ℕ, List, [], ◌∷◌, Option, none, some, Bool, true, false, ◌&&◌, ◌||◌, if◌then◌else◌, ◌==◌,
  is_empty, is_none, Text, text_eq,
}
use ssoc_broker.Base.Int.{ℤ, pos, negsuc, ◌+ℤ◌, ltb_ℤ, leb_ℤ, int_eq, add64}
use ssoc_broker.Store.{Result, ok, missing, failed, Table, M, ◌>>=◌, ◌>>◌, return}

pub record KvData : Type 0 where
  pub bucket : Text
  pub key : Text
  pub value : Text
  pub count : ℤ
  pub lifetime : ℤ
  pub expired_at : ℤ
  pub created_at : ℤ
  pub version : ℤ

pub record KvAudit : Type 0 where
  pub minion_id : ℤ
  pub inet : Text
  pub bucket : Text
  pub key : Text

pub record Db : Type 0 where
  pub kv : List KvData
  pub audits : List KvAudit

-- `param.SharedKeyValue`.
pub record SharedKeyValue : Type 0 where
  pub bucket : Text
  pub key : Text
  pub value : Text
  pub lifetime : ℤ
  pub audit : Bool
  pub reply : Bool

-- `param.SharedKeyIncr`.
pub record SharedKeyIncr : Type 0 where
  pub bucket : Text
  pub key : Text
  pub lifetime : ℤ
  pub n : ℤ
  pub audit : Bool

-- The caller: `inf.Issue().ID` and `inf.Ident().Inet.String()`.
pub record Caller : Type 0 where
  pub minion_id : ℤ
  pub inet : Text

-- The conditions of the statements.
abbrev pub at : Text → Text → KvData → Bool
at bucket key r = text_eq r.bucket bucket && text_eq r.key key

abbrev pub at_version : Text → Text → ℤ → KvData → Bool
at_version bucket key version r = at bucket key r && int_eq r.version version

-- `tblCtx.Or(tbl.Lifetime.Gte(0)).Or(tbl.Lifetime.Gt(0), tbl.ExpiredAt.Gte(now))`.
unfoldable pub survival : ℤ → KvData → Bool
survival now r = leb_ℤ (pos 0) r.lifetime || (ltb_ℤ (pos 0) r.lifetime && leb_ℤ now r.expired_at)

-- `if lifetime < 0 { lifetime = 0 }`.
abbrev pub clamp : ℤ → ℤ
clamp lifetime = if ltb_ℤ lifetime (pos 0) then pos 0 else lifetime

-- The row that `Set` and `Store` create.
unfoldable pub value_row : ℤ → SharedKeyValue → KvData
value_row now req = record {
  bucket = req.bucket;
  key = req.key;
  value = req.value;
  count = pos 0;
  lifetime = clamp req.lifetime;
  expired_at = now +ℤ clamp req.lifetime;
  created_at = now;
  version = pos 1;
}

-- The row that `Incr` creates; it sets no lifetime.
unfoldable pub count_row : ℤ → SharedKeyIncr → ℤ → ℤ → KvData
count_row now req n expired_at = record {
  bucket = req.bucket;
  key = req.key;
  value = [];
  count = n;
  lifetime = pos 0;
  expired_at = expired_at;
  created_at = now;
  version = pos 1;
}

-- The assignments of the three updates.
unfoldable pub set_columns : ℤ → SharedKeyValue → KvData → KvData → KvData
set_columns now req old r =
    let lifetime =
      if leb_ℤ (clamp req.lifetime) (pos 0) then old.lifetime else clamp req.lifetime in
    record r {
      value = req.value;
      expired_at = now +ℤ lifetime;
      version = add64 old.version (pos 1);
    }

unfoldable pub store_columns : SharedKeyValue → KvData → KvData → KvData
store_columns req old r = record r { value = req.value; version = add64 old.version (pos 1) }

unfoldable pub incr_columns : ℤ → ℤ → ℤ → KvData → KvData → KvData
incr_columns n lifetime expired_at old r = record r {
  count = add64 old.count n;
  lifetime = lifetime;
  expired_at = expired_at;
  version = add64 old.version (pos 1);
}

-- `if n == 0 { n = 1 }`.
abbrev pub step_of : SharedKeyIncr → ℤ
step_of req = if int_eq req.n (pos 0) then pos 1 else req.n

-- The lifetime that `Incr` goes on with.
unfoldable pub incr_lifetime : SharedKeyIncr → Option KvData → ℤ
incr_lifetime req none = if leb_ℤ req.lifetime (pos 0) then pos 0 else req.lifetime
incr_lifetime req (some old) = if leb_ℤ req.lifetime (pos 0) then old.lifetime else req.lifetime

module _ (tbl : Table {R = KvData} (λ _ r. r)) where
  -- The statements, on the whole state.
  abbrev pub delete_rows : (KvData → Bool) → M Db (Unit {0})
  delete_rows p db = elim (tbl.delete p db.kv) [
    | ok t ↦ (record db { kv = t }, ok tt)
    | missing ↦ (db, missing)
    | failed e ↦ (db, failed e)
  ]

  abbrev pub create_row : KvData → M Db (Unit {0})
  create_row r db = elim (tbl.create r db.kv) [
    | ok (_, t) ↦ (record db { kv = t }, ok tt)
    | missing ↦ (db, missing)
    | failed e ↦ (db, failed e)
  ]

  -- The number of affected rows is dropped, as in the source.
  abbrev pub update_rows : (KvData → Bool) → (KvData → KvData) → M Db (Unit {0})
  update_rows p f db = elim (tbl.update p f db.kv) [
    | ok (_, t) ↦ (record db { kv = t }, ok tt)
    | missing ↦ (db, missing)
    | failed e ↦ (db, failed e)
  ]

  -- `find`: nil on every error.
  unfoldable pub find_row : Text → Text → Db → Option KvData
  find_row bucket key db = elim (tbl.first (at bucket key) db.kv) [
    | ok r ↦ some r
    | missing ↦ none
    | failed _ ↦ none
  ]

  unfoldable pub get : ℤ → Text → Text → M Db KvData
  unfolding survival
  get now bucket key db = (db, tbl.first (λ r. at bucket key r && survival now r) db.kv)

  -- `if req.Reply`.
  unfoldable pub answer : Bool → ℤ → Text → Text → M Db (Option KvData)
  unfolding get
  answer false now bucket key db = (db, ok none)
  answer true now bucket key db = (do r ← get now bucket key; return (some r)) db

  -- The row under the key is nil or has expired: it is deleted, and a new row is created.
  unfoldable pub replace : (KvData → Bool) → Option KvData → KvData → M Db (Unit {0})
  replace p none row = create_row row
  replace p (some old) row = do delete_rows p; create_row row

  -- Without a key the whole bucket goes.
  unfoldable pub del : Text → Text → M Db (Unit {0})
  del bucket key = delete_rows (λ r. text_eq r.bucket bucket && (is_empty key || text_eq r.key key))

module _ (upsert : KvAudit → List KvAudit → Result (List KvAudit)) where
  -- The block under `if req.Audit`; its error is dropped.
  unfoldable pub add_audit : Bool → Caller → Text → Text → M Db (Unit {0})
  add_audit false who bucket key db = (db, ok tt)
  add_audit true who bucket key db = elim (upsert audit db.audits) [
    | ok t ↦ (record db { audits = t }, ok tt)
    | missing ↦ (db, ok tt)
    | failed _ ↦ (db, ok tt)
  ]
    where
      audit : KvAudit
      audit = record { minion_id = who.minion_id; inet = who.inet; bucket = bucket; key = key }

module _ (tbl : Table {R = KvData} (λ _ r. r)) (expired : KvData → ℤ → Bool) where
  -- The first half of `Set`: all that happens to `kv_data`, with the row that `find` gave.
  unfoldable pub set_row : ℤ → SharedKeyValue → Option KvData → M Db (Unit {0})
  unfolding replace value_row set_columns
  set_row now req none = create_row tbl (value_row now req)
  set_row now req (some old) =
      let fits = at_version req.bucket req.key old.version in
      if expired old now
      then replace tbl fits (some old) (value_row now req)
      else update_rows tbl fits (set_columns now req old)

  unfoldable pub store_row : ℤ → SharedKeyValue → Option KvData → M Db (Unit {0})
  unfolding replace value_row store_columns
  store_row now req none = create_row tbl (value_row now req)
  store_row now req (some old) =
      let fits = at_version req.bucket req.key old.version in
      if expired old now
      then replace tbl fits (some old) (value_row now req)
      else update_rows tbl fits (store_columns req old)

  unfoldable pub incr_row : ℤ → SharedKeyIncr → Option KvData → M Db (Unit {0})
  unfolding replace count_row incr_columns incr_lifetime
  incr_row now req none =
      create_row tbl (count_row now req (step_of req) (now +ℤ incr_lifetime req none))
  incr_row now req (some old) =
      let lifetime = incr_lifetime req (some old) in
      if expired old now
      then replace tbl (at req.bucket req.key) (some old)
          (count_row now req (step_of req) (now +ℤ lifetime))
      else update_rows tbl (at_version req.bucket req.key old.version)
          (incr_columns (step_of req) lifetime (now +ℤ lifetime) old)

module _ (tbl : Table {R = KvData} (λ _ r. r)) (expired : KvData → ℤ → Bool)
    (upsert : KvAudit → List KvAudit → Result (List KvAudit)) where
  unfoldable pub set : ℤ → Caller → SharedKeyValue → M Db (Option KvData)
  unfolding find_row set_row add_audit answer
  set now who req db =
      (do
        set_row tbl expired now req (find_row tbl req.bucket req.key db)
        add_audit upsert req.audit who req.bucket req.key
        answer tbl req.reply now req.bucket req.key)
        db

  unfoldable pub store : ℤ → Caller → SharedKeyValue → M Db (Option KvData)
  unfolding find_row store_row add_audit answer
  store now who req db =
      (do
        store_row tbl expired now req (find_row tbl req.bucket req.key db)
        add_audit upsert req.audit who req.bucket req.key
        answer tbl req.reply now req.bucket req.key)
        db

  unfoldable pub incr : ℤ → Caller → SharedKeyIncr → M Db KvData
  unfolding find_row incr_row add_audit get
  incr now who req db =
      (do
        incr_row tbl expired now req (find_row tbl req.bucket req.key db)
        add_audit upsert req.audit who req.bucket req.key
        get tbl now req.bucket req.key)
        db
