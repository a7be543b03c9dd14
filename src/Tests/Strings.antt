-- ===== src/Tests/Strings.antt =====
-- app/agtsvc/shared_strings.go at a table of one row.
use ssoc_broker.Base.{
  ◌≡◌, refl, ◌≢◌, List, [], ◌∷◌, none, some, Bool, true, false, ◌&&◌, ◌||◌, codes, Text, text_eq,
  text_dec, is_empty, arith, if◌then◌else◌,
}
use ssoc_broker.Base.Int.{ℤ, pos, ltb_ℤ, ◌+ℤ◌, add64, ℤ_discrete}
use ssoc_broker.Store.{Result, ok, failed, Table}
use ssoc_broker.Store.Memory.{memory}
use ssoc_broker.SharedStrings.{
  KvData, KvAudit, Db, SharedKeyValue, SharedKeyIncr, Caller, at, survival, set, store, incr, del,
  incr_row,
}
use ssoc_broker.SharedStrings.Writes.{written, lookup}
use ssoc_broker.SharedStrings.Rules.{after_set, after_incr}
use ssoc_broker.SharedStrings.Documented.{AsDocumented}
use ssoc_broker.SharedStrings.Effects.{set-lookup, incr-lookup, del-lookup}
use ssoc_broker.SharedStrings.Races.{incr_row_lost}

abbrev kv : Table {R = KvData} (λ _ r. r)
kv = memory (λ _ r. r) (λ _. pos 0)

abbrev old_row : KvData
old_row = record {
  bucket = codes "b";
  key = codes "k";
  value = codes "v";
  count = pos 4;
  lifetime = pos 10;
  expired_at = pos 50;
  created_at = pos 40;
  version = pos 3;
}

abbrev db1 : Db
db1 = record { kv = old_row ∷ []; audits = [] }

-- `Expired`, as the field names suggest it.
abbrev past : KvData → ℤ → Bool
past r now = ltb_ℤ (pos 0) r.lifetime && ltb_ℤ r.expired_at now

abbrev no_audit : KvAudit → List KvAudit → Result (List KvAudit)
no_audit a t = ok (a ∷ t)

abbrev caller : Caller
caller = record { minion_id = pos 7; inet = codes "10.0.0.7" }

abbrev put_w : SharedKeyValue
put_w = record {
  bucket = codes "b";
  key = codes "k";
  value = codes "w";
  lifetime = pos 0;
  audit = true;
  reply = false;
}

abbrev add_two : SharedKeyIncr
add_two = record { bucket = codes "b"; key = codes "k"; lifetime = pos 0; n = pos 2; audit = false }

no_failure : (e : Text) → kv.first (at (codes "b") (codes "k")) db1.kv ≢ failed e
unfolding text_dec
no_failure e h = cc

abbrev after_put : Db
after_put = (set kv past no_audit (pos 45) caller put_w db1).0

set_run : set kv past no_audit (pos 45) caller put_w db1 ≡ (after_put, ok none)
unfolding set text_dec
set_run = refl

set-lookup_example :
    (lookup after_put (codes "b") (codes "k")
      ≡ written
          (codes "b")
          (codes "k")
          (after_set past (pos 45) put_w (lookup db1 (codes "b") (codes "k")))
          (lookup db1)
          (codes "b")
          (codes "k"))
    × AsDocumented past
        (pos 45)
        put_w
        (lookup db1 (codes "b") (codes "k"))
        (after_set past (pos 45) put_w (lookup db1 (codes "b") (codes "k")))
set-lookup_example =
    set-lookup kv past no_audit (pos 45) caller put_w db1 after_put none (codes "b") (codes "k")
      (refl, tt) no_failure set_run

abbrev after_keep : Db
after_keep = (store kv past no_audit (pos 45) caller put_w db1).0

store_run : store kv past no_audit (pos 45) caller put_w db1 ≡ (after_keep, ok none)
unfolding store text_dec
store_run = refl

abbrev after_add : Db
after_add = (incr kv past no_audit (pos 45) caller add_two db1).0

abbrev added : KvData
added = record old_row { count = pos 6; expired_at = pos 55; version = pos 4 }

incr_run : incr kv past no_audit (pos 45) caller add_two db1 ≡ (after_add, ok added)
unfolding incr text_dec ◌+ℤ◌ add64 ℤ_discrete
incr_run = refl

incr-lookup_example :
    lookup after_add (codes "b") (codes "k")
    ≡ written
        (codes "b")
        (codes "k")
        (after_incr past (pos 45) add_two (lookup db1 (codes "b") (codes "k")))
        (lookup db1)
        (codes "b")
        (codes "k")
incr-lookup_example =
    incr-lookup kv past no_audit (pos 45) caller add_two db1 after_add added (codes "b") (codes "k")
      no_failure incr_run

abbrev emptied : Db
emptied = record { kv = []; audits = [] }

del_run : del kv (codes "b") [] db1 ≡ (emptied, ok tt)
unfolding del text_dec
del_run = refl

del-lookup_example : lookup emptied (codes "b") (codes "k") ≡ (
    if text_eq (codes "b") (codes "b") && (is_empty [] || text_eq [] (codes "k"))
    then none
    else lookup db1 (codes "b") (codes "k"))
del-lookup_example = del-lookup kv (codes "b") [] db1 emptied (codes "b") (codes "k") del_run

abbrev first_add : Db
first_add = (incr_row kv past (pos 45) add_two (some old_row) db1).0

abbrev second_add : Db
second_add = (incr_row kv past (pos 46) add_two (some old_row) first_add).0

first_run : incr_row kv past (pos 45) add_two (some old_row) db1 ≡ (first_add, ok tt)
unfolding incr_row text_dec
first_run = refl

second_run : incr_row kv past (pos 46) add_two (some old_row) first_add ≡ (second_add, ok tt)
unfolding incr_row text_dec
second_run = refl

incr_row_lost_example : second_add.kv ≡ first_add.kv
incr_row_lost_example =
    incr_row_lost kv past (pos 45) (pos 46) add_two add_two old_row db1 first_add second_add refl
      refl refl refl (omega arith, omega arith) first_run second_run

found_old : lookup db1 (codes "b") (codes "k") ≡ some old_row
unfolding text_dec
found_old = refl

read_ok :
    (e : Text)
    → kv.first (λ x. at (codes "b") (codes "k") x && survival (pos 99) x) db1.kv ≢ failed e
unfolding survival text_dec
read_ok e h = cc
