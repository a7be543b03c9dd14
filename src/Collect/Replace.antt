-- ===== src/Collect/Replace.antt =====
-- app/agtapi/collect.go: a report of differences, and a full report, for any of the tables of processes,
-- listeners, accounts and groups.
use ssoc_broker.Base.{
  ◌≡◌, List, [], ◌∷◌, ◌++◌, map, Bool, false, ◌&&◌, ◌||◌, if◌then◌else◌, Text, decided,
}
use ssoc_broker.Base.Int.{ℤ, int_eq}
use ssoc_broker.Store.{Result, ok, missing, failed, M}
use ssoc_broker.Store.Batch.{Bulk, discard}
use ssoc_broker.TaskDiff.{is_nil}
use ssoc_broker.Collect.Param.{CollectDiff}

-- What the handlers of a table need of its rows and of the items of a report.
pub record Kind (R Item Key : Type 0) : Type 0 where
  pub minion_id : R → ℤ
  pub row_key : R → Key
  pub item_key : Item → Key
  pub key_dec : Discrete Key
  pub model : ℤ → Text → Item → R
  pub model_minion_id : (mid : ℤ) (inet : Text) (x : Item) → minion_id (model mid inet x) ≡ mid
  pub model_key : (mid : ℤ) (inet : Text) (x : Item) → row_key (model mid inet x) ≡ item_key x

module _ {R Item Key : Type 0} (kind : Kind R Item Key) where
  -- `In(keys...)`
  abbrev pub among : Key → List Key → Bool
  among k [] = false
  among k (x ∷ xs) = decided (kind.key_dec x k) || among k xs

  -- `MinionID.Eq(mid)`
  abbrev pub of_minion : ℤ → R → Bool
  of_minion mid r = int_eq (kind.minion_id r) mid

  -- `MinionID.Eq(mid), Pid.In(pids...)`
  abbrev pub of_keys : ℤ → List Key → R → Bool
  of_keys mid keys r = of_minion mid r && among (kind.row_key r) keys

  abbrev pub stale_keys : CollectDiff Item Key → List Key
  stale_keys req = req.deletes ++ map kind.item_key req.updates

  abbrev pub new_rows : ℤ → Text → CollectDiff Item Key → List R
  new_rows mid inet req =
      map (kind.model mid inet) req.creates ++ map (kind.model mid inet) req.updates

  module _ (tbl : Bulk R) (mid : ℤ) (inet : Text) where
    -- The rows that a report of differences names are deleted (an error is dropped), and the new ones
    -- are inserted.
    unfoldable pub apply_diff : CollectDiff Item Key → M (List R) (Unit {0})
    unfolding discard
    apply_diff req t =
        let keys = stale_keys req in
        tbl.insert (new_rows mid inet req)
          (if is_nil keys then t else discard tbl (of_keys mid keys) t)

    -- All rows of the agent are deleted, and the reported ones inserted. `answer` is what the handler
    -- returns after the insertion.
    unfoldable pub apply_full :
        (Result (Unit {0}) → Result (Unit {0})) → List Item → M (List R) (Unit {0})
    apply_full answer items t = elim (tbl.delete (of_minion mid) t) [
      | ok t' ↦
          let inserted = tbl.insert (map (kind.model mid inet) items) t' in
          if is_nil items then (t', ok tt) else (inserted.0, answer inserted.1)
      | missing ↦ (t, missing)
      | failed e ↦ (t, failed e)
    ]
