-- ===== src/Mgtsvc/Minion.antt =====
-- app/mgtsvc/minion.go: an agent, and the configurations that it should run.
use ssoc_broker.Base.{List, [], Bool, true, false, not, ◌&&◌, if◌then◌else◌, Text}
use ssoc_broker.Base.Int.{ℤ, int_eq}
use ssoc_broker.Store.{Result, ok, missing, failed}
use ssoc_broker.Minion.{Minion, Status, deleted, MinionTable}
use ssoc_broker.TaskDiff.{Substance, is_nil}

-- app/internal/param/minion.go
pub record MinionLight : Type 0 where
  pub id : ℤ
  pub inet : Text
  pub unload : Bool

abbrev pub is_deleted : Status → Bool
is_deleted deleted = true
is_deleted _ = false

abbrev pub is_known : ℤ → Minion → Bool
is_known mid m = int_eq m.id mid && not (is_deleted m.status)

unfoldable pub light_id : MinionTable → ℤ → List Minion → Result MinionLight
light_id tbl mid rows = elim (tbl.first (is_known mid) rows) [
  | ok m ↦ ok (record { id = mid; inet = m.inet; unload = m.unload })
  | missing ↦ missing
  | failed e ↦ failed e
]

-- The queries of `Substances`, with the methods of `model`: `Effects.Exclusion` and
-- `MinionSubstanceExcludes.Filter`.
pub record Catalog (Effect Exclude : Type 0) : Type 0 where
  pub tags : ℤ → Result (List Text)
  pub effects : List Text → Result (List Effect)
  pub exclusion : List Effect → Text → List ℤ
  pub substances : ℤ → List ℤ → Result (List Substance)
  pub excludes : ℤ → Result (List Exclude)
  pub filter : List Exclude → List Substance → List Substance

-- A query whose error is dropped.
abbrev pub or_nil : {A : Type 0} → Result (List A) → List A
or_nil (ok xs) = xs
or_nil missing = []
or_nil (failed e) = []

module _ {Effect Exclude : Type 0} (cat : Catalog Effect Exclude) where
  -- The ids of the configurations that the agent's tags select.
  abbrev pub effective_ids : MinionLight → List ℤ
  effective_ids light =
      let tags = or_nil (cat.tags light.id) in
      if is_nil tags then [] else cat.exclusion (or_nil (cat.effects tags)) light.inet

  unfoldable pub substances : MinionLight → Result (List Substance)
  substances light =
      if light.unload then ok [] else elim (cat.substances light.id (effective_ids light)) [
        | ok subs ↦
            if is_nil subs then ok [] else ok (cat.filter (or_nil (cat.excludes light.id)) subs)
        | missing ↦ missing
        | failed e ↦ failed e
      ]
