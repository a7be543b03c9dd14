-- ===== src/Tests/Reports.antt =====
-- app/agtapi, app/agtsvc and app/mgtsvc at small tables of agent 7 and agent 8.
use mathlib.Core.List.{Perm}
use ssoc_broker.Base.{
  ◌≡◌, ◌≢◌, refl, List, [], ◌∷◌, ◌++◌, map, not, ◌&&◌, arith, Text, codes, text_dec,
}
use ssoc_broker.Base.Int.{ℤ, pos}
use ssoc_broker.Store.{ok}
use ssoc_broker.Store.Batch
use ssoc_broker.Store.Batch.{Bulk, rows, Some}
use ssoc_broker.Collect.Param.{CollectDiff, CollectGroupItem}
use ssoc_broker.Collect.Model.{MinionGroup}
use ssoc_broker.Collect.Replace.{of_minion, among, apply_diff, apply_full}
use ssoc_broker.Collect.Handlers.{group_kind}
use ssoc_broker.Collect.Laws.{
  rows-apply_diff, rows-apply_diff_ne, rows-apply_full, Complete, named_keys, reported,
}

abbrev group : ℤ → Text → MinionGroup
group mid name = record {
  minion_id = mid;
  inet = [];
  name = name;
  gid = codes "1";
  description = [];
}

abbrev item : Text → CollectGroupItem
item name = record { name = name; gid = codes "2"; description = [] }

abbrev groups : List MinionGroup
groups = group (pos 7) (codes "a") ∷ group (pos 8) (codes "a") ∷ []

abbrev changes : CollectDiff CollectGroupItem Text
changes = record { creates = item (codes "b") ∷ []; updates = item (codes "a") ∷ []; deletes = [] }

abbrev others : List MinionGroup
others = group (pos 8) (codes "a") ∷ []

abbrev tbl : Bulk MinionGroup
tbl = Batch.memory

rows-apply_diff_example :
    ((kept : List MinionGroup) × Some kept (reported group_kind (pos 7) [] changes)
      × Perm
          (rows
            (of_minion group_kind (pos 7))
            (apply_diff group_kind tbl (pos 7) [] changes groups).0)
          (kept
            ++ rows
                (λ r.
                  of_minion group_kind (pos 7) r
                  && not (among group_kind r.name (named_keys group_kind changes)))
                groups))
    × ((apply_diff group_kind tbl (pos 7) [] changes groups).1 ≡ ok tt)
    × Complete group_kind tbl
        (pos 7)
        []
        (reported group_kind (pos 7) [] changes)
        others
        (apply_diff group_kind tbl (pos 7) [] changes groups).0
unfolding ssoc_broker.Base.Int.ℤ_discrete text_dec
rows-apply_diff_example = rows-apply_diff group_kind tbl (pos 7) [] changes groups others refl

eight : ◌≢◌ {A = ℤ} (pos 8) (pos 7)
eight e = ground arith

rows-apply_diff_ne_example :
    rows (of_minion group_kind (pos 8)) (apply_diff group_kind tbl (pos 7) [] changes groups).0
    ≡ rows (of_minion group_kind (pos 8)) groups
rows-apply_diff_ne_example =
    rows-apply_diff_ne group_kind tbl (pos 7) [] changes groups (pos 8) eight

rows-apply_full_example :
    ((kept : List MinionGroup) × Some kept
        (map (group_kind.model (pos 7) []) (item (codes "c") ∷ []))
      × Perm
          (rows
            (of_minion group_kind (pos 7))
            (apply_full group_kind tbl (pos 7) [] (λ r. r) (item (codes "c") ∷ []) groups).0)
          kept)
    × Complete group_kind tbl
        (pos 7)
        []
        (map (group_kind.model (pos 7) []) (item (codes "c") ∷ []))
        others
        (apply_full group_kind tbl (pos 7) [] (λ r. r) (item (codes "c") ∷ []) groups).0
unfolding ssoc_broker.Base.Int.ℤ_discrete
rows-apply_full_example =
    rows-apply_full group_kind tbl (pos 7) [] (λ r. r) (item (codes "c") ∷ []) groups others refl
