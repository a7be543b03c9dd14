-- ===== src/Tests/Tasks.antt =====
-- app/internal/param/diff.go at a report of two tasks, one current and one unknown.
use ssoc_broker.Base.{◌≡◌, refl, ◌↔◌, List, [], ◌∷◌, true, false, codes, Text}
use ssoc_broker.Base.Int.{ℤ, pos, ℤ_discrete}
use ssoc_broker.TaskDiff.{TaskStatus, Substance, diff, not_modified}
use ssoc_broker.TaskDiff.Laws.{DistinctIds}
use ssoc_broker.TaskDiff.Sync.{InSync, not_modified-diff}

abbrev pub task : ℤ → Text → TaskStatus (Unit {0})
task id hash = record {
  id = id;
  dialect = false;
  name = codes "t";
  status = codes "running";
  hash = hash;
  uptime = 5;
  from = codes "tunnel";
  link = [];
  cause = [];
  runners = tt;
}

abbrev pub config : ℤ → Text → Substance
config id hash = record {
  id = id;
  name = codes "t";
  minion_id = pos 0;
  hash = hash;
  chunk = codes "x = 1";
  priority = pos 1;
}

abbrev tasks : List (TaskStatus (Unit {0}))
tasks = task (pos 1) (codes "a") ∷ task (pos 9) (codes "z") ∷ []

abbrev configs : List Substance
configs = config (pos 1) (codes "a") ∷ config (pos 2) (codes "b") ∷ []

configs-DistinctIds : DistinctIds configs
unfolding ℤ_discrete
configs-DistinctIds = (refl, (refl, tt))

not_modified-diff_example :
    (not_modified (diff tasks (pos 7) configs) ≡ true) ↔ InSync tasks configs
not_modified-diff_example = not_modified-diff tasks (pos 7) configs configs-DistinctIds
