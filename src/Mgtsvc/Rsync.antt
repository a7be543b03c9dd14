-- ===== src/Mgtsvc/Rsync.antt =====
-- app/mgtsvc/agent_rsync.go and agent_reload.go: the broker tells an agent what its configurations lack
-- until the agent's report shows none, `cycle` times at most, and keeps the last report in the table.
use ssoc_broker.Base.{ℕ, zero, suc, List, [], ◌∷◌, Bool, true, false, if◌then◌else◌, Text}
use ssoc_broker.Base.Int.{ℤ, int_eq}
use ssoc_broker.Store.{Result, ok, missing, failed, M}
use ssoc_broker.Store.Batch.{Bulk, discard}
use ssoc_broker.Minion.{Minion, MinionTable}
use ssoc_broker.TaskDiff.{
  TaskDiff, TaskStatus, Substance, MinionTask, is_nil, not_modified, diff, to_models, chunk_of,
}
use ssoc_broker.Mgtsvc.Minion.{MinionLight, Catalog, light_id, substances}

-- The agents as the link reaches them: the answers to `/api/v1/agent/task/status` and `…/diff`.
pub record Link (W Runners : Type 0) : Type 0 where
  pub fetch_task_status : ℤ → M W (List (TaskStatus Runners))
  pub fetch_rsync : ℤ → TaskDiff → M W (List (TaskStatus Runners))

pub record World (W Runners : Type 0) : Type 0 where
  pub agents : W
  pub tasks : List (MinionTask Runners)

abbrev pub forget : {A : Type 0} → Result A → Result (Unit {0})
forget (ok a) = ok tt
forget missing = missing
forget (failed e) = failed e

module _ {Runners : Type 0} where
  -- The report, or none where the loop ended with an error.
  abbrev pub nrp_of : Result (List (TaskStatus Runners)) → List (TaskStatus Runners)
  nrp_of (ok report) = report
  nrp_of missing = []
  nrp_of (failed e) = []

  abbrev pub is_of : ℤ → MinionTask Runners → Bool
  is_of mid t = int_eq t.minion_id mid

  -- The rows of the agent are deleted, and the report's rows created; errors are dropped.
  unfoldable pub store_report :
      Bulk (MinionTask Runners)
      → ℤ
      → Text
      → ℕ
      → List (TaskStatus Runners)
      → List (MinionTask Runners)
      → List (MinionTask Runners)
  unfolding discard to_models
  store_report tbl mid inet now report t =
      let left = discard tbl (is_of mid) t in
      let tasks = to_models mid inet now report in
      if is_nil tasks then left else (tbl.create tasks left).0

module _ {W Runners : Type 0} (lnk : Link W Runners) where
  -- The loop, with the rounds that `biz.cycle` leaves.
  unfoldable pub spin :
      ℕ → ℤ → List Substance → List (TaskStatus Runners) → M W (List (TaskStatus Runners))
  spin zero mid subs report w = (w, ok report)
  spin (suc n) mid subs report w =
      let d = diff report mid subs in
      elim (not_modified d) [
        | true ↦ (w, ok report)
        | false ↦
            let (w', answer) = lnk.fetch_rsync mid d w in
            elim answer [
              | ok nrp ↦ spin n mid subs nrp w'
              | missing ↦ (w', missing)
              | failed e ↦ (w', failed e)
            ]
      ]

  -- `subs.Sort()` is a method of `model.Substances`.
  unfoldable pub spin_rsync :
      ℕ
      → (List Substance → List Substance)
      → ℤ
      → List (TaskStatus Runners)
      → List Substance
      → M W (List (TaskStatus Runners))
  unfolding spin
  spin_rsync cycle sort mid report subs = spin cycle mid (sort subs) report

  module _ {Effect Exclude : Type 0} (cat : Catalog Effect Exclude)
      (sort : List Substance → List Substance) (tbl : Bulk (MinionTask Runners))
      (cycle now : ℕ) where
    unfoldable pub rsync : MinionLight → M (World W Runners) (Unit {0})
    unfolding spin_rsync store_report substances
    rsync light s =
        let (w, status) = lnk.fetch_task_status light.id s.agents in
        let asked = record s { agents = w } in
        elim status [
          | ok report ↦ elim (substances cat light) [
            | ok subs ↦
                let (w', spun) = spin_rsync cycle sort light.id report subs w in
                (
                  record {
                    agents = w';
                    tasks = store_report tbl light.id light.inet now (nrp_of spun) s.tasks;
                  },
                  forget spun,
                )
            | missing ↦ (asked, missing)
            | failed e ↦ (asked, failed e)
          ]
          | missing ↦ (asked, missing)
          | failed e ↦ (asked, failed e)
        ]

    unfoldable pub rsync_task : MinionTable → List Minion → ℤ → M (World W Runners) (Unit {0})
    unfolding rsync light_id
    rsync_task minions rows mid s = elim (light_id minions mid rows) [
      | ok light ↦ rsync light s
      | missing ↦ (s, missing)
      | failed e ↦ (s, failed e)
    ]

    -- `first` is the query of the configuration; the answer to the one update is dropped.
    unfoldable pub reload_task :
        MinionTable → List Minion → (ℤ → Result Substance) → ℤ → ℤ → M (World W Runners) (Unit {0})
    unfolding rsync light_id
    reload_task minions rows first mid sid s = elim (light_id minions mid rows) [
      | ok light ↦ if light.unload then rsync light s else elim (first sid) [
        | ok sub ↦ rsync light (record s {
          agents =
              (lnk.fetch_rsync mid (record { removes = []; updates = chunk_of mid sub ∷ [] })
                s.agents).0;
        })
        | missing ↦ rsync light s
        | failed e ↦ rsync light s
      ]
      | missing ↦ (s, missing)
      | failed e ↦ (s, failed e)
    ]
