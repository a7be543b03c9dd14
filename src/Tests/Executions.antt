-- ===== src/Tests/Executions.antt =====
-- An execution that is sent to one agent, and the agent's report of it.
use ssoc_broker.Base.{
  ℕ, ◌≡◌, ◌≢◌, refl, arith, ◌⊎◌, List, [], ◌∷◌, Bool, true, false, not, none, Option, codes, Elem,
}
use ssoc_broker.Base.Int.{ℤ, pos}
use ssoc_broker.Store.{Result, missing, ok, Table}
use ssoc_broker.Store.Memory.{memory}
use ssoc_broker.Store.Batch.{rows}
use ssoc_broker.Executions.{
  TaskExecuteItem, ReportData, code_other, item_with_id, names, report, Executed, report-Fate,
}
use ssoc_broker.Executions.Push.{TaskExecute, TaskPushData, Pushing, push, push-Pushed, Pushed}

abbrev item : TaskExecuteItem
item = record {
  id = pos 1;
  exec_id = pos 5;
  task_id = pos 6;
  minion_id = pos 7;
  broker_id = pos 2;
  broker_status = none;
  finished = false;
  succeed = false;
  result = [];
  minion_status = none;
  execution = none;
  error_code = code_other (pos 0);
}

abbrev reported : ReportData
reported = record {
  id = pos 6;
  exec_id = pos 5;
  succeed = true;
  reason = [];
  start_time = pos 10;
  end_time = pos 12;
  duration = pos 2;
  result = codes "{}";
}

abbrev items : Table item_with_id
items = memory item_with_id (λ t. pos 1)

report-Fate_example :
    ((req : ReportData) × (ok reported ≡ ok req)
      × ((report items (pos 20) (pos 7) (ok reported) (item ∷ [])).1 ≡ ok tt)
      × ((x : TaskExecuteItem)
          → Elem x (report items (pos 20) (pos 7) (ok reported) (item ∷ [])).0
          → names (pos 7) req x ≡ true
          → Executed req x)
      × (rows
            (λ x. not (names (pos 7) req x))
            (report items (pos 20) (pos 7) (ok reported) (item ∷ [])).0
          ≡ rows (λ x. not (names (pos 7) req x)) (item ∷ [])))
    ⊎ (((report items (pos 20) (pos 7) (ok reported) (item ∷ [])).1 ≢ ok tt)
        × ((report items (pos 20) (pos 7) (ok reported) (item ∷ [])).0 ≡ item ∷ []))
report-Fate_example = report-Fate items (pos 20) (pos 7) (ok reported) (item ∷ [])

-- A world without a state, in which every agent answers.
abbrev idle : Pushing (Unit {0})
idle = record { limit = []; items = item ∷ []; agents = tt }

abbrev all_rows :
    (TaskExecuteItem → Bool) → List TaskExecuteItem → List TaskExecuteItem × Result (Unit {0})
all_rows p t = (rows p t, ok tt)

abbrev answers : ℤ → TaskPushData → Unit {0} → Unit {0} × Option (List ℕ)
answers id d w = (w, none)

abbrev task : TaskExecute
task = record {
  id = pos 5;
  task_id = pos 6;
  name = codes "ls";
  intro = [];
  code = codes "ls";
  code_sha1 = [];
  timeout = pos 60;
}

same_id : (d : TaskExecute) → ok task ≡ ok d → d.id ≡ pos 5
same_id d e = ground arith

none_there : (d : TaskExecute) → ◌≡◌ {A = Result TaskExecute} missing (ok d) → d.id ≡ pos 5
none_there d e = cc

-- The row is found; it is missing, and the execution is stuck.
push-Pushed_example :
    Pushed items all_rows answers
      (pos 2)
      (pos 9)
      (pos 5)
      idle
      (ok task)
      (push items all_rows answers (pos 2) (pos 9) (ok task) (pos 5) idle)
    × Pushed items all_rows answers
        (pos 2)
        (pos 9)
        (pos 5)
        idle
        missing
        (push items all_rows answers (pos 2) (pos 9) missing (pos 5) idle)
push-Pushed_example = (
  push-Pushed items all_rows answers (pos 2) (pos 9) (ok task) (pos 5) idle same_id refl,
  push-Pushed items all_rows answers (pos 2) (pos 9) missing (pos 5) idle none_there refl,
)
