-- ===== src/Executions.antt =====
-- app/agtapi/task.go, Report: an agent reports how a task that the center made it run has ended; Push has
-- appv2/manager/mservice/task.go, which sends the task to the agents. `bound` is what `c.Bind` makes of the request. The rows are `model.TaskExecuteItem`, with the columns that the
-- handler reads or writes.
use ssoc_broker.Base.{
  ◌≡◌, ◌≢◌, refl, sym, ap, ◌∙◌, subst, ◌⊎◌, inl, inr, Bool-cases, List, [], ◌∷◌, Bool, true, false,
  not, ◌&&◌, Option, some, Text, Elem, arith, if◌then◌else◌,
}
use ssoc_broker.Base.Int.{ℤ, int_eq}
use ssoc_broker.Store.{Result, Result-cases, ok, missing, failed, Table, update_where}
use ssoc_broker.Store.Batch.{rows}
pub mod Push

-- `model.TaskExecuteErrorCodeSucceed`, `…Exec`, `…Agent`, or another code.
pub data ErrorCode : Type 0 where
  code_succeed code_exec code_agent : ErrorCode
  code_other : ℤ → ErrorCode

abbrev pub is_success : ErrorCode → Bool
is_success code_succeed = true
is_success _ = false

pub record TaskStepStatus : Type 0 where
  pub succeed : Bool
  pub reason : Text
  pub executed_at : ℤ

pub record TaskExecution : Type 0 where
  pub executed_at : ℤ
  pub finished_at : ℤ
  pub elapsed : ℤ

pub record TaskExecuteItem : Type 0 where
  pub id : ℤ
  pub exec_id : ℤ
  pub task_id : ℤ
  pub minion_id : ℤ
  pub broker_id : ℤ
  pub broker_status : Option TaskStepStatus
  pub finished : Bool
  pub succeed : Bool
  pub result : Text
  pub minion_status : Option TaskStepStatus
  pub execution : Option TaskExecution
  pub error_code : ErrorCode

abbrev pub item_with_id : ℤ → TaskExecuteItem → TaskExecuteItem
item_with_id n x = record x { id = n }

pub record ReportData : Type 0 where
  pub id : ℤ
  pub exec_id : ℤ
  pub succeed : Bool
  pub reason : Text
  pub start_time : ℤ
  pub end_time : ℤ
  pub duration : ℤ
  pub result : Text

-- `wheres`
abbrev pub names : ℤ → ReportData → TaskExecuteItem → Bool
names mid req x = int_eq x.exec_id req.exec_id && int_eq x.task_id req.id && int_eq x.minion_id mid

-- `updates`
abbrev pub execute : ℤ → ReportData → TaskExecuteItem → TaskExecuteItem
execute now req x = record x {
  finished = true;
  succeed = req.succeed;
  result = req.result;
  minion_status = some (record { succeed = req.succeed; reason = req.reason; executed_at = now });
  execution =
      some (record {
        executed_at = req.start_time;
        finished_at = req.end_time;
        elapsed = req.duration;
      });
  error_code = if req.succeed then code_succeed else code_exec;
}

unfoldable pub report :
    Table item_with_id
    → ℤ
    → ℤ
    → Result ReportData
    → List TaskExecuteItem
    → List TaskExecuteItem × Result (Unit {0})
report tbl now mid bound t = elim bound [
  | ok req ↦ elim (tbl.update (names mid req) (execute now req) t) [
    | ok u ↦ (u.1, ok tt)
    | missing ↦ (t, missing)
    | failed e ↦ (t, failed e)
  ]
  | missing ↦ (t, missing)
  | failed e ↦ (t, failed e)
]

-- What an item shows after the report.
pub record Executed (req : ReportData) (x : TaskExecuteItem) : Type 0 where
  pub is_finished : x.finished ≡ true
  pub same_result : x.result ≡ req.result
  pub same_outcome : x.succeed ≡ req.succeed
  pub same_code : is_success x.error_code ≡ req.succeed

execute-Executed :
    (now : ℤ) (req : ReportData) (x : TaskExecuteItem) → Executed req (execute now req x)
execute-Executed now req x = record {
  is_finished = refl;
  same_result = refl;
  same_outcome = refl;
  same_code = ground arith;
}

module _ (now mid : ℤ) (req : ReportData) where
  updated-Executed :
      (t : List TaskExecuteItem) (x : TaskExecuteItem)
      → Elem x (update_where (names mid req) (execute now req) t)
      → names mid req x ≡ true
      → Executed req x
  updated-Executed [] x e h = absurd e
  updated-Executed (y ∷ t) x (inr e) h = updated-Executed t x e h
  updated-Executed (y ∷ t) x (inl e) h = elim (Bool-cases (names mid req y)) [
    | inl q ↦
        let put : execute now req y ≡ x =
          ap (λ b. if b then execute now req y else y) (sym q) ∙ e in
        subst (Executed req) put (execute-Executed now req y)
    | inr q ↦
        let kept : y ≡ x = ap (λ b. if b then execute now req y else y) (sym q) ∙ e in
        absurd (ground (arith, ap (names mid req) kept))
  ]

  rows-updated :
      (t : List TaskExecuteItem)
      → rows (λ x. not (names mid req x)) (update_where (names mid req) (execute now req) t)
        ≡ rows (λ x. not (names mid req x)) t
  rows-updated [] = refl
  rows-updated (y ∷ t) = ground (arith, rows-updated t)

-- A report that ends well finishes every item of its execution, task and agent, with the outcome that it
-- reports and the error code that belongs to it, and leaves all other items as they were, in their order;
-- one that fails changes nothing.
pub report-Fate :
    (tbl : Table item_with_id) (now mid : ℤ) (bound : Result ReportData) (t : List TaskExecuteItem)
    → ((req : ReportData) × (bound ≡ ok req)
        × ((report tbl now mid bound t).1 ≡ ok tt)
        × ((x : TaskExecuteItem)
            → Elem x (report tbl now mid bound t).0
            → names mid req x ≡ true
            → Executed req x)
        × (rows (λ x. not (names mid req x)) (report tbl now mid bound t).0
            ≡ rows (λ x. not (names mid req x)) t))
      ⊎ (((report tbl now mid bound t).1 ≢ ok tt) × ((report tbl now mid bound t).0 ≡ t))
unfolding report
report-Fate tbl now mid missing t = inr (λ h. cc, refl)
report-Fate tbl now mid (failed e) t = inr (λ h. cc, refl)
report-Fate tbl now mid (ok req) t =
    elim (Result-cases (tbl.update (names mid req) (execute now req) t)) [
      | inl ((n, t'), e) ↦
          let shape = tbl.update_ok (names mid req) (execute now req) n t t' e in
          rw (e, report)
            (rw shape
              (inl (req, refl, refl, updated-Executed now mid req t, rows-updated now mid req t)))
      | inr (inl e) ↦ rw (e, report) (inr (λ h. cc, refl))
      | inr (inr (x, e)) ↦ rw (e, report) (inr (λ h. cc, refl))
    ]
