-- ===== src/Mgtsvc/Notices.antt =====
-- app/mgtsvc/agent_command.go, agent_startup.go, agent_table.go, agent_broadcast.go, agent_third.go and
-- agent_upgrade.go: what the broker sends to agents for the center. The work that a method hands to its
-- pool is the function of the one task. `oneway` sends a message and waits for no answer.
use ssoc_broker.Base.{
  ℕ, List, [], ◌∷◌, Option, none, some, Bool, true, false, not, ◌&&◌, ◌||◌, if◌then◌else◌, Text,
  codes, text_eq,
}
use ssoc_broker.Base.Int.{ℤ, int_eq}
use ssoc_broker.Store.{Result, ok, missing, failed, M}
use ssoc_broker.Mlink.Hub.{Hub, knockout, connect_ids}

-- `commandTask.Run`
unfoldable pub run_command :
    {W : Type 0} → (ℤ → Text → W → W × Result (Unit {0})) → ℤ → Text → W → Hub → Option (W × Hub)
run_command oneway mid cmd w h =
    let (w', answer) = oneway mid cmd w in
    if text_eq cmd (codes "offline") || text_eq cmd (codes "restart")
    then elim (knockout mid h) [ none ↦ none | some (h', conn) ↦ some (w', h') ]
    else some (w', h)

-- `messageTask.Run` for each of some agents; the errors are dropped.
unfoldable pub run_messages : {W : Type 0} → (ℤ → W → W × Result (Unit {0})) → List ℤ → W → W
run_messages oneway [] w = w
run_messages oneway (mid ∷ mids) w = run_messages oneway mids (oneway mid w).0

unfoldable pub broadcast : {W : Type 0} → (ℤ → W → W × Result (Unit {0})) → Hub → W → W
unfolding run_messages
broadcast oneway h w = run_messages oneway (connect_ids h) w

-- `model.StartupFallback`, and the columns of `model.Startup` that the task reads and writes.
pub record StartupFallback (Logger : Type 0) : Type 0 where
  pub id : ℤ
  pub logger : Logger
  pub created_at : ℕ
  pub updated_at : ℕ

pub record Startup (Logger : Type 0) : Type 0 where
  pub id : ℤ
  pub logger : Option Logger
  pub created_at : ℕ
  pub updated_at : ℕ
  pub has_failed : Bool
  pub reason : Text

abbrev pub startup_of : {Logger : Type 0} → ℤ → Startup Logger → Bool
startup_of mid s = int_eq s.id mid

module _ {Logger : Type 0}
    (first : (Startup Logger → Bool) → List (Startup Logger) → Result (Startup Logger))
    (fallback : Result (StartupFallback Logger)) where
  -- The newest fallback, under the agent's id.
  abbrev pub fallback_for : ℤ → Result (StartupFallback Logger)
  fallback_for mid = elim fallback [
    | ok f ↦ ok (record f { id = mid })
    | missing ↦ missing
    | failed e ↦ failed e
  ]

  unfoldable pub get_startup : ℤ → List (Startup Logger) → Result (StartupFallback Logger)
  get_startup mid rows = elim (first (startup_of mid) rows) [
    | ok dat ↦ elim dat.logger [
      | some logger ↦ ok (record {
        id = mid;
        logger = logger;
        created_at = dat.created_at;
        updated_at = dat.updated_at;
      })
      | none ↦ fallback_for mid
    ]
    | missing ↦ fallback_for mid
    | failed e ↦ fallback_for mid
  ]

  -- What the answer of the agent is recorded as; `missing` is no error of a link, so its text is empty.
  abbrev pub record_answer : Result (Unit {0}) → Startup Logger → Startup Logger
  record_answer (ok u) s = record s { has_failed = false; reason = [] }
  record_answer missing s = record s { has_failed = true; reason = [] }
  record_answer (failed e) s = record s { has_failed = true; reason = e }

  -- `startupTask.Run`; the error of the update is dropped.
  unfoldable pub run_startup :
      {W : Type 0}
      → (ℤ → StartupFallback Logger → W → W × Result (Unit {0}))
      → ((Startup Logger → Bool)
          → (Startup Logger → Startup Logger)
          → List (Startup Logger)
          → Result (ℕ × List (Startup Logger)))
      → ℤ
      → W
      → List (Startup Logger)
      → W × List (Startup Logger)
  unfolding get_startup
  run_startup oneway update mid w rows = elim (get_startup mid rows) [
    | ok startup ↦
        let (w', answer) = oneway mid startup w in
        (
          w',
          elim (update (startup_of mid) (record_answer answer) rows) [
            | ok (_, rows') ↦ rows'
            | missing ↦ rows
            | failed e ↦ rows
          ],
        )
    | missing ↦ (w, rows)
    | failed e ↦ (w, rows)
  ]

-- The columns of `model.SubstanceTask` that the task of a table reads and writes.
pub record SubstanceTask : Type 0 where
  pub minion_id : ℤ
  pub task_id : ℤ
  pub broker_id : ℤ
  pub executed : Bool
  pub has_failed : Bool
  pub reason : Text

abbrev pub is_open : ℤ → ℤ → ℤ → SubstanceTask → Bool
is_open bid tid mid t =
    int_eq t.broker_id bid && int_eq t.task_id tid && int_eq t.minion_id mid && not t.executed

abbrev pub settle_task : Result (Unit {0}) → SubstanceTask → SubstanceTask
settle_task (ok u) t = record t { executed = true }
settle_task missing t = record t {
  executed = true;
  has_failed = true;
  reason = codes "record not found";
}
settle_task (failed e) t = record t { executed = true; has_failed = true; reason = e }

-- `tableTask.Run`, around `rsyncTask` of the agent.
unfoldable pub run_table_task :
    {S : Type 0}
    → (ℤ → M S (Unit {0}))
    → ((SubstanceTask → Bool)
        → (SubstanceTask → SubstanceTask)
        → List SubstanceTask
        → Result (ℕ × List SubstanceTask))
    → ℤ
    → ℤ
    → ℤ
    → S
    → List SubstanceTask
    → S × List SubstanceTask
run_table_task rsync_task update bid tid mid s rows =
    let (s', answer) = rsync_task mid s in
    (
      s',
      elim (update (is_open bid tid mid) (settle_task answer) rows) [
        | ok (_, rows') ↦ rows'
        | missing ↦ rows
        | failed e ↦ rows
      ],
    )
