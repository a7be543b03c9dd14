-- ===== src/Executions/Push.antt =====
-- appv2/manager/mservice/task.go: the center makes the broker send a task to the agents of an execution.
-- `found` is what `First` answers, `oneway` a message to an agent with the text of its error, and
-- `find_in_batches` the rows that FindInBatches hands over, and its own error. A push is one step here,
-- also where others could run between its two locked parts.
use ssoc_broker.Base.{
  ◌≡◌, refl, ap, ◌∙◌, inl, inr, List, [], ◌∷◌, Bool, Bool-cases, true, false, ◌&&◌, ◌||◌, Option,
  some, none, is_none, Text, codes, arith, if◌then◌else◌,
}
use ssoc_broker.Base.Int.{ℤ, int_eq}
use ssoc_broker.Store.{Result, Result-cases, ok, missing, failed, M, Table}
use ssoc_broker.Collect.Laws.{int_eq_refl}
use ssoc_broker.Executions.{TaskExecuteItem, item_with_id, code_agent}

pub record TaskExecute : Type 0 where
  pub id : ℤ
  pub task_id : ℤ
  pub name : Text
  pub intro : Text
  pub code : Text
  pub code_sha1 : Text
  pub timeout : ℤ

pub record TaskPushData : Type 0 where
  pub id : ℤ
  pub exec_id : ℤ
  pub name : Text
  pub intro : Text
  pub code : Text
  pub code_sha1 : Text
  pub timeout : ℤ

-- `limit`, with the rows and the agents.
pub record Pushing (W : Type 0) : Type 0 where
  pub limit : List ℤ
  pub items : List TaskExecuteItem
  pub agents : W

abbrev pub held : ℤ → List ℤ → Bool
held id [] = false
held id (x ∷ xs) = int_eq x id || held id xs

-- `delete(tsk.limit, execID)`
abbrev pub release : ℤ → List ℤ → List ℤ
release id [] = []
release id (x ∷ xs) = let rest = release id xs in if int_eq x id then rest else x ∷ rest

abbrev pub already_pushing : Text
already_pushing = codes "task already pushing"

abbrev pub push_data : ℤ → TaskExecute → TaskPushData
push_data exec_id d = record {
  id = d.task_id;
  exec_id = exec_id;
  name = d.name;
  intro = d.intro;
  code = d.code;
  code_sha1 = d.code_sha1;
  timeout = d.timeout;
}

-- `wheres`
abbrev pub unsent : ℤ → ℤ → TaskExecuteItem → Bool
unsent broker_id exec_id x =
    int_eq x.broker_id broker_id && int_eq x.exec_id exec_id && is_none x.broker_status

-- `updates`, from the error of `pushTask`.
abbrev pub sent : ℤ → Option Text → TaskExecuteItem → TaskExecuteItem
sent now none x = record x {
  broker_status = some (record { succeed = true; reason = []; executed_at = now });
}
sent now (some e) x = record x {
  broker_status = some (record { succeed = false; reason = e; executed_at = now });
  finished = true;
  error_code = code_agent;
}

module _ {W : Type 0} (tbl : Table item_with_id)
    (find_in_batches : (TaskExecuteItem → Bool)
      → List TaskExecuteItem
      → List TaskExecuteItem × Result (Unit {0}))
    (oneway : ℤ → TaskPushData → W → W × Option Text) (broker_id now : ℤ) where
  -- One row; an error of its update is dropped.
  unfoldable pub push_item : ℤ → TaskExecute → TaskExecuteItem → Pushing W → Pushing W
  push_item exec_id d x s =
      let (w, e) = oneway x.minion_id (push_data exec_id d) s.agents in
      record s {
        agents = w;
        items = elim (tbl.update (λ y. int_eq y.id x.id) (sent now e) s.items) [
          | ok u ↦ u.1
          | missing ↦ s.items
          | failed t ↦ s.items
        ];
      }

  unfoldable pub push_items : ℤ → TaskExecute → List TaskExecuteItem → Pushing W → Pushing W
  unfolding push_item
  push_items exec_id d [] s = s
  push_items exec_id d (x ∷ xs) s = push_items exec_id d xs (push_item exec_id d x s)

  unfoldable pub execute : TaskExecute → M (Pushing W) (Unit {0})
  unfolding push_items
  execute d s =
      let (found, err) = find_in_batches (unsent broker_id d.id) s.items in
      let s' = push_items d.id d found s in (record s' { limit = release d.id s'.limit }, err)

  -- The error of `execute` is dropped.
  unfoldable pub push : Result TaskExecute → ℤ → M (Pushing W) (Unit {0})
  unfolding execute
  push found exec_id s =
      let s' = record s { limit = exec_id ∷ s.limit } in
      if held exec_id s.limit then (s, failed already_pushing) else elim found [
        | ok d ↦ ((execute d s').0, ok tt)
        | missing ↦ (s', missing)
        | failed e ↦ (s', failed e)
      ]

  push_items-limit :
      (exec_id : ℤ) (d : TaskExecute) (xs : List TaskExecuteItem) (s : Pushing W)
      → (push_items exec_id d xs s).limit ≡ s.limit
  unfolding push_items push_item
  push_items-limit exec_id d [] s = refl
  push_items-limit exec_id d (x ∷ xs) s = push_items-limit exec_id d xs _

  release_unheld : (id : ℤ) (xs : List ℤ) → held id xs ≡ false → release id xs ≡ xs
  release_unheld id [] h = refl
  release_unheld id (x ∷ xs) h = ground (arith, release_unheld id xs)

  release_front : (id : ℤ) (xs : List ℤ) → held id xs ≡ false → release id (id ∷ xs) ≡ xs
  release_front id xs h = rw (int_eq_refl id) (release_unheld id xs h)

  held_refused :
      (found : Result TaskExecute) (id : ℤ) (s : Pushing W)
      → held id s.limit ≡ true
      → push found id s ≡ (s, failed already_pushing)
  unfolding push
  held_refused found id s h = rw h refl

  held_left : (id : ℤ) (xs : List ℤ) → held id (id ∷ xs) ≡ true
  held_left id xs = rw (int_eq_refl id) refl

  held_more : (id i : ℤ) (xs : List ℤ) → held id xs ≡ true → held id (i ∷ xs) ≡ true
  held_more id i xs h = ground arith

  execute-limit :
      (d : TaskExecute) (id : ℤ) (s : Pushing W)
      → d.id ≡ id
      → held id s.limit ≡ false
      → (execute d (record s { limit = id ∷ s.limit })).0.limit ≡ s.limit
  unfolding execute
  execute-limit d id s same h =
      let s0 : Pushing W = record s { limit = id ∷ s.limit } in
      ap (release d.id)
        (push_items-limit d.id d (find_in_batches (unsent broker_id d.id) s.items).0 s0)
      ∙ ap (λ k. release k s0.limit) same
      ∙ release_front id s.limit h

  push-other :
      (found : Result TaskExecute) (id i : ℤ) (s : Pushing W)
      → ((d : TaskExecute) → found ≡ ok d → d.id ≡ i)
      → held id s.limit ≡ true
      → held id (push found i s).0.limit ≡ true
  unfolding push
  push-other found id i s same h = elim (Bool-cases (held i s.limit)) [
    | inl k ↦ rw (k, push) h
    | inr k ↦ elim (Result-cases found) [
      | inl (d, e) ↦ rw (k, push) (rw e (ap (held id) (execute-limit d i s (same d e) k) ∙ h))
      | inr (inl e) ↦ rw (k, push) (rw e (held_more id i s.limit h))
      | inr (inr (x, e)) ↦ rw (k, push) (rw e (held_more id i s.limit h))
    ]
  ]

  -- The state that further pushes lead to, of any executions, found or not.
  pub data Later : Pushing W → Pushing W → Type 0 where
    now_on : {s : Pushing W} → Later s s
    pushed :
        {s s' : Pushing W}
        → (found : Result TaskExecute) (id : ℤ) → ((d : TaskExecute) → found ≡ ok d → d.id ≡ id)
        → Later (push found id s).0 s'
        → Later s s'

  Later-held :
      (id : ℤ) {s s' : Pushing W} → Later s s' → held id s.limit ≡ true → held id s'.limit ≡ true
  Later-held id now_on h = h
  Later-held id (pushed {s} found i same l) h = Later-held id l (push-other found id i s same h)

  -- No later push of the execution is let in.
  abbrev pub Stuck : ℤ → Pushing W → Type 0
  Stuck id s =
      (s' : Pushing W) (again : Result TaskExecute)
      → Later s s'
      → push again id s' ≡ (s', failed already_pushing)

  held-Stuck : (id : ℤ) (s : Pushing W) → held id s.limit ≡ true → Stuck id s
  held-Stuck id s h s' again l = held_refused again id s' (Later-held id l h)

  -- What a push leaves, by what `First` found.
  abbrev pub Pushed : ℤ → Pushing W → Result TaskExecute → Pushing W × Result (Unit {0}) → Type 0
  Pushed id s (ok d) out = (out.1 ≡ ok tt) × (out.0.limit ≡ s.limit)
  Pushed id s missing out = (out.1 ≡ missing) × (out.0.items ≡ s.items) × Stuck id out.0
  Pushed id s (failed e) out = (out.1 ≡ failed e) × (out.0.items ≡ s.items) × Stuck id out.0

  -- A push of an execution that no push holds, by what its query finds (the row that it finds has the
  -- id that was asked for). If the row is found, the push ends well and holds the executions that were
  -- held before. If there is no row, or the query fails, the push answers with that error and leaves
  -- the rows as they were, and after any further pushes a push of this execution is refused and
  -- changes nothing, also if the row can be read by then.
  pub push-Pushed :
      (found : Result TaskExecute) (id : ℤ) (s : Pushing W)
      → ((d : TaskExecute) → found ≡ ok d → d.id ≡ id)
      → held id s.limit ≡ false
      → Pushed id s found (push found id s)
  unfolding push
  push-Pushed (ok d) id s same h = rw h (refl, execute-limit d id s (same d refl) h)
  push-Pushed missing id s same h = rw h (refl, refl, held-Stuck id _ (held_left id s.limit))
  push-Pushed (failed x) id s same h = rw h (refl, refl, held-Stuck id _ (held_left id s.limit))
