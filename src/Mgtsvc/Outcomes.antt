-- ===== src/Mgtsvc/Outcomes.antt =====
-- What the tasks of app/mgtsvc leave behind.
use ssoc_broker.Base.{
  ℕ, ◌≡◌, refl, ap, ◌∙◌, List, [], ◌∷◌, some, Bool, true, false, not, ◌&&◌, ◌||◌, if◌then◌else◌,
  Text, codes, text_eq, arith, Bool-cases, inl, inr,
}
use ssoc_broker.Base.Int.{ℤ, pos, int_eq}
use ssoc_broker.Store.{Result, ok, missing, failed, M, update_where}
use ssoc_broker.Store.Batch.{rows}
use ssoc_broker.Mlink.SegmentMap.Laws.{IsValid}
use ssoc_broker.Mlink.Hub.{Hub}
use ssoc_broker.Mlink.Hub.Registry.{registered, without, knockout-registered}
use ssoc_broker.Mgtsvc.Notices.{run_command, SubstanceTask, is_open, settle_task, run_table_task}

abbrev stops : Text → Bool
stops cmd = text_eq cmd (codes "offline") || text_eq cmd (codes "restart")

-- A command is sent to the agent, and then, if it is `offline` or `restart` and the agent's id is not 0,
-- exactly that agent's connection is taken out of the registry, whatever the agent answered; any other
-- command leaves the registry as it was. It never panics on a well-formed registry.
pub run_command-registered :
    {W : Type 0} (oneway : ℤ → Text → W → W × Result (Unit {0})) (mid : ℤ) (cmd : Text) (w : W)
    (h : Hub)
    → IsValid h.section
    → (h' : Hub) × (run_command oneway mid cmd w h ≡ some ((oneway mid cmd w).0, h'))
      × IsValid h'.section
      × ((j : ℤ)
          → registered h' j ≡ (
              if (text_eq cmd (codes "offline") || text_eq cmd (codes "restart"))
                && not (int_eq mid (pos 0))
              then without mid (registered h) j
              else registered h j))
unfolding run_command
run_command-registered oneway mid cmd w h v = elim (Bool-cases (stops cmd)) [
  | inl e ↦
      let (h', out, v', same, law) = knockout-registered mid h v in
      (h', rw (e, run_command) (rw out refl), v', λ j. law j ∙ rw e (ground arith))
  | inr e ↦ (h, rw (e, run_command) refl, v, λ j. rw e refl)
]

module _ {R : Type 0} (p : R → Bool) (f : R → R) where
  rows-update_where :
      (t : List R) → ((r : R) → p r ≡ true → p (f r) ≡ false) → rows p (update_where p f t) ≡ []
  rows-update_where [] h = refl
  rows-update_where (r ∷ t) h = ground (arith, rows-update_where t h, h r)

  rows-update_where_ne :
      (q : R → Bool) (t : List R)
      → ((r : R) → p r ≡ true → (q r ≡ false) × (q (f r) ≡ false))
      → rows q (update_where p f t) ≡ rows q t
  rows-update_where_ne q [] h = refl
  rows-update_where_ne q (r ∷ t) h = ground (arith, rows-update_where_ne q t h, h r)

settle_task-closed :
    (answer : Result (Unit {0})) (t : SubstanceTask)
    → ((settle_task answer t).executed ≡ true) × ((settle_task answer t).minion_id ≡ t.minion_id)
settle_task-closed (ok u) t = (refl, refl)
settle_task-closed missing t = (refl, refl)
settle_task-closed (failed e) t = (refl, refl)

other_agent : (a b c : ℤ) → int_eq a b ≡ true → int_eq b c ≡ false → int_eq a c ≡ false
other_agent a b c h n = ground arith

-- When an agent's part of a table of tasks has run, none of its rows is open, whether the
-- synchronisation succeeded or not, and the open rows of the other agents are as they were, if the
-- update of the table succeeds.
pub rows-run_table_task :
    {S : Type 0} (rsync_task : ℤ → M S (Unit {0}))
    (update : (SubstanceTask → Bool)
      → (SubstanceTask → SubstanceTask)
      → List SubstanceTask
      → Result (ℕ × List SubstanceTask))
    (bid tid mid i : ℤ) (s : S) (t t' : List SubstanceTask) (n : ℕ)
    → update (is_open bid tid mid) (settle_task (rsync_task mid s).1) t ≡ ok (n, t')
    → t' ≡ update_where (is_open bid tid mid) (settle_task (rsync_task mid s).1) t
    → int_eq mid i ≡ false
    → (rows (is_open bid tid mid) (run_table_task rsync_task update bid tid mid s t).1 ≡ [])
      × (rows (is_open bid tid i) (run_table_task rsync_task update bid tid mid s t).1
          ≡ rows (is_open bid tid i) t)
unfolding run_table_task
rows-run_table_task rsync_task update bid tid mid i s t t' n done law other =
    let answer = (rsync_task mid s).1 in
    let settle = settle_task answer in
    let closes : (r : SubstanceTask) → (settle r).executed ≡ true =
      λ r. (settle_task-closed answer r).0 in
    (
      rw (done, run_table_task)
          (ap (rows (is_open bid tid mid)) law
            ∙ rows-update_where (is_open bid tid mid) settle t (λ r h. ground (arith, closes r))),
      rw (done, run_table_task)
          (ap (rows (is_open bid tid i)) law
            ∙ rows-update_where_ne (is_open bid tid mid) settle (is_open bid tid i) t
                (λ r h. (ground (arith, other_agent r.minion_id mid i), ground (arith, closes r)))),
    )
