-- ===== src/Tests/Synchronisation.antt =====
-- app/mgtsvc/agent_rsync.go with an agent that applies whatever it is told; bridge/telecom/client.go with
-- an address that accepts; downloads, tags.
use ssoc_broker.Base.{
  ℕ, ◌≤◌, ◌<◌, ◌≡◌, refl, ◌⊎◌, List, [], ◌∷◌, true, false, arith, codes, text_dec,
}
use ssoc_broker.Base.Int.{pos, ℤ_discrete}
use ssoc_broker.Store.{ok}
use ssoc_broker.Store.Batch
use ssoc_broker.Store.Batch.{Bulk}
use ssoc_broker.TaskDiff.{TaskStatus, Substance, MinionTask, diff, not_modified}
use ssoc_broker.GoMap.{lookup, insert, remove}
use ssoc_broker.TaskDiff.Laws.{DistinctIds}
use ssoc_broker.TaskDiff.Sync.{InSync}
use ssoc_broker.Mgtsvc.Minion.{MinionLight, Catalog, substances}
use ssoc_broker.Mgtsvc.Rsync.{Link, World, spin, rsync}
use ssoc_broker.Mgtsvc.Rounds.{Rounds, is_ok, pending, pending_pos, spin-Rounds, spin-InSync}
use ssoc_broker.Tests.Tasks.{task, config}

abbrev in_step : List (TaskStatus (Unit {0}))
in_step = task (pos 1) (codes "a") ∷ []

abbrev wanted : List Substance
wanted = config (pos 1) (codes "a") ∷ []

-- Its report before is empty, and after any difference it is in step.
abbrev link : Link (Unit {0}) (Unit {0})
link = record { fetch_task_status = λ mid w. (w, ok []); fetch_rsync = λ mid d w. (w, ok in_step) }

spin-Rounds_example :
    (r : List (TaskStatus (Unit {0}))) × (w1 : Unit {0}) × (n : ℕ) × Rounds link
      (pos 7)
      wanted
      r
      w1
      n
      []
      tt
    × (n ≤ 5)
    × (((spin link 5 (pos 7) wanted [] tt ≡ (w1, ok r))
          × ((not_modified (diff r (pos 7) wanted) ≡ true) ⊎ (n ≡ 5)))
        ⊎ ((n < 5)
            × (not_modified (diff r (pos 7) wanted) ≡ false)
            × (is_ok (link.fetch_rsync (pos 7) (diff r (pos 7) wanted) w1).1 ≡ false)
            × (spin link 5 (pos 7) wanted [] tt
                ≡ link.fetch_rsync (pos 7) (diff r (pos 7) wanted) w1)))
spin-Rounds_example = spin-Rounds link (pos 7) wanted 5 [] tt

wanted-DistinctIds : DistinctIds wanted
wanted-DistinctIds = (refl, tt)

in_step-pending : pending link (pos 7) wanted in_step ≡ 0
unfolding diff ℤ_discrete text_dec remove insert lookup
in_step-pending = refl

obeys :
    (last : List (TaskStatus (Unit {0}))) (w0 : Unit {0})
    → not_modified (diff last (pos 7) wanted) ≡ false
    → (nrp : List (TaskStatus (Unit {0}))) × (w1 : Unit {0}) × (link.fetch_rsync
          (pos 7)
          (diff last (pos 7) wanted)
          w0
        ≡ (w1, ok nrp))
      × (pending link (pos 7) wanted nrp < pending link (pos 7) wanted last)
obeys last w0 e =
    (in_step, w0, refl, omega (arith, in_step-pending, pending_pos (diff last (pos 7) wanted) e))

nothing_yet-pending : pending link (pos 7) wanted [] ≡ 1
unfolding diff ℤ_discrete text_dec remove insert lookup
nothing_yet-pending = refl

spin-InSync_example :
    (r : List (TaskStatus (Unit {0}))) × (w1 : Unit {0}) × (spin link 5 (pos 7) wanted [] tt
      ≡ (w1, ok r))
    × InSync r wanted
spin-InSync_example =
    spin-InSync link (pos 7) wanted 5 [] tt wanted-DistinctIds obeys
      (omega (arith, nothing_yet-pending))

abbrev catalog : Catalog (Unit {0}) (Unit {0})
catalog = record {
  tags = λ mid. ok [];
  effects = λ tags. ok [];
  exclusion = λ effs inet. [];
  substances = λ mid ids. ok wanted;
  excludes = λ mid. ok [];
  filter = λ exs subs. subs;
}

abbrev light : MinionLight
light = record { id = pos 7; inet = codes "10.0.0.7"; unload = false }

abbrev tasks : Bulk (MinionTask (Unit {0}))
tasks = Batch.memory

abbrev before : World (Unit {0}) (Unit {0})
before = record { agents = tt; tasks = [] }

abbrev after : World (Unit {0}) (Unit {0})
after = (rsync link catalog (λ s. s) tasks 5 9 light before).0
