-- ===== src/TaskDiff.antt =====
-- app/internal/param/diff.go: what an agent must delete and what it must update, from the report of
-- its tasks and the configurations (`model.Substances`) that the center holds for it. A time is a
-- number, 0 for the zero time; `model.TaskRunners` is a parameter, carried along.
pub mod Laws
pub mod Sync
use ssoc_broker.Base.{
  ℕ, List, [], ◌∷◌, ◌++◌, Option, none, some, Bool, true, false, not, ◌&&◌, if◌then◌else◌, ◌==◌,
  Text, text_eq, codes, is_empty,
}
use ssoc_broker.Base.Int.{ℤ, ℤ_discrete, int_eq}
use ssoc_broker.GoMap.{lookup, insert, remove}

pub record TaskChunk : Type 0 where
  pub id : ℤ
  pub name : Text
  pub dialect : Bool
  pub hash : Text
  pub chunk : Text
  pub priority : ℤ

pub record TaskDiff : Type 0 where
  pub removes : List ℤ
  pub updates : List TaskChunk

pub record TaskStatus (Runners : Type 0) : Type 0 where
  pub id : ℤ
  pub dialect : Bool
  pub name : Text
  pub status : Text
  pub hash : Text
  pub uptime : ℕ
  pub from : Text
  pub link : Text
  pub cause : Text
  pub runners : Runners

-- The fields of `model.Substance` that `Diff` reads.
pub record Substance : Type 0 where
  pub id : ℤ
  pub name : Text
  pub minion_id : ℤ
  pub hash : Text
  pub chunk : Text
  pub priority : ℤ

-- The fields of `model.MinionTask` that `ToModels` writes.
pub record MinionTask (Runners : Type 0) : Type 0 where
  pub substance_id : ℤ
  pub minion_id : ℤ
  pub inet : Text
  pub dialect : Bool
  pub name : Text
  pub status : Text
  pub hash : Text
  pub from : Text
  pub link : Text
  pub uptime : ℕ
  pub has_failed : Bool
  pub cause : Text
  pub runners : Runners
  pub created_at : ℕ

abbrev pub is_nil {ℓ} : {A : Type ℓ} → List A → Bool
is_nil [] = true
is_nil (x ∷ xs) = false

unfoldable pub not_modified : TaskDiff → Bool
not_modified td = is_nil td.removes && is_nil td.updates

abbrev pub chunk_of : ℤ → Substance → TaskChunk
chunk_of mid sub = record {
  id = sub.id;
  name = sub.name;
  dialect = int_eq sub.minion_id mid;
  hash = sub.hash;
  chunk = sub.chunk;
  priority = sub.priority;
}

module _ {Runners : Type 0} where
  -- `hm[task.ID] = task` for each task.
  unfoldable pub id_map_loop :
      List (ℤ × TaskStatus Runners) → List (TaskStatus Runners) → List (ℤ × TaskStatus Runners)
  id_map_loop hm [] = hm
  id_map_loop hm (task ∷ tasks) = id_map_loop (insert ℤ_discrete task.id task hm) tasks

  unfoldable pub id_map : List (TaskStatus Runners) → List (ℤ × TaskStatus Runners)
  unfolding id_map_loop
  id_map tasks = id_map_loop [] tasks

  unfoldable pub to_model : ℤ → Text → ℕ → TaskStatus Runners → MinionTask Runners
  to_model mid inet now task = record {
    substance_id = task.id;
    minion_id = mid;
    inet = inet;
    dialect = task.dialect;
    name = task.name;
    status = task.status;
    hash = task.hash;
    from = task.from;
    link = task.link;
    uptime = if task.uptime == 0 then now else task.uptime;
    has_failed = not (is_empty task.cause);
    cause = task.cause;
    runners = task.runners;
    created_at = now;
  }

  unfoldable pub to_models : ℤ → Text → ℕ → List (TaskStatus Runners) → List (MinionTask Runners)
  unfolding to_model
  to_models mid inet now [] = []
  to_models mid inet now (task ∷ tasks) = to_model mid inet now task ∷ to_models mid inet now tasks

  -- `ok && rp.Hash == sub.Hash`.
  abbrev pub is_current : Option (TaskStatus Runners) → Substance → Bool
  is_current none sub = false
  is_current (some rp) sub = text_eq rp.hash sub.hash

  -- The loop over `subs`: what is left of `hm`, and `updates`.
  unfoldable pub update_loop :
      ℤ
      → List (ℤ × TaskStatus Runners)
      → List TaskChunk
      → List Substance
      → List (ℤ × TaskStatus Runners) × List TaskChunk
  update_loop mid hm updates [] = (hm, updates)
  update_loop mid hm updates (sub ∷ subs) =
      update_loop mid (remove ℤ_discrete sub.id hm)
        (if is_current (lookup ℤ_discrete sub.id hm) sub
          then updates
          else updates ++ (chunk_of mid sub ∷ []))
        subs

  -- The loop over what is left of `hm`.
  unfoldable pub remove_loop : List (ℤ × TaskStatus Runners) → List ℤ
  remove_loop [] = []
  remove_loop ((_, rp) ∷ hm) =
      let rest = remove_loop hm in if text_eq rp.from (codes "tunnel") then rp.id ∷ rest else rest

  unfoldable pub diff : List (TaskStatus Runners) → ℤ → List Substance → TaskDiff
  unfolding id_map update_loop remove_loop
  diff tasks mid subs =
      let (left, updates) = update_loop mid (id_map tasks) [] subs in
      record { removes = remove_loop left; updates = updates }
