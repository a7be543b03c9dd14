-- ===== src/Collect/Answers.antt =====
-- What the handlers of app/agtapi/collect.go answer when the insertion of a full report fails.
use mathlib.Core.List.{Perm}
use ssoc_broker.Base.{ℕ, ◌≡◌, List, ◌∷◌, map, Text, arith}
use ssoc_broker.Base.Int.{ℤ}
use ssoc_broker.Store.{ok, failed}
use ssoc_broker.Store.Batch.{Bulk, Some, rows}
use ssoc_broker.Collect.Param.{CollectProcess, CollectListenItem}
use ssoc_broker.Collect.Model.{MinionProcess, MinionListen, process_model, listen_model}
use ssoc_broker.Collect.Replace.{Kind, of_minion}
use ssoc_broker.Collect.Handlers.{process_kind, listen_kind, process_full, listen_full}
use ssoc_broker.Collect.Laws.{rows-apply_full}

-- The agent's rows in `t` are rows of a part of the items, and no other rows.
abbrev pub PartOf : {R Item Key : Type 0} → Kind R Item Key → ℤ → Text → List Item → List R → Type 0
PartOf {R} kind mid inet items t =
    (kept : List R) × Some kept (map (kind.model mid inet) items)
    × Perm (rows (of_minion kind mid) t) kept

module _ (mid : ℤ) (inet : Text) where
  -- When the agent's rows have been deleted and the insertion of a report that is not empty fails, the
  -- rows that the agent had are gone from both tables: what is left is a part of the reported rows.
  -- `ProcessFull` answers that all is well; `ListenFull` answers with the error.
  pub process_full-listen_full :
      {Float : Type 0} (now : ℕ) (ps : Bulk (MinionProcess Float)) (ls : Bulk MinionListen)
      (y : CollectProcess Float) (ys : List (CollectProcess Float)) (x : CollectListenItem)
      (xs : List CollectListenItem) (t t' : List (MinionProcess Float)) (u u' : List MinionListen)
      (d e : Text)
      → ps.delete (of_minion (process_kind now) mid) t ≡ ok t'
      → ls.delete (of_minion listen_kind mid) u ≡ ok u'
      → (ps.insert (map (process_model now mid inet) (y ∷ ys)) t').1 ≡ failed d
      → (ls.insert (map (listen_model mid inet) (x ∷ xs)) u').1 ≡ failed e
      → (((process_full mid inet now ps (ok (y ∷ ys)) t).1 ≡ ok tt)
          × PartOf
              (process_kind now)
              mid
              inet
              (y ∷ ys)
              (process_full mid inet now ps (ok (y ∷ ys)) t).0)
        × (((listen_full mid inet ls (ok (x ∷ xs)) u).1 ≡ failed e)
            × PartOf listen_kind mid inet (x ∷ xs) (listen_full mid inet ls (ok (x ∷ xs)) u).0)
  unfolding process_full listen_full
  process_full-listen_full now ps ls y ys x xs t t' u u' d e p q f g = (
    (ground arith, (rows-apply_full (process_kind now) ps mid inet (λ _. ok tt) (y ∷ ys) t t' p).0),
    (ground arith, (rows-apply_full listen_kind ls mid inet (λ r. r) (x ∷ xs) u u' q).0),
  )
