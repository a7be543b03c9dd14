-- ===== src/Mgtsvc/Reports.antt =====
-- The table of tasks after a synchronisation.
use mathlib.Core.List.{Perm, append-nil}
use mathlib.Core.List.Perm
use ssoc_broker.Base.{
  ℕ, ◌≡◌, ◌≢◌, refl, sym, ap, ◌∙◌, subst, List, [], ◌∷◌, ◌++◌, true, false, Text, inl, inr,
  Bool-cases, Elem,
}
use ssoc_broker.Base.Int.{ℤ}
use ssoc_broker.Store.{Result-cases, ok}
use ssoc_broker.Store.Batch.{
  Bulk, discard, discard_lem, rows, rows-discard, rows-delete_where_self, rows-Added, rows-Added_ne,
  Some-Elem,
}
use ssoc_broker.TaskDiff.{TaskStatus, Substance, MinionTask, is_nil, to_models}
use ssoc_broker.Collect.Laws.{int_eq_refl, int_eq_ne, int_eq-true}
use ssoc_broker.Mgtsvc.Minion.{MinionLight, Catalog, substances}
use ssoc_broker.Mgtsvc.Rsync.{Link, World, is_of, store_report, rsync}
use ssoc_broker.Mgtsvc.Rounds.{Rounds}

nil_of : {A : Type 0} (xs : List A) → is_nil xs ≡ true → xs ≡ []
nil_of [] e = refl
nil_of (x ∷ xs) e = cc

module _ {Runners : Type 0} (tbl : Bulk (MinionTask Runners)) (mid : ℤ) (inet : Text) (now : ℕ)
    (report : List (TaskStatus Runners)) where
  abbrev Row : Type 0
  Row = MinionTask Runners

  to_models-mine : (t : Row) → Elem t (to_models mid inet now report) → t.minion_id ≡ mid
  unfolding to_models
  to_models-mine = walk report
    where
      walk :
          (xs : List (TaskStatus Runners)) (t : Row)
          → Elem t (to_models mid inet now xs)
          → t.minion_id ≡ mid
      walk [] t h = elim h [ ]
      walk (x ∷ xs) t (inl e) = ap (λ (y : Row). y.minion_id) (sym e)
      walk (x ∷ xs) t (inr h) = walk xs t h

  model-ne :
      (i : ℤ) → i ≢ mid → (t : Row) → Elem t (to_models mid inet now report) → is_of i t ≡ false
  model-ne i n t m = rw (to_models-mine t m) (int_eq_ne mid i (λ e. n (sym e)))

  model-mine : (t : Row) → Elem t (to_models mid inet now report) → is_of mid t ≡ true
  model-mine t m = rw (to_models-mine t m) (int_eq_refl mid)

  pub rows-store_report_ne :
      (t : List Row) (i : ℤ)
      → i ≢ mid
      → rows (is_of i) (store_report tbl mid inet now report t) ≡ rows (is_of i) t
  unfolding store_report
  rows-store_report_ne t i n =
      let left = discard tbl (is_of mid) t in
      let kept : rows (is_of i) left ≡ rows (is_of i) t =
        rows-discard tbl (is_of i) (is_of mid) t
          (λ r own. int_eq_ne r.minion_id i (λ e. n (sym e ∙ int_eq-true r.minion_id mid own))) in
      elim (Bool-cases (is_nil (to_models mid inet now report))) [
        | inl e ↦ rw (e, store_report) kept
        | inr e ↦
            let (some, some_of, added) = tbl.create_some (to_models mid inet now report) left in
            rw (e, store_report)
              (rows-Added_ne (is_of i) added (λ r m. model-ne i n r (Some-Elem r some_of m)) ∙ kept)
      ]

  pub rows-store_report :
      (t t' : List Row)
      → tbl.delete (is_of mid) t ≡ ok t'
      → (tbl.create (to_models mid inet now report) t').1 ≡ ok tt
      → Perm
          (rows (is_of mid) (store_report tbl mid inet now report t))
          (to_models mid inet now report)
  unfolding store_report
  rows-store_report t t' q w =
      let left : discard tbl (is_of mid) t ≡ t' =
        discard_lem tbl (is_of mid) t t' q ∙ sym (tbl.delete_ok _ t t' q) in
      let gone : rows (is_of mid) t' ≡ [] =
        ap (rows (is_of mid)) (tbl.delete_ok (is_of mid) t t' q)
        ∙ rows-delete_where_self (is_of mid) t in
      elim (Bool-cases (is_nil (to_models mid inet now report))) [
        | inl e ↦
            rw (e, store_report)
              (rw (left, gone) (subst (Perm []) (sym (nil_of _ e)) (Perm.refl [])))
        | inr e ↦
            rw (e, store_report)
              (rw left (
                subst (Perm _) (ap (λ l. to_models mid inet now report ++ l) gone ∙ append-nil _)
                  (rows-Added (is_of mid) (tbl.create_ok _ t' w) model-mine)))
      ]

module _ {W Runners Effect Exclude : Type 0} (lnk : Link W Runners) (cat : Catalog Effect Exclude)
    (sort : List Substance → List Substance) (tbl : Bulk (MinionTask Runners)) (cycle now : ℕ)
    (light : MinionLight) where
  -- A synchronisation leaves the reported tasks of every other agent as they are, whatever fails.
  pub rows-rsync_ne :
      (s : World W Runners) (i : ℤ)
      → i ≢ light.id
      → rows (is_of i) (rsync lnk cat sort tbl cycle now light s).0.tasks ≡ rows (is_of i) s.tasks
  unfolding rsync
  rows-rsync_ne s i n = elim (Result-cases (lnk.fetch_task_status light.id s.agents).1) [
    | inl (report, q) ↦ elim (Result-cases (substances cat light)) [
      | inl (subs, p) ↦
          rw (q, rsync) (rw p (rows-store_report_ne tbl light.id light.inet now _ s.tasks i n))
      | inr (inl p) ↦ rw (q, rsync) (rw p refl)
      | inr (inr (x, p)) ↦ rw (q, rsync) (rw p refl)
    ]
    | inr (inl q) ↦ rw (q, rsync) refl
    | inr (inr (x, q)) ↦ rw (q, rsync) refl
  ]
