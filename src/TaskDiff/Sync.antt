-- ===== src/TaskDiff/Sync.antt =====
-- `NotModified` means that the agent is in step with the center.
use ssoc_broker.Base.{
  ◌≡◌, refl, ap, sym, ◌∙◌, ◌↔◌, inl, inr, List, [], ◌∷◌, map, Option, some, true, arith, text_eq,
  codes, Elem, Bool-cases,
}
use ssoc_broker.Base.Int.{ℤ}
use ssoc_broker.TaskDiff.{TaskStatus, Substance, not_modified, is_current, chunk_of, diff}
use ssoc_broker.TaskDiff.Laws.{
  has_id, DistinctIds, reported, stale, updates-diff, Elem-removes-diff,
}

-- Every configuration is reported at its present hash, and every reported task that came down the
-- tunnel has a configuration.
pub record InSync {Runners : Type 0} (tasks : List (TaskStatus Runners)) (subs : List Substance)
    : Type 0 where
  pub present : (sub : Substance) → Elem sub subs → is_current (reported tasks sub.id) sub ≡ true
  pub known :
      (i : ℤ) (rp : TaskStatus Runners)
      → reported tasks i ≡ some rp
      → text_eq rp.from (codes "tunnel") ≡ true
      → has_id i subs ≡ true

module _ {Runners : Type 0} where
  stale_nil :
      (rep : ℤ → Option (TaskStatus Runners)) (subs : List Substance)
      → ((sub : Substance) → Elem sub subs → is_current (rep sub.id) sub ≡ true)
      → stale rep subs ≡ []
  stale_nil rep [] h = refl
  stale_nil rep (sub ∷ subs) h = rw (h sub (inl refl)) (stale_nil rep subs (λ s e. h s (inr e)))

  nil_stale :
      (rep : ℤ → Option (TaskStatus Runners)) (subs : List Substance) (sub : Substance)
      → stale rep subs ≡ []
      → Elem sub subs
      → is_current (rep sub.id) sub ≡ true
  nil_stale rep [] sub e h = elim h [ ]
  nil_stale rep (s ∷ subs) sub e (inl p) = rw (← p) (ground arith)
  nil_stale rep (s ∷ subs) sub e (inr h) = nil_stale rep subs sub (ground arith) h

nil_of_no-Elem : (xs : List ℤ) → ((i : ℤ) → ¬ Elem i xs) → xs ≡ []
nil_of_no-Elem [] h = refl
nil_of_no-Elem (x ∷ xs) h = absurd (h x (inl refl))

module _ {Runners : Type 0} (tasks : List (TaskStatus Runners)) (mid : ℤ)
    (subs : List Substance) where
  not_modified_nil :
      not_modified (diff tasks mid subs) ≡ true
      → ((diff tasks mid subs).removes ≡ []) × ((diff tasks mid subs).updates ≡ [])
  unfolding not_modified
  not_modified_nil h = ground arith

  map_nil : {A B : Type 0} (f : A → B) (xs : List A) → map f xs ≡ [] → xs ≡ []
  map_nil f [] e = refl
  map_nil f (x ∷ xs) e = cc

  -- With configurations of distinct ids, `NotModified` says true exactly when the agent is in step.
  pub not_modified-diff :
      DistinctIds subs → (not_modified (diff tasks mid subs) ≡ true) ↔ InSync tasks subs
  not_modified-diff u = (forth, back)
    where
      forth : not_modified (diff tasks mid subs) ≡ true → InSync tasks subs
      forth h =
          let (no_removes, no_updates) = not_modified_nil h in
          let fresh : stale (reported tasks) subs ≡ [] =
            map_nil (chunk_of mid) _ (sym (updates-diff tasks mid subs u) ∙ no_updates) in
          record {
            present = λ sub e. nil_stale (reported tasks) subs sub fresh e;
            known = λ i rp got t. elim (Bool-cases (has_id i subs)) [
              | inl seen ↦ seen
              | inr new ↦
                  let there : Elem i (diff tasks mid subs).removes =
                    (Elem-removes-diff tasks mid subs i).1 (rp, got, t, new) in
                  absurd (rw no_removes at there)
            ];
          }

      back : InSync tasks subs → not_modified (diff tasks mid subs) ≡ true
      back s =
          let no_updates : (diff tasks mid subs).updates ≡ [] =
            updates-diff tasks mid subs u
            ∙ ap (map (chunk_of mid)) (stale_nil (reported tasks) subs s.present) in
          let no_removes : (diff tasks mid subs).removes ≡ [] = nil_of_no-Elem _ (λ i h.
            let (rp, got, t, new) = (Elem-removes-diff tasks mid subs i).0 h in
            ground (arith, s.known i rp got t)) in
          unfold not_modified in (rw (no_updates, no_removes) refl)
