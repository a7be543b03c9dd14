-- ===== src/TaskDiff/Laws.antt =====
-- Exactly what `Diff` updates and deletes.
use mathlib.Core.List.{append-nil, append_assoc}
use ssoc_broker.Base.{
  ◌≡◌, refl, sym, ap, ◌∙◌, ◌↔◌, inl, inr, List, [], ◌∷◌, ◌++◌, map, Option, none, some, Bool, true,
  false, ◌||◌, if◌then◌else◌, arith, text_eq, codes, Elem, Bool-cases,
}
use ssoc_broker.Base.Int.{ℤ, ℤ_discrete, int_eq}
use ssoc_broker.GoMap.{
  lookup, insert, remove, Distinct, lookup-insert, lookup-remove, insert-Distinct, remove-Distinct,
  lookup_of-Elem, Elem-lookup,
}
use ssoc_broker.TaskDiff.{
  TaskChunk, TaskStatus, Substance, id_map, id_map_loop, is_current, chunk_of, update_loop,
  remove_loop, diff,
}

abbrev pub has_id : ℤ → List Substance → Bool
has_id i [] = false
has_id i (sub ∷ subs) = int_eq sub.id i || has_id i subs

-- No two configurations have one id.
abbrev pub DistinctIds : List Substance → Type 0
DistinctIds [] = Unit
DistinctIds (sub ∷ subs) = (has_id sub.id subs ≡ false) × DistinctIds subs

module _ {Runners : Type 0} where
  abbrev pub reported : List (TaskStatus Runners) → ℤ → Option (TaskStatus Runners)
  reported tasks i = lookup ℤ_discrete i (id_map tasks)

  -- The configurations that the report does not show at their present hash.
  abbrev pub stale : (ℤ → Option (TaskStatus Runners)) → List Substance → List Substance
  stale rep [] = []
  stale rep (sub ∷ subs) =
      let rest = stale rep subs in if is_current (rep sub.id) sub then rest else sub ∷ rest

  abbrev Keyed : List (ℤ × TaskStatus Runners) → Type 0
  Keyed hm = Distinct ℤ_discrete hm

  id_map_loop-Distinct :
      (tasks : List (TaskStatus Runners)) (hm : List (ℤ × TaskStatus Runners))
      → Keyed hm
      → Keyed (id_map_loop hm tasks)
  unfolding id_map_loop
  id_map_loop-Distinct [] hm d = d
  id_map_loop-Distinct (task ∷ tasks) hm d =
      id_map_loop-Distinct tasks (insert ℤ_discrete task.id task hm)
        (insert-Distinct ℤ_discrete task.id task hm d)

  -- A task stands under its own id.
  abbrev OwnId : List (ℤ × TaskStatus Runners) → Type 0
  OwnId hm = (i : ℤ) (rp : TaskStatus Runners) → lookup ℤ_discrete i hm ≡ some rp → rp.id ≡ i

  id_map_loop-OwnId :
      (tasks : List (TaskStatus Runners)) (hm : List (ℤ × TaskStatus Runners))
      → OwnId hm
      → OwnId (id_map_loop hm tasks)
  unfolding id_map_loop
  id_map_loop-OwnId [] hm own = own
  id_map_loop-OwnId (task ∷ tasks) hm own =
      id_map_loop-OwnId tasks (insert ℤ_discrete task.id task hm)
        (λ i rp e. ground (arith, lookup-insert ℤ_discrete task.id i task hm, own i rp))

  stale-remove :
      (i : ℤ) (hm : List (ℤ × TaskStatus Runners)) (subs : List Substance)
      → Keyed hm
      → has_id i subs ≡ false
      → stale (λ j. lookup ℤ_discrete j (remove ℤ_discrete i hm)) subs
        ≡ stale (λ j. lookup ℤ_discrete j hm) subs
  stale-remove i hm [] d h = refl
  stale-remove i hm (sub ∷ subs) d h =
      ground (arith, lookup-remove ℤ_discrete i sub.id hm d, stale-remove i hm subs d)

  update_loop-updates :
      (mid : ℤ) (hm : List (ℤ × TaskStatus Runners)) (ups : List TaskChunk) (subs : List Substance)
      → Keyed hm
      → DistinctIds subs
      → (update_loop mid hm ups subs).1
        ≡ ups ++ map (chunk_of mid) (stale (λ j. lookup ℤ_discrete j hm) subs)
  unfolding update_loop
  update_loop-updates mid hm ups [] d u = sym (append-nil ups)
  update_loop-updates mid hm ups (sub ∷ subs) d u =
      let m' = remove ℤ_discrete sub.id hm in
      let d' = remove-Distinct ℤ_discrete sub.id hm d in
      let same = stale-remove sub.id hm subs d u.0 in
      let seen = is_current (lookup ℤ_discrete sub.id hm) sub in
      elim (Bool-cases seen) [
        | inl cur ↦
            rw (cur, update_loop)
              (update_loop-updates mid m' ups subs d' u.1
                ∙ ap (λ s. ups ++ map (chunk_of mid) s) same)
        | inr old ↦
            rw (old, update_loop)
              (update_loop-updates mid m' (ups ++ (chunk_of mid sub ∷ [])) subs d' u.1
                ∙ ap (λ s. (ups ++ (chunk_of mid sub ∷ [])) ++ map (chunk_of mid) s) same
                ∙ append_assoc ups (chunk_of mid sub ∷ [])
                    (map (chunk_of mid) (stale (λ j. lookup ℤ_discrete j hm) subs)))
      ]

  update_loop-left :
      (mid : ℤ) (hm : List (ℤ × TaskStatus Runners)) (ups : List TaskChunk) (subs : List Substance)
      (i : ℤ)
      → Keyed hm
      → Keyed (update_loop mid hm ups subs).0
        × (lookup ℤ_discrete i (update_loop mid hm ups subs).0
            ≡ (if has_id i subs then none else lookup ℤ_discrete i hm))
  unfolding update_loop
  update_loop-left mid hm ups [] i d = (d, refl)
  update_loop-left mid hm ups (sub ∷ subs) i d =
      let m' = remove ℤ_discrete sub.id hm in
      let ups' : List TaskChunk =
        if is_current (lookup ℤ_discrete sub.id hm) sub
        then ups
        else ups ++ (chunk_of mid sub ∷ []) in
      let (kept, seen) =
        update_loop-left mid m' ups' subs i (remove-Distinct ℤ_discrete sub.id hm d) in
      (kept, seen ∙ ground (arith, lookup-remove ℤ_discrete sub.id i hm d))

  remove_loop-Elem :
      (i : ℤ) (hm : List (ℤ × TaskStatus Runners))
      → Elem i (remove_loop hm) ↔ (
          (k : ℤ) × (rp : TaskStatus Runners) × Elem (k, rp) hm
          × (text_eq rp.from (codes "tunnel") ≡ true)
          × (rp.id ≡ i))
  unfolding remove_loop
  remove_loop-Elem i hm = (find hm, λ h. give hm h.0 h.1 h.2 h.3 h.4)
    where
      find :
          (m : List (ℤ × TaskStatus Runners))
          → Elem i (remove_loop m)
          → (k : ℤ) × (rp : TaskStatus Runners) × Elem (k, rp) m
            × (text_eq rp.from (codes "tunnel") ≡ true)
            × (rp.id ≡ i)
      find [] h = elim h [ ]
      find ((j, w) ∷ m) h = elim (Bool-cases (text_eq w.from (codes "tunnel"))) [
        | inl t ↦ elim (let g : Elem i (w.id ∷ remove_loop m) = rw t at h in g) [
          | inl e ↦ (j, w, inl refl, t, e)
          | inr g ↦ let (k, rp, x, y, z) = find m g in (k, rp, inr x, y, z)
        ]
        | inr t ↦
            let g : Elem i (remove_loop m) = rw t at h in
            let (k, rp, x, y, z) = find m g in (k, rp, inr x, y, z)
      ]

      give :
          (m : List (ℤ × TaskStatus Runners)) (k : ℤ) (rp : TaskStatus Runners)
          → Elem (k, rp) m
          → text_eq rp.from (codes "tunnel") ≡ true
          → rp.id ≡ i
          → Elem i (remove_loop m)
      give [] k rp h t e = elim h [ ]
      give ((j, w) ∷ m) k rp (inl p) t e =
          let q : w ≡ rp = ap (λ x. x.1) p in
          let t' : text_eq w.from (codes "tunnel") ≡ true = rw q t in
          rw t' (inl (ap (λ (x : TaskStatus Runners). x.id) q ∙ e))
      give ((j, w) ∷ m) k rp (inr h) t e =
          let g = give m k rp h t e in
          elim (Bool-cases (text_eq w.from (codes "tunnel"))) [
            | inl t' ↦ rw t' (inr g)
            | inr t' ↦ rw t' g
          ]

module _ {Runners : Type 0} (tasks : List (TaskStatus Runners)) (mid : ℤ)
    (subs : List Substance) where
  id_map-Keyed : Keyed (id_map tasks)
  unfolding id_map
  id_map-Keyed = id_map_loop-Distinct tasks [] tt

  id_map-OwnId : OwnId (id_map tasks)
  unfolding id_map lookup
  id_map-OwnId = id_map_loop-OwnId tasks [] (λ i rp e. cc)

  -- `Diff` tells the agent to update exactly the configurations that it does not report at their
  -- present hash, in the order given, when no two of them have one id.
  pub updates-diff :
      DistinctIds subs
      → (diff tasks mid subs).updates ≡ map (chunk_of mid) (stale (reported tasks) subs)
  unfolding diff
  updates-diff u = update_loop-updates mid (id_map tasks) [] subs id_map-Keyed u

  -- `Diff` tells the agent to delete exactly the ids under which it reports a task that came down the
  -- tunnel and that no configuration has.
  pub Elem-removes-diff :
      (i : ℤ)
      → Elem i (diff tasks mid subs).removes ↔ (
          (rp : TaskStatus Runners) × (reported tasks i ≡ some rp)
          × (text_eq rp.from (codes "tunnel") ≡ true)
          × (has_id i subs ≡ false))
  unfolding diff
  Elem-removes-diff i = (there, back)
    where
      left : List (ℤ × TaskStatus Runners)
      left = (update_loop mid (id_map tasks) [] subs).0

      law : (j : ℤ) → lookup ℤ_discrete j left ≡ (if has_id j subs then none else reported tasks j)
      law j = (update_loop-left mid (id_map tasks) [] subs j id_map-Keyed).1

      keyed : Keyed left
      keyed = (update_loop-left mid (id_map tasks) [] subs i id_map-Keyed).0

      there :
          Elem i (remove_loop left)
          → (rp : TaskStatus Runners) × (reported tasks i ≡ some rp)
            × (text_eq rp.from (codes "tunnel") ≡ true)
            × (has_id i subs ≡ false)
      there h =
          let (k, rp, x, t, e) = (remove_loop-Elem i left).0 h in
          let at : lookup ℤ_discrete k left ≡ some rp =
            lookup_of-Elem ℤ_discrete k rp left keyed x in
          let got : reported tasks k ≡ some rp = ground (arith, law k) in
          let own : rp.id ≡ k = id_map-OwnId k rp got in
          let same : k ≡ i = sym own ∙ e in
          let new : has_id k subs ≡ false = ground (arith, law k) in
          (rp, rw same at got, t, rw same at new)

      back :
          (rp : TaskStatus Runners) × (reported tasks i ≡ some rp)
            × (text_eq rp.from (codes "tunnel") ≡ true)
            × (has_id i subs ≡ false)
          → Elem i (remove_loop left)
      back (rp, got, t, new) =
          let at : lookup ℤ_discrete i left ≡ some rp = law i ∙ rw new got in
          (remove_loop-Elem i left).1
            (i, rp, Elem-lookup ℤ_discrete i rp left at, t, id_map-OwnId i rp got)
