-- ===== src/Temporary/LockedMap.antt =====
-- app/temporary/linkhub/concurrent/map.go, `Map`: a Go map behind a lock, as functions of `elems`.
-- The second result `ok` of a read is the difference between `some` and `none`. `Range` calls `fn`
-- on a copy; `fn` is a step on the caller's state.
use mathlib.Core.List.{append-nil, append_assoc}
use ssoc_broker.Base.{◌≡◌, refl, sym, ◌∙◌, List, [], ◌∷◌, ◌++◌, Option, none, some, ite, arith}
use ssoc_broker.GoMap.{lookup, insert, remove, Distinct}

module _ {K V : Type 0} (dec : Discrete K) where
  unfoldable pub load : List (K × V) → K → Option V
  load elems key = lookup dec key elems

  unfoldable pub store : List (K × V) → K → V → List (K × V)
  store elems key val = insert dec key val elems

  unfoldable pub delete : List (K × V) → K → List (K × V)
  delete elems key = remove dec key elems

  unfoldable pub load_and_delete : List (K × V) → K → List (K × V) × Option V
  load_and_delete elems key = elim (lookup dec key elems) [
    | some v ↦ (remove dec key elems, some v)
    | none ↦ (elems, none)
  ]

  -- `ret[k] = v` for each entry.
  unfoldable pub clone_loop : List (K × V) → List (K × V) → List (K × V)
  clone_loop ret [] = ret
  clone_loop ret ((k, v) ∷ elems) = clone_loop (insert dec k v ret) elems

  unfoldable pub clone : List (K × V) → List (K × V)
  unfolding clone_loop
  clone elems = clone_loop [] elems

module _ {K V S : Type 0} (fn : K → V → S → S) where
  -- The loop `for k, v := range tmp { fn(k, v) }`.
  unfoldable pub visit : List (K × V) → S → S
  visit [] s = s
  visit ((k, v) ∷ tmp) s = visit tmp (fn k v s)

  unfoldable pub range : Discrete K → List (K × V) → S → S
  unfolding visit
  range dec elems s = visit (clone dec elems) s

module _ {K V : Type 0} (dec : Discrete K) where
  -- A fresh key goes to the end of the copy.
  insert_fresh :
      (k : K) (v : V) (m : List (K × V))
      → lookup dec k m ≡ none
      → insert dec k v m ≡ m ++ ((k, v) ∷ [])
  unfolding lookup insert
  insert_fresh k v [] e = refl
  insert_fresh k v ((j, w) ∷ m) e = ground (arith, insert_fresh k v m)

  lookup-snoc :
      (j k : K) (v : V) (m : List (K × V))
      → lookup dec j (m ++ ((k, v) ∷ []))
        ≡ elim (lookup dec j m) [ some w ↦ some w | none ↦ ite (dec k j) (some v) none ]
  unfolding lookup
  lookup-snoc j k v [] = refl
  lookup-snoc j k v ((i, w) ∷ m) = ground (arith, lookup-snoc j k v m)

  -- No key of the second list stands in the first.
  abbrev Apart : List (K × V) → List (K × V) → Type 0
  Apart ret [] = Unit
  Apart ret ((k, v) ∷ m) = (lookup dec k ret ≡ none) × Apart ret m

  Apart-snoc :
      (ret m : List (K × V)) (k : K) (v : V)
      → lookup dec k m ≡ none
      → Apart ret m
      → Apart (ret ++ ((k, v) ∷ [])) m
  unfolding lookup
  Apart-snoc ret [] k v e a = tt
  Apart-snoc ret ((j, w) ∷ m) k v e a =
      (ground (arith, lookup-snoc j k v ret, a.0), Apart-snoc ret m k v (ground arith) a.1)

  Apart-nil : (m : List (K × V)) → Apart [] m
  unfolding lookup
  Apart-nil [] = tt
  Apart-nil ((k, v) ∷ m) = (refl, Apart-nil m)

  clone_loop-append :
      (ret m : List (K × V)) → Distinct dec m → Apart ret m → clone_loop dec ret m ≡ ret ++ m
  unfolding clone_loop
  clone_loop-append ret [] d a = sym (append-nil ret)
  clone_loop-append ret ((k, v) ∷ m) d a = rw (insert_fresh k v ret a.0) (
      clone_loop-append (ret ++ ((k, v) ∷ [])) m d.1 (Apart-snoc ret m k v d.0 a.1)
      ∙ append_assoc ret ((k, v) ∷ []) m)

  -- The copy is the map itself, entry by entry.
  pub clone_lem : (m : List (K × V)) → Distinct dec m → clone dec m ≡ m
  unfolding clone lookup
  clone_lem m d = clone_loop-append [] m d (Apart-nil m)
