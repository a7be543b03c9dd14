-- ===== src/Mlink/SafeMap.antt =====
-- bridge/mlink/map.go, `safeMap`: a Go map behind a lock. A method holds the lock from beginning to
-- end, so concurrent calls on one map happen one after the other, and a method is a function of
-- `elems`. The type of connections is a parameter. A Go map read of a missing key gives nil: `none`.
use ssoc_broker.Base.{List, Option, none, some, Bool, true, false, Text, text_dec}
use ssoc_broker.GoMap.{lookup, insert, remove, values}

module _ {C : Type 0} where
  -- The new `elems`, and whether the connection was stored.
  unfoldable pub put : List (Text × C) → Text → C → List (Text × C) × Bool
  put elems id conn = elim (lookup text_dec id elems) [
    | some _ ↦ (elems, false)
    | none ↦ (insert text_dec id conn elems, true)
  ]

  unfoldable pub get : List (Text × C) → Text → Option C
  get elems id = lookup text_dec id elems

  -- The new `elems`, and what stood under the key.
  unfoldable pub del : List (Text × C) → Text → List (Text × C) × Option C
  del elems id = elim (lookup text_dec id elems) [
    | some c ↦ (remove text_dec id elems, some c)
    | none ↦ (elems, none)
  ]

  unfoldable pub connections : List (Text × C) → List C
  connections elems = values elems
