-- ===== src/Mlink/SegmentMap.antt =====
-- bridge/mlink/map.go, `segmentMap`: a fixed number of `safeMap`s, one chosen by the FNV hash of the
-- key. `none` is a panic. The `id` that `IDs` reads from a connection is the parameter `id_of`.
pub mod Laws
use ssoc_broker.Base.{
  ℕ, List, [], ◌∷◌, ◌++◌, map, Option, none, some, Bool, if◌then◌else◌, ◌==◌, Text, text_dec,
}
use ssoc_broker.Base.Int.{ℤ}
use ssoc_broker.Fnv.{fnv32}
use ssoc_broker.Shards.{Shards, empty, slot_of, write}
use ssoc_broker.Mlink.SafeMap

abbrev pub SegmentMap : Type 0 → Type 0
SegmentMap C = Shards Text C

module _ {C : Type 0} where
  -- `slot <= 0` asks for 8 slots. The size hint of each map has no meaning for its contents.
  unfoldable pub new_segment_map : ℕ → SegmentMap C
  unfolding empty
  new_segment_map slot = empty (if slot == 0 then 8 else slot)

  unfoldable pub get_slot : SegmentMap C → Text → Option (List (Text × C))
  unfolding slot_of
  get_slot sm key = slot_of fnv32 sm key

  unfoldable pub put : SegmentMap C → Text → C → Option (SegmentMap C × Bool)
  unfolding get_slot
  put sm id conn = elim (get_slot sm id) [
    | none ↦ none
    | some m ↦ let (m', stored) = SafeMap.put m id conn in some (write fnv32 sm id m', stored)
  ]

  unfoldable pub get : SegmentMap C → Text → Option (Option C)
  unfolding get_slot
  get sm id = elim (get_slot sm id) [ none ↦ none | some m ↦ some (SafeMap.get m id) ]

  unfoldable pub del : SegmentMap C → Text → Option (SegmentMap C × Option C)
  unfolding get_slot
  del sm id = elim (get_slot sm id) [
    | none ↦ none
    | some m ↦ let (m', found) = SafeMap.del m id in some (write fnv32 sm id m', found)
  ]

  -- The outer loop of `IDs`, over the slots left.
  unfoldable pub ids_loop : (C → ℤ) → List (List (Text × C)) → List ℤ
  ids_loop id_of [] = []
  ids_loop id_of (m ∷ slots) = map id_of (SafeMap.connections m) ++ ids_loop id_of slots

  unfoldable pub ids : (C → ℤ) → SegmentMap C → List ℤ
  unfolding ids_loop
  ids id_of sm = ids_loop id_of sm.slots
