-- ===== src/Shards.antt =====
-- What the three sharded maps of the broker share: a fixed number of Go maps, and a hash that
-- chooses among them. `none` stands for a run-time panic (a division by a size of zero, an index
-- past the slice). A slot is a pointer in the source; the constructors allocate each on its own, so
-- a write through one is a write to one place of the list.
pub mod View
pub mod Listing
use ssoc_broker.Base.{
  ℕ, zero, suc, ◌%◌, ◌<◌, ◌≡◌, Bool, List, [], Option, none, some, ◌==◌, if◌then◌else◌, length,
  get_elem?, set, replicate,
}
use ssoc_broker.GoMap.{lookup, Distinct}

pub record Shards (K V : Type 0) : Type 0 where
  pub size : ℕ
  pub slots : List (List (K × V))

-- `make([]*M, n)` and the loop that fills it with empty maps.
unfoldable pub empty : {K V : Type 0} → ℕ → Shards K V
empty n = record { size = n; slots = replicate n [] }

module _ {K V : Type 0} (hash : K → ℕ) where
  -- `idx := int(hash) % size; return slots[idx]`.
  unfoldable pub slot_of : Shards K V → K → Option (List (K × V))
  slot_of s k = if s.size == 0 then none else get_elem? s.slots (hash k % s.size)

  -- What a method that runs on that slot leaves behind.
  unfoldable pub write : Shards K V → K → List (K × V) → Shards K V
  write s k m = record s { slots = set s.slots (hash k % s.size) m }

  module _ (dec : Discrete K) where
    -- The sharded map as one partial function.
    unfoldable pub view : Shards K V → K → Option V
    view s k = elim (slot_of s k) [ none ↦ none | some m ↦ lookup dec k m ]

    -- Every slot is a map, and holds only keys that the hash sends there.
    pub record IsValid (s : Shards K V) : Type 0 where
      pub positive : 0 < s.size
      pub full : length s.slots ≡ s.size
      pub distinct : (i : ℕ) (m : List (K × V)) → get_elem? s.slots i ≡ some m → Distinct dec m
      pub placed :
          (i : ℕ) (m : List (K × V)) (k : K) (v : V)
          → get_elem? s.slots i ≡ some m
          → lookup dec k m ≡ some v
          → hash k % s.size ≡ i
