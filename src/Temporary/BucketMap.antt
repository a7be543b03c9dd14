-- ===== src/Temporary/BucketMap.antt =====
-- app/temporary/linkhub/concurrent/bucket.go: a fixed number of locked maps, one chosen by the FNV
-- hash of the key's text. `none` is a panic: a map built with size 0 divides by zero.
pub mod Laws
use ssoc_broker.Base.{
  ℕ, zero, suc, ℕ_discrete, List, [], ◌∷◌, Option, none, some, Bool, true, false, not, is_none,
  Text, text_dec,
}
use ssoc_broker.Base.Int.{ℤ, ℤ_discrete}
use ssoc_broker.Base.Decimal.{format_int}
use ssoc_broker.Fnv.{fnv32}
use ssoc_broker.Shards.{Shards, empty, slot_of, write}
use ssoc_broker.Temporary.LockedMap

-- The dynamic type of a key, which `fnv32` switches on. A named type over `string` or `int64` fits
-- the constraint and is neither.
pub data Key : Type 0 where
  str : Text → Key
  int64 : ℤ → Key
  named_str : Text → Key
  named_int64 : ℤ → Key

unfoldable pub key_dec : Discrete Key
unfolding text_dec ℤ_discrete
key_dec = hlevel (text_dec, ℤ_discrete)

unfoldable pub key_hash : Key → ℕ
unfolding fnv32
key_hash (str key) = fnv32 key
key_hash (int64 key) = fnv32 (format_int key)
key_hash _ = 0

abbrev pub BucketMap : Type 0 → Type 0
BucketMap V = Shards Key V

module _ {V : Type 0} where
  unfoldable pub new_bucket_map : ℕ → BucketMap V
  unfolding empty
  new_bucket_map size = empty size

  unfoldable pub bucket : BucketMap V → Key → Option (List (Key × V))
  unfolding slot_of
  bucket m key = slot_of key_hash m key

  unfoldable pub load : BucketMap V → Key → Option (Option V)
  unfolding bucket
  load m key = elim (bucket m key) [ none ↦ none | some b ↦ some (LockedMap.load key_dec b key) ]

  unfoldable pub store : BucketMap V → Key → V → Option (BucketMap V)
  unfolding bucket
  store m key val = elim (bucket m key) [
    | none ↦ none
    | some b ↦ some (write key_hash m key (LockedMap.store key_dec b key val))
  ]

  unfoldable pub delete : BucketMap V → Key → Option (BucketMap V)
  unfolding bucket
  delete m key = elim (bucket m key) [
    | none ↦ none
    | some b ↦ some (write key_hash m key (LockedMap.delete key_dec b key))
  ]

  unfoldable pub load_and_delete : BucketMap V → Key → Option (BucketMap V × Option V)
  unfolding bucket
  load_and_delete m key = elim (bucket m key) [
    | none ↦ none
    | some b ↦
        let (b', v) = LockedMap.load_and_delete key_dec b key in some (write key_hash m key b', v)
  ]

  unfoldable pub exist : BucketMap V → Key → Option Bool
  unfolding bucket
  exist m key = elim (bucket m key) [
    | none ↦ none
    | some b ↦ some (not (is_none (LockedMap.load key_dec b key)))
  ]

  -- `for i := 0; i < m.size; i++ { m.buckets[i].Range(fn) }`, over the buckets left; a map that
  -- `NewBucketMap` made has `size` of them.
  unfoldable pub range_loop : {S : Type 0} → (Key → V → S → S) → List (List (Key × V)) → S → S
  range_loop fn [] s = s
  range_loop fn (b ∷ buckets) s = range_loop fn buckets (LockedMap.range fn key_dec b s)

  unfoldable pub range : {S : Type 0} → (Key → V → S → S) → BucketMap V → S → S
  unfolding range_loop
  range fn m s = range_loop fn m.slots s
