-- ===== src/Mlink/Subsection.antt =====
-- bridge/mlink/segment.go: `subsection`, a second sharded map of connections, and its iterator, which
-- takes one bucket at a time. It is nowhere used. `none` is a panic.
use ssoc_broker.Base.{
  ℕ, zero, suc, ◌+◌, ◌≤◌, ◌≡◌, refl, List, [], ◌∷◌, ◌++◌, map, Option, none, some, Bool, true,
  false, if◌then◌else◌, ltb, Text, text_dec, length, get_elem?, get_elem?_lt, drop, arith,
}
use ssoc_broker.Base.Int.{ℤ}
use ssoc_broker.GoMap.{lookup, insert, remove, values}
use ssoc_broker.Fnv.{fnv32}
use ssoc_broker.Shards.{Shards, slot_of, write}
use ssoc_broker.Mlink.SafeMap
use ssoc_broker.Mlink.SegmentMap

module _ {C : Type 0} where
  -- The methods of `bucket`.
  unfoldable pub bucket_get : List (Text × C) → Text → Option C × Bool
  bucket_get elems key = elim (lookup text_dec key elems) [
    | none ↦ (none, false)
    | some val ↦ (some val, true)
  ]

  unfoldable pub bucket_put : List (Text × C) → Text → C → List (Text × C) × Bool
  bucket_put elems key val =
      let exist = (bucket_get elems key).1 in
      (if exist then elems else insert text_dec key val elems, if exist then false else true)

  unfoldable pub bucket_del : List (Text × C) → Text → List (Text × C) × Option C
  bucket_del elems key =
      let (conn, exist) = bucket_get elems key in
      (if exist then remove text_dec key elems else elems, conn)

  -- The methods of `subsection`.
  unfoldable pub sec_get : Shards Text C → Text → Option (Option C × Bool)
  unfolding bucket_get
  sec_get sec key = elim (slot_of fnv32 sec key) [ none ↦ none | some m ↦ some (bucket_get m key) ]

  unfoldable pub sec_put : Shards Text C → Text → C → Option (Shards Text C × Bool)
  unfolding bucket_put bucket_get
  sec_put sec key val = elim (slot_of fnv32 sec key) [
    | none ↦ none
    | some m ↦ let (m', stored) = bucket_put m key val in some (write fnv32 sec key m', stored)
  ]

  unfoldable pub sec_del : Shards Text C → Text → Option (Shards Text C × Option C)
  unfolding bucket_del bucket_get
  sec_del sec key = elim (slot_of fnv32 sec key) [
    | none ↦ none
    | some m ↦ let (m', conn) = bucket_del m key in some (write fnv32 sec key m', conn)
  ]

  -- `subsection` answers and changes as `segmentMap` does.
  pub subsection-segment_map :
      (sec : Shards Text C) (key : Text) (val : C)
      → (SegmentMap.get sec key
          ≡ elim (sec_get sec key) [ none ↦ none | some (found, _) ↦ some found ])
        × (SegmentMap.put sec key val ≡ sec_put sec key val)
        × (SegmentMap.del sec key ≡ sec_del sec key)
  unfolding sec_get sec_put sec_del SegmentMap.get SegmentMap.put SegmentMap.del SafeMap.get
      SafeMap.put SafeMap.del
  subsection-segment_map sec key val = ground arith

drop_all : {A : Type 0} (xs : List A) (i : ℕ) → length xs ≤ i → drop i xs ≡ []
drop_all [] zero h = refl
drop_all [] (suc i) h = refl
drop_all (x ∷ xs) zero h = absurd (omega arith)
drop_all (x ∷ xs) (suc i) h = drop_all xs i (omega arith)

drop_step :
    {A : Type 0} (xs : List A) (i : ℕ) (x : A)
    → get_elem? xs i ≡ some x
    → drop i xs ≡ x ∷ drop (suc i) xs
drop_step [] i x e = cc
drop_step (y ∷ xs) zero x e = cc
drop_step (y ∷ xs) (suc i) x e = drop_step xs i x e

module _ {C : Type 0} (id_of : C → ℤ) (sec : Shards Text C) where
  unfoldable pub has : ℕ → Bool
  has idx = ltb idx sec.size

  -- The ids of the next bucket, and the new index.
  unfoldable pub next : ℕ → Option (List ℤ × ℕ)
  unfolding has
  next idx =
      if has idx
      then elim (get_elem? sec.slots idx) [
        | none ↦ none
        | some m ↦ some (map id_of (values m), idx + 1)
      ]
      else some ([], idx)

  -- `for it.has() { … it.next() … }`, with the rounds left.
  unfoldable pub drain : ℕ → ℕ → Option (List ℤ × ℕ)
  unfolding next
  drain zero idx = some ([], idx)
  drain (suc n) idx = elim (has idx) [
    | false ↦ some ([], idx)
    | true ↦ elim (next idx) [
      | none ↦ none
      | some (found, idx') ↦ elim (drain n idx') [
        | none ↦ none
        | some (more, last) ↦ some (found ++ more, last)
      ]
    ]
  ]

  drain-ids_loop :
      (n idx : ℕ)
      → length sec.slots ≡ sec.size
      → idx + n ≡ sec.size
      → drain n idx ≡ some (SegmentMap.ids_loop id_of (drop idx sec.slots), sec.size)
  unfolding drain next has SegmentMap.ids_loop SafeMap.connections
  drain-ids_loop zero idx full e = ground (arith, drop_all sec.slots idx (omega arith))
  drain-ids_loop (suc n) idx full e =
      let (m, here) = get_elem?_lt sec.slots idx (omega arith) in
      let more : has idx ≡ true = ground arith in
      let rest : drain n (idx + 1)
          ≡ some (SegmentMap.ids_loop id_of (drop (idx + 1) sec.slots), sec.size) =
        drain-ids_loop n (idx + 1) full (omega arith) in
      let one : next idx ≡ some (map id_of (values m), idx + 1) = rw (more, next) (rw here refl) in
      ground (arith, more, one, rest, drop_step sec.slots idx m here)

  -- As many rounds as there are buckets take the iterator to its end, with exactly the ids that `IDs`
  -- lists of the same map, each bucket once and in order.
  pub drain-ids :
      length sec.slots ≡ sec.size
      → (drain sec.size 0 ≡ some (SegmentMap.ids id_of sec, sec.size)) × (has sec.size ≡ false)
  unfolding has SegmentMap.ids
  drain-ids full = (drain-ids_loop sec.size 0 full (omega arith), ground arith)
