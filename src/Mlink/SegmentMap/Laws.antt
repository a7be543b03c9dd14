-- ===== src/Mlink/SegmentMap/Laws.antt =====
-- The registry is one finite map from agent ids to connections, whatever the number of slots.
use ssoc_broker.Base.{
  ℕ, ◌≡◌, refl, sym, ◌↔◌, ite, List, [], ◌∷◌, ap, Option, none, some, arith, Text, text_dec, Elem,
  is_none, or_else,
}
use ssoc_broker.Base.Int.{ℤ}
use ssoc_broker.Fnv.{fnv32}
use ssoc_broker.GoMap.{
  Distinct, lookup, lookup-insert, lookup-remove, insert-Distinct, remove-Distinct,
}
use ssoc_broker.Shards.{Shards, slot_of, write, view, empty}
use ssoc_broker.Shards as Sharded
use ssoc_broker.Shards.View.{
  slot_of-total, view-eq, view-write, empty-IsValid, view-empty, write-IsValid,
}
use ssoc_broker.Shards.Listing.{walk, Elem-walk}
use ssoc_broker.Mlink.SafeMap
use ssoc_broker.Mlink.SegmentMap.{SegmentMap, new_segment_map, put, get, del, ids, ids_loop}

module _ {C : Type 0} where
  abbrev pub IsValid : SegmentMap C → Type 0
  IsValid sm = Sharded.IsValid fnv32 text_dec sm

  -- The registry as a partial function from keys.
  abbrev pub contents : SegmentMap C → Text → Option C
  contents sm = view fnv32 text_dec sm

  -- A new registry is well formed and holds nothing, whatever number of slots is asked for.
  pub new_segment_map_lem :
      (slot : ℕ)
      → IsValid (new_segment_map slot) × ((k : Text) → contents (new_segment_map slot) k ≡ none)
  unfolding new_segment_map
  new_segment_map_lem slot =
      (empty-IsValid fnv32 text_dec _ (ground arith), view-empty fnv32 text_dec _)

  -- `Get` never panics and reads the registry.
  pub get-contents :
      (sm : SegmentMap C) (id : Text) → IsValid sm → get sm id ≡ some (contents sm id)
  unfolding get SafeMap.get
  get-contents sm id w =
      let (m, e, d) = slot_of-total fnv32 text_dec sm id w in
      rw (e, get) (ap some (sym (view-eq fnv32 text_dec sm id e)))

  safe_put-lookup :
      (m : List (Text × C)) (id : Text) (conn : C) (k : Text)
      → lookup text_dec k (SafeMap.put m id conn).0
        ≡ ite (text_dec id k) (some (or_else (lookup text_dec id m) conn)) (lookup text_dec k m)
  unfolding SafeMap.put
  safe_put-lookup m id conn k = ground (arith, lookup-insert text_dec id k conn m)

  safe_put-Distinct :
      (m : List (Text × C)) (id : Text) (conn : C)
      → Distinct text_dec m
      → Distinct text_dec (SafeMap.put m id conn).0
  unfolding SafeMap.put
  safe_put-Distinct m id conn d = ground (arith, insert-Distinct text_dec id conn m d)

  safe_put-stored :
      (m : List (Text × C)) (id : Text) (conn : C)
      → (SafeMap.put m id conn).1 ≡ is_none (lookup text_dec id m)
  unfolding SafeMap.put
  safe_put-stored m id conn = ground arith

  -- On a well-formed registry `Put` never panics and keeps it well formed. It says true exactly when
  -- the key was free. Afterwards the key holds what it held before, or else the new connection; every
  -- other key is as it was.
  pub put-contents :
      (sm : SegmentMap C) (id : Text) (conn : C)
      → IsValid sm
      → (sm' : SegmentMap C) × (put sm id conn ≡ some (sm', is_none (contents sm id)))
        × IsValid sm'
        × ((k : Text)
            → contents sm' k
              ≡ ite (text_dec id k) (some (or_else (contents sm id) conn)) (contents sm k))
  unfolding put
  put-contents sm id conn w =
      let (m, e, d) = slot_of-total fnv32 text_dec sm id w in
      let here : contents sm id ≡ lookup text_dec id m = view-eq fnv32 text_dec sm id e in
      let m' : List (Text × C) = (SafeMap.put m id conn).0 in
      let law = safe_put-lookup m id conn in
      let new : Option C = some (or_else (lookup text_dec id m) conn) in
      (
        write fnv32 sm id m',
        rw (e, put)
            (rw here (ap (λ b. some (write fnv32 sm id m', b)) (safe_put-stored m id conn))),
        write-IsValid fnv32 text_dec sm id new m' w e (safe_put-Distinct m id conn d) law,
        λ k. rw here (view-write fnv32 text_dec sm id k new m' w e law),
      )

  safe_del-lookup :
      (m : List (Text × C)) (id : Text) (k : Text)
      → Distinct text_dec m
      → lookup text_dec k (SafeMap.del m id).0 ≡ ite (text_dec id k) none (lookup text_dec k m)
  unfolding SafeMap.del
  safe_del-lookup m id k d = ground (arith, lookup-remove text_dec id k m d)

  safe_del-Distinct :
      (m : List (Text × C)) (id : Text)
      → Distinct text_dec m
      → Distinct text_dec (SafeMap.del m id).0
  unfolding SafeMap.del
  safe_del-Distinct m id d = ground (arith, remove-Distinct text_dec id m d)

  safe_del-found : (m : List (Text × C)) (id : Text) → (SafeMap.del m id).1 ≡ lookup text_dec id m
  unfolding SafeMap.del
  safe_del-found m id = ground arith

  -- On a well-formed registry `Del` never panics and keeps it well formed. It returns what the key
  -- held; afterwards the key is free and every other key is as it was.
  pub del-contents :
      (sm : SegmentMap C) (id : Text)
      → IsValid sm
      → (sm' : SegmentMap C) × (del sm id ≡ some (sm', contents sm id))
        × IsValid sm'
        × ((k : Text) → contents sm' k ≡ ite (text_dec id k) none (contents sm k))
  unfolding del
  del-contents sm id w =
      let (m, e, d) = slot_of-total fnv32 text_dec sm id w in
      let here : contents sm id ≡ lookup text_dec id m = view-eq fnv32 text_dec sm id e in
      let m' : List (Text × C) = (SafeMap.del m id).0 in
      let law : (k : Text) → lookup text_dec k m' ≡ ite (text_dec id k) none (lookup text_dec k m) =
        λ k. safe_del-lookup m id k d in
      (
        write fnv32 sm id m',
        rw (e, del) (rw here (ap (λ b. some (write fnv32 sm id m', b)) (safe_del-found m id))),
        write-IsValid fnv32 text_dec sm id none m' w e (safe_del-Distinct m id d) law,
        λ k. view-write fnv32 text_dec sm id k none m' w e law,
      )

  ids_loop-walk : (id_of : C → ℤ) (ms : List (List (Text × C))) → ids_loop id_of ms ≡ walk id_of ms
  unfolding ids_loop SafeMap.connections
  ids_loop-walk id_of [] = refl
  ids_loop-walk id_of (m ∷ ms) = rw (ids_loop-walk id_of ms)

  -- `IDs` lists exactly the ids of the connections that the registry holds: none that is gone, and
  -- none left out, over all slots.
  pub Elem-ids :
      (id_of : C → ℤ) (sm : SegmentMap C) (i : ℤ)
      → IsValid sm
      → Elem i (ids id_of sm) ↔ ((k : Text) × (c : C) × (contents sm k ≡ some c) × (id_of c ≡ i))
  unfolding ids
  Elem-ids id_of sm i w = rw (ids_loop-walk id_of sm.slots) (Elem-walk fnv32 text_dec sm id_of i w)
