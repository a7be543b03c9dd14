-- ===== src/Temporary/BucketMap/Laws.antt =====
-- The bucketed table is one finite map, and `Range` visits exactly its entries.
use ssoc_broker.Base.{
  ℕ, suc, ◌<◌, ◌≡◌, refl, sym, ap, ◌∙◌, ◌↔◌, ite, List, [], ◌∷◌, ◌++◌, Option, none, some, not,
  is_none, arith, get_elem?, Elem,
}
use ssoc_broker.GoMap.{
  lookup, Distinct, lookup-insert, lookup-remove, insert-Distinct, remove-Distinct,
}
use ssoc_broker.Shards.{write, view, IsValid}
use ssoc_broker.Shards.View.{slot_of-total, view-eq, view-write, empty-IsValid, write-IsValid}
use ssoc_broker.Shards.Listing.{flat, Elem-entries}
use ssoc_broker.Temporary.LockedMap
use ssoc_broker.Temporary.BucketMap.{
  Key, key_dec, key_hash, BucketMap, new_bucket_map, load, store, delete, load_and_delete, exist,
  range, range_loop,
}

module _ {V : Type 0} where
  abbrev pub IsTable : BucketMap V → Type 0
  IsTable m = IsValid key_hash key_dec m

  abbrev pub table : BucketMap V → Key → Option V
  table m = view key_hash key_dec m

  pub new_bucket_map-IsTable : (size : ℕ) → 0 < size → IsTable (new_bucket_map size)
  unfolding new_bucket_map
  new_bucket_map-IsTable size h = empty-IsValid key_hash key_dec size h

  -- On a well-formed table `Load` and `Exist` never panic, and tell what the table
  -- holds.
  pub load-table :
      (m : BucketMap V) (key : Key)
      → IsTable m
      → (load m key ≡ some (table m key)) × (exist m key ≡ some (not (is_none (table m key))))
  unfolding load exist LockedMap.load
  load-table m key w =
      let (b, e, d) = slot_of-total key_hash key_dec m key w in
      let here = view-eq key_hash key_dec m key e in
      (rw (e, load) (ap some (sym here)), rw (e, exist) (rw here refl))

  -- On a well-formed table `Store` never panics, keeps the table well formed, overwrites the key and touches no other.
  pub store-table :
      (m : BucketMap V) (key : Key) (val : V)
      → IsTable m
      → (m' : BucketMap V) × (store m key val ≡ some m')
        × IsTable m'
        × ((k : Key) → table m' k ≡ ite (key_dec key k) (some val) (table m k))
  unfolding store LockedMap.store
  store-table m key val w =
      let (b, e, d) = slot_of-total key_hash key_dec m key w in
      let b' : List (Key × V) = LockedMap.store key_dec b key val in
      let law : (k : Key)
          → lookup key_dec k b' ≡ ite (key_dec key k) (some val) (lookup key_dec k b) =
        λ k. lookup-insert key_dec key k val b in
      (
        write key_hash m key b',
        rw (e, store),
        write-IsValid key_hash key_dec m key (some val) b' w e (insert-Distinct key_dec key val b d)
            law,
        λ k. view-write key_hash key_dec m key k (some val) b' w e law,
      )

  safe_load_and_delete :
      (b : List (Key × V)) (key k : Key)
      → Distinct key_dec b
      → (lookup key_dec k (LockedMap.load_and_delete key_dec b key).0
          ≡ ite (key_dec key k) none (lookup key_dec k b))
        × Distinct key_dec (LockedMap.load_and_delete key_dec b key).0
        × ((LockedMap.load_and_delete key_dec b key).1 ≡ lookup key_dec key b)
  unfolding LockedMap.load_and_delete
  safe_load_and_delete b key k d = (
    ground (arith, lookup-remove key_dec key k b d),
    ground (arith, remove-Distinct key_dec key b d),
    ground arith,
  )

  -- On a well-formed table `LoadAndDelete` never panics, keeps the table well formed, returns what the
  -- key held, frees the key and touches no other.
  pub load_and_delete-table :
      (m : BucketMap V) (key : Key)
      → IsTable m
      → (m' : BucketMap V) × (load_and_delete m key ≡ some (m', table m key))
        × IsTable m'
        × ((k : Key) → table m' k ≡ ite (key_dec key k) none (table m k))
  unfolding load_and_delete
  load_and_delete-table m key w =
      let (b, e, d) = slot_of-total key_hash key_dec m key w in
      let here : table m key ≡ lookup key_dec key b = view-eq key_hash key_dec m key e in
      let b' : List (Key × V) = (LockedMap.load_and_delete key_dec b key).0 in
      let law : (k : Key) → lookup key_dec k b' ≡ ite (key_dec key k) none (lookup key_dec k b) =
        λ k. (safe_load_and_delete b key k d).0 in
      (
        write key_hash m key b',
        rw (e, load_and_delete)
            (rw here
              (ap (λ v. some (write key_hash m key b', v)) (safe_load_and_delete b key key d).2)),
        write-IsValid key_hash key_dec m key none b' w e (safe_load_and_delete b key key d).1 law,
        λ k. view-write key_hash key_dec m key k none b' w e law,
      )

  -- On a well-formed table `Delete` never panics, keeps the table well formed, frees the key and touches
  -- no other.
  pub delete-table :
      (m : BucketMap V) (key : Key)
      → IsTable m
      → (m' : BucketMap V) × (delete m key ≡ some m')
        × IsTable m'
        × ((k : Key) → table m' k ≡ ite (key_dec key k) none (table m k))
  unfolding delete LockedMap.delete
  delete-table m key w =
      let (b, e, d) = slot_of-total key_hash key_dec m key w in
      let b' : List (Key × V) = LockedMap.delete key_dec b key in
      let law : (k : Key) → lookup key_dec k b' ≡ ite (key_dec key k) none (lookup key_dec k b) =
        λ k. lookup-remove key_dec key k b d in
      (
        write key_hash m key b',
        rw (e, delete),
        write-IsValid key_hash key_dec m key none b' w e (remove-Distinct key_dec key b d) law,
        λ k. view-write key_hash key_dec m key k none b' w e law,
      )

  module _ {S : Type 0} (fn : Key → V → S → S) where
    visit-append :
        (xs ys : List (Key × V)) (s : S)
        → LockedMap.visit fn (xs ++ ys) s ≡ LockedMap.visit fn ys (LockedMap.visit fn xs s)
    unfolding LockedMap.visit
    visit-append [] ys s = refl
    visit-append ((k, v) ∷ xs) ys s = visit-append xs ys (fn k v s)

    range_loop-visit :
        (bs : List (List (Key × V))) (s : S)
        → ((i : ℕ) (b : List (Key × V)) → get_elem? bs i ≡ some b → Distinct key_dec b)
        → range_loop fn bs s ≡ LockedMap.visit fn (flat bs) s
    unfolding range_loop LockedMap.range LockedMap.visit
    range_loop-visit [] s d = refl
    range_loop-visit (b ∷ bs) s d = rw (LockedMap.clone_lem key_dec b (d 0 b refl)) (
        range_loop-visit bs (LockedMap.visit fn b s) (λ i. d (suc i))
        ∙ sym (visit-append b (flat bs) s))

  -- On a well-formed table `Range` calls the function on each entry of one list in turn, and the list
  -- holds exactly the entries of the table.
  pub range-table :
      {S : Type 0} (fn : Key → V → S → S) (m : BucketMap V) (s : S)
      → IsTable m
      → (entries : List (Key × V)) × (range fn m s ≡ LockedMap.visit fn entries s)
        × ((k : Key) (v : V) → Elem (k, v) entries ↔ (table m k ≡ some v))
  unfolding range
  range-table fn m s w = (
    flat m.slots,
    range_loop-visit fn m.slots s w.distinct,
    λ k v. Elem-entries key_hash key_dec m k v w,
  )
