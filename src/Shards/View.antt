-- ===== src/Shards/View.antt =====
-- Sharding is invisible: on a valid sharded map no operation panics, and a write to the slot of one
-- key is seen at that key alone.
use ssoc_broker.Base.{
  ℕ, ◌%◌, ◌<◌, ◌≡◌, sym, ◌∙◌, ◌≢◌, inl, inr, List, [], Option, none, some, arith, ite, ap,
  ℕ_discrete, length, get_elem?, set, replicate, get_elem?_lt, get_elem?-set_self, get_elem?-set_ne,
  get_elem?-replicate_inv, length-replicate, length-set, Option-cases,
}
use ssoc_broker.GoMap.{lookup, Distinct}
use ssoc_broker.Shards.{Shards, empty, slot_of, write, view, IsValid}

module _ {K V : Type 0} (hash : K → ℕ) (dec : Discrete K) where
  pub slot_of-eq :
      (s : Shards K V) (k : K) → 0 < s.size → slot_of hash s k ≡ get_elem? s.slots (hash k % s.size)
  unfolding slot_of
  slot_of-eq s k h = ground arith

  pub slot_of-total :
      (s : Shards K V) (k : K)
      → IsValid hash dec s
      → (m : List (K × V)) × (slot_of hash s k ≡ some m) × Distinct dec m
  slot_of-total s k v =
      let (m, e) = get_elem?_lt s.slots (hash k % s.size) (omega (arith, v.positive, v.full)) in
      (m, slot_of-eq s k v.positive ∙ e, v.distinct _ m e)

  pub view-eq :
      (s : Shards K V) (k : K) {m : List (K × V)}
      → slot_of hash s k ≡ some m
      → view hash dec s k ≡ lookup dec k m
  unfolding view
  view-eq s k e = rw (e, view)

  pub view-write :
      (s : Shards K V) (k j : K) (new : Option V) (m' : List (K × V)) {m : List (K × V)}
      → IsValid hash dec s
      → slot_of hash s k ≡ some m
      → ((i : K) → lookup dec i m' ≡ ite (dec k i) new (lookup dec i m))
      → view hash dec (write hash s k m') j ≡ ite (dec k j) new (view hash dec s j)
  unfolding view slot_of write
  view-write s k j new m' {m} v e law =
      let at = hash k % s.size in
      let inside : at < length s.slots = omega (arith, v.positive, v.full) in
      let found : get_elem? s.slots at ≡ some m = sym (slot_of-eq s k v.positive) ∙ e in
      elim (ℕ_discrete at (hash j % s.size)) [
        | yes p ↦ ground (arith, v.positive, get_elem?-set_self s.slots at m' inside, law j)
        | no p ↦
            let other : k ≢ j = λ q. p (ap (λ (x : K). hash x % s.size) q) in
            ground (arith, v.positive, get_elem?-set_ne s.slots {i = at} {j = hash j % s.size} m' p)
      ]

  pub empty-IsValid : (n : ℕ) → 0 < n → IsValid hash dec (empty {K = K} {V = V} n)
  unfolding empty lookup
  empty-IsValid n h = record {
    positive = h;
    full = length-replicate n [];
    distinct = λ i m e. rw (← get_elem?-replicate_inv n [] m i e) tt;
    placed = λ i m k v e f. absurd (ground (arith, get_elem?-replicate_inv n [] m i e));
  }

  pub view-empty : (n : ℕ) (k : K) → view hash dec (empty {K = K} {V = V} n) k ≡ none
  unfolding view slot_of empty lookup
  view-empty n k =
      elim (Option-cases (get_elem? {A = List (K × V)} (replicate n []) (hash k % n))) [
        | inl e ↦ ground arith
        | inr (m, e) ↦ ground (arith, get_elem?-replicate_inv n [] m (hash k % n) e)
      ]

  pub write-IsValid :
      (s : Shards K V) (k : K) (new : Option V) (m' : List (K × V)) {m : List (K × V)}
      → IsValid hash dec s
      → slot_of hash s k ≡ some m
      → Distinct dec m'
      → ((i : K) → lookup dec i m' ≡ ite (dec k i) new (lookup dec i m))
      → IsValid hash dec (write hash s k m')
  unfolding slot_of write
  write-IsValid s k new m' {m} v e d law = record {
    positive = v.positive;
    full = length-set s.slots at m' ∙ v.full;
    distinct = λ i n f. elim (ℕ_discrete at i) [
      | yes p ↦ ground (arith, here, d)
      | no p ↦ v.distinct i n (ground (arith, get_elem?-set_ne s.slots {i = at} {j = i} m' p))
    ];
    placed = λ i n j w f g. elim (ℕ_discrete at i) [
      | yes p ↦ elim (dec k j) [
        | yes q ↦ rw (← q) p
        | no q ↦ v.placed i m j w (ground (arith, found)) (ground (arith, here, law j))
      ]
      | no p ↦ v.placed i n j w (ground (arith, get_elem?-set_ne s.slots {i = at} {j = i} m' p)) g
    ];
  }
    where
      at : ℕ
      at = hash k % s.size

      inside : at < length s.slots
      inside = omega (arith, v.positive, v.full)

      found : get_elem? s.slots at ≡ some m
      found = sym (slot_of-eq s k v.positive) ∙ e

      here : get_elem? (set s.slots at m') at ≡ some m'
      here = get_elem?-set_self s.slots at m' inside
