-- ===== src/Collect/Laws.antt =====
-- What a report leaves in its table: the agent's rows after it, and the rows of the other agents.
use mathlib.Core.List.{Perm, append-nil}
use mathlib.Core.List.Perm
use ssoc_broker.Base.{
  ◌≡◌, ◌≢◌, refl, sym, ap, ◌∙◌, subst, List, [], ◌∷◌, ◌++◌, map, Bool, true, false, not, ◌&&◌,
  arith, if◌then◌else◌, Text, Elem, Elem-append, Elem-map, inl, inr, Bool-cases, ◌⊎◌,
}
use ssoc_broker.Base.Int.{ℤ, ℤ_discrete, int_eq}
use ssoc_broker.Store.{Result, Result-cases, ok, delete_where}
use ssoc_broker.Store.Batch.{
  Bulk, discard, rows, Some, Some-nil, Some-Elem, rows-discard, discard_lem, rows-delete_where,
  rows-delete_where_self, rows-delete_where_and, delete_where-none, rows-Added_ne, rows-Added,
}
use ssoc_broker.TaskDiff.{is_nil}
use ssoc_broker.Collect.Param.{CollectDiff}
use ssoc_broker.Collect.Replace.{
  Kind, among, of_minion, of_keys, stale_keys, new_rows, apply_diff, apply_full,
}

pub int_eq_refl : (a : ℤ) → int_eq a a ≡ true
int_eq_refl a = elim (ℤ_discrete a a) as (λ d. elim d [ yes p ↦ true | no n ↦ false ] ≡ true) [
  | yes p ↦ refl
  | no n ↦ absurd (n refl)
]

pub int_eq-true : (a b : ℤ) → int_eq a b ≡ true → a ≡ b
int_eq-true a b h = ground arith

pub int_eq_ne : (a b : ℤ) → a ≢ b → int_eq a b ≡ false
int_eq_ne a b n = ground arith

module _ {R Item Key : Type 0} (kind : Kind R Item Key) where
  -- What a report of differences says: the keys whose rows go, and the rows that come.
  abbrev pub named_keys : CollectDiff Item Key → List Key
  named_keys req = req.deletes ++ map kind.item_key req.updates

  abbrev pub reported : ℤ → Text → CollectDiff Item Key → List R
  reported mid inet req =
      map (kind.model mid inet) req.creates ++ map (kind.model mid inet) req.updates

  nil-among : (ks : List Key) → is_nil ks ≡ true → (k : Key) → among kind k ks ≡ false
  nil-among [] e k = refl
  nil-among (x ∷ ks) e k = cc

  model-mine :
      (mid : ℤ) (inet : Text) (x : Item) → of_minion kind mid (kind.model mid inet x) ≡ true
  model-mine mid inet x = rw (kind.model_minion_id mid inet x) (int_eq_refl mid)

  models-mine :
      (mid : ℤ) (inet : Text) (xs : List Item) (r : R)
      → Elem r (map (kind.model mid inet) xs)
      → of_minion kind mid r ≡ true
  models-mine mid inet xs r h =
      let (x, m, e) = (Elem-map (kind.model mid inet) r xs).0 h in
      subst (λ y. of_minion kind mid y ≡ true) e (model-mine mid inet x)

  new_rows-mine :
      (mid : ℤ) (inet : Text) (req : CollectDiff Item Key) (r : R)
      → Elem r (new_rows kind mid inet req)
      → of_minion kind mid r ≡ true
  new_rows-mine mid inet req r h = elim ((Elem-append r _ _).0 h) [
    | inl a ↦ models-mine mid inet req.creates r a
    | inr b ↦ models-mine mid inet req.updates r b
  ]

  -- A row of one agent is no row of another.
  apart : (i mid : ℤ) (r : R) → i ≢ mid → of_minion kind mid r ≡ true → of_minion kind i r ≡ false
  apart i mid r n h =
      int_eq_ne (kind.minion_id r) i (λ e. n (sym e ∙ int_eq-true (kind.minion_id r) mid h))

  module _ (tbl : Bulk R) (mid : ℤ) (inet : Text) where
    -- A report of differences leaves the rows of every other agent as they are, whatever fails.
    pub rows-apply_diff_ne :
        (req : CollectDiff Item Key) (t : List R) (i : ℤ)
        → i ≢ mid
        → rows (of_minion kind i) (apply_diff kind tbl mid inet req t).0 ≡ rows (of_minion kind i) t
    unfolding apply_diff
    rows-apply_diff_ne req t i n =
        let (kept, some_of, added) = tbl.insert_some (new_rows kind mid inet req) cleared in
        rows-Added_ne (of_minion kind i) added
          (λ r m. apart i mid r n (new_rows-mine mid inet req r (Some-Elem r some_of m)))
        ∙ cleared-rows
      where
        keys : List Key
        keys = stale_keys kind req

        cleared : List R
        cleared = if is_nil keys then t else discard tbl (of_keys kind mid keys) t

        cleared-rows : rows (of_minion kind i) cleared ≡ rows (of_minion kind i) t
        cleared-rows = elim (Bool-cases (is_nil keys)) [
          | inl e ↦ rw e refl
          | inr e ↦ rw e (
              rows-discard tbl (of_minion kind i) (of_keys kind mid keys) t
                (λ r h. apart i mid r n (ground arith)))
        ]

    pub rows-apply_full_ne :
        (answer : Result (Unit {0}) → Result (Unit {0})) (items : List Item) (t : List R) (i : ℤ)
        → i ≢ mid
        → rows (of_minion kind i) (apply_full kind tbl mid inet answer items t).0
          ≡ rows (of_minion kind i) t
    unfolding apply_full
    rows-apply_full_ne answer items t i n =
        elim (Result-cases (tbl.delete (of_minion kind mid) t)) [
          | inl (t', e) ↦
              let left : rows (of_minion kind i) t' ≡ rows (of_minion kind i) t =
                ap (rows (of_minion kind i)) (tbl.delete_ok _ t t' e)
                ∙ rows-delete_where (of_minion kind i) (of_minion kind mid) t
                    (λ r. apart i mid r n) in
              let (kept, some_of, added) = tbl.insert_some (map (kind.model mid inet) items) t' in
              let put =
                rows-Added_ne (of_minion kind i) added
                  (λ r m. apart i mid r n (models-mine mid inet items r (Some-Elem r some_of m))) in
              elim (Bool-cases (is_nil items)) [
                | inl none_there ↦ rw (e, apply_full) (rw none_there left)
                | inr some_there ↦ rw (e, apply_full) (rw some_there (put ∙ left))
              ]
          | inr (inl e) ↦ rw (e, apply_full) refl
          | inr (inr (x, e)) ↦ rw (e, apply_full) refl
        ]

    -- Where an insertion of the rows `news` into `t` ends well, each of them stands in `t'`, or a row of
    -- `t'` has its value of a unique key.
    abbrev pub Complete : List R → List R → List R → Type 0
    Complete news t t' =
        ((tbl.insert news t).1 ≢ ok tt)
        ⊎ ((r : R) → Elem r news → (x : R) × Elem x t' × ((x ≡ r) ⊎ tbl.Meets r x))

    insert-Complete : (news t : List R) → Complete news t (tbl.insert news t).0
    insert-Complete news t = elim (Result-cases (tbl.insert news t).1) [
      | inl (u, e) ↦ inr (tbl.insert_ok news t e)
      | inr (inl e) ↦ inl (λ h. cc)
      | inr (inr (x, e)) ↦ inl (λ h. cc)
    ]

    empty-Complete :
        (items : List Item) (t : List R)
        → is_nil items ≡ true
        → Complete (map (kind.model mid inet) items) t t
    empty-Complete [] t e = inr (λ r m. absurd m)
    empty-Complete (x ∷ xs) t e = absurd (ground arith)

    -- After a full report whose deletion succeeds, the agent's rows are rows of the report's items, in
    -- some order. If the insertion ends well, each item's row is in the table, or a row with its value
    -- of a unique key; if it fails, a part of the rows may be missing.
    pub rows-apply_full :
        (answer : Result (Unit {0}) → Result (Unit {0})) (items : List Item) (t t' : List R)
        → tbl.delete (of_minion kind mid) t ≡ ok t'
        → ((kept : List R) × Some kept (map (kind.model mid inet) items)
            × Perm (rows (of_minion kind mid) (apply_full kind tbl mid inet answer items t).0) kept)
          × Complete
              (map (kind.model mid inet) items)
              t'
              (apply_full kind tbl mid inet answer items t).0
    unfolding apply_full
    rows-apply_full answer items t t' q =
        let gone : rows mine t' ≡ [] =
          ap (rows mine) (tbl.delete_ok mine t t' q) ∙ rows-delete_where_self mine t in
        elim (Bool-cases (is_nil items)) [
          | inl none_there ↦
              rw (q, apply_full)
                (rw none_there (
                  ([], Some-nil _, subst (λ l. Perm l []) (sym gone) (Perm.refl [])),
                  empty-Complete items t' none_there,
                ))
          | inr some_there ↦
              let news = map (kind.model mid inet) items in
              let (kept, some_of, added) = tbl.insert_some news t' in
              let put =
                rows-Added mine added
                  (λ r m. models-mine mid inet items r (Some-Elem r some_of m)) in
              rw (q, apply_full)
                (rw some_there ((kept, some_of, put_alone gone put), insert-Complete news t'))
        ]
      where
        mine : R → Bool
        mine = of_minion kind mid

        put_alone : {xs kept ys : List R} → ys ≡ [] → Perm xs (kept ++ ys) → Perm xs kept
        put_alone {xs} {kept} {ys} e p = subst (Perm xs) (ap (λ l. kept ++ l) e ∙ append-nil kept) p

    -- After a report of differences whose deletion succeeds, the agent's rows are the ones whose keys it
    -- neither deletes nor updates, and rows of the items that it creates or updates. The answer is the
    -- insertion's. If the insertion ends well, the row of each item that it creates or updates is in the
    -- table, or a row with its value of a unique key; if it fails, a part of the rows may be missing.
    pub rows-apply_diff :
        (req : CollectDiff Item Key) (t t' : List R)
        → tbl.delete (of_keys kind mid (named_keys req)) t ≡ ok t'
        → ((kept : List R) × Some kept (reported mid inet req)
            × Perm (rows (of_minion kind mid) (apply_diff kind tbl mid inet req t).0) (
                kept
                ++ rows
                    (λ r.
                      of_minion kind mid r && not (among kind (kind.row_key r) (named_keys req)))
                    t))
          × ((apply_diff kind tbl mid inet req t).1 ≡ (tbl.insert (reported mid inet req) t').1)
          × Complete (reported mid inet req) t' (apply_diff kind tbl mid inet req t).0
    unfolding apply_diff
    rows-apply_diff req t t' q =
        let news = new_rows kind mid inet req in
        let (kept, some_of, added) = tbl.insert_some news cleared in
        let before : cleared ≡ t' = cleared-eq ∙ sym (tbl.delete_ok _ t t' q) in
        (
          (
            kept,
            some_of,
            subst (λ l. Perm (rows mine (tbl.insert news cleared).0) (kept ++ l)) cleared-rows
                (rows-Added mine added
                  (λ r m. new_rows-mine mid inet req r (Some-Elem r some_of m))),
          ),
          ap (λ l. (tbl.insert news l).1) before,
          subst (λ l. Complete news l (tbl.insert news cleared).0) before
              (insert-Complete news cleared),
        )
      where
        mine : R → Bool
        mine = of_minion kind mid

        keys : List Key
        keys = stale_keys kind req

        cleared : List R
        cleared = if is_nil keys then t else discard tbl (of_keys kind mid keys) t

        cleared-eq : cleared ≡ delete_where (of_keys kind mid keys) t
        cleared-eq = elim (Bool-cases (is_nil keys)) [
          | inl e ↦ rw e (
              sym (
                delete_where-none (of_keys kind mid keys) t
                  (λ r. ground (arith, nil-among keys e (kind.row_key r)))))
          | inr e ↦ rw e (discard_lem tbl (of_keys kind mid keys) t t' q)
        ]

        cleared-rows :
            rows mine cleared ≡ rows (λ r. mine r && not (among kind (kind.row_key r) keys)) t
        cleared-rows =
            ap (rows mine) cleared-eq
            ∙ rows-delete_where_and mine (λ r. among kind (kind.row_key r) keys) t
