-- ===== src/Tags.antt =====
-- app/agtsvc/tag.go: an agent changes its tags. The merge (`model.MinionTags.Minion`) is a parameter, and
-- so is the text of the service's own error.
use ssoc_broker.Base.{
  ◌≡◌, ◌≢◌, refl, sym, ap, ◌∙◌, List, Bool, true, false, if◌then◌else◌, Text, Elem, Bool-cases, inl,
  inr, ◌⊎◌,
}
use ssoc_broker.Base.Int.{ℤ, int_eq}
use ssoc_broker.Store.{Result, Result-cases, ok, missing, failed}
use ssoc_broker.Store.Batch.{Bulk, rows, Some-Elem, rows-Added_ne, rows-delete_where}
use ssoc_broker.Minion.{Minion, MinionTag, MinionTable}
use ssoc_broker.TaskDiff.{is_nil}
use ssoc_broker.Collect.Laws.{int_eq_ne, int_eq-true}
use ssoc_broker.Mgtsvc.Rounds.{is_ok}
use ssoc_broker.Mgtsvc.Minion.{is_deleted}

abbrev pub tag_of : ℤ → MinionTag → Bool
tag_of mid t = int_eq t.minion_id mid

-- The tags after the update, its result, and whether the agent's configurations are synchronised next.
pub record Updated : Type 0 where
  pub tags : List MinionTag
  pub result : Result (Unit {0})
  pub resync : Bool

module _ (minions : MinionTable) (tbl : Bulk MinionTag)
    (find_tags : (MinionTag → Bool) → List MinionTag → Result (List MinionTag))
    (merge : List MinionTag → ℤ → List Text → List Text → List MinionTag) (removed : Text) where
  -- The transaction: on an error what it wrote is taken back.
  unfoldable pub transact : ℤ → List MinionTag → List MinionTag → List MinionTag × Result (Unit {0})
  transact mid news tags = elim (tbl.delete (tag_of mid) tags) [
    | ok left ↦
        let (t, answer) = tbl.insert news left in
        if is_nil news then (left, ok tt) else elim answer [
          | ok u ↦ (t, ok tt)
          | missing ↦ (tags, missing)
          | failed e ↦ (tags, failed e)
        ]
    | missing ↦ (tags, missing)
    | failed e ↦ (tags, failed e)
  ]

  abbrev refused : {A : Type 0} → List MinionTag → Result A → Updated
  refused tags (ok a) = record { tags = tags; result = ok tt; resync = false }
  refused tags missing = record { tags = tags; result = missing; resync = false }
  refused tags (failed e) = record { tags = tags; result = failed e; resync = false }

  abbrev settled : List MinionTag × Result (Unit {0}) → Updated
  settled (t, ok u) = record { tags = t; result = ok tt; resync = true }
  settled (t, missing) = refused {A = Unit {0}} t missing
  settled (t, failed e) = refused {A = Unit {0}} t (failed e)

  unfoldable pub update : List Minion → ℤ → List Text → List Text → List MinionTag → Updated
  unfolding transact
  update agents mid creates deletes tags = elim (minions.first (λ m. int_eq m.id mid) agents) [
    | ok mon ↦
        if is_deleted mon.status
        then refused {A = Unit {0}} tags (failed removed)
        else elim (find_tags (tag_of mid) tags) [
          | ok olds ↦ settled (transact mid (merge olds mid deletes creates) tags)
          | missing ↦ refused {A = Unit {0}} tags missing
          | failed e ↦ refused {A = Unit {0}} tags (failed e)
        ]
    | missing ↦ refused {A = Unit {0}} tags missing
    | failed e ↦ refused {A = Unit {0}} tags (failed e)
  ]

  -- The update ended well, or nothing changed.
  abbrev pub Fate : ℤ → List MinionTag → Updated → Type 0
  Fate i tags u =
      ((u.resync ≡ true) × (u.result ≡ ok tt) × (rows (tag_of i) u.tags ≡ rows (tag_of i) tags))
      ⊎ ((u.resync ≡ false) × (is_ok u.result ≡ false) × (u.tags ≡ tags))

  rows-transact :
      (mid i : ℤ) (news tags : List MinionTag)
      → ((t : MinionTag) → Elem t news → t.minion_id ≡ mid)
      → i ≢ mid
      → Fate i tags (settled (transact mid news tags))
  unfolding transact
  rows-transact mid i news tags mine n = elim (Result-cases (tbl.delete (tag_of mid) tags)) [
    | inl (left, e) ↦
        let kept : rows (tag_of i) left ≡ rows (tag_of i) tags =
          ap (rows (tag_of i)) (tbl.delete_ok _ tags left e)
          ∙ rows-delete_where (tag_of i) (tag_of mid) tags (λ t own.
            int_eq_ne t.minion_id i (λ q. n (sym q ∙ int_eq-true t.minion_id mid own))) in
        let (some, some_of, added) = tbl.insert_some news left in
        let put : rows (tag_of i) (tbl.insert news left).0 ≡ rows (tag_of i) left =
          rows-Added_ne (tag_of i) added
            (λ t m. int_eq_ne t.minion_id i (λ q. n (sym q ∙ mine t (Some-Elem t some_of m)))) in
        elim (Bool-cases (is_nil news)) [
          | inl q ↦ rw (e, transact) (rw q (inl (refl, refl, kept)))
          | inr q ↦ elim (Result-cases (tbl.insert news left).1) [
            | inl (u, a) ↦ rw (e, transact) (rw q (rw a (inl (refl, refl, put ∙ kept))))
            | inr (inl a) ↦ rw (e, transact) (rw q (rw a (inr (refl, refl, refl))))
            | inr (inr (x, a)) ↦ rw (e, transact) (rw q (rw a (inr (refl, refl, refl))))
          ]
        ]
    | inr (inl e) ↦ rw (e, transact) (inr (refl, refl, refl))
    | inr (inr (x, e)) ↦ rw (e, transact) (inr (refl, refl, refl))
  ]

  -- An update of an agent's tags ends well, starts a synchronisation of the agent and leaves the tags of
  -- every other agent as they are; or it fails, starts none and leaves all tags as they are. It needs
  -- that the merged tags are the agent's.
  pub update-Fate :
      (agents : List Minion) (mid i : ℤ) (creates deletes : List Text) (tags : List MinionTag)
      → ((olds : List MinionTag) (t : MinionTag)
          → Elem t (merge olds mid deletes creates)
          → t.minion_id ≡ mid)
      → i ≢ mid
      → Fate i tags (update agents mid creates deletes tags)
  unfolding update
  update-Fate agents mid i creates deletes tags mine n =
      elim (Result-cases (minions.first (λ m. int_eq m.id mid) agents)) [
        | inl (mon, e) ↦ elim (Bool-cases (is_deleted mon.status)) [
          | inl gone ↦ rw (e, update) (rw gone (inr (refl, refl, refl)))
          | inr there ↦ elim (Result-cases (find_tags (tag_of mid) tags)) [
            | inl (olds, q) ↦
                rw (e, update)
                  (rw there (
                    rw q (rows-transact mid i (merge olds mid deletes creates) tags (mine olds) n)))
            | inr (inl q) ↦ rw (e, update) (rw there (rw q (inr (refl, refl, refl))))
            | inr (inr (x, q)) ↦ rw (e, update) (rw there (rw q (inr (refl, refl, refl))))
          ]
        ]
        | inr (inl e) ↦ rw (e, update) (inr (refl, refl, refl))
        | inr (inr (x, e)) ↦ rw (e, update) (inr (refl, refl, refl))
      ]
