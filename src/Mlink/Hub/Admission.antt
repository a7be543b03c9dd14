-- ===== src/Mlink/Hub/Admission.antt =====
-- Whom `Auth` lets in.
use ssoc_broker.Base.{
  ℕ, ◌+◌, ◌≤◌, ◌<◌, ◌≡◌, sym, ◌∙◌, ◌≢◌, inl, inr, List, [], ◌∷◌, none, some, Bool, is_empty, arith,
  Text, length, Elem, Bool-cases, Option-cases,
}
use ssoc_broker.Base.Int.{ℤ}
use ssoc_broker.Store.{Result, Result-cases, ok, find, Inserted}
use ssoc_broker.Store.Rows.{find-holds}
use ssoc_broker.Minion.{online, deleted, Minion, MinionTable, with_id}
use ssoc_broker.Mlink.Ident.{Ident, Issue, ip_string}
use ssoc_broker.Mlink.Hub.{
  Hub, accepted, new_minion, by_machine, by_inet, by_unbound_inet, create_new, lookup_unbound,
  lookup_by_machine_id, lookup_by_inet, lookup_or_create, check_ident, judge, auth,
}

find-Elem : {R : Type 0} (p : R → Bool) (t : List R) (r : R) → find p t ≡ some r → Elem r t
find-Elem p [] r e = cc
find-Elem p (x ∷ t) r e = elim (Bool-cases (p x)) [
  | inl h ↦ inl (ground arith)
  | inr h ↦ inr (find-Elem p t r (ground arith))
]

module _ (tbl : MinionTable) (other : Text → Text) (now : ℕ) (ident : Ident) where
  abbrev pub address : Text
  address = ip_string other ident.inet

  -- The row is one of the table, known by the agent's machine id or by its address; or it is new,
  -- offline, and made from what the agent said of itself.
  pub data Known (h h' : Hub) (m : Minion) : Type 0 where
    by_id : Elem m h.minions → m.machine_id ≡ ident.machine_id → Known h h' m
    by_address : Elem m h.minions → m.inet ≡ address → Known h h' m
    fresh :
        (n : ℤ)
        → m ≡ with_id n (new_minion other now ident)
        → Inserted m h.minions h'.minions
        → Known h h' m

  -- A step of the lookup that found a row, and left all but the table of agents alone.
  abbrev Finds : Hub → Hub × Result Minion → Type 0
  Finds h (h', r) = (m : Minion) → r ≡ ok m → Known h h' m

  create_new-Finds : (h : Hub) → Finds h (create_new tbl other now ident h)
  unfolding create_new
  create_new-Finds h m e = elim (Result-cases (tbl.create (new_minion other now ident) h.minions)) [
    | inl ((r, t), q) ↦
        let (n, same, more) = tbl.create_ok (new_minion other now ident) r h.minions t q in
        let here : r ≡ m = ground arith in
        rw (q, create_new) (fresh n (sym here ∙ same) (rw here at more))
    | inr (inl q) ↦ absurd (ground arith)
    | inr (inr (x, q)) ↦ absurd (ground arith)
  ]

  lookup_unbound-Finds : (h : Hub) → Finds h (lookup_unbound tbl other now ident h)
  unfolding lookup_unbound
  lookup_unbound-Finds h m e = elim (Result-cases (tbl.first (by_unbound_inet address) h.minions)) [
    | inl (r, q) ↦
        let row : find (by_unbound_inet address) h.minions ≡ some m =
          ground (arith, tbl.first_ok (by_unbound_inet address) h.minions r q) in
        by_address (find-Elem _ h.minions m row)
          (ground (arith, find-holds (by_unbound_inet address) h.minions m row))
    | inr (inl q) ↦ rw (q, lookup_unbound) (create_new-Finds h m (ground arith))
    | inr (inr (x, q)) ↦ rw (q, lookup_unbound) (create_new-Finds h m (ground arith))
  ]

  lookup_by_machine_id-Finds : (h : Hub) → Finds h (lookup_by_machine_id tbl other now ident h)
  unfolding lookup_by_machine_id
  lookup_by_machine_id-Finds h m e =
      elim (Result-cases (tbl.first (by_machine ident.machine_id) h.minions)) [
        | inl (r, q) ↦
            let row : find (by_machine ident.machine_id) h.minions ≡ some m =
              ground (arith, tbl.first_ok (by_machine ident.machine_id) h.minions r q) in
            by_id (find-Elem _ h.minions m row)
              (ground (arith, find-holds (by_machine ident.machine_id) h.minions m row))
        | inr (inl q) ↦ rw (q, lookup_by_machine_id) (lookup_unbound-Finds h m (ground arith))
        | inr (inr (x, q)) ↦ rw (q, lookup_by_machine_id) (lookup_unbound-Finds h m (ground arith))
      ]

  lookup_by_inet-Finds : (h : Hub) → Finds h (lookup_by_inet tbl other now ident h)
  unfolding lookup_by_inet
  lookup_by_inet-Finds h m e = elim (Result-cases (tbl.first (by_inet address) h.minions)) [
    | inl (r, q) ↦
        let row : find (by_inet address) h.minions ≡ some m =
          ground (arith, tbl.first_ok (by_inet address) h.minions r q) in
        by_address (find-Elem _ h.minions m row)
          (ground (arith, find-holds (by_inet address) h.minions m row))
    | inr (inl q) ↦ rw (q, lookup_by_inet) (create_new-Finds h m (ground arith))
    | inr (inr (x, q)) ↦ rw (q, lookup_by_inet) (create_new-Finds h m (ground arith))
  ]

  lookup_or_create-Finds : (h : Hub) → Finds h (lookup_or_create tbl other now ident h)
  unfolding lookup_or_create
  lookup_or_create-Finds h m e = elim (Bool-cases (is_empty ident.machine_id)) [
    | inl q ↦ rw (q, lookup_or_create) (lookup_by_inet-Finds h m (ground arith))
    | inr q ↦ rw (q, lookup_or_create) (lookup_by_machine_id-Finds h m (ground arith))
  ]

  -- Whom `Auth` accepts passed the checks on its version and address, and has the id of a row that
  -- is neither deleted nor online: one found by machine id or by address, or one created for it. The
  -- key is made of 32 to 64 random bytes, when `Intn(33)` keeps below 33.
  pub auth-accepted :
      (pick : ℕ) (fill : ℕ → Text) (h h' : Hub) (issue : Issue)
      → pick < 33
      → ((n : ℕ) → length (fill n) ≡ n)
      → auth tbl other now ident pick fill h ≡ (h', accepted issue)
      → (check_ident tbl other now ident ≡ none)
        × (32 ≤ length issue.passwd)
        × (length issue.passwd ≤ 64)
        × ((m : Minion) × Known h h' m
            × (issue.id ≡ m.id)
            × (m.status ≢ online)
            × (m.status ≢ deleted))
  unfolding auth judge
  auth-accepted pick fill h h' issue small filled e =
      elim (Option-cases (check_ident tbl other now ident)) [
        | inr (x, q) ↦ absurd (ground arith)
        | inl q ↦ elim (Result-cases (lookup_or_create tbl other now ident h).1) [
          | inl (m, r) ↦
              let known = lookup_or_create-Finds h m r in
              let here : (lookup_or_create tbl other now ident h).0 ≡ h' = ground arith in
              let key : issue.passwd ≡ fill (pick + 32) = ground arith in
              (
                q,
                rw key (omega (arith, filled (pick + 32))),
                rw key (omega (arith, filled (pick + 32))),
                (m, rw here at known, ground arith, ground arith, ground arith),
              )
          | inr (inl r) ↦ absurd (ground arith)
          | inr (inr (x, r)) ↦ absurd (ground arith)
        ]
      ]
