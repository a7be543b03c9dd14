-- ===== src/Serverd/Laws.antt =====
-- A tunnel's life: what `join` decides, and what `disconnect` takes back.
use ssoc_broker.Base.{
  ℕ, ◌≡◌, refl, sym, ap, subst, ◌⊎◌, ite, inl, inr, List, Bool, true, false, arith, Text,
  Bool-cases,
}
use ssoc_broker.Base.Int.{ℤ, ℤ_discrete}
use ssoc_broker.Store.{Result, Result-cases, update_where}
use ssoc_broker.Minion.{
  Status, inactive, offline, online, deleted, other, Minion, MinionTag, MinionTable,
}
use ssoc_broker.Serverd.{
  AuthRequest, Peer, Huber, Server, Joined, joined, refused, closed, offline_row, own_row,
  go_offline, go_online, find_or_create, disconnect, mark_online, enroll, admit, join, after_join,
  handle_start,
}

module _ {S : Type 0} (tbl : MinionTable) (huber : Huber S)
    (delete_tags : (MinionTag → Bool) → List MinionTag → Result (List MinionTag))
    (insert_tags : List MinionTag → List MinionTag → Result (List MinionTag)) (bid : ℤ)
    (broker_name : Text) (now : ℕ) (req : AuthRequest) where
  -- What the verdict of `join` means for the peers: `s` before it and `s'` after it.
  abbrev pub Verdict : S → S → Joined → Type 0
  Verdict s s' (joined m p) =
      ((m.status ≡ offline) ⊎ (m.status ≡ inactive))
      × (p.id ≡ m.id)
      × (huber.holds m.id s ≡ false)
      × ((j : ℤ) → huber.holds j s' ≡ ite (ℤ_discrete m.id j) true (huber.holds j s))
  Verdict s s' (refused _ _ _) = (j : ℤ) → huber.holds j s' ≡ huber.holds j s

  abbrev marking : Minion → Peer → Server S → Server S × Joined
  marking = mark_online tbl huber delete_tags insert_tags bid broker_name now req

  abbrev peer_of : Minion → Peer
  peer_of m = record { id = m.id; inet = req.inet }

  abbrev registered : Minion → Server S → Server S
  registered m s = record s { peers = (huber.put (peer_of m) s.peers).0 }

  -- The peer that was put is taken back: as before.
  put_back :
      (m : Minion) (s : Server S)
      → huber.holds m.id s.peers ≡ false
      → (j : ℤ)
      → huber.holds j (huber.del_by_id m.id (huber.put (peer_of m) s.peers).0)
        ≡ huber.holds j s.peers
  put_back m s free j = elim (ℤ_discrete m.id j) [
    | yes e ↦ ground (
      arith,
      huber.del_holds m.id (huber.put (peer_of m) s.peers).0 j,
      ap (λ (i : ℤ). huber.holds i s.peers) e,
    )
    | no n ↦ ground (
      arith,
      huber.del_holds m.id (huber.put (peer_of m) s.peers).0 j,
      huber.put_holds (peer_of m) s.peers j,
    )
  ]

  mark_online-Verdict :
      (m : Minion) (s : Server S)
      → ((m.status ≡ offline) ⊎ (m.status ≡ inactive))
      → huber.holds m.id s.peers ≡ false
      → Verdict s.peers
          (marking m (peer_of m) (registered m s)).0.peers
          (marking m (peer_of m) (registered m s)).1
  unfolding mark_online
  mark_online-Verdict m s fit free =
      elim (Result-cases (tbl.update (offline_row m.id) online_now s.minions)) [
        | inl ((n, t), q) ↦
            rw (q, mark_online) (fit, refl, free, huber.put_holds (peer_of m) s.peers)
        | inr (inl q) ↦ rw (q, mark_online) (put_back m s free)
        | inr (inr (x, q)) ↦ rw (q, mark_online) (put_back m s free)
      ]
    where
      online_now : Minion → Minion
      online_now = go_online tbl huber delete_tags insert_tags bid broker_name now req

  abbrev enrolling : Minion → Server S → Server S × Joined
  enrolling = enroll tbl huber delete_tags insert_tags bid broker_name now req

  enroll-Verdict :
      (m : Minion) (s : Server S)
      → ((m.status ≡ offline) ⊎ (m.status ≡ inactive))
      → Verdict s.peers (enrolling m s).0.peers (enrolling m s).1
  unfolding enroll
  enroll-Verdict m s fit = elim (Bool-cases (huber.holds m.id s.peers)) [
    | inl held ↦
        let no : (huber.put (peer_of m) s.peers).1 ≡ false =
          ground (arith, huber.put_stored (peer_of m) s.peers) in
        rw (no, enroll) (λ j. held_already m s held j)
    | inr free ↦
        let yes' : (huber.put (peer_of m) s.peers).1 ≡ true =
          ground (arith, huber.put_stored (peer_of m) s.peers) in
        rw (yes', enroll) (mark_online-Verdict m s fit free)
  ]
    where
      held_already :
          (m : Minion) (s : Server S)
          → huber.holds m.id s.peers ≡ true
          → (j : ℤ) → huber.holds j (huber.put (peer_of m) s.peers).0 ≡ huber.holds j s.peers
      held_already m s held j = elim (ℤ_discrete m.id j) [
        | yes e ↦
            ground (
              arith,
              huber.put_holds (peer_of m) s.peers j,
              ap (λ (i : ℤ). huber.holds i s.peers) e,
            )
        | no n ↦ ground (arith, huber.put_holds (peer_of m) s.peers j)
      ]

  abbrev admitting : Minion → Server S → Server S × Joined
  admitting = admit tbl huber delete_tags insert_tags bid broker_name now req

  Status-cases :
      (x : Status)
      → ((x ≡ offline) ⊎ (x ≡ inactive))
        ⊎ ((x ≡ online) ⊎ ((x ≡ deleted) ⊎ ((n : ℕ) × (x ≡ other n))))
  Status-cases inactive = inl (inr refl)
  Status-cases offline = inl (inl refl)
  Status-cases online = inr (inl refl)
  Status-cases deleted = inr (inr (inl refl))
  Status-cases (other n) = inr (inr (inr (n, refl)))

  admit-Verdict :
      (m : Minion) (s : Server S) → Verdict s.peers (admitting m s).0.peers (admitting m s).1
  unfolding admit
  admit-Verdict m s = elim (Status-cases m.status) [
    | inl (inl e) ↦ rw (e, admit) (enroll-Verdict m s (inl e))
    | inl (inr e) ↦ rw (e, admit) (enroll-Verdict m s (inr e))
    | inr (inl e) ↦ rw (e, admit) (λ j. refl)
    | inr (inr (inl e)) ↦ rw (e, admit) (λ j. refl)
    | inr (inr (inr (n, e))) ↦ rw (e, admit) (λ j. refl)
  ]

  abbrev joining : Server S → Server S × Joined
  joining = join tbl huber delete_tags insert_tags bid broker_name now req

  find_or_create-peers : (s : Server S) → (find_or_create tbl huber req s).0.peers ≡ s.peers
  unfolding find_or_create
  find_or_create-peers s = ground arith

  pub join-Verdict : (s : Server S) → Verdict s.peers (joining s).0.peers (joining s).1
  unfolding join
  join-Verdict s = elim (Result-cases (find_or_create tbl huber req s).1) [
    | inl (m, q) ↦
        let s1 : Server S = (find_or_create tbl huber req s).0 in
        rw (q, join)
          (subst (λ ps. Verdict ps (admitting m s1).0.peers (admitting m s1).1)
            (find_or_create-peers s) (admit-Verdict m s1))
    | inr (inl q) ↦ rw (q, join) (λ j. ap (huber.holds j) (find_or_create-peers s))
    | inr (inr (x, q)) ↦ rw (q, join) (λ j. ap (huber.holds j) (find_or_create-peers s))
  ]

  -- An agent that `join` let in and that the reply does not reach is turned away, and its id stays
  -- held: nothing takes the registration back.
  pub handle_start_unanswered :
      (s s1 : Server S) (m : Minion) (p : Peer)
      → joining s ≡ (s1, joined m p)
      → (handle_start tbl huber delete_tags insert_tags bid broker_name now req true true false s
          ≡ (s1, closed))
        × (huber.holds p.id s1.peers ≡ true)
  unfolding handle_start after_join
  handle_start_unanswered s s1 m p e =
      let (fit, same, free, law) = subst (λ r. Verdict s.peers r.0.peers r.1) e (join-Verdict s) in
      (
        rw (e, handle_start) refl,
        elim (ℤ_discrete m.id p.id) [
          | yes _ ↦ ground (arith, law p.id)
          | no n ↦ absurd (n (sym same))
        ],
      )

-- The end of a tunnel frees the agent's id and no other. The rows of that id that this broker has
-- online go offline, or the table is unchanged, if the statement fails; no other row changes.
pub disconnect-holds :
    {S : Type 0} (tbl : MinionTable) (huber : Huber S) (bid id : ℤ) (s : Server S)
    → ((j : ℤ)
        → huber.holds j (disconnect tbl huber bid id s).peers
          ≡ ite (ℤ_discrete id j) false (huber.holds j s.peers))
      × (((disconnect tbl huber bid id s).minions
            ≡ update_where (own_row bid id) go_offline s.minions)
          ⊎ ((disconnect tbl huber bid id s).minions ≡ s.minions))
unfolding disconnect
disconnect-holds tbl huber bid id s = (
  huber.del_holds id s.peers,
  elim (Result-cases (tbl.update (own_row bid id) go_offline s.minions)) [
    | inl ((n, t), q) ↦
        inl (ground (arith, tbl.update_ok (own_row bid id) go_offline n s.minions t q))
    | inr (inl q) ↦ inr (ground arith)
    | inr (inr (x, q)) ↦ inr (ground arith)
  ],
)
