-- ===== src/Serverd.antt =====
-- channel/serverd/server.go: an agent's tunnel from the handshake to its end. The table of agents is
-- the `Table` of the database, the set of connected peers is the `Huber` of ssoc-common/linkhub, which
-- is not part of the repository. The multiplexer, deadlines and the HTTP server are left out: what
-- happens while a tunnel is served are the steps of other calls between `handle_start` and
-- `disconnect`.
pub mod Frame
pub mod Laws
use ssoc_broker.Base.{
  ℕ, ◌≡◌, ite, List, [], ◌∷◌, ◌++◌, Option, none, some, Bool, true, false, ◌&&◌, not, if◌then◌else◌,
  Text, text_eq,
}
use ssoc_broker.Base.Int.{ℤ, pos, int_eq, ℤ_discrete}
use ssoc_broker.Store.{Result, ok, missing, failed}
use ssoc_broker.Minion.{
  Status, inactive, offline, online, deleted, other, is_online, is_offline, Minion, MinionTag,
  MinionTable,
}

pub record AuthRequest : Type 0 where
  pub machine_id : Text
  pub inet : Text
  pub pid : ℤ
  pub workdir : Text
  pub executable : Text
  pub hostname : Text
  pub goos : Text
  pub goarch : Text
  pub semver : Text
  pub unload : Bool
  pub unstable : Bool
  pub customized : Text

-- `linkhub.NewPeer`, less its session.
pub record Peer : Type 0 where
  pub id : ℤ
  pub inet : Text

-- `linkhub.Huber` over its state: `Put` stores a peer unless its id is held, and `DelByID` frees one.
pub record Huber (S : Type 0) : Type 0 where
  pub put : Peer → S → S × Bool
  pub del_by_id : ℤ → S → S
  pub holds : ℤ → S → Bool
  pub put_stored : (p : Peer) (s : S) → (put p s).1 ≡ not (holds p.id s)
  pub put_holds :
      (p : Peer) (s : S) (j : ℤ) → holds j (put p s).0 ≡ ite (ℤ_discrete p.id j) true (holds j s)
  pub del_holds :
      (id : ℤ) (s : S) (j : ℤ) → holds j (del_by_id id s) ≡ ite (ℤ_discrete id j) false (holds j s)

-- The calls of `AgentNotifier`.
pub data Note : Type 0 where
  agent_connected agent_disconnected : ℤ → Note

pub record Server (S : Type 0) : Type 0 where
  pub minions : List Minion
  pub tags : List MinionTag
  pub peers : S
  pub notes : List Note

pub data JoinError : Type 0 where
  duplicated marked_deleted abnormal database : JoinError

-- `join`: 200 with the row and the peer, or a status code with an error and the row if there is one.
pub data Joined : Type 0 where
  joined : Minion → Peer → Joined
  refused : ℕ → JoinError → Option Minion → Joined

-- What `Handle` came to before it serves.
pub data Handled : Type 0 where
  closed : Handled
  serving : Peer → Handled

abbrev pub by_machine : Text → Minion → Bool
by_machine machine_id m = text_eq m.machine_id machine_id

abbrev pub offline_row : ℤ → Minion → Bool
offline_row id m = int_eq m.id id && is_offline m.status

-- `ID.Eq(id), Status.Eq(online), BrokerID.Eq(as.cur.ID)`.
abbrev pub own_row : ℤ → ℤ → Minion → Bool
own_row bid id m = int_eq m.id id && is_online m.status && int_eq m.broker_id bid

abbrev pub go_offline : Minion → Minion
go_offline m = record m { status = offline }

unfoldable pub new_minion : AuthRequest → Minion
new_minion req = record {
  id = pos 0;
  machine_id = req.machine_id;
  inet = req.inet;
  inet6 = [];
  mac = [];
  goos = req.goos;
  arch = req.goarch;
  edition = req.semver;
  status = offline;
  uptime = none;
  broker_id = pos 0;
  broker_name = [];
  unload = req.unload;
  unstable = req.unstable;
  customized = req.customized;
}

module _ {S : Type 0} (tbl : MinionTable) (huber : Huber S) where
  unfoldable pub find_or_create : AuthRequest → Server S → Server S × Result Minion
  unfolding new_minion
  find_or_create req s = elim (tbl.first (by_machine req.machine_id) s.minions) [
    | ok m ↦ (s, ok m)
    | failed e ↦ (s, failed e)
    | missing ↦ elim (tbl.create (new_minion req) s.minions) [
      | ok (m, t) ↦ (record s { minions = t }, ok m)
      | missing ↦ (s, missing)
      | failed e ↦ (s, failed e)
    ]
  ]

  -- `disconnect`: the statement's error is only logged.
  unfoldable pub disconnect : ℤ → ℤ → Server S → Server S
  disconnect bid id s =
      let t : List Minion = elim (tbl.update (own_row bid id) go_offline s.minions) [
        | ok (_, t) ↦ t
        | missing ↦ s.minions
        | failed _ ↦ s.minions
      ] in
      record s {
        minions = t;
        peers = huber.del_by_id id s.peers;
        notes = s.notes ++ (agent_disconnected id ∷ []);
      }

module _ {S : Type 0} (tbl : MinionTable) (huber : Huber S)
    (delete_tags : (MinionTag → Bool) → List MinionTag → Result (List MinionTag))
    (insert_tags : List MinionTag → List MinionTag → Result (List MinionTag)) (bid : ℤ)
    (broker_name : Text) (now : ℕ) (req : AuthRequest) where
  abbrev pub go_online : Minion → Minion
  go_online m = record m {
    status = online;
    inet = req.inet;
    goos = req.goos;
    arch = req.goarch;
    edition = req.semver;
    uptime = some now;
    unload = req.unload;
    unstable = req.unstable;
    customized = req.customized;
    broker_id = bid;
    broker_name = broker_name;
  }

  -- The transaction on the tags; its errors are dropped.
  unfoldable pub reset_tags : ℤ → List MinionTag → List MinionTag
  reset_tags id tags =
      let left : List MinionTag =
        elim (delete_tags (λ t. int_eq t.minion_id id && t.lifelong) tags) [
          | ok t ↦ t
          | missing ↦ tags
          | failed _ ↦ tags
        ] in
      let lifelong : Text → MinionTag =
        λ tag. record { minion_id = id; tag = tag; lifelong = true } in
      elim (insert_tags (lifelong req.inet ∷ lifelong req.goos ∷ lifelong req.goarch ∷ []) left) [
        | ok t ↦ t
        | missing ↦ left
        | failed _ ↦ left
      ]

  -- The peer is registered: the update of the row and the tags. How many rows were changed is not
  -- looked at.
  unfoldable pub mark_online : Minion → Peer → Server S → Server S × Joined
  unfolding reset_tags
  mark_online m p s = elim (tbl.update (offline_row m.id) go_online s.minions) [
    | ok (_, t) ↦ (record s { minions = t; tags = reset_tags m.id s.tags }, joined m p)
    | missing ↦ (record s { peers = huber.del_by_id m.id s.peers }, refused 500 database (some m))
    | failed _ ↦ (record s { peers = huber.del_by_id m.id s.peers }, refused 500 database (some m))
  ]

  -- The check in memory.
  unfoldable pub enroll : Minion → Server S → Server S × Joined
  unfolding mark_online
  enroll m s =
      let p : Peer = record { id = m.id; inet = req.inet } in
      let (peers, stored) = huber.put p s.peers in
      let s1 : Server S = record s { peers = peers } in
      if stored then mark_online m p s1 else (s1, refused 409 duplicated (some m))

  -- The check of the row's status.
  unfoldable pub admit : Minion → Server S → Server S × Joined
  unfolding enroll
  admit m s = elim m.status [
    | online ↦ (s, refused 409 duplicated (some m))
    | deleted ↦ (s, refused 403 marked_deleted (some m))
    | other _ ↦ (s, refused 403 abnormal (some m))
    | offline ↦ enroll m s
    | inactive ↦ enroll m s
  ]

  unfoldable pub join : Server S → Server S × Joined
  unfolding find_or_create admit
  join s =
      let (s1, found) = find_or_create tbl huber req s in
      elim found [
        | ok m ↦ admit m s1
        | missing ↦ (s1, refused 500 database none)
        | failed _ ↦ (s1, refused 500 database none)
      ]

  -- What follows `join`: `replied` says whether `writeResponse` succeeded.
  unfoldable pub after_join : Bool → Server S → Joined → Server S × Handled
  after_join replied s (refused _ _ _) = (s, closed)
  after_join true s (joined _ p) =
      (record s { notes = s.notes ++ (agent_connected p.id ∷ []) }, serving p)
  after_join false s (joined _ _) = (s, closed)

  -- `Handle` up to `srv.Serve(lis)`: `allowed` is the limiter's verdict, `valid` says that a request
  -- was read and that the option `valid` has no error for it.
  unfoldable pub handle_start : Bool → Bool → Bool → Server S → Server S × Handled
  unfolding join after_join
  handle_start allowed valid replied s =
      if allowed && valid
      then (let (s1, verdict) = join s in after_join replied s1 verdict)
      else (s, closed)
