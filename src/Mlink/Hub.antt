-- ===== src/Mlink/Hub.antt =====
-- bridge/mlink/hub.go: who may come online, and a connection's life from `Join` to its end. The
-- database is the `Table` of agents and two statements on tags; what the broker knows of itself, the
-- clock and the random bytes are arguments. `none` is a panic of the registry. The smux session, the
-- HTTP server and the forwarding of requests are left out: what happens while a connection is served
-- are the steps of other calls between `join_start` and `join_end`.
pub mod Admission
pub mod Sessions
pub mod Registry
pub mod Steps
pub mod Interleaving
pub mod Quiet
pub mod Race
use ssoc_broker.Base.{
  ℕ, ◌+◌, List, [], ◌∷◌, ◌++◌, Option, none, some, Bool, true, false, ◌&&◌, ◌||◌, not,
  if◌then◌else◌, ◌==◌, is_empty, Text, text_eq,
}
use ssoc_broker.Base.Int.{ℤ, pos, int_eq}
use ssoc_broker.Base.Decimal.{format_int}
use ssoc_broker.Store.{Result, ok, missing, failed, Table}
use ssoc_broker.Minion.{
  Status, inactive, offline, online, deleted, is_online, is_offline, Minion, MinionTag, MinionTable,
}
use ssoc_broker.Mlink.Ident.{Ident, Issue, to4, is_loopback, is_unspecified, ip_string, is_version4}
use ssoc_broker.Mlink.SegmentMap.{SegmentMap}
use ssoc_broker.Mlink.SegmentMap

-- `connect`, less its smux session.
pub record Connect : Type 0 where
  pub id : ℤ
  pub ident : Ident
  pub issue : Issue

-- The calls of `NodePhaser`.
pub data Event : Type 0 where
  repeated connected disconnected : ℤ → Event

pub record Hub : Type 0 where
  pub minions : List Minion
  pub tags : List MinionTag
  pub section : SegmentMap Connect
  pub events : List Event

pub data AuthError : Type 0 where
  bad_machine_id bad_inet removed already_online : AuthError
  database : AuthError

-- `Auth` gives an `Issue` and 202, or a status code and an error.
pub data Auth : Type 0 where
  accepted : Issue → Auth
  refused : ℕ → AuthError → Auth

pub data Started : Type 0 where
  -- the id is taken; the row could not be marked online; the connection is being served
  taken dropped serving : Started

-- The row that `createNew` inserts; the id is the database's to give.
unfoldable pub new_minion : (Text → Text) → ℕ → Ident → Minion
unfolding ip_string
new_minion other now ident = record {
  id = pos 0;
  machine_id = ident.machine_id;
  inet = ip_string other ident.inet;
  inet6 = [];
  mac = ident.mac;
  goos = ident.goos;
  arch = ident.arch;
  edition = ident.semver;
  status = offline;
  uptime = some now;
  broker_id = pos 0;
  broker_name = [];
  unload = ident.unload;
  unstable = ident.unstable;
  customized = ident.customized;
}

abbrev pub by_id : ℤ → Minion → Bool
by_id id m = int_eq m.id id

abbrev pub by_machine : Text → Minion → Bool
by_machine machine_id m = text_eq m.machine_id machine_id

abbrev pub by_inet : Text → Minion → Bool
by_inet inet m = text_eq m.inet inet

abbrev pub by_unbound_inet : Text → Minion → Bool
by_unbound_inet inet m = text_eq m.inet inet && is_empty m.machine_id

module _ (tbl : MinionTable) (other : Text → Text) (now : ℕ) (ident : Ident) where
  unfoldable pub create_new : Hub → Hub × Result Minion
  unfolding new_minion
  create_new h = elim (tbl.create (new_minion other now ident) h.minions) [
    | ok (m, t) ↦ (record h { minions = t }, ok m)
    | missing ↦ (h, missing)
    | failed e ↦ (h, failed e)
  ]

  -- The update that binds a machine id to an old agent; its error is dropped.
  unfoldable pub bind_machine : ℤ → Hub → Hub
  bind_machine id h =
      elim (tbl.update (by_id id) (λ m. record m { machine_id = ident.machine_id }) h.minions) [
        | ok (_, t) ↦ record h { minions = t }
        | missing ↦ h
        | failed _ ↦ h
      ]

  -- The second query of `lookupByMachineID`, and what follows.
  unfoldable pub lookup_unbound : Hub → Hub × Result Minion
  unfolding create_new bind_machine ip_string
  lookup_unbound h = elim (tbl.first (by_unbound_inet (ip_string other ident.inet)) h.minions) [
    | ok m ↦ (bind_machine m.id h, ok m)
    | missing ↦ create_new h
    | failed _ ↦ create_new h
  ]

  unfoldable pub lookup_by_machine_id : Hub → Hub × Result Minion
  unfolding lookup_unbound
  lookup_by_machine_id h = elim (tbl.first (by_machine ident.machine_id) h.minions) [
    | ok m ↦ (h, ok m)
    | missing ↦ lookup_unbound h
    | failed _ ↦ lookup_unbound h
  ]

  unfoldable pub lookup_by_inet : Hub → Hub × Result Minion
  unfolding create_new ip_string
  lookup_by_inet h = elim (tbl.first (by_inet (ip_string other ident.inet)) h.minions) [
    | ok m ↦ (h, ok m)
    | missing ↦ create_new h
    | failed _ ↦ create_new h
  ]

  unfoldable pub lookup_or_create : Hub → Hub × Result Minion
  unfolding lookup_by_machine_id lookup_by_inet
  lookup_or_create h =
      if is_empty ident.machine_id then lookup_by_inet h else lookup_by_machine_id h

  -- The two checks of `Auth` before the database is asked.
  unfoldable pub check_ident : Option AuthError
  unfolding is_version4 to4 is_loopback is_unspecified
  check_ident =
      if is_version4 ident.semver && is_empty ident.machine_id
      then some bad_machine_id
      else elim (to4 ident.inet) [
        | none ↦ some bad_inet
        | some ip ↦ if is_loopback ip || is_unspecified ip then some bad_inet else none
      ]

  -- What the row's status says; `pick` is `random.Intn(33)`, `fill n` are `n` random bytes.
  unfoldable pub judge : ℕ → (ℕ → Text) → Result Minion → Auth
  judge pick fill missing = refused 500 database
  judge pick fill (failed e) = refused 500 database
  judge pick fill (ok m) = elim m.status [
    | deleted ↦ refused 403 removed
    | online ↦ refused 409 already_online
    | _ ↦ accepted (record { id = m.id; passwd = fill (pick + 32) })
  ]

  unfoldable pub auth : ℕ → (ℕ → Text) → Hub → Hub × Auth
  unfolding check_ident lookup_or_create judge
  auth pick fill h = elim check_ident [
    | some e ↦ (h, refused 400 e)
    | none ↦ let (h', found) = lookup_or_create h in (h', judge pick fill found)
  ]

-- `minionTbl.ID.Eq(id), minionTbl.Status.Eq(offline)`.
abbrev pub offline_row : ℤ → Minion → Bool
offline_row id m = int_eq m.id id && is_offline m.status

-- `BrokerID.Eq(hub.bid), Status.Eq(online), ID.Eq(id)`.
abbrev pub online_row : ℤ → ℤ → Minion → Bool
online_row bid id m = int_eq m.broker_id bid && is_online m.status && int_eq m.id id

abbrev pub held_row : ℤ → Minion → Bool
held_row bid m = int_eq m.broker_id bid && is_online m.status

abbrev pub go_offline : Minion → Minion
go_offline m = record m { status = offline }

-- The deferred `hub.section.Del(sid)`.
unfoldable pub unregister : ℤ → Hub → Option Hub
unregister id h = elim (SegmentMap.del h.section (format_int id)) [
  | none ↦ none
  | some (s, _) ↦ some (record h { section = s })
]

module _ (tbl : MinionTable) (other : Text → Text)
    (delete_tags : (MinionTag → Bool) → List MinionTag → Result (List MinionTag))
    (insert_tags : List MinionTag → List MinionTag → Result (List MinionTag)) (bid : ℤ)
    (broker_name : Text) (now : ℕ) (ident : Ident) (issue : Issue) where
  -- The assignments of the update in `Join`.
  abbrev pub go_online : Minion → Minion
  go_online m = record m {
    status = online;
    inet = ip_string other ident.inet;
    mac = ident.mac;
    goos = ident.goos;
    arch = ident.arch;
    edition = ident.semver;
    unstable = ident.unstable;
    customized = ident.customized;
    uptime = some now;
    broker_id = bid;
    broker_name = broker_name;
  }

  abbrev lifelong_tag : Text → MinionTag
  lifelong_tag tag = record { minion_id = issue.id; tag = tag; lifelong = true }

  -- The built-in tags: the address, and the system and architecture if they are known.
  unfoldable pub builtin_tags : List MinionTag
  builtin_tags =
      lifelong_tag (ip_string other ident.inet)
      ∷ ((if is_empty ident.goos then [] else lifelong_tag ident.goos ∷ [])
          ++ (if is_empty ident.arch then [] else lifelong_tag ident.arch ∷ []))

  -- The transaction on the tags; its errors are dropped.
  unfoldable pub reset_tags : List MinionTag → List MinionTag
  unfolding builtin_tags
  reset_tags tags =
      let left : List MinionTag =
        elim (delete_tags (λ t. int_eq t.minion_id issue.id && t.lifelong) tags) [
          | ok t ↦ t
          | missing ↦ tags
          | failed _ ↦ tags
        ] in
      elim (insert_tags builtin_tags left) [ ok t ↦ t | missing ↦ left | failed _ ↦ left ]

  -- From the registration on: the row is marked online, or the connection is dropped.
  unfoldable pub mark_online : Hub → Option (Hub × Started)
  unfolding unregister reset_tags
  mark_online h = elim (tbl.update (offline_row issue.id) go_online h.minions) [
    | ok (n, t) ↦
        let served = record h {
          minions = t;
          tags = reset_tags h.tags;
          events = h.events ++ (connected issue.id ∷ []);
        } in
        if n == 0
        then elim (unregister issue.id (record h { minions = t })) [
          | none ↦ none
          | some h' ↦ some (h', dropped)
        ]
        else some (served, serving)
    | missing ↦ elim (unregister issue.id h) [ none ↦ none | some h' ↦ some (h', dropped) ]
    | failed _ ↦ elim (unregister issue.id h) [ none ↦ none | some h' ↦ some (h', dropped) ]
  ]

  -- `Join` up to `srv.Serve(mux)`.
  unfoldable pub join_start : Hub → Option (Hub × Started)
  unfolding mark_online
  join_start h =
      elim (SegmentMap.put h.section (format_int issue.id)
        (record { id = issue.id; ident = ident; issue = issue })) [
          | none ↦ none
          | some (s, stored) ↦
              if stored
              then mark_online (record h { section = s })
              else some
                  (record h { section = s; events = h.events ++ (repeated issue.id ∷ []) }, taken)
        ]

-- The deferred update that marks the row offline; its errors are only logged.
unfoldable pub mark_offline : MinionTable → ℤ → ℤ → Hub → Hub
mark_offline tbl bid id h = elim (tbl.update (online_row bid id) go_offline h.minions) [
  | ok (_, t) ↦ record h { minions = t }
  | missing ↦ h
  | failed _ ↦ h
]

-- What `Join` does after `srv.Serve(mux)` has returned.
unfoldable pub join_end : MinionTable → ℤ → ℤ → Hub → Option Hub
unfolding mark_offline unregister
join_end tbl bid id h =
    unregister id
      (mark_offline tbl bid id (record h { events = h.events ++ (disconnected id ∷ []) }))

-- `ResetDB`.
unfoldable pub reset_db : MinionTable → ℤ → Hub → Hub × Result (Unit {0})
reset_db tbl bid h = elim (tbl.update (held_row bid) go_offline h.minions) [
  | ok (_, t) ↦ (record h { minions = t }, ok tt)
  | missing ↦ (h, missing)
  | failed e ↦ (h, failed e)
]

-- `Knockout`: the connection that is closed, if any.
unfoldable pub knockout : ℤ → Hub → Option (Hub × Option Connect)
knockout mid h =
    if int_eq mid (pos 0)
    then some (h, none)
    else elim (SegmentMap.del h.section (format_int mid)) [
      | none ↦ none
      | some (s, conn) ↦ some (record h { section = s }, conn)
    ]

unfoldable pub connect_ids : Hub → List ℤ
connect_ids h = SegmentMap.ids (λ c. c.id) h.section
