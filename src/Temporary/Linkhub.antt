-- ===== src/Temporary/Linkhub.antt =====
-- app/temporary/linkhub/linkhub.go and outbox.go: the hub of the v2 interface. An agent is authorized
-- and given a token, its connection is registered under its id, and messages go through an outbox that
-- workers empty. The table of agents is the `Table` of the database; sockets, the process table and
-- the upgrade download are left out. `none` is a panic of the table of connections.
pub mod Tokens
pub mod Sending
use ssoc_broker.Base.{
  ℕ, ◌+◌, ◌%◌, List, [], ◌∷◌, ◌++◌, Option, none, some, Bool, true, false, ◌&&◌, not, if◌then◌else◌,
  ◌==◌, Text, text_eq,
}
use ssoc_broker.Base.Int.{ℤ, pos, int_eq, ℤ_discrete, leb_ℤ}
use ssoc_broker.Base.Decimal.{format_int}
use ssoc_broker.Base.Decimal.Parse.{parse_int}
use ssoc_broker.GoMap.{lookup, insert}
use ssoc_broker.Store.{Result, ok, missing, failed}
use ssoc_broker.Minion.{
  Status, offline, online, deleted, is_online, is_offline, Minion, MinionTag, MinionTable,
}
use ssoc_broker.Mlink.Ident.{to4, dotted}
use ssoc_broker.Temporary.BucketMap.{BucketMap, Key, int64}
use ssoc_broker.Temporary.BucketMap
use ssoc_broker.Temporary.Message.{Message}

-- `temporary.Ident`: addresses are their bytes.
pub record Ident : Type 0 where
  pub inet : Text
  pub inet6 : Text
  pub mac : Text
  pub goos : Text
  pub arch : Text
  pub edition : Text

pub record Claim : Type 0 where
  pub id : ℤ
  pub mask : ℕ
  pub token : Text

-- `temporary.Conn`, less its socket.
pub record Conn : Type 0 where
  pub ident : Ident
  pub claim : Claim

-- `outboxMsg`.
pub record OutboxMsg (D : Type 0) : Type 0 where
  pub minion_id : ℤ
  pub broadcast : Bool
  pub opcode : ℕ
  pub body : Option D

pub record LinkHub (D : Type 0) : Type 0 where
  pub rows : List Minion
  pub tags : List MinionTag
  pub minions : BucketMap Conn
  pub outbox : List (OutboxMsg D)

pub data AuthFailure : Type 0 where
  bad_request not_created forbidden too_many_requests : AuthFailure

pub data Authorized : Type 0 where
  claimed : Claim → Authorized
  rejected : AuthFailure → Authorized

-- What the broker is, and what the machine gives: the clock, how net prints a sixteen-byte address
-- (empty for none) and a hardware address.
pub record Site : Type 0 where
  pub broker_id : ℤ
  pub broker_name : Text
  pub now : ℕ
  pub ip16_string : Text → Text
  pub mac_string : Text → Text

-- `conn.Authed`.
abbrev pub authed : Conn → Text → Bool
authed conn token = text_eq conn.claim.token token

-- `signToken`, of the hex text of its random bytes.
unfoldable pub sign_token : Text → ℤ → Text
sign_token hex id = format_int id ++ (b'.' ∷ hex)

-- `parseID`: what stands before the first separator, nothing if there is none.
unfoldable pub parse_id : Text → Text
parse_id token = elim (before token) [ none ↦ [] | some id ↦ id ]
  where
    before : Text → Option Text
    before [] = none
    before (c ∷ s) =
        let rest = before s in
        if c == b'.' then some [] else elim rest [ none ↦ none | some id ↦ some (c ∷ id) ]

-- `randMask`, of what `Intn(0xff)` gave.
unfoldable pub rand_mask : ℕ → ℕ
rand_mask pick = (pick % 256 + 1) % 256

abbrev pub inet_text : Ident → Text
inet_text ident = elim (to4 ident.inet) [ none ↦ [] | some ip ↦ dotted ip ]

abbrev pub by_inet : Text → Minion → Bool
by_inet inet m = text_eq m.inet inet

abbrev pub offline_row : ℤ → Minion → Bool
offline_row id m = int_eq m.id id && is_offline m.status

abbrev pub own_row : ℤ → ℤ → Minion → Bool
own_row bid id m = int_eq m.id id && int_eq m.broker_id bid && is_online m.status

abbrev pub held_row : ℤ → Minion → Bool
held_row bid m = int_eq m.broker_id bid && is_online m.status

abbrev pub go_offline : Minion → Minion
go_offline m = record m { status = offline }

-- The table after an update whose result is dropped.
abbrev pub updated : List Minion → Result (ℕ × List Minion) → List Minion
updated t (ok (_, t')) = t'
updated t missing = t
updated t (failed _) = t

module _ (site : Site) where
  -- The row that `Authorize` inserts.
  unfoldable pub new_minion : Ident → Minion
  unfolding to4 dotted
  new_minion ident = record {
    id = pos 0;
    machine_id = [];
    inet = inet_text ident;
    inet6 = site.ip16_string ident.inet6;
    mac = site.mac_string ident.mac;
    goos = ident.goos;
    arch = ident.arch;
    edition = ident.edition;
    status = offline;
    uptime = none;
    broker_id = site.broker_id;
    broker_name = site.broker_name;
    unload = false;
    unstable = false;
    customized = [];
  }

-- `Clauses(OnConflict{DoNothing}).Create(tags)`; its error is dropped.
unfoldable pub add_tags :
    (List MinionTag → List MinionTag → Result (List MinionTag))
    → Ident
    → ℤ
    → List MinionTag
    → List MinionTag
unfolding to4 dotted
add_tags insert_tags ident id tags =
    let lifelong : Text → MinionTag =
      λ tag. record { minion_id = id; tag = tag; lifelong = true } in
    elim (insert_tags (lifelong (inet_text ident) ∷ lifelong ident.arch ∷ lifelong ident.goos ∷ [])
      tags) [ ok t ↦ t | missing ↦ tags | failed _ ↦ tags ]

-- The row's status, and the claim.
unfoldable pub claim_of : Text → ℕ → Minion → Authorized
unfolding sign_token rand_mask
claim_of hex pick m = elim m.status [
  | deleted ↦ rejected forbidden
  | online ↦ rejected too_many_requests
  | _ ↦ claimed (record { id = m.id; token = sign_token hex m.id; mask = rand_mask pick })
]

-- The columns that `Connect` writes.
abbrev pub go_online : Site → Conn → Minion → Minion
go_online site conn m = record m {
  broker_id = site.broker_id;
  broker_name = site.broker_name;
  status = online;
  uptime = some site.now;
  inet6 = site.ip16_string conn.ident.inet6;
  mac = site.mac_string conn.ident.mac;
  goos = conn.ident.goos;
  arch = conn.ident.arch;
  edition = conn.ident.edition;
}

module _ {D : Type 0} (tbl : MinionTable) (site : Site) where
  unfoldable pub authorize :
      (List MinionTag → List MinionTag → Result (List MinionTag))
      → Text
      → ℕ
      → Ident
      → LinkHub D
      → LinkHub D × Authorized
  unfolding new_minion add_tags claim_of to4 dotted
  authorize insert_tags hex pick ident h = elim (tbl.first (by_inet (inet_text ident)) h.rows) [
    | ok m ↦ (h, claim_of hex pick m)
    | failed _ ↦ (h, rejected bad_request)
    | missing ↦ elim (tbl.create (new_minion site ident) h.rows) [
      | ok (m, t) ↦ (
        record h { rows = t; tags = add_tags insert_tags ident m.id h.tags },
        claim_of hex pick m,
      )
      | missing ↦ (h, rejected not_created)
      | failed _ ↦ (h, rejected not_created)
    ]
  ]

  -- `Connect`, before it asks the agent to upgrade.
  unfoldable pub connect : Conn → LinkHub D → Option (LinkHub D)
  connect conn h = elim (BucketMap.store h.minions (int64 conn.claim.id) conn) [
    | none ↦ none
    | some t ↦ some (record h {
      minions = t;
      rows = updated h.rows (tbl.update (offline_row conn.claim.id) (go_online site conn) h.rows);
    })
  ]

  unfoldable pub disconnect : Conn → LinkHub D → Option (LinkHub D)
  disconnect conn h = elim (BucketMap.delete h.minions (int64 conn.claim.id)) [
    | none ↦ none
    | some t ↦ some (record h {
      minions = t;
      rows = updated h.rows (tbl.update (own_row site.broker_id conn.claim.id) go_offline h.rows);
    })
  ]

  unfoldable pub reset : LinkHub D → LinkHub D
  reset h = record h {
    rows = updated h.rows (tbl.update (held_row site.broker_id) go_offline h.rows);
  }

module _ {D : Type 0} where
  unfoldable pub token_lookup : LinkHub D → Text → Option (Option Conn)
  unfolding parse_id parse_int
  token_lookup h token = elim (BucketMap.load h.minions (int64 (parse_int (parse_id token)))) [
    | none ↦ none
    | some none ↦ some none
    | some (some conn) ↦ some (if authed conn token then some conn else none)
  ]

  unfoldable pub unicast : ℤ → ℕ → Option D → LinkHub D → LinkHub D
  unicast id opcode body h = record h {
    outbox =
        h.outbox
        ++ (record { minion_id = id; broadcast = false; opcode = opcode; body = body } ∷ []);
  }

  -- The loop of `Multicast`: `seen` is the map `hm`.
  unfoldable pub multicast_loop :
      List ℤ → ℕ → Option D → List (ℤ × Unit {0}) → LinkHub D → LinkHub D
  unfolding unicast
  multicast_loop [] opcode body seen h = h
  multicast_loop (id ∷ ids) opcode body seen h = elim (lookup ℤ_discrete id seen) [
    | some _ ↦ multicast_loop ids opcode body seen h
    | none ↦
        multicast_loop ids opcode body (insert ℤ_discrete id tt seen) (unicast id opcode body h)
  ]

  unfoldable pub multicast : List ℤ → ℕ → Option D → LinkHub D → LinkHub D
  unfolding multicast_loop
  multicast ids opcode body h = multicast_loop ids opcode body [] h

  unfoldable pub broadcast : ℕ → Option D → LinkHub D → LinkHub D
  broadcast opcode body h = record h {
    outbox =
        h.outbox
        ++ (record { minion_id = pos 0; broadcast = true; opcode = opcode; body = body } ∷ []);
  }

  -- `IsBroadcast`.
  abbrev pub is_broadcast : OutboxMsg D → Bool
  is_broadcast msg = msg.broadcast && leb_ℤ msg.minion_id (pos 0)

  -- `send`, with the connections that the message is sent to, in order.
  unfoldable pub send : LinkHub D → OutboxMsg D → Option (List (Conn × Message D))
  send h msg =
      if is_broadcast msg
      then some
          (BucketMap.range (λ _ conn sent. sent ++ ((conn, to_message conn) ∷ [])) h.minions [])
      else elim (BucketMap.load h.minions (int64 msg.minion_id)) [
        | none ↦ none
        | some none ↦ some []
        | some (some conn) ↦ some ((conn, to_message conn) ∷ [])
      ]
    where
      to_message : Conn → Message D
      to_message conn = record { opcode = msg.opcode; body = msg.body; mask = conn.claim.mask }
