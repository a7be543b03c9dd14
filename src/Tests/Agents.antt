-- ===== src/Tests/Agents.antt =====
-- app/temporary at a table of four buckets and an agent of id 7.
use ssoc_broker.Base.{
  ℕ, ◌≤◌, ◌≡◌, refl, ◌≢◌, ◌↔◌, ◌⊎◌, List, [], ◌∷◌, ◌++◌, map, Option, some, codes, Text, Elem,
  arith,
}
use ssoc_broker.Base.Int.{ℤ, pos}
use ssoc_broker.Store.{Result, ok, Inserted}
use ssoc_broker.Store.Memory.{memory}
use ssoc_broker.Minion.{online, deleted, Minion, MinionTag, MinionTable, with_id}
use ssoc_broker.Temporary.BucketMap.{BucketMap, Key, int64, new_bucket_map}
use ssoc_broker.Temporary.BucketMap.Laws.{IsTable, new_bucket_map-IsTable, store-table}
use ssoc_broker.Temporary.Message.{Message, Receive, marshal, unmarshal}
use ssoc_broker.Temporary.Message.RoundTrip.{unmarshal-marshal}
use ssoc_broker.Temporary.Linkhub.{
  Ident, Conn, Claim, Site, LinkHub, authorize, claimed, by_inet, inet_text, sign_token, connect,
  token_lookup, multicast,
}
use ssoc_broker.Temporary.Linkhub.Tokens.{authorize-claimed, token_lookup-connect}
use ssoc_broker.Temporary.Linkhub.Sending.{Unrepeated, addressed, multicast-outbox}

abbrev four : BucketMap ℕ
four = new_bucket_map 4

four-IsTable : IsTable four
four-IsTable = new_bucket_map-IsTable 4 (omega arith)

abbrev held : BucketMap ℕ
held = (store-table four (int64 (pos 7)) 70 four-IsTable).0

held-IsTable : IsTable held
held-IsTable = (store-table four (int64 (pos 7)) 70 four-IsTable).2

abbrev collect : Key → ℕ → List ℕ → List ℕ
collect k v seen = v ∷ seen

abbrev hello : Message Text
hello = record { opcode = 513; body = some (codes "hi"); mask = 90 }

abbrev quoted : Text → Option Text
quoted s = some (b'"' ∷ (s ++ (b'"' ∷ [])))

abbrev incoming : Receive
incoming = record { opcode = 0; body = []; mask = 90 }

unmarshal-marshal_example :
    (raw : Text) × (marshal quoted hello ≡ some raw)
    × (unmarshal incoming raw
        ≡ some (record incoming { opcode = 513; body = b'"' ∷ (codes "hi" ++ (b'"' ∷ [])) }))
unmarshal-marshal_example =
    unmarshal-marshal quoted hello incoming (b'"' ∷ (codes "hi" ++ (b'"' ∷ []))) (omega arith) refl
      refl

abbrev short : Text
short = 1 ∷ []

abbrev agent7 : Ident
agent7 = record {
  inet = 10 ∷ 0 ∷ 0 ∷ 7 ∷ [];
  inet6 = [];
  mac = [];
  goos = codes "linux";
  arch = codes "amd64";
  edition = codes "2.0";
}

abbrev token7 : Text
token7 = sign_token (codes "c0ffee") (pos 7)

abbrev conn7 : Conn
conn7 = record { ident = agent7; claim = record { id = pos 7; mask = 90; token = token7 } }

abbrev no_conns : BucketMap Conn
no_conns = new_bucket_map 4

no_conns-IsTable : IsTable no_conns
no_conns-IsTable = new_bucket_map-IsTable 4 (omega arith)

abbrev hub : LinkHub Text
hub = record { rows = []; tags = []; minions = no_conns; outbox = [] }

abbrev agents : MinionTable
agents = memory with_id (λ _. pos 7)

abbrev site : Site
site = record {
  broker_id = pos 1;
  broker_name = codes "b";
  now = 99;
  ip16_string = λ s. s;
  mac_string = λ s. s;
}

token_lookup-connect_example :
    (h' : LinkHub Text) × (connect agents site conn7 hub ≡ some h')
    × IsTable h'.minions
    × (token_lookup h' token7 ≡ some (some conn7))
token_lookup-connect_example =
    token_lookup-connect agents site (codes "c0ffee") conn7 hub no_conns-IsTable
      (omega arith, omega arith) refl

abbrev no_tags : List MinionTag → List MinionTag → Result (List MinionTag)
no_tags new t = ok new

abbrev asked : LinkHub Text
asked = (authorize agents site no_tags (codes "c0ffee") 89 agent7 hub).0

abbrev claim7 : Claim
claim7 = record { id = pos 7; mask = 90; token = token7 }

authorize_7 : authorize agents site no_tags (codes "c0ffee") 89 agent7 hub ≡ (asked, claimed claim7)
unfolding authorize
authorize_7 = refl

authorize-claimed_example :
    (1 ≤ claim7.mask)
    × (claim7.mask ≤ 255)
    × ((m : Minion) × (((asked ≡ hub) × (agents.first (by_inet (inet_text agent7)) hub.rows ≡ ok m))
          ⊎ Inserted m hub.rows asked.rows)
        × (m.status ≢ online)
        × (m.status ≢ deleted)
        × (claim7.id ≡ m.id)
        × (claim7.token ≡ sign_token (codes "c0ffee") m.id))
authorize-claimed_example =
    authorize-claimed agents site no_tags (codes "c0ffee") 89 agent7 hub asked claim7 (omega arith)
      authorize_7

multicast-outbox_example :
    (sent : List ℤ) × ((multicast (pos 7 ∷ pos 8 ∷ pos 7 ∷ []) 3 (some (codes "hi")) hub).outbox
      ≡ hub.outbox ++ map (addressed 3 (some (codes "hi"))) sent)
    × Unrepeated sent
    × ((id : ℤ) → Elem id sent ↔ Elem id (pos 7 ∷ pos 8 ∷ pos 7 ∷ []))
multicast-outbox_example = multicast-outbox 3 (some (codes "hi")) (pos 7 ∷ pos 8 ∷ pos 7 ∷ []) hub
