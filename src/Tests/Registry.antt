-- ===== src/Tests/Registry.antt =====
-- bridge/mlink at a registry of four slots that holds one agent.
use ssoc_broker.Base.{
  ◌≡◌, refl, ite, List, [], ◌∷◌, none, some, Bool, false, codes, Text, text_dec, is_none, or_else,
  arith, ◌≤◌, ◌≢◌, length, replicate, length-replicate,
}
use ssoc_broker.Base.Int.{ℤ, pos}
use ssoc_broker.Base.Decimal.{format_int}
use ssoc_broker.Store.{Result, ok}
use ssoc_broker.Store.Memory.{memory}
use ssoc_broker.Minion.{offline, online, deleted, Minion, MinionTag, MinionTable, with_id}
use ssoc_broker.Mlink.Ident.{Ident, Issue}
use ssoc_broker.Mlink.SegmentMap.{SegmentMap, new_segment_map, put, del}
use ssoc_broker.Mlink.SegmentMap.Laws.{
  IsValid, contents, new_segment_map_lem, put-contents, del-contents,
}
use ssoc_broker.Mlink.Hub.{Hub, Connect, Started, accepted, auth, check_ident, join_start, join_end}
use ssoc_broker.Mlink.Hub.Registry.{registered, without}
use ssoc_broker.Mlink.Hub.Sessions.{Outcome, MarkedOffline, join_start-Outcome, join_end-registered}
use ssoc_broker.Mlink.Hub.Admission.{Known, auth-accepted}

abbrev pub ident7 : Ident
ident7 = record {
  machine_id = codes "m7";
  inet = 10 ∷ 0 ∷ 0 ∷ 7 ∷ [];
  goos = codes "linux";
  arch = codes "amd64";
  mac = [];
  semver = codes "4.1";
  unload = false;
  unstable = false;
  customized = [];
}

abbrev pub issue7 : Issue
issue7 = record { id = pos 7; passwd = codes "secret" }

abbrev pub conn7 : Connect
conn7 = record { id = pos 7; ident = ident7; issue = issue7 }

abbrev pub no_one : SegmentMap Connect
no_one = new_segment_map 4

pub no_one-IsValid : IsValid no_one
no_one-IsValid = (new_segment_map_lem 4).0

abbrev pub one : SegmentMap Connect
one = (put-contents no_one (codes "7") conn7 no_one-IsValid).0

pub one-IsValid : IsValid one
one-IsValid = (put-contents no_one (codes "7") conn7 no_one-IsValid).2

abbrev pub row7 : Minion
row7 = record {
  id = pos 7;
  machine_id = codes "m7";
  inet = codes "10.0.0.7";
  inet6 = [];
  mac = [];
  goos = codes "linux";
  arch = codes "amd64";
  edition = codes "4.1";
  status = offline;
  uptime = none;
  broker_id = pos 0;
  broker_name = [];
  unload = false;
  unstable = false;
  customized = [];
}

abbrev pub agents : MinionTable
agents = memory with_id (λ _. pos 8)

abbrev pub hub0 : Hub
hub0 = record { minions = row7 ∷ []; tags = []; section = no_one; events = [] }

abbrev pub hub1 : Hub
hub1 = record { minions = row7 ∷ []; tags = []; section = one; events = [] }

abbrev pub keep_tags : (MinionTag → Bool) → List MinionTag → Result (List MinionTag)
keep_tags p t = ok t

abbrev pub put_tags : List MinionTag → List MinionTag → Result (List MinionTag)
put_tags new t = ok new

put-contents_example :
    (sm' : SegmentMap Connect) × (put one (codes "8") conn7
      ≡ some (sm', is_none (contents one (codes "8"))))
    × IsValid sm'
    × ((k : Text)
        → contents sm' k
          ≡ ite
              (text_dec (codes "8") k)
              (some (or_else (contents one (codes "8")) conn7))
              (contents one k))
put-contents_example = put-contents one (codes "8") conn7 one-IsValid

del-contents_example :
    (sm' : SegmentMap Connect) × (del one (codes "7") ≡ some (sm', contents one (codes "7")))
    × IsValid sm'
    × ((k : Text) → contents sm' k ≡ ite (text_dec (codes "7") k) none (contents one k))
del-contents_example = del-contents one (codes "7") one-IsValid

pub format_7 : format_int (pos 7) ≡ codes "7"
unfolding format_int
format_7 = refl

join_start-Outcome_example :
    (h' : Hub) × (o : Started) × (join_start agents
        (λ s. s)
        keep_tags
        put_tags
        (pos 1)
        (codes "b")
        99
        ident7
        issue7
        hub0
      ≡ some (h', o))
    × IsValid h'.section
    × Outcome agents (λ s. s) keep_tags put_tags (pos 1) (codes "b") 99 ident7 issue7 hub0 h' o
join_start-Outcome_example =
    join_start-Outcome agents (λ s. s) keep_tags put_tags (pos 1) (codes "b") 99 ident7 issue7 hub0
      no_one-IsValid

join_end-registered_example :
    (h' : Hub) × (join_end agents (pos 1) (pos 7) hub1 ≡ some h')
    × IsValid h'.section
    × ((j : ℤ) → registered h' j ≡ without (pos 7) (registered hub1) j)
    × MarkedOffline agents (pos 1) (pos 7) hub1.minions h'.minions
join_end-registered_example = join_end-registered agents (pos 1) (pos 7) hub1 one-IsValid

abbrev claim7 : Issue
claim7 = record { id = pos 7; passwd = replicate 37 0 }

auth_7 : auth agents (λ s. s) 99 ident7 5 (λ n. replicate n 0) hub0 ≡ (hub0, accepted claim7)
unfolding auth text_dec
auth_7 = refl

auth-accepted_example :
    (check_ident agents (λ s. s) 99 ident7 ≡ none)
    × (32 ≤ length claim7.passwd)
    × (length claim7.passwd ≤ 64)
    × ((m : Minion) × Known agents (λ s. s) 99 ident7 hub0 hub0 m
        × (claim7.id ≡ m.id)
        × (m.status ≢ online)
        × (m.status ≢ deleted))
auth-accepted_example =
    auth-accepted agents (λ s. s) 99 ident7 5 (λ n. replicate n 0) hub0 hub0 claim7 (omega arith)
      (λ n. length-replicate n 0) auth_7
