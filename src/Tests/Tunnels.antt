-- ===== src/Tests/Tunnels.antt =====
-- channel/serverd, channel/clientd and bridge/telecom at one agent and at three addresses.
use ssoc_broker.Base.{
  ℕ, zero, suc, ◌*◌, ◌+◌, ◌<◌, ◌≤◌, ◌≡◌, refl, ite, List, [], ◌∷◌, ◌++◌, Option, none, some, Bool,
  true, false, not, codes, Text, length, arith,
}
use ssoc_broker.Base.Int.{ℤ, pos, ℤ_discrete}
use ssoc_broker.Store.{Result, ok}
use ssoc_broker.Store.Memory.{memory}
use ssoc_broker.Minion.{Minion, MinionTag, MinionTable, with_id}
use ssoc_broker.Serverd.{
  AuthRequest, Peer, Huber, Server, Joined, joined, join, closed, new_minion, handle_start,
}
use ssoc_broker.Serverd.Laws.{handle_start_unanswered}
use ssoc_broker.Serverd.Frame.{write_response, read_frame, read_frame-write_response}
use ssoc_broker.Clientd.{Muxer, connected, replace_session, connects, open_loop}
use ssoc_broker.Clientd.Reopening.{open_loop-connected}
use ssoc_broker.Telecom.{Address, Net}

-- A set of ids as a function.
abbrev ids_huber : Huber (ℤ → Bool)
ids_huber = record {
  put = λ p s. ((λ j. ite (ℤ_discrete p.id j) true (s j)), not (s p.id));
  del_by_id = λ id s j. ite (ℤ_discrete id j) false (s j);
  holds = λ j s. s j;
  put_stored = λ p s. refl;
  put_holds = λ p s j. refl;
  del_holds = λ id s j. refl;
}

abbrev agents : MinionTable
agents = memory with_id (λ _. pos 7)

abbrev keep_tags : (MinionTag → Bool) → List MinionTag → Result (List MinionTag)
keep_tags p t = ok t

abbrev put_tags : List MinionTag → List MinionTag → Result (List MinionTag)
put_tags new t = ok new

abbrev request : AuthRequest
request = record {
  machine_id = codes "m7";
  inet = codes "10.0.0.7";
  pid = pos 1;
  workdir = [];
  executable = [];
  hostname = [];
  goos = codes "linux";
  goarch = codes "amd64";
  semver = codes "5.0";
  unload = false;
  unstable = false;
  customized = [];
}

abbrev idle : Server (ℤ → Bool)
idle = record { minions = []; tags = []; peers = λ _. false; notes = [] }

abbrev joined7 : Server (ℤ → Bool) × Joined
joined7 = join agents ids_huber keep_tags put_tags (pos 1) (codes "b") 99 request idle

abbrev row7 : Minion
row7 = record (new_minion request) { id = pos 7 }

abbrev accepted : Server (ℤ → Bool)
accepted = joined7.0

abbrev peer7 : Peer
peer7 = record { id = pos 7; inet = codes "10.0.0.7" }

join_7 :
    join agents ids_huber keep_tags put_tags (pos 1) (codes "b") 99 request idle
    ≡ (accepted, joined row7 peer7)
unfolding join
join_7 = refl

handle_start_unanswered_example :
    (handle_start agents ids_huber keep_tags put_tags
        (pos 1)
        (codes "b")
        99
        request
        true
        true
        false
        idle
      ≡ (accepted, closed))
    × (ids_huber.holds peer7.id accepted.peers ≡ true)
handle_start_unanswered_example =
    handle_start_unanswered agents ids_huber keep_tags put_tags (pos 1) (codes "b") 99 request idle
      accepted row7 peer7 join_7

abbrev as_text : Text → Option Text
as_text s = some s

read_frame-write_response_example :
    ((length (codes "ok") ≤ 65535)
      → (raw : Text) × (write_response as_text (codes "ok") ≡ some raw)
        × (read_frame (raw ++ codes "rest") ≡ some (codes "ok", codes "rest")))
    × ((65536 ≤ length (codes "ok")) → write_response as_text (codes "ok") ≡ none)
read_frame-write_response_example =
    read_frame-write_response as_text (codes "ok") (codes "ok") (codes "rest") refl

abbrev three : List ℕ
three = 10 ∷ 20 ∷ 30 ∷ []

-- An address here has no port; a port is joined after a colon.
abbrev net : Net
net = record { split_host_port = λ s. (s, []); join_host_port = λ h p. h ++ (b':' ∷ p) }

abbrev center : Address
center = record { tls = false; addr = codes "soc"; name = codes "soc" }

-- No address answers in the first round.
abbrev second_round : ℕ → ℕ → Option (ℕ × ℕ)
second_round zero addr = none
second_round (suc fails) addr = some (5, 6)

first_silent : (k : ℕ) → k < 1 → connects (second_round (0 + k)) three ≡ none
unfolding connects
first_silent zero h = refl
first_silent (suc k) h = absurd (omega arith)

second_up : connects (second_round (0 + 1)) three ≡ some (5, 6)
unfolding connects
second_up = refl

abbrev unused : Muxer ℕ ℕ
unused = record { ses = 0; cfg = 0 }

open_loop-connected_example :
    (total : ℕ) × (open_loop second_round (λ _. false) (λ _. true) three unused 9 0 0
      ≡ (connected (replace_session 5 6 unused), total))
    × (0 + 2 * 1 ≤ total)
    × (total ≤ 0 + 60 * 1)
open_loop-connected_example =
    open_loop-connected second_round (λ _. false) (λ _. true) three unused 1 9 0 0 5 6 first_silent
      (λ k h. refl) second_up (omega arith)
