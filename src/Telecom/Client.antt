-- ===== src/Telecom/Client.antt =====
-- bridge/telecom/client.go: how the broker joins the center. The network, the clock and the contexts are
-- the world `W`; the calls on them, the codecs and `HTTPError.NotAcceptable` are parameters.
use ssoc_broker.Base.{
  ℕ, zero, suc, ◌*◌, List, [], Option, none, some, Bool, false, if◌then◌else◌, ltb, ◌==◌, Text,
}
use ssoc_broker.Store.{Result, ok, missing, failed}
use ssoc_broker.Telecom.{Address, iter_dial}

-- `*problem.Detail` with its status, `*netutil.HTTPError` with its code, or any other error.
pub data Failure : Type 0 where
  detail http_error : ℕ → Failure
  other : Text → Failure

pub record Wire (W Conn Issue : Type 0) : Type 0 where
  pub connect : Address → W → W × Option Conn
  -- the request written and the response read: its code and its body
  pub exchange : Conn → Address → W → W × Result (ℕ × Text)
  pub close : Conn → W → W
  pub parse_detail : Text → Option ℕ
  pub decrypt : Text → Result Issue
  pub is_not_acceptable : ℕ → Bool
  -- `bc.ctx.Err()` and `parent.Err()`
  pub ctx_err : W → Option Text
  pub parent_err : W → Option Text
  -- nanoseconds since the dialling began
  pub since : W → ℕ
  pub sleep : ℕ → W → W

abbrev pub second : ℕ
second = 1000000000

-- The pause of `dialSleep`.
unfoldable pub sleep_for : ℕ → ℕ
sleep_for since =
    if ltb (12 * 3600 * second) since
    then 600 * second
    else if ltb (3600 * second) since
    then 60 * second
    else if ltb (1800 * second) since
    then 30 * second
    else if ltb (600 * second) since
    then 10 * second
    else if ltb (180 * second) since
    then 3 * second
    else second

pub data Consulted (Issue : Type 0) : Type 0 where
  joined : Issue → Consulted Issue
  refused : Failure → Consulted Issue

-- How a dialling ends: connected, or with the error of a context, or refused for good.
pub data Ended (Conn Issue : Type 0) : Type 0 where
  connected : Conn → Issue → Address → Ended Conn Issue
  cancelled : Text → Ended Conn Issue
  rejected : Failure → Ended Conn Issue

-- The last step of the dialler, and the world.
pub record Dialling (W : Type 0) : Type 0 where
  pub index : ℕ
  pub world : W

module _ {W Conn Issue : Type 0} (wire : Wire W Conn Issue) where
  -- `consult`, after the response was read.
  unfoldable pub read_response : ℕ → Text → Consulted Issue
  read_response code body =
      if code == 202
      then elim (wire.decrypt body) [
        | ok issue ↦ joined issue
        | missing ↦ refused (other [])
        | failed e ↦ refused (other e)
      ]
      else elim (wire.parse_detail body) [
        | some status ↦ refused (detail status)
        | none ↦ refused (http_error code)
      ]

  unfoldable pub consult : Conn → Address → W → W × Consulted Issue
  unfolding read_response
  consult conn addr w =
      let (w', answer) = wire.exchange conn addr w in
      elim answer [
        | ok (code, body) ↦ (w', read_response code body)
        | missing ↦ (w', refused (other []))
        | failed e ↦ (w', refused (other e))
      ]

  -- The errors after which the dialling is given up.
  unfoldable pub is_final : Failure → Bool
  is_final (http_error code) = wire.is_not_acceptable code
  is_final (detail status) = status == 406
  is_final (other e) = false

  unfoldable pub dial_sleep : W → W
  unfolding sleep_for
  dial_sleep w = wire.sleep (sleep_for (wire.since w)) w

  -- One turn of the loop in `dial`, at an address: how the dialling ends, or the world for the next one.
  unfoldable pub turn : Address → W → W × Option (Ended Conn Issue)
  unfolding consult is_final dial_sleep
  turn addr w =
      let (w1, dialled) = wire.connect addr w in
      elim dialled [
        | none ↦ elim (wire.ctx_err w1) [
          | some e ↦ (w1, some (cancelled e))
          | none ↦ (dial_sleep w1, none)
        ]
        | some conn ↦
            let (w2, answer) = consult conn addr w1 in
            elim answer [
              | joined issue ↦ (w2, some (connected conn issue addr))
              | refused f ↦
                  let w3 = wire.close conn w2 in
                  elim (wire.parent_err w3) [
                    | some e ↦ (w3, some (cancelled e))
                    | none ↦ if is_final f then (w3, some (rejected f)) else (dial_sleep w3, none)
                  ]
            ]
      ]

  -- The loop, for as many turns as there is fuel; `none` without an end is a loop that goes on. An empty
  -- list of addresses is a panic, the outer `none`.
  unfoldable pub dial :
      ℕ → List Address → Dialling W → Option (Dialling W × Option (Ended Conn Issue))
  unfolding turn
  dial zero addrs d = some (d, none)
  dial (suc n) addrs d = elim (iter_dial addrs d.index) [
    | none ↦ none
    | some (addr, next) ↦
        let (w, ended) = turn addr d.world in
        elim ended [
          | some e ↦ some (record { index = next; world = w }, some e)
          | none ↦ dial n addrs (record { index = next; world = w })
        ]
  ]
