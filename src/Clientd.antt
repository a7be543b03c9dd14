-- ===== src/Clientd.antt =====
-- channel/clientd/open.go and muxer.go: the broker's tunnel to the center, reopened until it holds. One
-- attempt at an address (`connect`: the dial, the handshake and its verdict) is an argument, `none` for
-- an error; so are whether the context ends a sleep, and whether a day has passed since the start.
-- Durations are seconds. The HTTP server on the tunnel and logging are left out.
pub mod Reopening
use ssoc_broker.Base.{
  ℕ, zero, suc, ◌+◌, List, [], ◌∷◌, Option, none, some, Bool, if◌then◌else◌, leb, Text,
}

-- `safeMuxer`: the session in use and its configuration.
pub record Muxer (S C : Type 0) : Type 0 where
  pub ses : S
  pub cfg : C

unfoldable pub replace_session : {S C : Type 0} → S → C → Muxer S C → Muxer S C
replace_session ses cfg m = record m { ses = ses; cfg = cfg }

-- What `open` came to: a session, the end of the context, or neither within the fuel.
pub data Opened (S C : Type 0) : Type 0 where
  connected : Muxer S C → Opened S C
  cancelled : Opened S C
  trying : Opened S C

-- `connects`: the first address that answers.
unfoldable pub connects : {A R : Type 0} → (A → Option R) → List A → Option R
connects connect [] = none
connects connect (addr ∷ addrs) =
    let rest = connects connect addrs in elim (connect addr) [ some r ↦ some r | none ↦ rest ]

-- `waitN`.
unfoldable pub wait_n : Bool → ℕ → ℕ
wait_n within_day fails =
    if leb fails 30
    then 2
    else (if leb fails 100
        then 5
        else (if leb fails 200 then 10 else (if within_day then 30 else 60)))

-- `open`, with the seconds slept. `connect fails` is an attempt after `fails` failed rounds, and
-- `ends fails` says whether the context ends the sleep after them. The source's loop has no bound.
unfoldable pub open_loop :
    {A S C : Type 0}
    → (ℕ → A → Option (S × C))
    → (ℕ → Bool)
    → (ℕ → Bool)
    → List A
    → Muxer S C
    → ℕ
    → ℕ
    → ℕ
    → Opened S C × ℕ
unfolding connects wait_n replace_session
open_loop connect ends within_day addrs mux zero fails slept = (trying, slept)
open_loop connect ends within_day addrs mux (suc fuel) fails slept =
    let du = wait_n (within_day (fails + 1)) (fails + 1) in
    let rest = open_loop connect ends within_day addrs mux fuel (fails + 1) (slept + du) in
    elim (connects (connect fails) addrs) [
      | some (ses, cfg) ↦ (connected (replace_session ses cfg mux), slept)
      | none ↦ if ends (fails + 1) then (cancelled, slept) else rest
    ]
