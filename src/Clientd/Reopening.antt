-- ===== src/Clientd/Reopening.antt =====
-- The tunnel comes up in the first round in which an address answers.
use ssoc_broker.Base.{
  ℕ, zero, suc, ◌+◌, ◌*◌, ◌≤◌, ◌<◌, ◌≡◌, refl, subst, List, Option, none, some, Bool, false, arith,
}
use ssoc_broker.Clientd.{Muxer, connected, replace_session, connects, wait_n, open_loop}

wait_n_bounds : (w : Bool) (n : ℕ) → (2 ≤ wait_n w n) × (wait_n w n ≤ 60)
unfolding wait_n
wait_n_bounds w n = (ground arith, ground arith)

-- If no address answers in the first `n` rounds and the context ends none of their sleeps, and in the
-- next round one answers, then `open` ends with that session and its configuration in use, on any
-- fuel above `n`. It has slept from 2 to 60 seconds after each of the `n` rounds.
pub open_loop-connected :
    {A S C : Type 0} (connect : ℕ → A → Option (S × C)) (ends within_day : ℕ → Bool)
    (addrs : List A) (mux : Muxer S C) (n fuel fails slept : ℕ) (ses : S) (cfg : C)
    → ((k : ℕ) → k < n → connects (connect (fails + k)) addrs ≡ none)
    → ((k : ℕ) → k < n → ends (fails + 1 + k) ≡ false)
    → connects (connect (fails + n)) addrs ≡ some (ses, cfg)
    → n < fuel
    → (total : ℕ) × (open_loop connect ends within_day addrs mux fuel fails slept
        ≡ (connected (replace_session ses cfg mux), total))
      × (slept + 2 * n ≤ total)
      × (total ≤ slept + 60 * n)
unfolding open_loop
open_loop-connected connect ends within_day addrs mux n zero fails slept ses cfg silent go up h =
    absurd (omega arith)
open_loop-connected connect ends within_day addrs mux zero (suc fuel) fails slept ses cfg silent go
      up h =
    let here : connects (connect fails) addrs ≡ some (ses, cfg) =
      subst (λ i. connects (connect i) addrs ≡ some (ses, cfg)) (omega arith) up in
    (slept, rw (here, open_loop) refl, omega arith, omega arith)
open_loop-connected connect ends within_day addrs mux (suc n) (suc fuel) fails slept ses cfg silent
      go up h =
    let down : connects (connect fails) addrs ≡ none =
      subst (λ i. connects (connect i) addrs ≡ none) (omega arith) (silent 0 (omega arith)) in
    let on : ends (fails + 1) ≡ false =
      subst (λ i. ends i ≡ false) (omega arith) (go 0 (omega arith)) in
    let du = wait_n (within_day (fails + 1)) (fails + 1) in
    let bounds = wait_n_bounds (within_day (fails + 1)) (fails + 1) in
    let (total, e, lo, hi) =
      open_loop-connected connect ends within_day addrs mux n fuel (fails + 1) (slept + du) ses cfg
        (λ k lt.
          subst (λ i. connects (connect i) addrs ≡ none) (omega arith)
            (silent (suc k) (omega arith)))
        (λ k lt. subst (λ i. ends i ≡ false) (omega arith) (go (suc k) (omega arith)))
        (subst (λ i. connects (connect i) addrs ≡ some (ses, cfg)) (omega arith) up)
        (omega arith) in
    (
      total,
      rw (down, open_loop) (rw on e),
      omega (arith, bounds.0, lo),
      omega (arith, bounds.1, hi),
    )
