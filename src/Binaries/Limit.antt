-- ===== src/Binaries/Limit.antt =====
-- app/agtapi/upgrade.go: `tryLock` and `unlock` of many downloads at once.
use ssoc_broker.Base.{ℕ, suc, ◌+◌, ◌≤◌, ◌≡◌, refl, Bool, arith, if◌then◌else◌, ltb}
use ssoc_broker.Binaries.{Limiter, try_lock, unlock}

-- The limiter, and how many downloads hold it: each got true of `tryLock` and defers `unlock`.
pub record Downloads : Type 0 where
  pub rest : Limiter
  pub held : ℕ

pub data Turn (s : Downloads) : Downloads → Type 0 where
  enter :
      {rest : Limiter} {got : Bool}
      → try_lock s.rest ≡ (rest, got)
      → Turn s (record { rest = rest; held = if got then s.held + 1 else s.held })
  leave : (n : ℕ) → s.held ≡ suc n → Turn s (record { rest = unlock s.rest; held = n })

pub data Turns (s : Downloads) : Downloads → Type 0 where
  stay : Turns s s
  later : {t u : Downloads} → Turns s t → Turn t u → Turns s u

record Counted (maxsize : ℕ) (s : Downloads) : Type 0 where
  size : s.rest.maxsize ≡ maxsize
  count : s.rest.count ≡ s.held
  bounded : s.held ≤ maxsize

Turn-Counted : (maxsize : ℕ) {s t : Downloads} → Turn s t → Counted maxsize s → Counted maxsize t
unfolding try_lock unlock
Turn-Counted maxsize (enter e) c = ground arith
Turn-Counted maxsize (leave n e) c = ground arith

Turns-Counted : (maxsize : ℕ) {s t : Downloads} → Turns s t → Counted maxsize s → Counted maxsize t
Turns-Counted maxsize stay c = c
Turns-Counted maxsize (later r m) c = Turn-Counted maxsize m (Turns-Counted maxsize r c)

-- In every state that downloads reach from an idle limiter, in any order of their locks and unlocks, at
-- most `maxsize` of them hold it and the count is exactly their number; so `tryLock` refuses only when
-- `maxsize` downloads run, and the reset of a negative count is never needed.
pub reachable-count :
    (maxsize : ℕ) (s : Downloads)
    → Turns (record { rest = record { maxsize = maxsize; count = 0 }; held = 0 }) s
    → (s.rest.count ≡ s.held) × (s.held ≤ maxsize) × ((try_lock s.rest).1 ≡ ltb s.held maxsize)
unfolding try_lock
reachable-count maxsize s r =
    let c = Turns-Counted maxsize r (record { size = refl; count = refl; bounded = omega arith }) in
    (c.count, c.bounded, ground arith)
