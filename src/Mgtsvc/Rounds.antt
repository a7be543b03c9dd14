-- ===== src/Mgtsvc/Rounds.antt =====
-- The loop of `spinRsync`: the messages that it sends, and the report that it ends with.
use ssoc_broker.Base.{
  ℕ, zero, suc, ◌+◌, ◌≤◌, ◌<◌, ◌≡◌, refl, ap, ◌∙◌, List, Bool, true, false, ◌&&◌, [], ◌∷◌, arith,
  inl, inr, ◌⊎◌, Bool-cases, length,
}
use ssoc_broker.Base.Int.{ℤ}
use ssoc_broker.Store.{Result, Result-cases, ok, missing, failed}
use ssoc_broker.TaskDiff.{TaskStatus, Substance, TaskDiff, TaskChunk, not_modified, diff, is_nil}
use ssoc_broker.TaskDiff.Laws.{DistinctIds}
use ssoc_broker.TaskDiff.Sync.{InSync, not_modified-diff}
use ssoc_broker.Mgtsvc.Rsync.{Link, spin}

abbrev pub is_ok {ℓ} : {A : Type ℓ} → Result A → Bool
is_ok (ok a) = true
is_ok missing = false
is_ok (failed e) = false

pub pending_pos : (d : TaskDiff) → not_modified d ≡ false → 0 < length d.removes + length d.updates
unfolding not_modified
pending_pos d e = sizes d.removes d.updates e
  where
    sizes :
        (xs : List ℤ) (ys : List TaskChunk)
        → is_nil xs && is_nil ys ≡ false
        → 0 < length xs + length ys
    sizes [] [] h = cc
    sizes (x ∷ xs) ys h = omega arith
    sizes [] (y ∷ ys) h = omega arith

module _ {W Runners : Type 0} (lnk : Link W Runners) (mid : ℤ) (subs : List Substance) where
  -- `n` messages, each with what the last report lacks, lead from a report to the report `r`.
  pub data Rounds (r : List (TaskStatus Runners)) (w : W)
      : ℕ → List (TaskStatus Runners) → W → Type 0 where
    stop :
        {n : ℕ} {report : List (TaskStatus Runners)} {w0 : W}
        → n ≡ 0
        → report ≡ r
        → w0 ≡ w
        → Rounds r w n report w0
    round :
        {n : ℕ} {report nrp : List (TaskStatus Runners)} {w0 w1 : W}
        → not_modified (diff report mid subs) ≡ false
        → lnk.fetch_rsync mid (diff report mid subs) w0 ≡ (w1, ok nrp)
        → Rounds r w n nrp w1
        → Rounds r w (suc n) report w0

  spin_in_step :
      (n : ℕ) (report : List (TaskStatus Runners)) (w : W)
      → not_modified (diff report mid subs) ≡ true
      → spin lnk n mid subs report w ≡ (w, ok report)
  unfolding spin
  spin_in_step zero report w e = refl
  spin_in_step (suc n) report w e = rw (e, spin) refl

  spin_round :
      (n : ℕ) (report nrp : List (TaskStatus Runners)) (w w1 : W)
      → not_modified (diff report mid subs) ≡ false
      → lnk.fetch_rsync mid (diff report mid subs) w ≡ (w1, ok nrp)
      → spin lnk (suc n) mid subs report w ≡ spin lnk n mid subs nrp w1
  unfolding spin
  spin_round n report nrp w w1 e q = ground arith

  spin_refused :
      (n : ℕ) (report : List (TaskStatus Runners)) (w : W)
      → not_modified (diff report mid subs) ≡ false
      → is_ok (lnk.fetch_rsync mid (diff report mid subs) w).1 ≡ false
      → spin lnk (suc n) mid subs report w ≡ lnk.fetch_rsync mid (diff report mid subs) w
  unfolding spin
  spin_refused n report w e q = ground arith

  -- The loop sends at most `cycle` messages, each with what the last report lacks. If it ends well, it
  -- returns the last report, which shows no difference or came at the last message allowed. If it ends
  -- with an error, that is the error of one more message, still within `cycle`.
  pub spin-Rounds :
      (cycle : ℕ) (report : List (TaskStatus Runners)) (w : W)
      → (r : List (TaskStatus Runners)) × (w1 : W) × (n : ℕ) × Rounds r w1 n report w
        × (n ≤ cycle)
        × (((spin lnk cycle mid subs report w ≡ (w1, ok r))
              × ((not_modified (diff r mid subs) ≡ true) ⊎ (n ≡ cycle)))
            ⊎ ((n < cycle)
                × (not_modified (diff r mid subs) ≡ false)
                × (is_ok (lnk.fetch_rsync mid (diff r mid subs) w1).1 ≡ false)
                × (spin lnk cycle mid subs report w ≡ lnk.fetch_rsync mid (diff r mid subs) w1)))
  unfolding spin
  spin-Rounds zero report w = (report, w, 0, stop refl refl refl, omega arith, inl (refl, inr refl))
  spin-Rounds (suc k) report w = elim (Bool-cases (not_modified (diff report mid subs))) [
    | inl e ↦ (
      report,
      w,
      0,
      stop refl refl refl,
      omega arith,
      inl (spin_in_step (suc k) report w e, inl e),
    )
    | inr e ↦ elim (Result-cases (lnk.fetch_rsync mid (diff report mid subs) w).1) [
      | inl (nrp, q) ↦
          let w' : W = (lnk.fetch_rsync mid (diff report mid subs) w).0 in
          let got : lnk.fetch_rsync mid (diff report mid subs) w ≡ (w', ok nrp) =
            ap (λ x. (w', x)) q in
          let (r, w1, n, rounds, le, out) = spin-Rounds k nrp w' in
          let same = spin_round k report nrp w w' e got in
          (
            r,
            w1,
            suc n,
            round e got rounds,
            omega arith,
            elim out [
              | inl (ends, why) ↦
                  inl (same ∙ ends, elim why [ inl a ↦ inl a | inr b ↦ inr (ap suc b) ])
              | inr (lt, open_yet, bad, ends) ↦ inr (omega arith, open_yet, bad, same ∙ ends)
            ],
          )
      | inr (inl q) ↦
          let bad = ap is_ok q in
          (
            report,
            w,
            0,
            stop refl refl refl,
            omega arith,
            inr (omega arith, e, bad, spin_refused k report w e bad),
          )
      | inr (inr (x, q)) ↦
          let bad = ap is_ok q in
          (
            report,
            w,
            0,
            stop refl refl refl,
            omega arith,
            inr (omega arith, e, bad, spin_refused k report w e bad),
          )
    ]
  ]

  abbrev pub pending : List (TaskStatus Runners) → ℕ
  pending report = length (diff report mid subs).removes + length (diff report mid subs).updates

  not_modified-pending :
      (report : List (TaskStatus Runners))
      → not_modified (diff report mid subs) ≡ false
      → 0 < pending report
  unfolding not_modified
  not_modified-pending report e = pending_pos (diff report mid subs) e

  -- An agent whose every answer shows fewer items pending than the report before it is in step with the
  -- center when the loop ends, if no more items were pending at first than messages are allowed.
  pub spin-InSync :
      (cycle : ℕ) (report : List (TaskStatus Runners)) (w : W)
      → DistinctIds subs
      → ((last : List (TaskStatus Runners)) (w0 : W)
          → not_modified (diff last mid subs) ≡ false
          → (nrp : List (TaskStatus Runners)) × (w1 : W) × (lnk.fetch_rsync mid
                (diff last mid subs)
                w0
              ≡ (w1, ok nrp))
            × (pending nrp < pending last))
      → pending report ≤ cycle
      → (r : List (TaskStatus Runners)) × (w1 : W) × (spin lnk cycle mid subs report w ≡ (w1, ok r))
        × InSync r subs
  spin-InSync zero report w u obeys le = elim (Bool-cases (not_modified (diff report mid subs))) [
    | inl e ↦ (report, w, spin_in_step zero report w e, (not_modified-diff report mid subs u).0 e)
    | inr e ↦ absurd (omega (arith, not_modified-pending report e))
  ]
  spin-InSync (suc k) report w u obeys le =
      elim (Bool-cases (not_modified (diff report mid subs))) [
        | inl e ↦
            (report, w, spin_in_step (suc k) report w e, (not_modified-diff report mid subs u).0 e)
        | inr e ↦
            let (nrp, w1, got, fewer) = obeys report w e in
            let (r, w2, ends, sync) = spin-InSync k nrp w1 u obeys (omega arith) in
            (r, w2, spin_round k report nrp w w1 e got ∙ ends, sync)
      ]
