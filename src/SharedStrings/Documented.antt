-- ===== src/SharedStrings/Documented.antt =====
-- The comment in the source that says what `Set` does, and where the rule of `Set` is the comment's.
use ssoc_broker.Base.{
  zero, suc, ◌≡◌, refl, ap, inl, inr, ◌⊎◌, Option, none, some, Bool, true, false, arith,
  if◌then◌else◌, Bool-cases,
}
use ssoc_broker.Base.Int.{ℤ, pos, negsuc, leb_ℤ, ◌+ℤ◌}
use ssoc_broker.SharedStrings.{KvData, SharedKeyValue}
use ssoc_broker.SharedStrings.Rules.{renewed, revised, new_value, after_set}

module _ (expired : KvData → ℤ → Bool) (now : ℤ) where
  -- The comment in `Set`: where neither lifetime is positive the expiry is not updated.
  abbrev pub documented_expiry : ℤ → ℤ → ℤ → ℤ
  documented_expiry (pos (suc n)) own at = now +ℤ pos (suc n)
  documented_expiry _ (pos (suc m)) at = now +ℤ pos (suc m)
  documented_expiry _ _ at = at

  abbrev pub documented_set : SharedKeyValue → Option KvData → KvData
  documented_set req none = new_value expired now req
  documented_set req (some old) =
      if expired old now then new_value expired now req else record (revised old) {
        value = req.value;
        expired_at = documented_expiry req.lifetime old.lifetime old.expired_at;
      }

  -- `Set` follows its comment, or it meets a row that has not expired, with no positive lifetime on
  -- either side, and moves its expiry to now plus the row's lifetime.
  abbrev pub AsDocumented : SharedKeyValue → Option KvData → KvData → Type 0
  AsDocumented req found row =
      (row ≡ documented_set req found)
      ⊎ ((old : KvData) × (found ≡ some old)
          × (expired old now ≡ false)
          × (leb_ℤ req.lifetime (pos 0) ≡ true)
          × (leb_ℤ old.lifetime (pos 0) ≡ true)
          × (row ≡ record (documented_set req found) { expired_at = now +ℤ old.lifetime }))

module _ (expired : KvData → ℤ → Bool) (now : ℤ) where
  renewed-documented :
      (l own at : ℤ)
      → ((now +ℤ renewed l own) ≡ documented_expiry expired now l own at)
        ⊎ ((leb_ℤ l (pos 0) ≡ true) × (leb_ℤ own (pos 0) ≡ true) × (renewed l own ≡ own))
  renewed-documented (pos (suc n)) own at = inl refl
  renewed-documented (pos zero) (pos (suc m)) at = inl refl
  renewed-documented (pos zero) (pos zero) at = inr (ground arith, ground arith, refl)
  renewed-documented (pos zero) (negsuc m) at = inr (ground arith, ground arith, refl)
  renewed-documented (negsuc n) (pos (suc m)) at = inl refl
  renewed-documented (negsuc n) (pos zero) at = inr (ground arith, ground arith, refl)
  renewed-documented (negsuc n) (negsuc m) at = inr (ground arith, ground arith, refl)

  pub after_set-AsDocumented :
      (req : SharedKeyValue) (found : Option KvData)
      → AsDocumented expired now req found (after_set expired now req found)
  after_set-AsDocumented req none = inl refl
  after_set-AsDocumented req (some old) = elim (Bool-cases (expired old now)) [
    | inl dead ↦ inl (rw dead refl)
    | inr alive ↦ elim (renewed-documented req.lifetime old.lifetime old.expired_at) [
      | inl same ↦ inl (
          rw alive
            (ap (λ (e : ℤ). record (revised old) { value = req.value; expired_at = e }) same))
      | inr (low, own_low, kept) ↦ inr (
        old,
        refl,
        alive,
        low,
        own_low,
        rw alive (
            ap (λ (l : ℤ). record (revised old) { value = req.value; expired_at = now +ℤ l }) kept),
      )
    ]
  ]
