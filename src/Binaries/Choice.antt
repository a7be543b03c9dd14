-- ===== src/Binaries/Choice.antt =====
-- Which binary `upgradeREST.matchBinary` chooses.
use ssoc_broker.Base.{
  ℕ, ◌≤◌, ◌<◌, ◌≡◌, refl, inl, inr, ◌⊎◌, List, Bool, true, false, Text, text_eq, is_empty, arith,
  Elem, Bool-cases, subst,
}
use ssoc_broker.Store.{Result, ok, missing, failed}
use ssoc_broker.Binaries.{
  MinionBin, UpgradeRequest, BinTable, fits_host, fits_version, fits_newer, match_upgrade,
}
use ssoc_broker.Collect.Components.{text_eq_refl}

-- A binary for the agent's system that is not withdrawn.
pub record Fits (req : UpgradeRequest) (b : MinionBin) : Type 0 where
  pub kept : b.deprecated ≡ false
  pub same_goos : b.goos ≡ req.goos
  pub same_arch : b.arch ≡ req.arch

-- What the push of an update may give the agent: a stable binary of its customisation, above the version
-- that it runs.
pub record Newer (weight : Text → ℕ) (req : UpgradeRequest) (b : MinionBin) : Type 0 where
  pub fits : Fits req b
  pub stable : b.unstable ≡ false
  pub same_custom : b.customized ≡ req.customized
  pub above : weight req.semver < b.weight

-- What it may be given when it names a version.
pub record Named (req : UpgradeRequest) (b : MinionBin) : Type 0 where
  pub fits : Fits req b
  pub same_version : b.semver ≡ req.version
  pub same_custom : b.customized ≡ req.wanted

text_eq-true : (s t : Text) → text_eq s t ≡ true → s ≡ t
text_eq-true s t h = ground arith

text_eq_of : (s t : Text) → s ≡ t → text_eq s t ≡ true
text_eq_of s t e = subst (λ x. text_eq s x ≡ true) e (text_eq_refl s)

module _ (weight : Text → ℕ) (req : UpgradeRequest) (b : MinionBin) where
  fits_host-Fits : fits_host req b ≡ true → Fits req b
  fits_host-Fits h = record {
    kept = ground arith;
    same_goos = text_eq-true b.goos req.goos (ground arith);
    same_arch = text_eq-true b.arch req.arch (ground arith);
  }

  Fits-fits_host : Fits req b → fits_host req b ≡ true
  Fits-fits_host f = ground (
    arith,
    f.kept,
    text_eq_of b.goos req.goos f.same_goos,
    text_eq_of b.arch req.arch f.same_arch,
  )

  fits_newer-Newer : fits_newer weight req b ≡ true → Newer weight req b
  fits_newer-Newer h = record {
    fits = fits_host-Fits (ground arith);
    stable = ground arith;
    same_custom = text_eq-true b.customized req.customized (ground arith);
    above = ground arith;
  }

  Newer-fits_newer : Newer weight req b → fits_newer weight req b ≡ true
  Newer-fits_newer n = ground (
    arith,
    n.stable,
    n.above,
    Fits-fits_host n.fits,
    text_eq_of b.customized req.customized n.same_custom,
  )

  fits_version-Named : fits_version req b ≡ true → Named req b
  fits_version-Named h = record {
    fits = fits_host-Fits (ground arith);
    same_version = text_eq-true b.semver req.version (ground arith);
    same_custom = text_eq-true b.customized req.wanted (ground arith);
  }

  Named-fits_version : Named req b → fits_version req b ≡ true
  Named-fits_version n = ground (
    arith,
    Fits-fits_host n.fits,
    text_eq_of b.semver req.version n.same_version,
    text_eq_of b.customized req.wanted n.same_custom,
  )

-- What the two ordered queries promise: a row that the condition fits, the second one a row of the
-- greatest weight; and no row only where none fits.
pub record Ordered (tbl : BinTable) (bins : List MinionBin) : Type 0 where
  pub first_ok :
      (p : MinionBin → Bool) (b : MinionBin) → tbl.first p bins ≡ ok b → Elem b bins × (p b ≡ true)
  pub first_missing :
      (p : MinionBin → Bool)
      → tbl.first p bins ≡ missing
      → (b : MinionBin) → Elem b bins
      → p b ≡ false
  pub latest_ok :
      (p : MinionBin → Bool) (b : MinionBin)
      → tbl.first_latest p bins ≡ ok b
      → Elem b bins
        × (p b ≡ true)
        × ((c : MinionBin) → Elem c bins → p c ≡ true → c.weight ≤ b.weight)
  pub latest_missing :
      (p : MinionBin → Bool)
      → tbl.first_latest p bins ≡ missing
      → (b : MinionBin) → Elem b bins
      → p b ≡ false

module _ (tbl : BinTable) (weight : Text → ℕ) (req : UpgradeRequest) (bins : List MinionBin) where
  -- What an answer means for a pushed update, and for an agent that names a version.
  abbrev pub PushAnswer : Result MinionBin → Type 0
  PushAnswer (ok b) =
      Elem b bins
      × (req.unstable ≡ false)
      × Newer weight req b
      × ((c : MinionBin) → Elem c bins → Newer weight req c → c.weight ≤ b.weight)
  PushAnswer missing =
      (req.unstable ≡ true) ⊎ ((c : MinionBin) → Elem c bins → Newer weight req c → ⊥)
  PushAnswer (failed e) =
      (req.unstable ≡ false) × (tbl.first_latest (fits_newer weight req) bins ≡ failed e)

  abbrev pub VersionAnswer : Result MinionBin → Type 0
  VersionAnswer (ok b) = Elem b bins × Named req b
  VersionAnswer missing = (c : MinionBin) → Elem c bins → Named req c → ⊥
  VersionAnswer (failed e) = tbl.first (fits_version req) bins ≡ failed e

  latest-PushAnswer :
      Ordered tbl bins
      → req.unstable ≡ false
      → (r : Result MinionBin) → tbl.first_latest (fits_newer weight req) bins ≡ r
      → PushAnswer r
  latest-PushAnswer law calm (ok b) e =
      let (there, fits, greatest) = law.latest_ok (fits_newer weight req) b e in
      (
        there,
        calm,
        fits_newer-Newer weight req b fits,
        λ c m n. greatest c m (Newer-fits_newer weight req c n),
      )
  latest-PushAnswer law calm missing e = inr (λ c m n.
      ground
        (arith, law.latest_missing (fits_newer weight req) e c m, Newer-fits_newer weight req c n))
  latest-PushAnswer law calm (failed x) e = (calm, e)

  first-VersionAnswer :
      Ordered tbl bins
      → (r : Result MinionBin) → tbl.first (fits_version req) bins ≡ r
      → VersionAnswer r
  first-VersionAnswer law (ok b) e =
      let (there, fits) = law.first_ok (fits_version req) b e in
      (there, fits_version-Named weight req b fits)
  first-VersionAnswer law missing e = λ c m n.
      ground (arith, law.first_missing (fits_version req) e c m, Named-fits_version weight req c n)
  first-VersionAnswer law (failed x) e = e

  -- Where no version is named, the binary that is given is one of the stored ones, not deprecated, made
  -- for the agent's system, stable, of the agent's customisation and above the version that it runs,
  -- and no other such binary has a greater weight; there is none only if the agent runs an unstable
  -- version or no stored binary is of that kind. Where a version is named, the binary has it and the
  -- customisation that is asked for, is not deprecated and made for the agent's system; there is none
  -- only if no stored binary is of that kind. It needs that the queries keep to their conditions and
  -- the order by weight.
  pub match_upgrade-Answer :
      Ordered tbl bins
      → ((is_empty req.version ≡ true) × PushAnswer (match_upgrade tbl weight req bins))
        ⊎ ((is_empty req.version ≡ false) × VersionAnswer (match_upgrade tbl weight req bins))
  unfolding match_upgrade
  match_upgrade-Answer law = elim (Bool-cases (is_empty req.version)) [
    | inl pushed ↦ elim (Bool-cases req.unstable) [
      | inl shaky ↦
          let none_given : missing ≡ match_upgrade tbl weight req bins =
            rw (pushed, match_upgrade) (rw shaky refl) in
          inl (pushed, subst PushAnswer none_given (inl shaky))
      | inr calm ↦
          let asked : tbl.first_latest (fits_newer weight req) bins
              ≡ match_upgrade tbl weight req bins =
            rw (pushed, match_upgrade) (rw calm refl) in
          inl (pushed, subst PushAnswer asked (latest-PushAnswer law calm _ refl))
    ]
    | inr named ↦
        let asked : tbl.first (fits_version req) bins ≡ match_upgrade tbl weight req bins =
          rw (named, match_upgrade) refl in
        inr (named, subst VersionAnswer asked (first-VersionAnswer law _ refl))
  ]
