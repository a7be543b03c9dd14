-- ===== src/Binaries.antt =====
-- app/agtapi/upgrade.go and app/agtsvc/deploy.go: which binary an agent is given, with the addresses that
-- are hidden in it, and how many agents download at once. `First` of an ordered query, the weight of a
-- version and the grid of files are parameters.
pub mod Addresses
pub mod Choice
pub mod Limit
use ssoc_broker.Base.{
  ℕ, ◌+◌, ◌-◌, List, [], ◌∷◌, ◌++◌, Bool, true, false, not, ◌&&◌, if◌then◌else◌, ltb, Text, text_eq,
  is_empty,
}
use ssoc_broker.Base.Int.{ℤ, int_eq, pos}
use ssoc_broker.Store.{Result, ok, missing, failed}
use ssoc_broker.Collect.Sbom.{has_text}

-- The columns of `model.MinionBin` that are read.
pub record MinionBin : Type 0 where
  pub id : ℤ
  pub file_id : ℤ
  pub goos : Text
  pub arch : Text
  pub semver : Text
  pub weight : ℕ
  pub customized : Text
  pub unstable : Bool
  pub deprecated : Bool

abbrev pub bool_eq : Bool → Bool → Bool
bool_eq true b = b
bool_eq false b = not b

-- What the agent said of itself, and what it asks for.
pub record UpgradeRequest : Type 0 where
  pub goos : Text
  pub arch : Text
  pub semver : Text
  pub customized : Text
  pub unstable : Bool
  pub version : Text
  pub wanted : Text

-- The conditions of `upgradeREST.matchBinary` with a version, and without one.
abbrev pub fits_host : UpgradeRequest → MinionBin → Bool
fits_host req bin = not bin.deprecated && text_eq bin.goos req.goos && text_eq bin.arch req.arch

abbrev pub fits_version : UpgradeRequest → MinionBin → Bool
fits_version req bin =
    fits_host req bin && text_eq bin.semver req.version && text_eq bin.customized req.wanted

abbrev pub fits_newer : (Text → ℕ) → UpgradeRequest → MinionBin → Bool
fits_newer weight req bin =
    fits_host req bin
    && ltb (weight req.semver) bin.weight
    && text_eq bin.customized req.customized
    && not bin.unstable

-- `First` by the order of the key, and by weight and version, falling.
pub record BinTable : Type 0 where
  pub first : (MinionBin → Bool) → List MinionBin → Result MinionBin
  pub first_latest : (MinionBin → Bool) → List MinionBin → Result MinionBin

unfoldable pub match_upgrade :
    BinTable → (Text → ℕ) → UpgradeRequest → List MinionBin → Result MinionBin
match_upgrade tbl weight req bins =
    if is_empty req.version
    then if req.unstable then missing else tbl.first_latest (fits_newer weight req) bins
    else tbl.first (fits_version req) bins

pub record DeployRequest : Type 0 where
  pub id : ℤ
  pub goos : Text
  pub arch : Text
  pub version : Text
  pub customized : Text
  pub unstable : Bool

abbrev pub fits_deploy : DeployRequest → MinionBin → Bool
fits_deploy req bin =
    not bin.deprecated
    && text_eq bin.goos req.goos
    && text_eq bin.arch req.arch
    && text_eq bin.customized req.customized
    && bool_eq bin.unstable req.unstable
    && (if is_empty req.version then true else text_eq bin.semver req.version)

-- `deployService.matchBinary`; `expired` is its error for a binary that is marked as such.
unfoldable pub match_deploy : BinTable → Text → DeployRequest → List MinionBin → Result MinionBin
match_deploy tbl expired req bins =
    if int_eq req.id (pos 0)
    then tbl.first_latest (fits_deploy req) bins
    else elim (tbl.first (λ bin. int_eq bin.id req.id) bins) [
      | ok bin ↦ if bin.deprecated then failed expired else ok bin
      | missing ↦ missing
      | failed e ↦ failed e
    ]

-- The loops over `brk.LAN` and `brk.VIP` that fill `addrs`; the keys of `unique` are the addresses in it.
unfoldable pub add_unique : List Text → List Text → List Text
add_unique addrs [] = addrs
add_unique addrs (addr ∷ more) =
    add_unique (if has_text addr addrs then addrs else addrs ++ (addr ∷ [])) more

unfoldable pub hidden_addrs : List Text → List Text → List Text
unfolding add_unique
hidden_addrs lan vip = add_unique (add_unique [] lan) vip

-- The fields of `upgradeREST` that limit the downloads.
pub record Limiter : Type 0 where
  pub maxsize : ℕ
  pub count : ℕ

unfoldable pub try_lock : Limiter → Limiter × Bool
try_lock rest =
    if ltb rest.count rest.maxsize
    then (record rest { count = rest.count + 1 }, true)
    else (rest, false)

-- `count--`, and a negative count is set to 0: the subtraction of ℕ.
unfoldable pub unlock : Limiter → Limiter
unlock rest = record rest { count = rest.count - 1 }

pub data Download : Type 0 where
  not_modified too_many : Download
  error : Text → Download
  sent : MinionBin → List Text → Download

-- What the handler finds between the lock and the deferred unlock: the broker's addresses, the file,
-- and the encryption of what is hidden in it.
pub record Sources : Type 0 where
  pub broker : Result (List Text × List Text)
  pub open_file : ℤ → Result (Unit {0})
  pub encrypt : MinionBin → List Text → Result (Unit {0})

-- `missing` of another statement is its error text.
abbrev pub as_error : {A : Type 0} → Text → Result A → (A → Download) → Download
as_error not_found (ok a) k = k a
as_error not_found missing k = error not_found
as_error not_found (failed e) k = error e

module _ (tbl : BinTable) (weight : Text → ℕ) (src : Sources) (not_found : Text) where
  unfoldable pub prepare : UpgradeRequest → List MinionBin → Download
  unfolding match_upgrade hidden_addrs
  prepare req bins = elim (match_upgrade tbl weight req bins) [
    | missing ↦ not_modified
    | failed e ↦ error e
    | ok bin ↦ as_error not_found src.broker λ brk.
        as_error not_found (src.open_file bin.file_id) λ u.
          as_error not_found (src.encrypt bin (hidden_addrs brk.0 brk.1))
            λ v. sent bin (hidden_addrs brk.0 brk.1)
  ]

  -- `Download`, alone: the limiter after it, and the answer.
  unfoldable pub download : UpgradeRequest → List MinionBin → Limiter → Limiter × Download
  unfolding prepare try_lock unlock
  download req bins rest =
      if text_eq req.customized req.wanted && text_eq req.semver req.version
      then (rest, not_modified)
      else let (held, got) = try_lock rest in
        if got then (unlock held, prepare req bins) else (held, too_many)
