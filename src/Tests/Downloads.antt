-- ===== src/Tests/Downloads.antt =====
-- An update for an agent, of two stored binaries.
use ssoc_broker.Base.{
  ◌≤◌, ◌≡◌, ◌⊎◌, refl, inl, inr, List, [], ◌∷◌, Bool, true, false, arith, Elem, codes, is_empty,
  text_dec,
}
use ssoc_broker.Base.Int.{pos}
use ssoc_broker.Store.{ok, missing, find}
use ssoc_broker.Store.Memory.{found}
use ssoc_broker.Store.Rows.{find-holds, find-Elem}
use ssoc_broker.Binaries.{MinionBin, UpgradeRequest, BinTable, match_upgrade}
use ssoc_broker.Binaries.Choice.{Ordered, PushAnswer, VersionAnswer, match_upgrade-Answer}

abbrev bin9 : MinionBin
bin9 = record {
  id = pos 9;
  file_id = pos 1;
  goos = codes "linux";
  arch = codes "amd64";
  semver = codes "3";
  weight = 3;
  customized = [];
  unstable = false;
  deprecated = false;
}

abbrev bin8 : MinionBin
bin8 = record {
  id = pos 8;
  file_id = pos 1;
  goos = codes "linux";
  arch = codes "amd64";
  semver = codes "2";
  weight = 2;
  customized = [];
  unstable = false;
  deprecated = false;
}

abbrev wish : UpgradeRequest
wish = record {
  goos = codes "linux";
  arch = codes "amd64";
  semver = codes "1";
  customized = [];
  unstable = false;
  version = [];
  wanted = [];
}

-- The rows stand by falling weight.
abbrev stored : List MinionBin
stored = bin9 ∷ bin8 ∷ []

abbrev bins : BinTable
bins = record { first = λ p t. found (find p t); first_latest = λ p t. found (find p t) }

found-ok :
    (p : MinionBin → Bool) (b : MinionBin)
    → found (find p stored) ≡ ok b
    → Elem b stored × (p b ≡ true)
found-ok p b e = (find-Elem p stored b (ground arith), find-holds p stored b (ground arith))

found-missing :
    (p : MinionBin → Bool)
    → found (find p stored) ≡ missing
    → (b : MinionBin) → Elem b stored
    → p b ≡ false
found-missing p e b (inl m) = ground arith
found-missing p e b (inr (inl m)) = ground arith
found-missing p e b (inr (inr m)) = absurd m

found-greatest :
    (p : MinionBin → Bool) (b : MinionBin)
    → found (find p stored) ≡ ok b
    → (c : MinionBin) → Elem c stored
    → p c ≡ true
    → c.weight ≤ b.weight
found-greatest p b e c (inl m) h = ground arith
found-greatest p b e c (inr (inl m)) h = ground arith
found-greatest p b e c (inr (inr m)) h = absurd m

bins-Ordered : Ordered bins stored
bins-Ordered = record {
  first_ok = found-ok;
  first_missing = found-missing;
  latest_ok = λ p b e. ((found-ok p b e).0, (found-ok p b e).1, found-greatest p b e);
  latest_missing = found-missing;
}

offered : match_upgrade bins (λ v. 1) wish stored ≡ ok bin9
unfolding match_upgrade text_dec
offered = refl

match_upgrade-Answer_example :
    ((is_empty wish.version ≡ true)
      × PushAnswer bins (λ v. 1) wish stored (match_upgrade bins (λ v. 1) wish stored))
    ⊎ ((is_empty wish.version ≡ false)
        × VersionAnswer bins (λ v. 1) wish stored (match_upgrade bins (λ v. 1) wish stored))
match_upgrade-Answer_example = match_upgrade-Answer bins (λ v. 1) wish stored bins-Ordered
