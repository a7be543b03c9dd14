-- ===== src/Minion.antt =====
-- The rows that the hubs keep of the agents. `model.Minion` and `model.MinionTag` are declared in
-- another module of the organisation; the fields are the columns that this repository reads or writes.
use ssoc_broker.Base.{ℕ, Bool, true, false, Option, Text}
use ssoc_broker.Base.Int.{ℤ}
use ssoc_broker.Store.{Table}

-- `model.MSInactive`, `MSOffline`, `MSOnline`, `MSDelete`; any other value of the column.
pub data Status : Type 0 where
  inactive offline online deleted : Status
  other : ℕ → Status

abbrev pub is_online : Status → Bool
is_online online = true
is_online _ = false

abbrev pub is_offline : Status → Bool
is_offline offline = true
is_offline _ = false

pub record Minion : Type 0 where
  pub id : ℤ
  pub machine_id : Text
  pub inet : Text
  pub inet6 : Text
  pub mac : Text
  pub goos : Text
  pub arch : Text
  pub edition : Text
  pub status : Status
  pub uptime : Option ℕ
  pub broker_id : ℤ
  pub broker_name : Text
  pub unload : Bool
  pub unstable : Bool
  pub customized : Text

-- A tag of the kind `model.TkLifelong`, or of another kind.
pub record MinionTag : Type 0 where
  pub minion_id : ℤ
  pub tag : Text
  pub lifelong : Bool

-- The database assigns the primary key.
abbrev pub with_id : ℤ → Minion → Minion
with_id n m = record m { id = n }

abbrev pub MinionTable : Type 0
MinionTable = Table with_id
