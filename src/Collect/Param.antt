-- ===== src/Collect/Param.antt =====
-- app/internal/param/collect.go: what agents report of their hosts. A time is a number, 0 for the zero
-- time; `float64` is a parameter, carried along; `int` and `int64` are the integers.
use ssoc_broker.Base.{ℕ, List, Text}
use ssoc_broker.Base.Int.{ℤ}

pub record InfoRequest : Type 0 where
  pub host_id : Text
  pub hostname : Text
  pub release : Text
  pub family : Text
  pub uptime : ℤ
  pub boot_at : ℤ
  pub virtual : Text
  pub virtual_role : Text
  pub proc_number : ℤ
  pub mem_total : ℤ
  pub mem_free : ℤ
  pub swap_total : ℤ
  pub swap_free : ℤ
  pub cpu_core : ℤ
  pub cpu_model : Text
  pub agent_total : ℤ
  pub agent_alloc : ℤ
  pub version : Text

pub record CollectProcess (Float : Type 0) : Type 0 where
  pub name : Text
  pub state : Text
  pub pid : ℤ
  pub ppid : ℤ
  pub pgid : ℕ
  pub cmdline : Text
  pub username : Text
  pub cwd : Text
  pub executable : Text
  pub args : List Text
  pub user_ticks : ℕ
  pub total_pct : Float
  pub total_norm_pct : Float
  pub system_ticks : ℕ
  pub total_ticks : ℕ
  pub start_time : Text
  pub mem_size : ℕ
  pub rss_bytes : ℕ
  pub rss_pct : Float
  pub share : ℕ
  pub checksum : Text
  pub modify_time : ℕ
  pub create_time : ℕ

pub record CollectLogonRequest : Type 0 where
  pub user : Text
  pub addr : Text
  pub class : Text
  pub time : ℕ
  pub type : Text
  pub pid : ℤ
  pub device : Text
  pub process : Text

pub record CollectListenItem : Type 0 where
  pub record_id : Text
  pub pid : ℕ
  pub fd : ℤ
  pub family : ℕ
  pub protocol : ℕ
  pub local_ip : Text
  pub local_port : ℤ
  pub path : Text
  pub state : Text
  pub process : Text
  pub username : Text

pub record CollectGroupItem : Type 0 where
  pub name : Text
  pub gid : Text
  pub description : Text

pub record CollectAccountItem : Type 0 where
  pub name : Text
  pub login_name : Text
  pub uid : Text
  pub gid : Text
  pub home_dir : Text
  pub description : Text
  pub status : Text
  pub raw : Text

pub record SbomSdk : Type 0 where
  pub purl : Text
  pub name : Text
  pub version : Text
  pub language : Text
  pub algorithm : Text
  pub checksum : Text
  pub licenses : List Text

pub record SbomProcExt : Type 0 where
  pub pid : ℤ
  pub exe : Text
  pub username : Text

-- `CollectProcessDiff`, `CollectListenDiff`, `CollectAccountDiff` and `CollectGroupDiff`.
pub record CollectDiff (Item Key : Type 0) : Type 0 where
  pub creates : List Item
  pub updates : List Item
  pub deletes : List Key

pub record SbomRequest : Type 0 where
  pub filename : Text
  pub algorithm : Text
  pub checksum : Text
  pub modify_at : ℕ
  pub size : ℤ
  pub process : SbomProcExt
  pub sdks : List SbomSdk
