-- ===== src/Collect/Model.antt =====
-- The rows that the reports become, and the `Model` methods of app/internal/param/collect.go. The row
-- types of `model` are declared in another module of the organisation; the fields are the columns that
-- this repository writes.
use ssoc_broker.Base.{ℕ, List, Text, if◌then◌else◌, ◌==◌}
use ssoc_broker.Base.Int.{ℤ}
use ssoc_broker.Collect.Param.{
  InfoRequest, CollectProcess, CollectLogonRequest, CollectListenItem, CollectGroupItem,
  CollectAccountItem,
}

pub record SysInfo : Type 0 where
  pub id : ℤ
  pub release : Text
  pub cpu_core : ℤ
  pub mem_total : ℤ
  pub mem_free : ℤ
  pub swap_total : ℤ
  pub swap_free : ℤ
  pub host_id : Text
  pub family : Text
  pub uptime : ℤ
  pub boot_at : ℤ
  pub virtual : Text
  pub virtual_role : Text
  pub proc_number : ℤ
  pub hostname : Text
  pub cpu_model : Text
  pub agent_total : ℤ
  pub agent_alloc : ℤ
  pub kernel_version : Text
  pub updated_at : ℕ

pub record MinionProcess (Float : Type 0) : Type 0 where
  pub minion_id : ℤ
  pub inet : Text
  pub name : Text
  pub state : Text
  pub pid : ℤ
  pub ppid : ℤ
  pub pgid : ℕ
  pub cmdline : Text
  pub username : Text
  pub cwd : Text
  pub executable : Text
  pub args : List Text
  pub user_ticks : ℕ
  pub total_pct : Float
  pub total_norm_pct : Float
  pub system_ticks : ℕ
  pub total_ticks : ℕ
  pub start_time : Text
  pub mem_size : ℕ
  pub rss_bytes : ℕ
  pub rss_pct : Float
  pub share : ℕ
  pub checksum : Text
  pub modified_at : ℕ
  pub created_time : ℕ

pub record MinionLogon : Type 0 where
  pub minion_id : ℤ
  pub inet : Text
  pub user : Text
  pub addr : Text
  pub msg : Text
  pub logon_at : ℕ
  pub type : Text
  pub pid : ℤ
  pub device : Text
  pub process : Text

pub record MinionListen : Type 0 where
  pub minion_id : ℤ
  pub inet : Text
  pub record_id : Text
  pub pid : ℕ
  pub fd : ℤ
  pub family : ℕ
  pub protocol : ℕ
  pub local_ip : Text
  pub local_port : ℤ
  pub path : Text
  pub process : Text
  pub username : Text

pub record MinionGroup : Type 0 where
  pub minion_id : ℤ
  pub inet : Text
  pub name : Text
  pub gid : Text
  pub description : Text

pub record MinionAccount : Type 0 where
  pub minion_id : ℤ
  pub inet : Text
  pub name : Text
  pub login_name : Text
  pub uid : Text
  pub gid : Text
  pub home_dir : Text
  pub description : Text
  pub status : Text
  pub raw : Text

unfoldable pub info_model : ℕ → ℤ → InfoRequest → SysInfo
info_model now minion_id ir = record {
  id = minion_id;
  release = ir.release;
  cpu_core = ir.cpu_core;
  mem_total = ir.mem_total;
  mem_free = ir.mem_free;
  swap_total = ir.swap_total;
  swap_free = ir.swap_free;
  host_id = ir.host_id;
  family = ir.family;
  uptime = ir.uptime;
  boot_at = ir.boot_at;
  virtual = ir.virtual;
  virtual_role = ir.virtual_role;
  proc_number = ir.proc_number;
  hostname = ir.hostname;
  cpu_model = ir.cpu_model;
  agent_total = ir.agent_total;
  agent_alloc = ir.agent_alloc;
  kernel_version = ir.version;
  updated_at = now;
}

unfoldable pub process_model :
    {Float : Type 0} → ℕ → ℤ → Text → CollectProcess Float → MinionProcess Float
process_model now minion_id inet p = record {
  minion_id = minion_id;
  inet = inet;
  name = p.name;
  state = p.state;
  pid = p.pid;
  ppid = p.ppid;
  pgid = p.pgid;
  cmdline = p.cmdline;
  username = p.username;
  cwd = p.cwd;
  executable = p.executable;
  args = p.args;
  user_ticks = p.user_ticks;
  total_pct = p.total_pct;
  total_norm_pct = p.total_norm_pct;
  system_ticks = p.system_ticks;
  total_ticks = p.total_ticks;
  start_time = p.start_time;
  mem_size = p.mem_size;
  rss_bytes = p.rss_bytes;
  rss_pct = p.rss_pct;
  share = p.share;
  checksum = p.checksum;
  modified_at = if p.modify_time == 0 then now else p.modify_time;
  created_time = if p.create_time == 0 then now else p.create_time;
}

unfoldable pub logon_model : ℕ → ℤ → Text → CollectLogonRequest → MinionLogon
logon_model now minion_id inet r = record {
  minion_id = minion_id;
  inet = inet;
  user = r.user;
  addr = r.addr;
  msg = r.class;
  logon_at = if r.time == 0 then now else r.time;
  type = r.type;
  pid = r.pid;
  device = r.device;
  process = r.process;
}

unfoldable pub listen_model : ℤ → Text → CollectListenItem → MinionListen
listen_model minion_id inet l = record {
  minion_id = minion_id;
  inet = inet;
  record_id = l.record_id;
  pid = l.pid;
  fd = l.fd;
  family = l.family;
  protocol = l.protocol;
  local_ip = l.local_ip;
  local_port = l.local_port;
  path = l.path;
  process = l.process;
  username = l.username;
}

unfoldable pub group_model : ℤ → Text → CollectGroupItem → MinionGroup
group_model minion_id inet g = record {
  minion_id = minion_id;
  inet = inet;
  name = g.name;
  gid = g.gid;
  description = g.description;
}

unfoldable pub account_model : ℤ → Text → CollectAccountItem → MinionAccount
account_model minion_id inet a = record {
  minion_id = minion_id;
  inet = inet;
  name = a.name;
  login_name = a.login_name;
  uid = a.uid;
  gid = a.gid;
  home_dir = a.home_dir;
  description = a.description;
  status = a.status;
  raw = a.raw;
}
