-- ===== src/Collect/Host.antt =====
-- app/agtapi/collect.go: `Sysinfo`, `CPU` and `ProcessSync`; app/agtsvc/collect.go: `Sysinfo`.
use ssoc_broker.Base.{ℕ, List, [], map, Text, Bool}
use ssoc_broker.Base.Int.{ℤ, int_eq}
use ssoc_broker.Store.{Result, ok, missing, failed, M, ◌>>=◌}
use ssoc_broker.Collect.Param.{InfoRequest}
use ssoc_broker.Collect.Model.{SysInfo, MinionProcess, info_model}
use ssoc_broker.Collect.Handlers.{bind, process_kind}
use ssoc_broker.Collect.Replace.{of_minion}

-- The columns of `model.Minion` that the service touches.
pub record Host : Type 0 where
  pub id : ℤ
  pub os_release : Text

pub record HostTables : Type 0 where
  pub infos : List SysInfo
  pub hosts : List Host

-- A statement's error is dropped.
abbrev pub dropped : {A : Type 0} → Result A → A → A
dropped (ok a) was = a
dropped missing was = was
dropped (failed e) was = was

module _ (save : SysInfo → List SysInfo → Result (List SysInfo))
    (update : (Host → Bool) → (Host → Host) → List Host → Result (List Host)) where
  -- The service, with the work that it hands to its pool.
  unfoldable pub keep_info : SysInfo → M HostTables (Unit {0})
  keep_info info s = (
    record s {
      infos = dropped (save info s.infos) s.infos;
      hosts =
          dropped
            (update (λ h. int_eq h.id info.id) (λ h. record h { os_release = info.release })
              s.hosts)
            s.hosts;
    },
    ok tt,
  )

  unfoldable pub sysinfo : ℕ → ℤ → Result InfoRequest → M HostTables (Unit {0})
  unfolding keep_info info_model
  sysinfo now mid bound = do req ← bind bound; keep_info (info_model now mid req)

pub record ProcSimple : Type 0 where
  pub name : Text
  pub state : Text
  pub pid : ℤ
  pub ppid : ℤ
  pub pgid : ℕ
  pub cmdline : Text
  pub username : Text
  pub cwd : Text
  pub executable : Text
  pub args : List Text

abbrev pub simple : {Float : Type 0} → MinionProcess Float → ProcSimple
simple p = record {
  name = p.name;
  state = p.state;
  pid = p.pid;
  ppid = p.ppid;
  pgid = p.pgid;
  cmdline = p.cmdline;
  username = p.username;
  cwd = p.cwd;
  executable = p.executable;
  args = p.args;
}

-- The answer to the agent: its processes, or none where the query fails.
unfoldable pub process_sync :
    {Float : Type 0}
    → ((MinionProcess Float → Bool)
        → List (MinionProcess Float)
        → Result (List (MinionProcess Float)))
    → ℤ
    → List (MinionProcess Float)
    → List ProcSimple
process_sync scan mid t = map simple (dropped (scan (of_minion (process_kind 0) mid) t) [])
