-- ===== src/DaemonConf.antt =====
-- `struct daemon_conf` of src/cyberd/daemon_conf.h and its initial value.
--
-- A C string is the list of its bytes, a null pointer is `none`, a bit field is a Bool.
pub mod Numbers
pub mod Names
pub mod Values
pub mod Sane
pub mod Accepted
pub mod Buffer
pub mod Arguments
pub mod Lines
pub mod Files
use cyberd.Base.{ℕ, ℤ, pos, Bool, false, List, Option, none}

-- When a daemon wants to be started.
pub record StartFlags : Type 0 where
  pub load : Bool
  pub reload : Bool
  pub exitsuccess : Bool
  pub exitfailure : Bool
  pub killed : Bool
  pub dumped : Bool

pub record DaemonConf : Type 0 where
  pub path : Option (List ℕ)
  pub arguments : Option (List (List ℕ))
  pub environment : Option (List (List ℕ))
  pub workdir : Option (List ℕ)
  pub in_path : Option (List ℕ)
  pub out_path : Option (List ℕ)
  pub err_path : Option (List ℕ)
  pub sigfinish : ℤ
  pub sigreload : ℤ
  pub uid : ℕ
  pub gid : ℕ
  pub nosid : Bool
  pub umask : ℕ
  pub priority : ℤ
  pub start : StartFlags

-- Linux's numbers of the default signals.
abbrev pub sighup : ℤ
sighup = pos 1

abbrev pub sigkill : ℤ
sigkill = pos 9

abbrev pub sigterm : ℤ
sigterm = pos 15

abbrev pub no_flags : StartFlags
no_flags = record {
  load = false;
  reload = false;
  exitsuccess = false;
  exitfailure = false;
  killed = false;
  dumped = false;
}

-- daemon_conf_init; `default_umask` is the build's CONFIG_DAEMON_CONF_DEFAULT_UMASK.
unfoldable pub daemon_conf_init : ℕ → DaemonConf
daemon_conf_init default_umask = record {
  path = none;
  arguments = none;
  environment = none;
  workdir = none;
  in_path = none;
  out_path = none;
  err_path = none;
  sigfinish = sigterm;
  sigreload = sighup;
  uid = 0;
  gid = 0;
  nosid = false;
  umask = default_umask;
  priority = pos 0;
  start = no_flags;
}
