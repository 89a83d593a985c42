-- ===== src/Signals.antt =====
-- src/cyberd/signals.c: the handlers, which set flags, and the masks that say when they run.
--
-- An `int` is its 32 bits.
pub mod Delivery
use cyberd.Base.{
  ℕ, Bool, true, false, not, ◌&&◌, ◌||◌, List, [], ◌∷◌, ◌==◌, if◌then◌else◌, Option, none, some,
}
use cyberd.Connection.{Howto, power_off, halt_system, autoboot, sw_suspend}

-- The actions of reboot(2).
abbrev pub rb_autoboot : ℕ
rb_autoboot = 19088743

abbrev pub rb_halt_system : ℕ
rb_halt_system = 3454992675

abbrev pub rb_power_off : ℕ
rb_power_off = 1126301404

abbrev pub rb_sw_suspend : ℕ
rb_sw_suspend = 3489725666

-- `sigreboot`, `sigchld`, `sighup` and `sigalrm`
pub record Flags : Type 0 where
  pub reboot : ℕ
  pub child : Bool
  pub hangup : Bool
  pub rang : Bool

-- A SIGTERM with the value that sigqueue(3) gave it, or without one; the other signals.
pub data Signal : Type 0 where
  term : Option ℕ → Signal
  chld hup alrm : Signal

unfoldable pub sigterm_handler : Option ℕ → Flags → Flags
sigterm_handler none f = record f { reboot = rb_power_off }
sigterm_handler (some value) f =
    if value == rb_autoboot || value == rb_halt_system || value == rb_power_off
    then record f { reboot = value }
    else f

-- sigterm_handler, sigchld_handler, sighup_handler and sigalrm_handler.
unfoldable pub handle : Signal → Flags → Flags
handle (term value) f = sigterm_handler value f
handle chld f = record f { child = true }
handle hup f = record f { hangup = true }
handle alrm f = record f { rang = true }

-- The signals that arrive during one wait, in turn.
unfoldable pub handle_all : List Signal → Flags → Flags
handle_all [] f = f
handle_all (s ∷ rest) f = handle_all rest (handle s f)

-- The value that a command queues.
abbrev pub howto_value : Howto → ℕ
howto_value power_off = rb_power_off
howto_value halt_system = rb_halt_system
howto_value autoboot = rb_autoboot
howto_value sw_suspend = rb_sw_suspend

-- The signals whose masks the code sets, and any other one.
pub data Number : Type 0 where
  sigterm sigchld sighup sigalrm other : Number

abbrev pub SigSet : Type 0
SigSet = Number → Bool

abbrev pub sigemptyset : SigSet
sigemptyset n = false

abbrev pub same_number : Number → Number → Bool
same_number sigterm sigterm = true
same_number sigchld sigchld = true
same_number sighup sighup = true
same_number sigalrm sigalrm = true
same_number other other = true
same_number _ _ = false

abbrev pub sigaddset : SigSet → Number → SigSet
sigaddset set n m = same_number n m || set m

abbrev pub sigdelset : SigSet → Number → SigSet
sigdelset set n m = not (same_number n m) && set m

-- The signals that are blocked, those that have a handler, and the seconds of the alarm.
pub record Mask : Type 0 where
  pub blocked : SigSet
  pub handled : SigSet
  pub alarm : Option ℕ

-- The mask for pselect(2) is the second part.
unfoldable pub signals_setup : Mask → Mask × SigSet
signals_setup m = (
  record m {
    blocked = sigaddset (sigaddset (sigaddset sigemptyset sigterm) sigchld) sighup;
    handled = sigaddset (sigaddset (sigaddset m.handled sigterm) sigchld) sighup;
  },
  sigemptyset,
)

-- The mask for sigsuspend(2) is the second part: the old one without SIGCHLD.
unfoldable pub signals_alarm : ℕ → Mask → Mask × SigSet
signals_alarm seconds m = (
  record {
    blocked = λ n. sigaddset sigemptyset sigalrm n || m.blocked n;
    handled = sigaddset m.handled sigalrm;
    alarm = some seconds;
  },
  sigdelset m.blocked sigchld,
)
