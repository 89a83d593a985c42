-- ===== src/Capabilities.antt =====
-- src/cyberd/capabilities.h: capability sets, which are uint32_t bit sets.
--
-- A capability is `1 << k`; here it is its index k, which is also its command's identifier.
use cyberd.Base.{ℕ, zero, suc, ◌+◌, ◌-◌, ◌*◌, ◌/◌, ◌%◌, ◌^◌, Bool, ◌==◌}

abbrev pub endpoint_create : ℕ
endpoint_create = 0

abbrev pub daemon_start : ℕ
daemon_start = 1

abbrev pub daemon_stop : ℕ
daemon_stop = 2

abbrev pub daemon_reload : ℕ
daemon_reload = 3

abbrev pub daemon_end : ℕ
daemon_end = 4

abbrev pub system_poweroff : ℕ
system_poweroff = 5

abbrev pub system_halt : ℕ
system_halt = 6

abbrev pub system_reboot : ℕ
system_reboot = 7

abbrev pub system_suspend : ℕ
system_suspend = 8

-- CAPSET_ALL, `(CAPABILITY_SYSTEM_SUSPEND << 1) - 1`
abbrev pub capset_all : ℕ
capset_all = 2 ^ system_suspend * 2 - 1

-- CAPSET_HAS(capset, 1 << k)
unfoldable pub has : ℕ → ℕ → Bool
has capset k = capset / 2 ^ k % 2 == 1

-- `&` on the low w bits; a capset_t has 32.
unfoldable pub and_bits : ℕ → ℕ → ℕ → ℕ
and_bits zero a b = 0
and_bits (suc w) a b = a % 2 * (b % 2) + 2 * and_bits w (a / 2) (b / 2)
