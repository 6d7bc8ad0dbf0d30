-- ===== src/Interrupts/Timer.antt =====
-- src/time.c: the programming of the timer, and its handler.
use files_co.Base.{ℕ, ◌+◌, ◌*◌, ◌/◌, ◌%◌, ◌^◌, List}
use files_co.Interrupts.Pic.{Write, out8}
use files_co.Threads.Spinlock.{Kernel}
use files_co.Threads.Scheduler.{schedule}

abbrev pub pit_cmd : ℕ
pit_cmd = 0x43

abbrev pub pit_ch0_data : ℕ
pit_ch0_data = 0x40

abbrev pub pit_freq : ℕ
pit_freq = 1193180

abbrev pub pit_irq : ℕ
pit_irq = 0

abbrev pub hz : ℕ
hz = 100

-- `PIT_MODE`, `PIT_BYTES` and `PIT_CHANNEL`
abbrev pub pit_mode : ℕ → ℕ
pit_mode x = x % 8 * 2

abbrev pub pit_bytes : ℕ → ℕ
pit_bytes x = x % 4 * 16

abbrev pub pit_channel : ℕ → ℕ
pit_channel x = x % 4 * 64

abbrev pub pit_divisor : ℕ → ℕ
pit_divisor freq = pit_freq / freq

-- `pit_set_frequency`; the parts of the command share no bit.
unfoldable pub pit_set_frequency : ℕ → List Write → List Write
pit_set_frequency freq out =
    let div = pit_divisor freq in
    let cmd = pit_mode 2 + pit_bytes 3 + pit_channel 0 in
    let out = out8 pit_cmd cmd out in
    let out = out8 pit_ch0_data (div % 256) out in out8 pit_ch0_data (div / 256 % 256) out

-- `pit_handler`
unfoldable pub pit_handler : Kernel → Kernel
unfolding schedule
pit_handler k = schedule (record k { jiffies = (k.jiffies + 1) % 2 ^ 64 })
