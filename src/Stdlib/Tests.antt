-- ===== src/Stdlib/Tests.antt =====
-- `ulltoa` at one number.
use files_co.Base.{ℕ, ◌≡◌, some}
use files_co.Base.{arith}
use files_co.StringOps.{Memory}
use files_co.Stdlib.{ulltoa}
use files_co.Stdlib.Print.{Printed, ulltoa-Printed}

abbrev zeros : Memory
zeros a = 0

ulltoa-Printed_example :
    (m' : Memory) × (ulltoa 254 8 16 zeros ≡ some m') × (n : ℕ) × Printed 16 254 8 zeros n m'
ulltoa-Printed_example = ulltoa-Printed 254 8 16 zeros (omega arith) (omega arith) (omega arith)
