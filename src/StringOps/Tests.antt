-- ===== src/StringOps/Tests.antt =====
-- `strlen` of src/string.c at a small memory.
use files_co.Base.{◌-◌, ◌≡◌, refl, some}
use files_co.StringOps.{Memory, strlen}

-- The bytes 9, 8, 7, 6, 5, 4, 3, 2, 1 and zeros.
abbrev countdown : Memory
countdown a = 9 - a

strlen_of_countdown : strlen 6 4 countdown ≡ some 5
unfolding strlen
strlen_of_countdown = refl
