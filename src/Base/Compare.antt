-- ===== src/Base/Compare.antt =====
-- What the Boolean tests on numbers say of them, and the other way round.
use files_co.Base.{ℕ, suc, ◌≤◌, ◌<◌, ◌≡◌, true, false, ltb, leb, arith}

pub leb_le : {a b : ℕ} → leb a b ≡ true → a ≤ b
leb_le h = ground arith

pub le_of_leb : {a b : ℕ} → leb a b ≡ false → suc b ≤ a
le_of_leb h = ground arith

pub ltb_lt : {a b : ℕ} → ltb a b ≡ true → a < b
ltb_lt h = ground arith

pub ltb_le : {a b : ℕ} → ltb a b ≡ true → a ≤ b
ltb_le h = ground arith

pub le_of_ltb : {a b : ℕ} → ltb a b ≡ false → b ≤ a
le_of_ltb h = ground arith

pub leb_of_le : {a b : ℕ} → a ≤ b → leb a b ≡ true
leb_of_le h = ground arith

pub leb_of_lt : {a b : ℕ} → b < a → leb a b ≡ false
leb_of_lt h = ground arith

pub ltb_of_le : {a b : ℕ} → b ≤ a → ltb a b ≡ false
ltb_of_le h = ground arith
