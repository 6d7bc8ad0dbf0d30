-- ===== src/Stdlib/Digits.antt =====
-- What a row of digits in memory stands for.
use files_co.Base.{
  ℕ, zero, suc, ◌+◌, ◌-◌, ◌*◌, ◌≤◌, ◌<◌, ◌≡◌, refl, false, ◌==◌, leb, ◌&&◌, if◌then◌else◌, arith,
}
use files_co.StringOps.{Memory}
use files_co.Stdlib.{digit_char}

-- The digit that a character from `0` to `9` or from `a` to `z` stands for; 36 is no digit.
unfoldable pub digit_of : ℕ → ℕ
digit_of c =
    if leb b'0' c && leb c b'9'
    then c - b'0'
    else if leb b'a' c && leb c b'z'
    then c - b'a' + 10
    else 36

pub digit_of-digit_char : (r : ℕ) → r < 36 → digit_of (digit_char r) ≡ r
unfolding digit_of digit_char
digit_of-digit_char r h = ground arith

pub digit_char-ne_zero : (r : ℕ) → (digit_char r == 0) ≡ false
unfolding digit_char
digit_char-ne_zero r = ground arith

-- The value of `n` digits from `a` on, the lowest first.
unfoldable pub little : ℕ → Memory → ℕ → ℕ → ℕ
little base m a zero = 0
little base m a (suc n) = digit_of (m a) + base * little base m (a + 1) n

-- The value of `n` digits from `a` on, the highest first, as numbers are read.
unfoldable pub big : ℕ → Memory → ℕ → ℕ → ℕ
big base m a zero = 0
big base m a (suc n) = big base m a n * base + digit_of (m (a + n))

pub little_same :
    (base : ℕ) (m m' : Memory) (a n : ℕ)
    → ((k : ℕ) → a ≤ k → k < a + n → m' k ≡ m k)
    → little base m' a n ≡ little base m a n
unfolding little
little_same base m m' a zero h = refl
little_same base m m' a (suc n) h =
    let e = h a (omega arith) (omega arith) in
    let ih = little_same base m m' (a + 1) n (λ k lo hi. h k (omega arith) (omega arith)) in
    rw (e, ih)

-- A row and its reverse stand for the same number, read from the other end.
pub big_reverse :
    (base : ℕ) (m m' : Memory) (a c n : ℕ)
    → ((k : ℕ) → k < n → m' (a + k) ≡ m (c + (n - 1 - k)))
    → big base m' a n ≡ little base m c n
unfolding big little
big_reverse base m m' a c zero h = refl
big_reverse base m m' a c (suc n) h =
    let ih = big_reverse base m m' a (c + 1) n (λ k lt. rev k lt) in
    let z : c + (suc n - 1 - n) ≡ c = omega arith in
    let e : m' (a + n) ≡ m c = rw z at (h n (omega arith)) in rw (ih, e) (omega arith)
  where
    rev : (k : ℕ) → k < n → m' (a + k) ≡ m (c + 1 + (n - 1 - k))
    rev k lt =
        let e : c + (suc n - 1 - k) ≡ c + 1 + (n - 1 - k) = omega arith in
        rw e at (h k (omega arith))
