-- ===== src/Stdlib/Print.antt =====
-- `ulltoa` of src/stdlib.c writes the digits of its value.
use native.Mathlib.Nat.{div-add-mod, mod-lt, div-lt_iff_lt-mul, mul-le-mul_left}
use files_co.Base.{
  ◌||◌, ◌∙◌, ℕ, zero, suc, ◌+◌, ◌-◌, ◌*◌, ◌/◌, ◌%◌, ◌^◌, ◌≤◌, ◌<◌, ◌≡◌, ◌≢◌, ◌⊎◌, refl, false, ◌==◌,
  ltb, arith, ap, some, Bool-cases, inl, inr, ◌>>=◌,
}
use files_co.Base.Pow.{pow_suc}
use files_co.StringOps.{Memory, store}
use files_co.StringOps.Laws.{IsText}
use files_co.Stdlib.{digit_char, digits_loop, reverse_loop, ulltoa}
use files_co.Stdlib.Digits.{
  digit_of, digit_of-digit_char, digit_char-ne_zero, little, big, big_reverse,
}

-- What stands in memory after the digits were written from `ptr` on, the lowest first.
pub record Written (base value ptr : ℕ) (m : ℕ → ℕ) (n : ℕ) (m' : ℕ → ℕ) : Type 0 where
  pub some_digit : 0 < n
  pub value_eq : little base m' ptr n ≡ value
  pub digits : (k : ℕ) → k < n → (m' (ptr + k) ≢ 0) × (digit_of (m' (ptr + k)) < base)
  pub outside : (a : ℕ) → (a < ptr) ⊎ (ptr + n ≤ a) → m' a ≡ m a

smaller : (base value fuel : ℕ) → 2 ≤ base → value < 2 ^ suc fuel → value / base < 2 ^ fuel
smaller base value fuel lo h =
    (div-lt_iff_lt-mul (omega arith)).1 (omega (arith, pow_suc fuel, mul-le-mul_left (2 ^ fuel) lo))

pos_of : (fuel value : ℕ) → value < 2 ^ fuel → (value == 0) ≡ false → 0 < fuel
pos_of zero value h ne = absurd (ground arith)
pos_of (suc fuel) value h ne = omega arith

-- The lowest digit, written at `ptr`.
module _ (base value ptr : ℕ) (m : Memory) (lo : 2 ≤ base) (hi : base ≤ 36) where
  abbrev first : Memory
  first = store ptr (digit_char (value % base)) m

  digit_lt : value % base < base
  digit_lt = mod-lt value (omega arith)

  first_digit : digit_of (first ptr) ≡ value % base
  first_digit =
      let e : first ptr ≡ digit_char (value % base) = unfold store in (ground arith) in
      rw e (digit_of-digit_char (value % base) (omega (arith, digit_lt)))

  first-ne_zero : first ptr ≢ 0
  first-ne_zero =
      let e : first ptr ≡ digit_char (value % base) = unfold store in (ground arith) in
      rw e (ground (arith, digit_char-ne_zero (value % base)))

  digit_here : (k : ℕ) → k ≡ 0 → (first (ptr + k) ≢ 0) × (digit_of (first (ptr + k)) < base)
  digit_here k z =
      let e : ptr + k ≡ ptr = omega arith in rw (e, first_digit) (first-ne_zero, digit_lt)

  first_alone : value / base ≡ 0 → Written base value ptr m 1 first
  first_alone z = record {
    some_digit = omega arith;
    value_eq =
        unfold little in
        (omega (arith, first_digit, div-add-mod value base, ap (λ (t : ℕ). base * t) z));
    digits = λ k lt. digit_here k (omega arith);
    outside = λ a o. unfold store in (ground arith);
  }

  first_more :
      (n : ℕ) (m' : Memory)
      → Written base (value / base) (ptr + 1) first n m'
      → Written base value ptr m (suc n) m'
  first_more n m' w = record {
    some_digit = omega arith;
    value_eq =
        unfold little in
        (omega (arith, kept, div-add-mod value base, ap (λ (t : ℕ). base * t) w.value_eq));
    digits = digits;
    outside = λ a o. w.outside a (omega arith) ∙ (unfold store in (ground arith));
  }
    where
      same : m' ptr ≡ first ptr
      same = w.outside ptr (inl (omega arith))

      kept : digit_of (m' ptr) ≡ value % base
      kept = rw same first_digit

      digits : (k : ℕ) → k < suc n → (m' (ptr + k) ≢ 0) × (digit_of (m' (ptr + k)) < base)
      digits zero lt =
          let e : ptr + 0 ≡ ptr = omega arith in
          rw (e, same) (first-ne_zero, rw first_digit digit_lt)
      digits (suc k) lt =
          let e : ptr + 1 + k ≡ ptr + suc k = omega arith in rw e at (w.digits k (omega arith))

-- A value below 2 ^ fuel has at most `fuel` digits in any base.
digits_loop-Written :
    (fuel value ptr base : ℕ) (m : Memory)
    → 2 ≤ base
    → base ≤ 36
    → value < 2 ^ fuel
    → 0 < fuel
    → (n : ℕ) × (m' : Memory) × (digits_loop fuel value ptr base m ≡ some (ptr + n, m'))
      × (n ≤ fuel)
      × Written base value ptr m n m'
unfolding digits_loop
digits_loop-Written zero value ptr base m lo hi small pos = absurd (omega arith)
digits_loop-Written (suc fuel) value ptr base m lo hi small pos =
    elim (Bool-cases (value / base == 0)) [
      | inl last ↦ (
        1,
        first base value ptr m lo hi,
        rw last,
        omega arith,
        first_alone base value ptr m lo hi (ground arith),
      )
      | inr more ↦
          let less = smaller base value fuel lo small in
          let (n, m', run, le, w) =
            digits_loop-Written fuel (value / base) (ptr + 1) base (first base value ptr m lo hi) lo
              hi less (pos_of fuel (value / base) less more) in
          let e : ptr + 1 + n ≡ ptr + suc n = omega arith in
          (
            suc n,
            m',
            rw more (run ∙ ap (λ p. some (p, m')) e),
            omega arith,
            first_more base value ptr m lo hi n m' w,
          )
    ]

-- The text turned round in place: `lo` and `hi` are the ends of what is left.
reverse_loop_outside :
    (fuel lo hi : ℕ) (m : Memory) (a : ℕ) → (a < lo) ⊎ (hi < a) → reverse_loop fuel lo hi m a ≡ m a
unfolding reverse_loop
reverse_loop_outside zero lo hi m a h = refl
reverse_loop_outside (suc fuel) lo hi m a h =
    ground
      (arith, reverse_loop_outside fuel (lo + 1) (hi - 1) (store lo (m hi) (store hi (m lo) m)) a)

reverse_loop_inside :
    (fuel lo hi : ℕ) (m : Memory) (a : ℕ)
    → hi ≤ lo + fuel + fuel
    → lo ≤ a
    → a ≤ hi
    → reverse_loop fuel lo hi m a ≡ m (lo + hi - a)
unfolding reverse_loop
reverse_loop_inside zero lo hi m a h le le' = let e : lo + hi - a ≡ a = omega arith in rw e
reverse_loop_inside (suc fuel) lo hi m a h le le' = elim (Bool-cases (ltb lo hi)) [
  | inr done ↦ let e : lo + hi - a ≡ a = ground arith in rw (done, e)
  | inl more ↦
      let m1 = store lo (m hi) (store hi (m lo) m) in
      elim (Bool-cases (a == lo || a == hi)) [
        | inl edge ↦
            rw (more, reverse_loop_outside fuel (lo + 1) (hi - 1) m1 a (ground arith))
              (ground arith)
        | inr mid ↦
            let e : lo + 1 + (hi - 1) - a ≡ lo + hi - a = ground arith in
            rw
              (
                more,
                reverse_loop_inside fuel (lo + 1) (hi - 1) m1 a (ground arith) (ground arith)
                    (ground arith),
                e,
              )
              (ground arith)
      ]
]

-- What `ulltoa` leaves: a text of `n` digits for the value, and the rest of memory as it was.
pub record Printed (base value str : ℕ) (m : ℕ → ℕ) (n : ℕ) (m' : ℕ → ℕ) : Type 0 where
  pub text : IsText m' str n
  pub value_eq : big base m' str n ≡ value
  pub digits : (k : ℕ) → k < n → digit_of (m' (str + k)) < base
  pub size : (0 < n) × (n ≤ 64)
  pub outside : (a : ℕ) → (a < str) ⊎ (str + n < a) → m' a ≡ m a

module _ (base value str : ℕ) (m : Memory) (n : ℕ) (m1 : Memory) (w : Written base value str m n m1)
    (small : n ≤ 64) where
  abbrev ended : Memory
  ended = store (str + n) 0 m1

  abbrev turned : Memory
  turned = reverse_loop 64 str (str + n - 1) ended

  turned_in : (k : ℕ) → k < n → turned (str + k) ≡ m1 (str + (n - 1 - k))
  turned_in k lt =
      let e : str + (str + n - 1) - (str + k) ≡ str + (n - 1 - k) = omega arith in
      let s : ended (str + (n - 1 - k)) ≡ m1 (str + (n - 1 - k)) = unfold store in (ground arith) in
      reverse_loop_inside 64 str (str + n - 1) ended (str + k) (omega arith) (omega arith)
        (omega arith)
      ∙ ap ended e
      ∙ s

  turned_out : (a : ℕ) → (a < str) ⊎ (str + n < a) → turned a ≡ m a
  turned_out a o =
      let s : ended a ≡ m1 a = unfold store in (ground arith) in
      reverse_loop_outside 64 str (str + n - 1) ended a (omega (arith, w.some_digit))
      ∙ s
      ∙ w.outside a (omega arith)

  turned_end : turned (str + n) ≡ 0
  turned_end =
      reverse_loop_outside 64 str (str + n - 1) ended (str + n) (omega (arith, w.some_digit))
      ∙ (unfold store in (ground arith))

  turned_digit : (k : ℕ) → k < n → (turned (str + k) ≢ 0) × (digit_of (turned (str + k)) < base)
  turned_digit k lt = rw (turned_in k lt) (w.digits (n - 1 - k) (omega arith))

  turned-Printed : Printed base value str m n turned
  turned-Printed = record {
    text = record { inside = λ k lt. (turned_digit k lt).0; stop = turned_end };
    value_eq = big_reverse base m1 turned str str n turned_in ∙ w.value_eq;
    digits = λ k lt. (turned_digit k lt).1;
    size = (w.some_digit, small);
    outside = turned_out;
  }

-- For a 64-bit value and a base from 2 to 36, `ulltoa` ends and writes a text of 1 to 64 digits of
-- that base, which read from left to right stand for the value, and writes nothing else.
pub ulltoa-Printed :
    (value str base : ℕ) (m : Memory)
    → value < 2 ^ 64
    → 2 ≤ base
    → base ≤ 36
    → (m' : Memory) × (ulltoa value str base m ≡ some m') × (n : ℕ) × Printed base value str m n m'
unfolding ulltoa
ulltoa-Printed value str base m small lo hi =
    let (n, m1, run, le, w) = digits_loop-Written 64 value str base m lo hi small (omega arith) in
    (
      turned base value str m n m1 w le,
      ap (λ r. r >>= λ (p, q). some (reverse_loop 64 str (p - 1) (store p 0 q))) run,
      n,
      turned-Printed base value str m n m1 w le,
    )
