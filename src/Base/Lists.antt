-- ===== src/Base/Lists.antt =====
-- Lists measured, indexed and searched by native numbers, under the library's names.
use Prim.Native.Nat.{ℕ, zero, suc, ◌+◌, ◌<◌}
use mathlib.Core.Path.{◌≡◌, refl, ap}
use mathlib.Core.Logic.{◌⊎◌, inl, inr}
use mathlib.Core.Bool.{Bool, true, false, ◌||◌, or_assoc}
use mathlib.Core.List.{List, [], ◌∷◌, ◌++◌}
use mathlib.Core.Option.{Option, none, some}
use native.Mathlib.Omega.{arith}
use files_co.Base.Tests.{◌==◌, if◌then◌else◌}

module _ {ℓ} {A : Type ℓ} where
  abbrev pub length : List A → ℕ
  length [] = 0
  length (x ∷ xs) = suc (length xs)

  abbrev pub get_elem? : List A → ℕ → Option A
  get_elem? [] i = none
  get_elem? (x ∷ xs) zero = some x
  get_elem? (x ∷ xs) (suc i) = get_elem? xs i

  abbrev pub get_or : List A → ℕ → A → A
  get_or [] i d = d
  get_or (x ∷ xs) zero d = x
  get_or (x ∷ xs) (suc i) d = get_or xs i d

  -- A write out of bounds changes nothing.
  abbrev pub set : List A → ℕ → A → List A
  set [] i v = []
  set (x ∷ xs) zero v = v ∷ xs
  set (x ∷ xs) (suc i) v = x ∷ set xs i v

  abbrev pub replicate : ℕ → A → List A
  replicate zero a = []
  replicate (suc n) a = a ∷ replicate n a

  pub length-append : (xs ys : List A) → length (xs ++ ys) ≡ length xs + length ys
  length-append [] ys = omega arith
  length-append (x ∷ xs) ys = omega (arith, length-append xs ys)

  pub length-set : (xs : List A) (i : ℕ) (v : A) → length (set xs i v) ≡ length xs
  length-set [] i v = refl
  length-set (x ∷ xs) zero v = refl
  length-set (x ∷ xs) (suc i) v = ap suc (length-set xs i v)

  pub length-replicate : (n : ℕ) (a : A) → length (replicate n a) ≡ n
  length-replicate zero a = refl
  length-replicate (suc n) a = ap suc (length-replicate n a)

-- Membership of a number in a list, as a test.
abbrev pub has : ℕ → List ℕ → Bool
has a [] = false
has a (x ∷ xs) = (a == x) || has a xs

abbrev pub Distinct : List ℕ → Type 0
Distinct [] = Unit {0}
Distinct (x ∷ xs) = (has x xs ≡ false) × Distinct xs

pub has-append : (t : ℕ) (l r : List ℕ) → has t (l ++ r) ≡ (has t l || has t r)
has-append t [] r = refl
has-append t (u ∷ l) r = rw (has-append t l r, or_assoc)

-- The list less the first occurrence of a number.
abbrev pub erase : ℕ → List ℕ → List ℕ
erase a [] = []
erase a (x ∷ xs) = if a == x then xs else x ∷ erase a xs

abbrev pub update {ℓ} : {A : Type ℓ} → (ℕ → A) → ℕ → A → ℕ → A
update f i a j = if j == i then a else f j

-- To split on a computed list and keep the equation.
pub List-cases {ℓ} : {A : Type ℓ} (l : List A) → (l ≡ []) ⊎ ((x : A) × (r : List A) × (l ≡ x ∷ r))
List-cases [] = inl refl
List-cases (x ∷ r) = inr (x, r, refl)

pub has_of-erase : (x a : ℕ) (l : List ℕ) → has x (erase a l) ≡ true → has x l ≡ true
has_of-erase x a [] h = h
has_of-erase x a (y ∷ l) h = ground (arith, has_of-erase x a l)

pub has-erase_self : (a : ℕ) (l : List ℕ) → Distinct l → has a (erase a l) ≡ false
has-erase_self a [] d = refl
has-erase_self a (y ∷ l) d = ground (arith, has-erase_self a l)

pub has-erase_ne : (x a : ℕ) (l : List ℕ) → (x == a) ≡ false → has x (erase a l) ≡ has x l
has-erase_ne x a [] h = refl
has-erase_ne x a (y ∷ l) h = ground (arith, has-erase_ne x a l)

pub Distinct-erase : (a : ℕ) (l : List ℕ) → Distinct l → Distinct (erase a l)
Distinct-erase a [] d = d
Distinct-erase a (y ∷ l) d = ground (arith, Distinct-erase a l, has_of-erase y a l)

pub Distinct-snoc : (xs : List ℕ) (a : ℕ) → Distinct xs → has a xs ≡ false → Distinct (xs ++ a ∷ [])
Distinct-snoc [] a d o = (refl, tt)
Distinct-snoc (x ∷ xs) a d o =
    (rw (has-append x xs (a ∷ [])) (ground arith), Distinct-snoc xs a d.1 (ground arith))

pub get_or-set {ℓ} :
    {A : Type ℓ} (l : List A) (i j : ℕ) (v d : A)
    → i < length l
    → get_or (set l i v) j d ≡ (if j == i then v else get_or l j d)
get_or-set [] i j v d lt = absurd (omega arith)
get_or-set (x ∷ l) zero zero v d lt = refl
get_or-set (x ∷ l) zero (suc j) v d lt = let e : (suc j == 0) ≡ false = ground arith in rw e refl
get_or-set (x ∷ l) (suc i) zero v d lt = let e : (0 == suc i) ≡ false = ground arith in rw e refl
get_or-set (x ∷ l) (suc i) (suc j) v d lt =
    let e : (suc j == suc i) ≡ (j == i) = ground arith in rw e (get_or-set l i j v d (omega arith))

pub update_self {ℓ} : {A : Type ℓ} (f : ℕ → A) (i : ℕ) (a : A) → update f i a i ≡ a
update_self f i a = let e : (i == i) ≡ true = ground arith in rw e refl

pub update_other {ℓ} :
    {A : Type ℓ} (f : ℕ → A) (i j : ℕ) (a : A) → (j == i) ≡ false → update f i a j ≡ f j
update_other f i j a e = rw e refl
