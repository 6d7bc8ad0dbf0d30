-- ===== src/Ctype/Classes.antt =====
-- The classes of src/ctype.c as ranges of characters, by evaluation over all bytes.
use files_co.Base.{
  ℕ, zero, suc, ◌≤◌, Bool-cases, inl, inr, ◌-◌, ◌+◌, not, ==_iff, ◌<◌, ◌≡◌, refl, Bool, true, false,
  ◌&&◌, ◌||◌, ◌==◌, leb, if◌then◌else◌, arith,
}
use files_co.Ctype.{
  isprint, isalpha, isdigit, isxdigit, isspace, islower, isupper, toupper, tolower,
}

-- The test holds for `count` characters from `first` on.
holds_from : (first count : ℕ) → (ℕ → Bool) → Bool
holds_from first zero test = true
holds_from first (suc count) test = test first && holds_from (first + 1) count test

holds_from_at :
    (first count : ℕ) (test : ℕ → Bool) (c : ℕ)
    → first ≤ c
    → c < first + count
    → holds_from first count test ≡ true
    → test c ≡ true
unfolding holds_from
holds_from_at first zero test c lo hi h = absurd (omega arith)
holds_from_at first (suc count) test c lo hi h = elim (Bool-cases (first == c)) [
  | inl e ↦
      let s : first ≡ c = ground arith in let t : test first ≡ true = ground arith in rw s at t
  | inr e ↦ holds_from_at (first + 1) count test c (ground arith) (omega arith) (ground arith)
]

abbrev bool_eq : Bool → Bool → Bool
bool_eq true b = b
bool_eq false true = false
bool_eq false false = true

bool_eq→eq : (a b : Bool) → bool_eq a b ≡ true → a ≡ b
bool_eq→eq a b h = ground arith

and_parts : (a b : Bool) → (a && b) ≡ true → (a ≡ true) × (b ≡ true)
and_parts a b h = ground arith

abbrev pub between : ℕ → ℕ → ℕ → Bool
between lo hi c = leb lo c && leb c hi

abbrev pub letter : ℕ → Bool
letter c = between b'A' b'Z' c || between b'a' b'z' c

-- What the classes are meant to be.
abbrev agrees : ℕ → Bool
agrees c =
    bool_eq (isdigit c) (between b'0' b'9' c)
    && bool_eq (islower c) (between b'a' b'z' c)
    && bool_eq (isupper c) (between b'A' b'Z' c)
    && bool_eq (isalpha c) (letter c)
    && bool_eq (isxdigit c) (between b'0' b'9' c || between b'A' b'F' c || between b'a' b'f' c)
    && bool_eq (isspace c) (between 9 13 c || c == 32)
    && bool_eq (isprint c) (between 32 126 c)

table : holds_from 0 256 agrees ≡ true
unfolding holds_from isprint isalpha isdigit isxdigit isspace islower isupper
table = refl

-- For every byte the table puts it in the classes of the ASCII ranges: digits, lower and upper case
-- letters, letters, hexadecimal digits, white space, and printable characters.
pub classes_lem :
    (c : ℕ)
    → c < 256
    → (isdigit c ≡ between b'0' b'9' c)
      × (islower c ≡ between b'a' b'z' c)
      × (isupper c ≡ between b'A' b'Z' c)
      × (isalpha c ≡ letter c)
      × (isxdigit c ≡ (between b'0' b'9' c || between b'A' b'F' c || between b'a' b'f' c))
      × (isspace c ≡ (between 9 13 c || c == 32))
      × (isprint c ≡ between 32 126 c)
classes_lem c h =
    let t = holds_from_at 0 256 agrees c (omega arith) h table in
    let (t, k) = and_parts _ _ t in
    let (t, g) = and_parts _ _ t in
    let (t, f) = and_parts _ _ t in
    let (t, e) = and_parts _ _ t in
    let (t, d) = and_parts _ _ t in
    let (a, b) = and_parts _ _ t in
    (
      bool_eq→eq _ _ a,
      bool_eq→eq _ _ b,
      bool_eq→eq _ _ d,
      bool_eq→eq _ _ e,
      bool_eq→eq _ _ f,
      bool_eq→eq _ _ g,
      bool_eq→eq _ _ k,
    )

-- What the two case mappings are meant to do.
abbrev maps : ℕ → Bool
maps c =
    (toupper c == (if between b'a' b'z' c then c - 32 else c))
    && (tolower c == (if between b'A' b'Z' c then c + 32 else c))
    && (not (letter c) || (toupper (tolower c) == toupper c))

case_table : holds_from 0 256 maps ≡ true
unfolding holds_from toupper tolower
case_table = refl

-- For every byte the case mappings change exactly the letters of the other case, by 32, and a
-- letter's upper case does not depend on the case that it has.
pub case_lem :
    (c : ℕ)
    → c < 256
    → (toupper c ≡ (if between b'a' b'z' c then c - 32 else c))
      × (tolower c ≡ (if between b'A' b'Z' c then c + 32 else c))
      × (letter c ≡ true → toupper (tolower c) ≡ toupper c)
case_lem c h =
    let t = holds_from_at 0 256 maps c (omega arith) h case_table in
    let (t, d) = and_parts _ _ t in
    let (a, b) = and_parts _ _ t in
    ((==_iff _ _).0 a, (==_iff _ _).0 b, λ l. (==_iff _ _).0 (rw l at d))
