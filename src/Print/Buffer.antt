-- ===== src/Print/Buffer.antt =====
-- The pieces that `str_out` and `vsnprintf` of src/print.c put into the buffer.
use files_co.Base.{
  ℕ, zero, suc, ◌+◌, ◌-◌, ◌^◌, ◌%◌, ◌≤◌, ◌<◌, ◌≡◌, ◌≢◌, ◌⊎◌, ◌∙◌, length-append, refl, sym, false,
  List, [], ◌∷◌, ◌++◌, if◌then◌else◌, ltb, leb, length, get_or, arith, Bool-cases, inl, inr,
}
use files_co.StringOps.{Memory, store}
use files_co.Print.{prefix, put_text, copy_within, end_text}

length-prefix : (n : ℕ) (l : List ℕ) → n ≤ length l → length (prefix n l) ≡ n
unfolding prefix
length-prefix zero l h = refl
length-prefix (suc n) [] h = absurd (omega arith)
length-prefix (suc n) (c ∷ l) h = omega (arith, length-prefix n l (omega arith))

get_or-prefix : (n : ℕ) (l : List ℕ) (k : ℕ) → k < n → get_or (prefix n l) k 0 ≡ get_or l k 0
unfolding prefix
get_or-prefix zero l k h = absurd (omega arith)
get_or-prefix (suc n) [] k h = refl
get_or-prefix (suc n) (c ∷ l) zero h = refl
get_or-prefix (suc n) (c ∷ l) (suc k) h = get_or-prefix n l k (omega arith)

get_or-append_left : (l r : List ℕ) (k : ℕ) → k < length l → get_or (l ++ r) k 0 ≡ get_or l k 0
get_or-append_left [] r k h = absurd (omega arith)
get_or-append_left (c ∷ l) r zero h = refl
get_or-append_left (c ∷ l) r (suc k) h = get_or-append_left l r k (omega arith)

get_or-append_right :
    (l r : List ℕ) (k : ℕ) → length l ≤ k → get_or (l ++ r) k 0 ≡ get_or r (k - length l) 0
get_or-append_right [] r k h = let e : k - 0 ≡ k = omega arith in rw e refl
get_or-append_right (c ∷ l) r zero h = absurd (omega arith)
get_or-append_right (c ∷ l) r (suc k) h =
    let e : suc k - suc (length l) ≡ k - length l = omega arith in
    rw e (get_or-append_right l r k (omega arith))

put_text_outside :
    (p : ℕ) (l : List ℕ) (m : Memory) (a : ℕ)
    → (a < p) ⊎ (p + length l ≤ a)
    → put_text p l m a ≡ m a
unfolding put_text store
put_text_outside p [] m a o = refl
put_text_outside p (c ∷ l) m a o =
    put_text_outside (p + 1) l (store p c m) a (omega (arith, o)) ∙ ground (arith, o)

put_text_inside :
    (p : ℕ) (l : List ℕ) (m : Memory) (k : ℕ) → k < length l → put_text p l m (p + k) ≡ get_or l k 0
unfolding put_text store
put_text_inside p [] m k h = absurd (omega arith)
put_text_inside p (c ∷ l) m zero h =
    let e : p + 0 ≡ p = omega arith in
    rw e (put_text_outside (p + 1) l (store p c m) p (inl (below p)) ∙ unfold store in ground arith)
  where
    below : (n : ℕ) → n < n + 1
    below n = omega arith
put_text_inside p (c ∷ l) m (suc k) h =
    let e : p + 1 + k ≡ p + suc k = omega arith in
    rw e at (put_text_inside (p + 1) l (store p c m) k (omega arith))

-- What the text is cut to
copy_within_inside :
    (buf size w : ℕ) (text : List ℕ) (m : Memory) (k : ℕ)
    → k < length text
    → w + k < size
    → copy_within buf size w text m (buf + (w + k)) ≡ get_or text k 0
unfolding copy_within
copy_within_inside buf size w text m k h h' =
    let room : ltb size w ≡ false = ground arith in
    let at : buf + (w + k) ≡ buf + w + k = omega arith in
    elim (Bool-cases (ltb (length text) (size - w))) [
      | inl e ↦
          let all = length-prefix (length text) text (omega arith) in
          rw (room, e, at)
            (put_text_inside (buf + w) (prefix (length text) text) m k (omega (arith, all))
              ∙ get_or-prefix (length text) text k h)
      | inr e ↦
          let cut : size - w ≤ length text = ground arith in
          let all = length-prefix (size - w) text cut in
          rw (room, e, at)
            (put_text_inside (buf + w) (prefix (size - w) text) m k (omega (arith, all))
              ∙ get_or-prefix (size - w) text k (omega arith))
    ]

pub copy_within_outside :
    (buf size w : ℕ) (text : List ℕ) (m : Memory) (a : ℕ)
    → (a < buf + w) ⊎ (buf + size ≤ a)
    → copy_within buf size w text m a ≡ m a
unfolding copy_within
copy_within_outside buf size w text m a o = elim (Bool-cases (ltb size w)) [
  | inl e ↦ rw e refl
  | inr e ↦
      let room : w ≤ size = ground arith in
      elim (Bool-cases (ltb (length text) (size - w))) [
        | inl e' ↦
            let all = length-prefix (length text) text (omega arith) in
            let less : length text < size - w = ground arith in
            rw (e, e')
              (put_text_outside (buf + w) (prefix (length text) text) m a (omega (arith, all, o)))
        | inr e' ↦
            let cut : size - w ≤ length text = ground arith in
            let all = length-prefix (size - w) text cut in
            rw (e, e')
              (put_text_outside (buf + w) (prefix (size - w) text) m a (omega (arith, all, o)))
      ]
]

-- The buffer has the start of what was sent, and of what is sent next.
pub stored_more :
    (buf size w : ℕ) (text sent : List ℕ) (m : Memory)
    → w ≡ length sent
    → ((k : ℕ) → k < length sent → k < size → m (buf + k) ≡ get_or sent k 0)
    → (k : ℕ) → k < length (sent ++ text)
    → k < size
    → copy_within buf size w text m (buf + k) ≡ get_or (sent ++ text) k 0
stored_more buf size w text sent m e old k h h' =
    let all = length-append sent text in
    elim (Bool-cases (ltb k (length sent))) [
      | inl lt ↦
          let l : k < length sent = ground arith in
          copy_within_outside buf size w text m (buf + k) (omega (arith, e, l))
          ∙ old k l h'
          ∙ sym (get_or-append_left sent text k l)
      | inr ge ↦
          let l : length sent ≤ k = ground arith in
          let at : w + (k - length sent) ≡ k = omega (arith, e, l) in
          rw at at (
            copy_within_inside buf size w text m (k - length sent) (omega (arith, all, h, l))
              (omega (arith, at, h')))
          ∙ sym (get_or-append_right sent text k l)
    ]

-- Where the 0 is put: at the end of the buffer, or of the text, whichever comes first
unfoldable pub lesser : ℕ → ℕ → ℕ
lesser n size = if ltb n size then n else size

pub lesser-bounds :
    (n size : ℕ)
    → 0 < n
    → 0 < size
    → (0 < lesser n size) × (lesser n size ≤ n) × (lesser n size ≤ size)
unfolding lesser
lesser-bounds n size h h' = elim (Bool-cases (ltb n size)) [
  | inl e ↦ let l : n < size = ground arith in rw e (h, omega arith, omega (arith, l))
  | inr e ↦ let l : size ≤ n = ground arith in rw e (h', l, omega arith)
]

pub lesser-greatest : (n size k : ℕ) → k < n → k < size → k < lesser n size
unfolding lesser
lesser-greatest n size k h h' = elim (Bool-cases (ltb n size)) [ inl e ↦ rw e h | inr e ↦ rw e h' ]

-- What the 0 overwrites
pub end_text_lem :
    (buf size n : ℕ) (m : Memory)
    → 0 < n
    → 0 < size
    → size < 2 ^ 31
    → buf + size < 2 ^ 64
    → (end_text buf size n m (buf + lesser n size - 1) ≡ 0)
      × ((a : ℕ) → (a ≢ buf + lesser n size - 1) → end_text buf size n m a ≡ m a)
unfolding end_text store lesser
end_text_lem buf size n m h h' small fits =
    let positive : leb (2 ^ 31) size ≡ false = ground arith in
    let (b, b', b'') = lesser-bounds n size h h' in
    let spot : (buf + lesser n size + 2 ^ 64 - 1) % 2 ^ 64 ≡ buf + lesser n size - 1 =
      omega (arith, b, b'', fits) in
    (rw (positive, spot) (ground arith), λ a ne. rw (positive, spot) (ground (arith, ne)))
