-- ===== src/LinkedList/Links.antt =====
-- What a chain of `struct list_head` stands for.
use files_co.Base.{
  ℕ, zero, suc, ◌+◌, ◌<◌, ◌≡◌, ◌≢◌, ◌↔◌, true, false, some, arith, List, [], ◌∷◌, ◌++◌, has,
  Distinct, length,
}
use files_co.LinkedList.{Ptr, Memory, list_size, size_loop, list_empty, list_init}

-- From `p` the `next` pointers lead through `xs` to `q`, and the `prev` pointers lead back.
abbrev pub Links : Memory → Ptr → List Ptr → Ptr → Type 0
Links h p [] q = ((h p).next ≡ q) × ((h q).prev ≡ p)
Links h p (x ∷ xs) q = ((h p).next ≡ x) × ((h x).prev ≡ p) × Links h x xs q

-- The circular list at `head` holds the entries `xs`, in this order.
pub record IsRing (h : Memory) (head : Ptr) (xs : List Ptr) : Type 0 where
  pub chain : Links h head xs head
  pub apart : Distinct (head ∷ xs)

-- `g` differs from `h` at most at the addresses in `xs`.
abbrev pub SameOutside : List Ptr → Memory → Memory → Type 0
SameOutside xs h g = (a : Ptr) → has a xs ≡ false → g a ≡ h a

-- A chain needs the `next` of all but its end and the `prev` of all but its start.
pub Links-frame :
    {h g : Memory} (p : Ptr) (xs : List Ptr) (q : Ptr)
    → Links h p xs q
    → ((a : Ptr) → has a (p ∷ xs) ≡ true → (g a).next ≡ (h a).next)
    → ((a : Ptr) → has a (q ∷ xs) ≡ true → (g a).prev ≡ (h a).prev)
    → Links g p xs q
Links-frame p [] q l n b = ground (arith, n p, b q)
Links-frame p (x ∷ xs) q (e, f, l) n b = (
  ground (arith, n p),
  ground (arith, b x),
  Links-frame x xs q l (λ a i. n a (ground arith)) (λ a i. b a (ground arith)),
)

pub Links-append :
    (h : Memory) (p : Ptr) (xs : List Ptr) (m : Ptr) (ys : List Ptr) (q : Ptr)
    → Links h p xs m
    → Links h m ys q
    → Links h p (xs ++ m ∷ ys) q
Links-append h p [] m ys q l k = (l.0, l.1, k)
Links-append h p (x ∷ xs) m ys q (e, f, l) k = (e, f, Links-append h x xs m ys q l k)

pub Links-split :
    (h : Memory) (p : Ptr) (xs : List Ptr) (m : Ptr) (ys : List Ptr) (q : Ptr)
    → Links h p (xs ++ m ∷ ys) q
    → Links h p xs m × Links h m ys q
Links-split h p [] m ys q (e, f, l) = ((e, f), l)
Links-split h p (x ∷ xs) m ys q (e, f, l) =
    let r = Links-split h x xs m ys q l in ((e, f, r.0), r.1)

-- The entry before the end of a chain.
abbrev pub last : Ptr → List Ptr → Ptr
last p [] = p
last p (x ∷ xs) = last x xs

pub prev-last :
    (h : Memory) (p : Ptr) (xs : List Ptr) (q : Ptr) → Links h p xs q → (h q).prev ≡ last p xs
prev-last h p [] q l = l.1
prev-last h p (x ∷ xs) q l = prev-last h x xs q l.2

pub has-last : (p : Ptr) (xs : List Ptr) → has (last p xs) (p ∷ xs) ≡ true
has-last p [] = ground arith
has-last p (x ∷ xs) = ground (arith, has-last x xs)

pub last-ne : (a p : Ptr) (xs : List Ptr) → has a (p ∷ xs) ≡ false → a ≢ last p xs
last-ne a p xs o e = ground (arith, has-last p xs)

-- What follows the start of a chain.
abbrev pub first : List Ptr → Ptr → Ptr
first [] q = q
first (x ∷ xs) q = x

pub next-first :
    (h : Memory) (p : Ptr) (xs : List Ptr) (q : Ptr) → Links h p xs q → (h p).next ≡ first xs q
next-first h p [] q l = l.0
next-first h p (x ∷ xs) q l = l.0

pub has-first : (xs : List Ptr) (q : Ptr) → has (first xs q) (q ∷ xs) ≡ true
has-first [] q = ground arith
has-first (x ∷ xs) q = ground arith

pub first-ne : (a : Ptr) (xs : List Ptr) (q : Ptr) → has a (q ∷ xs) ≡ false → a ≢ first xs q
first-ne a xs q o e = ground (arith, has-first xs q)

-- The loop counts the entries that are left.
size_loop-length :
    (h : Memory) (p : Ptr) (xs : List Ptr) (head : Ptr) (fuel size : ℕ)
    → Links h p xs head
    → has head xs ≡ false
    → length xs < fuel
    → size_loop fuel (h p).next head size h ≡ some (size + length xs)
unfolding size_loop
size_loop-length h p xs head zero size l o f = absurd (omega arith)
size_loop-length h p [] head (suc fuel) size l o f = ground arith
size_loop-length h p (x ∷ xs) head (suc fuel) size (e, b, l) o f =
    ground (arith, size_loop-length h x xs head fuel (size + 1) l)

module _ {h : Memory} {head : Ptr} {xs : List Ptr} (r : IsRing h head xs) where
  -- With fuel for one round more than there are entries, `list_size` returns their number.
  pub list_size-length : (fuel : ℕ) → length xs < fuel → list_size fuel head h ≡ some (length xs)
  unfolding list_size
  list_size-length fuel f =
      rw (size_loop-length h head xs head fuel 0 r.chain r.apart.0 f) (ground arith)

list_empty-Links :
    (h : Memory) (head : Ptr) (xs : List Ptr)
    → Links h head xs head
    → has head xs ≡ false
    → (list_empty head h ≡ true) ↔ (xs ≡ [])
unfolding list_empty
list_empty-Links h head [] l o = ground arith
list_empty-Links h head (x ∷ xs) l o = (λ e. ground arith, λ e. cc)

-- `list_empty` holds of a ring exactly when it has no entries.
pub list_empty_iff :
    {h : Memory} {head : Ptr} {xs : List Ptr}
    → IsRing h head xs
    → (list_empty head h ≡ true) ↔ (xs ≡ [])
list_empty_iff {h} {head} {xs} r = list_empty-Links h head xs r.chain r.apart.0

-- `list_init` makes an empty ring, whatever stood there, and writes nowhere else.
pub list_init-IsRing :
    (head : Ptr) (h : Memory)
    → IsRing (list_init head h) head [] × SameOutside (head ∷ []) h (list_init head h)
unfolding list_init
list_init-IsRing head h = ground arith
