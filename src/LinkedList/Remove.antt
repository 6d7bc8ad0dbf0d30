-- ===== src/LinkedList/Remove.antt =====
-- `list_del` and `list_splice` of src/list.c on rings.
use mathlib.Core.List.{append-nil}
use files_co.Base.{
  ◌∙◌, ◌≡◌, ◌≢◌, refl, true, false, arith, List, [], ◌∷◌, ◌++◌, ◌==◌, if◌then◌else◌, has, Distinct,
  has-append,
}
use files_co.LinkedList.{Ptr, null, Memory, list_del, list_splice}
use files_co.LinkedList.Links.{
  Links, Links-split, Links-append, Links-frame, IsRing, SameOutside, last, next-first, first-ne,
  prev-last, next-first, first-ne, last-ne,
}

list_del-Links :
    (h : Memory) (e p : Ptr) (xs ys : List Ptr) (q : Ptr)
    → Links h p xs e
    → Links h e ys q
    → Distinct (p ∷ xs ++ e ∷ ys)
    → has q (xs ++ e ∷ ys) ≡ false
    → Links (list_del e h) p (xs ++ ys) q
unfolding list_del
list_del-Links h e p [] [] q l k d o = ground arith
list_del-Links h e p [] (y ∷ ys) q l k d o =
    (ground arith, ground arith, Links-frame y ys q k.2 (λ a i. ground arith) (λ a i. ground arith))
list_del-Links h e p (x ∷ xs) ys q l k d o = (
  ground (arith, prev-last h x xs e l.2, last-ne p x xs, has-append p (x ∷ xs) (e ∷ ys)),
  ground (arith, next-first h e ys q k, first-ne x ys q, has-append x xs (e ∷ ys)),
  list_del-Links h e x xs ys q l.2 k d.1 (ground arith),
)

Distinct-drop :
    (xs : List Ptr) (e : Ptr) (ys : List Ptr) → Distinct (xs ++ e ∷ ys) → Distinct (xs ++ ys)
Distinct-drop [] e ys d = d.1
Distinct-drop (x ∷ xs) e ys d =
    (ground (arith, has-append x xs (e ∷ ys), has-append x xs ys), Distinct-drop xs e ys d.1)

Distinct-apart :
    (xs : List Ptr) (e : Ptr) (ys : List Ptr)
    → Distinct (xs ++ e ∷ ys)
    → (has e xs ≡ false) × (has e ys ≡ false)
Distinct-apart [] e ys d = (refl, d.0)
Distinct-apart (x ∷ xs) e ys d =
    let r = Distinct-apart xs e ys d.1 in (ground (arith, has-append x xs (e ∷ ys)), r.1)

-- `list_del` takes an entry out of a ring, wherever it stands, and clears its pointers.
pub list_del-IsRing :
    {h : Memory} {head : Ptr} (xs : List Ptr) (e : Ptr) (ys : List Ptr)
    → IsRing h head (xs ++ e ∷ ys)
    → IsRing (list_del e h) head (xs ++ ys)
      × (list_del e h e ≡ record { next = null; prev = null })
      × SameOutside (head ∷ xs ++ e ∷ ys) h (list_del e h)
unfolding list_del
list_del-IsRing {h} {head} xs e ys r =
    let s = Links-split h head xs e ys head r.chain in
    (
      record {
        chain = list_del-Links h e head xs ys head s.0 s.1 r.apart r.apart.0;
        apart = Distinct-drop (head ∷ xs) e ys r.apart;
      },
      ground arith,
      λ a o.
          let tl : (has a (head ∷ xs) ≡ false) × (has a (e ∷ ys) ≡ false) =
            ground (arith, has-append a (head ∷ xs) (e ∷ ys)) in
          let np = last-ne a head xs tl.0 in
          let nn = first-ne a ys head (ground arith) in
          ground (arith, prev-last h head xs e s.0, next-first h e ys head s.1),
    )

-- A chain moved to another end: only the links at its end change.
Links-retarget :
    (h g : Memory) (p : Ptr) (xs : List Ptr) (q n : Ptr)
    → Links h p xs q
    → Distinct (p ∷ xs)
    → (g (last p xs)).next ≡ n
    → (g n).prev ≡ last p xs
    → ((a : Ptr) → has a (p ∷ xs) ≡ true → a ≢ last p xs → (g a).next ≡ (h a).next)
    → ((a : Ptr) → has a xs ≡ true → (g a).prev ≡ (h a).prev)
    → Links g p xs n
Links-retarget h g p [] q n l d e f u v = (e, f)
Links-retarget h g p (x ∷ xs) q n l d e f u v = (
  u p (ground arith) (last-ne p x xs d.0) ∙ l.0,
  ground (arith, v x),
  Links-retarget h g x xs q n l.2 d.1 e f (λ a i. u a (ground arith)) (λ a i. v a (ground arith)),
)

Distinct-append :
    (xs ys : List Ptr)
    → Distinct xs
    → Distinct ys
    → ((a : Ptr) → has a xs ≡ true → has a ys ≡ false)
    → Distinct (xs ++ ys)
Distinct-append [] ys d e o = e
Distinct-append (x ∷ xs) ys d e o = (
  ground (arith, has-append x xs ys, o x),
  Distinct-append xs ys d.1 e (λ a i. o a (ground arith)),
)

-- The memory after a splice of a list that is not empty, address by address.
list_splice-get :
    (h : Memory) (list head x m n : Ptr)
    → (h list).next ≡ x
    → (h list).prev ≡ m
    → (h head).next ≡ n
    → x ≢ list
    → (a : Ptr)
    → ((list_splice list head h a).next
        ≡ (if a == list then list else if a == m then n else if a == head then x else (h a).next))
      × ((list_splice list head h a).prev
          ≡ (if a == list then list else if a == n then m else if a == x then head else (h a).prev))
unfolding list_splice
list_splice-get h list head x m n e1 e2 e3 ne a = rw (e1, e2, e3) (ground arith)

-- The spliced entries, from the first of them up to what followed the head.
splice-body :
    (h : Memory) (list head x : Ptr) (xs : List Ptr) (n : Ptr)
    → Links h list (x ∷ xs) list
    → Distinct (list ∷ x ∷ xs)
    → (h head).next ≡ n
    → has head (list ∷ x ∷ xs) ≡ false
    → has n (list ∷ x ∷ xs) ≡ false
    → Links (list_splice list head h) x xs n
splice-body h list head x xs n l d e oh on =
    let m = last x xs in
    let get =
      list_splice-get h list head x m n l.0 (prev-last h list (x ∷ xs) list l) e
        (λ p. ground arith) in
    let lm : list ≢ m = last-ne list x xs d.0 in
    Links-retarget h (list_splice list head h) x xs list n l.2 d.1 (ground (arith, get m))
      (ground (arith, get n)) (λ a i ne. ground (arith, get a)) (λ a i. ground (arith, get a))

splice-Links :
    (h : Memory) (list head x : Ptr) (xs ys : List Ptr)
    → Links h list (x ∷ xs) list
    → Distinct (list ∷ x ∷ xs)
    → Links h head ys head
    → Distinct (head ∷ ys)
    → ((a : Ptr) → has a (head ∷ ys) ≡ true → has a (list ∷ x ∷ xs) ≡ false)
    → Links (list_splice list head h) head (x ∷ xs ++ ys) head
      × Links (list_splice list head h) list [] list
splice-Links h list head x xs [] l d k e o =
    let get =
      list_splice-get h list head x (last x xs) head l.0 (prev-last h list (x ∷ xs) list l) k.0
        (λ p. ground arith) in
    let oh = o head (ground arith) in
    let hm : head ≢ last x xs = last-ne head x xs (ground arith) in
    (
      (
        ground (arith, get head),
        ground (arith, get x),
        rw append-nil (splice-body h list head x xs head l d k.0 oh oh),
      ),
      ground (arith, get list),
    )
splice-Links h list head x xs (y ∷ ys) l d k e o =
    let get =
      list_splice-get h list head x (last x xs) y l.0 (prev-last h list (x ∷ xs) list l) k.0
        (λ p. ground arith) in
    let oh = o head (ground arith) in
    let oy = o y (ground arith) in
    let hm : head ≢ last x xs = last-ne head x xs (ground arith) in
    (
      (
        ground (arith, get head),
        ground (arith, get x),
        Links-append (list_splice list head h) x xs y ys head
            (splice-body h list head x xs y l d k.0 oh oy)
            (Links-frame y ys head k.2
              (λ a i. let am = last-ne a x xs (ground (arith, o a)) in ground (arith, get a, o a))
              (λ a i. ground (arith, get a, o a))),
      ),
      ground (arith, get list),
    )

-- `list_splice` moves the entries of one ring to the front of another, and leaves the first empty.
pub list_splice-IsRing :
    {h : Memory} {list head : Ptr} (xs : List Ptr) {ys : List Ptr}
    → IsRing h list xs
    → IsRing h head ys
    → ((a : Ptr) → has a (head ∷ ys) ≡ true → has a (list ∷ xs) ≡ false)
    → IsRing (list_splice list head h) head (xs ++ ys) × IsRing (list_splice list head h) list []
list_splice-IsRing {h} {list} {head} [] {ys} r s o =
    let same : list_splice list head h ≡ h = unfold list_splice in (ground (arith, r.chain)) in
    rw same (s, r)
list_splice-IsRing {h} {list} {head} (x ∷ xs) {ys} r s o =
    let p = splice-Links h list head x xs ys r.chain r.apart s.chain s.apart o in
    (
      record {
        chain = p.0;
        apart = (
          ground (arith, o head, has-append head xs ys),
          Distinct-append (x ∷ xs) ys r.apart.1 s.apart.1 (λ a i. ground (arith, o a)),
        );
      },
      record { chain = p.1; apart = (refl, tt) },
    )
