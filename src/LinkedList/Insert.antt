-- ===== src/LinkedList/Insert.antt =====
-- `list_add` and `list_add_tail` of src/list.c on rings.
use files_co.Base.{◌≡◌, ◌≢◌, true, false, arith, List, [], ◌∷◌, ◌++◌, has, Distinct, Distinct-snoc}
use files_co.LinkedList.{Ptr, Memory, list_insert, list_add, list_add_tail}
use files_co.LinkedList.Links.{
  Links, Links-frame, IsRing, SameOutside, last, next-first, has-first, prev-last, has-last,
  last-ne,
}

module _ (h : Memory) (new head : Ptr) where
  list_add-Links :
      (xs : List Ptr)
      → Links h head xs head
      → Distinct (head ∷ xs)
      → has new (head ∷ xs) ≡ false
      → Links (list_add new head h) head (new ∷ xs) head
  unfolding list_add
  list_add-Links [] l d o = ground arith
  list_add-Links (x ∷ xs) l d o = (
    ground arith,
    ground arith,
    (
      ground arith,
      ground arith,
      Links-frame x xs head l.2 (λ a i. ground arith) (λ a i. ground arith),
    ),
  )

list_insert-SameOutside :
    (h : Memory) (new p n : Ptr) (xs : List Ptr)
    → has p xs ≡ true
    → has n xs ≡ true
    → SameOutside (new ∷ xs) h (list_insert new p n h)
unfolding list_insert
list_insert-SameOutside h new p n xs hp hn a o =
    let np : a ≢ p = (λ e. ground arith) in let nn : a ≢ n = (λ e. ground arith) in ground arith

-- `list_add` puts a new entry in front of the others, and writes only to it and to the ring.
pub list_add-IsRing :
    {h : Memory} {head : Ptr} {xs : List Ptr} (new : Ptr)
    → IsRing h head xs
    → has new (head ∷ xs) ≡ false
    → IsRing (list_add new head h) head (new ∷ xs)
      × SameOutside (new ∷ head ∷ xs) h (list_add new head h)
list_add-IsRing {h} {head} {xs} new r o = (
  record {
    chain = list_add-Links h new head xs r.chain r.apart o;
    apart = ground (arith, r.apart);
  },
  unfold list_add in
      (list_insert-SameOutside h new head (h head).next (head ∷ xs) (ground arith)
        (ground (arith, next-first h head xs head r.chain, has-first xs head))),
)

-- A chain whose last link is cut open for a new entry.
list_insert-Links :
    (h : Memory) (new p : Ptr) (xs : List Ptr) (q : Ptr)
    → Links h p xs q
    → Distinct (p ∷ xs)
    → has q xs ≡ false
    → has new (p ∷ q ∷ xs) ≡ false
    → Links (list_insert new (last p xs) q h) p (xs ++ new ∷ []) q
unfolding list_insert
list_insert-Links h new p [] q l d o f = ground arith
list_insert-Links h new p (x ∷ xs) q l d o f =
    let ne = last-ne p x xs d.0 in
    let ne' : new ≢ last x xs = last-ne new x xs (ground arith) in
    (
      ground arith,
      ground arith,
      list_insert-Links h new x xs q l.2 d.1 (ground arith) (ground arith),
    )

-- `list_add_tail` puts a new entry behind the others.
pub list_add_tail-IsRing :
    {h : Memory} {head : Ptr} {xs : List Ptr} (new : Ptr)
    → IsRing h head xs
    → has new (head ∷ xs) ≡ false
    → IsRing (list_add_tail new head h) head (xs ++ new ∷ [])
      × SameOutside (new ∷ head ∷ xs) h (list_add_tail new head h)
unfolding list_add_tail
list_add_tail-IsRing {h} {head} {xs} new r o = (
  record {
    chain =
        rw (prev-last h head xs head r.chain)
          (list_insert-Links h new head xs head r.chain r.apart r.apart.0 (ground arith));
    apart = Distinct-snoc (head ∷ xs) new r.apart o;
  },
  list_insert-SameOutside h new (h head).prev head (head ∷ xs)
      (ground (arith, prev-last h head xs head r.chain, has-last head xs)) (ground arith),
)
