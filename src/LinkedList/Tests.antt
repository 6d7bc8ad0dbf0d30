-- ===== src/LinkedList/Tests.antt =====
-- Runs of list.c on a small memory, and its theorems there.
use files_co.Base.{◌≡◌, refl, true, false, some, arith, [], ◌∷◌, has}
use files_co.LinkedList.{
  Ptr, null, Memory, list_init, list_add, list_add_tail, list_del, list_splice, list_size,
}
use files_co.LinkedList.Links.{IsRing, SameOutside, list_init-IsRing}
use files_co.LinkedList.Remove.{list_del-IsRing, list_splice-IsRing}

abbrev blank : Memory
blank _ = record { next = 7; prev = 7 }

-- A ring at 100 with the entries 1 and 2, and an empty one at 200.
abbrev pair : Memory
pair = list_init 200 (list_add_tail 2 100 (list_add 1 100 (list_init 100 blank)))

pair-IsRing : IsRing pair 100 (1 ∷ 2 ∷ [])
unfolding list_init list_add list_add_tail
pair-IsRing = record {
  chain = (refl, refl, (refl, refl, (refl, refl)));
  apart = (refl, (refl, (refl, tt)));
}

empty-IsRing : IsRing pair 200 []
unfolding list_init list_add list_add_tail
empty-IsRing = record { chain = (refl, refl); apart = (refl, tt) }

size_of_pair : list_size 5 100 pair ≡ some 2
unfolding list_size list_init list_add list_add_tail
size_of_pair = refl

list_del-IsRing_example :
    IsRing (list_del 2 pair) 100 (1 ∷ [])
    × (list_del 2 pair 2 ≡ record { next = null; prev = null })
    × SameOutside (100 ∷ 1 ∷ 2 ∷ []) pair (list_del 2 pair)
list_del-IsRing_example = list_del-IsRing (1 ∷ []) 2 [] pair-IsRing

apart_rings : (a : Ptr) → has a (200 ∷ []) ≡ true → has a (100 ∷ 1 ∷ 2 ∷ []) ≡ false
apart_rings a h = ground arith

list_splice-IsRing_example :
    IsRing (list_splice 100 200 pair) 200 (1 ∷ 2 ∷ []) × IsRing (list_splice 100 200 pair) 100 []
list_splice-IsRing_example = list_splice-IsRing (1 ∷ 2 ∷ []) pair-IsRing empty-IsRing apart_rings

list_init-IsRing_example :
    IsRing (list_init 100 blank) 100 [] × SameOutside (100 ∷ []) blank (list_init 100 blank)
list_init-IsRing_example = list_init-IsRing 100 blank
