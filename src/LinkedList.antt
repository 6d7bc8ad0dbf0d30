-- ===== src/LinkedList.antt =====
-- src/list.c and inc/list.h: circular doubly linked lists over memory.
pub mod Links
pub mod Insert
pub mod Remove
mod Tests
use files_co.Base.{ℕ, zero, suc, ◌+◌, Bool, Option, none, some, ◌==◌, if◌then◌else◌}

abbrev pub Ptr : Type 0
Ptr = ℕ

abbrev pub null : Ptr
null = 0

-- `struct list_head`
pub record ListHead : Type 0 where
  pub next : Ptr
  pub prev : Ptr

-- The memory of the kernel as far as it holds `struct list_head`: one at each address.
abbrev pub Memory : Type 0
Memory = Ptr → ListHead

unfoldable pub set_next : Ptr → Ptr → Memory → Memory
set_next p q h a = if a == p then record (h a) { next = q } else h a

unfoldable pub set_prev : Ptr → Ptr → Memory → Memory
set_prev p q h a = if a == p then record (h a) { prev = q } else h a

pub list_init : Ptr → Memory → Memory
unfolding set_next set_prev
list_init head h = set_next head head (set_prev head head h)

list_insert : (new prev next : Ptr) → Memory → Memory
unfolding set_next set_prev
list_insert new prev next h =
    let h = set_prev new prev h in
    let h = set_next new next h in let h = set_next prev new h in set_prev next new h

pub list_add : (new head : Ptr) → Memory → Memory
unfolding list_insert
list_add new head h = list_insert new head (h head).next h

pub list_add_tail : (new head : Ptr) → Memory → Memory
unfolding list_insert
list_add_tail new head h = list_insert new (h head).prev head h

-- `__list_del`
unlink : (prev next : Ptr) → Memory → Memory
unfolding set_next set_prev
unlink prev next h = set_prev next prev (set_next prev next h)

pub list_del : Ptr → Memory → Memory
unfolding unlink
list_del entry h =
    set_prev entry null (set_next entry null (unlink (h entry).prev (h entry).next h))

pub list_empty : Ptr → Memory → Bool
list_empty head h = (h head).next == head

pub list_first : Ptr → Memory → Ptr
list_first head h = (h head).next

splice_links : (list prev next : Ptr) → Memory → Memory
unfolding set_next set_prev
splice_links list prev next h =
    let first = (h list).next in
    let last = (h list).prev in
    let h1 = set_prev first prev h in
    let h2 = set_next prev first h1 in let h3 = set_next last next h2 in set_prev next last h3

pub list_splice : (list head : Ptr) → Memory → Memory
unfolding splice_links list_init list_empty
list_splice list head h =
    if list_empty list h then h else list_init list (splice_links list head (h head).next h)

-- The loop of `list_size`, `none` if the fuel runs out.
size_loop : ℕ → (pos head : Ptr) → ℕ → Memory → Option ℕ
size_loop zero pos head size h = none
size_loop (suc fuel) pos head size h =
    let rest = size_loop fuel (h pos).next head (size + 1) h in
    if pos == head then some size else rest

pub list_size : ℕ → Ptr → Memory → Option ℕ
unfolding size_loop
list_size fuel head h = size_loop fuel (h head).next head 0 h
