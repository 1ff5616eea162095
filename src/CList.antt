-- ===== src/CList.antt =====
-- CList/include/CList.h: circular doubly linked lists. A pointer is a number, and the heap gives the
-- links of each. A loop over a list has fuel and is `none` when that runs out.
pub mod Links
pub mod Insert
pub mod Remove
pub mod Iter
pub mod Flush
pub mod Drain
pub mod Session
mod Tests
use mathlib.Core.Option.{map}
use esp32_components.Base.{
  ℕ, zero, suc, Bool, List, [], ◌∷◌, Option, none, some, ◌==◌, if◌then◌else◌,
}

pub record CList : Type 0 where
  pub next : ℕ
  pub prev : ℕ

abbrev pub Heap : Type 0
Heap = ℕ → CList

unfoldable pub set_next : Heap → ℕ → ℕ → Heap
set_next h p v q = record (h q) { next = if q == p then v else (h q).next }

unfoldable pub set_prev : Heap → ℕ → ℕ → Heap
set_prev h p v q = record (h q) { prev = if q == p then v else (h q).prev }

-- Both fields of the entry are stored.
unfoldable pub init : Heap → ℕ → Heap
init h list = set_prev (set_next h list list) list list

unfoldable pub is_empty : Heap → ℕ → Bool
is_empty h plist = (h plist).next == plist

unfoldable pub insert_before : Heap → (target new : ℕ) → Heap
insert_before h target new =
    let prev = (h target).prev in
    set_prev (set_next (set_prev (set_next h prev new) new prev) new target) target new

unfoldable pub insert_after : Heap → (target new : ℕ) → Heap
insert_after h target new =
    let next = (h target).next in
    set_prev (set_next (set_prev (set_next h target new) new target) new next) next new

unfoldable pub remove : Heap → ℕ → Heap
remove h target =
    let prev = (h target).prev in
    let next = (h target).next in set_prev (set_next h prev next) next prev

abbrev pub prepend : Heap → (plist new : ℕ) → Heap
prepend h plist new = insert_after h plist new

abbrev pub append : Heap → (plist new : ℕ) → Heap
append h plist new = insert_before h plist new

-- `none` is NULL.
unfoldable pub head : Heap → ℕ → Option ℕ
unfolding is_empty
head h plist = if is_empty h plist then none else some (h plist).next

unfoldable pub tail : Heap → ℕ → Option ℕ
unfolding is_empty
tail h plist = if is_empty h plist then none else some (h plist).prev

-- The entries that `for (iter = ...; iter != plist; iter = iter->next)` visits from `iter` on.
unfoldable pub iter_loop : ℕ → Heap → ℕ → ℕ → Option (List ℕ)
iter_loop zero h plist iter = none
iter_loop (suc fuel) h plist iter =
    let rest = iter_loop fuel h plist (h iter).next in
    if iter == plist then some [] else map (λ xs. iter ∷ xs) rest

unfoldable pub iter : ℕ → Heap → ℕ → Option (List ℕ)
unfolding iter_loop
iter fuel h plist = iter_loop fuel h plist (h plist).next

-- The safe loop, around a body that may change the links of the entry it is given.
unfoldable pub iter_safe_loop : ℕ → (Heap → ℕ → Heap) → Heap → (plist iter safe : ℕ) → Option Heap
iter_safe_loop zero body h plist iter safe = none
iter_safe_loop (suc fuel) body h plist iter safe =
    let h' = body h iter in
    let rest = iter_safe_loop fuel body h' plist safe (h' safe).next in
    if iter == plist then some h else rest

unfoldable pub iter_safe : ℕ → (Heap → ℕ → Heap) → Heap → ℕ → Option Heap
unfolding iter_safe_loop
iter_safe fuel body h plist =
    let first = (h plist).next in iter_safe_loop fuel body h plist first (h first).next

-- The loop initialises an entry, then asks whether it was the list itself.
unfoldable pub flush_loop : ℕ → Heap → (plist iter safe : ℕ) → Option Heap
unfolding init
flush_loop zero h plist iter safe = none
flush_loop (suc fuel) h plist iter safe =
    let h' = init h iter in
    let rest = flush_loop fuel h' plist safe (h' safe).next in
    if iter == plist then some h' else rest

unfoldable pub flush : ℕ → Heap → ℕ → Option Heap
unfolding flush_loop
flush fuel h plist = let first = (h plist).next in flush_loop fuel h plist first (h first).next
