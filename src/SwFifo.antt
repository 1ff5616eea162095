-- ===== src/SwFifo.antt =====
-- SwFifo/src/SwFifo.c: a circular buffer of items of `itemSize` bytes each. The memory is a list of
-- bytes, so `memcpy` and the pointer arithmetic are as in the source: `data + numToWrap` advances a
-- `void *`, which is by bytes. Indices are `uint32_t` and wrap.
mod Bytes
pub mod Inv
pub mod Queue
mod Filled
mod Front
pub mod Write
pub mod Read
pub mod Refine
pub mod Locks
pub mod Init
mod Tests
use esp32_components.Base.{
  ℕ, ◌+◌, ◌-◌, ◌*◌, Bool, true, false, Option, none, some, List, [], ◌==◌, if◌then◌else◌, ltb, leb,
  add32, sub32, mul32, take, drop, splice, slice, Status, done, failed, strncpy, not,
}

-- `mem` is the block that the pointer leads to, `[]` for NULL. `held` counts the takes of the mutex
-- that no give has answered.
pub record SwFifo : Type 0 where
  pub name : List ℕ
  pub depth : ℕ
  pub item_size : ℕ
  pub wr_idx : ℕ
  pub rd_idx : ℕ
  pub threadsafe : Bool
  pub lock : Option ℕ
  pub mem : List ℕ
  pub held : ℕ

pub lock : SwFifo → SwFifo
lock f = record f { held = if f.threadsafe then f.held + 1 else f.held }

pub unlock : SwFifo → SwFifo
unlock f = record f { held = if f.threadsafe then f.held - 1 else f.held }

abbrev pub inc_idx : ℕ → ℕ → ℕ → ℕ
inc_idx depth idx n =
    let idx' = add32 idx n in if ltb depth idx' then sub32 idx' (add32 depth 1) else idx'

pub inc_wr_idx : SwFifo → ℕ → SwFifo
inc_wr_idx f n = record f { wr_idx = inc_idx f.depth f.wr_idx n }

pub inc_rd_idx : SwFifo → ℕ → SwFifo
inc_rd_idx f n = record f { rd_idx = inc_idx f.depth f.rd_idx n }

unfoldable pub count : SwFifo → ℕ
count f =
    if leb f.rd_idx f.wr_idx
    then sub32 f.wr_idx f.rd_idx
    else add32 (add32 (sub32 f.depth f.rd_idx) f.wr_idx) 1

pub avail : SwFifo → ℕ
avail f = sub32 f.depth (count f)

pub is_empty_now : SwFifo → Bool
is_empty_now f = f.wr_idx == f.rd_idx

pub is_full_now : SwFifo → Bool
is_full_now f = count f == f.depth

abbrev pub mem_size : SwFifo → ℕ → ℕ
mem_size f num = mul32 num f.item_size

-- The writes to the end of the block, from the index `idx` on.
abbrev pub num_to_wrap : SwFifo → ℕ → ℕ
num_to_wrap f idx = add32 (sub32 f.depth idx) 1

pub circ_write : SwFifo → List ℕ → ℕ → SwFifo
circ_write f items num =
    let p = mul32 f.wr_idx f.item_size in
    let k = num_to_wrap f f.wr_idx in
    record f {
      mem =
          if ltb f.depth (add32 f.wr_idx num)
          then splice (splice f.mem p (take (mem_size f k) items)) 0
              (take (mem_size f (sub32 num k)) (drop k items))
          else splice f.mem p (take (mem_size f num) items);
    }

-- The destination buffer after the call.
pub circ_read : SwFifo → List ℕ → ℕ → List ℕ
circ_read f dst num =
    let p = mul32 f.rd_idx f.item_size in
    let k = num_to_wrap f f.rd_idx in
    if ltb f.depth (add32 f.rd_idx num)
    then splice (splice dst 0 (slice f.mem p (p + mem_size f k))) k
        (slice f.mem 0 (mem_size f (sub32 num k)))
    else splice dst 0 (slice f.mem p (p + mem_size f num))

pub flush : SwFifo → SwFifo
flush f = unlock (record (lock f) { wr_idx = 0; rd_idx = 0 })

pub is_empty : SwFifo → Bool × SwFifo
is_empty f = let g = lock f in (is_empty_now g, unlock g)

pub is_full : SwFifo → Bool × SwFifo
is_full f = let g = lock f in (is_full_now g, unlock g)

pub write : SwFifo → List ℕ → ℕ → Status × SwFifo
write f items num =
    let g = lock f in
    if ltb (avail g) num
    then (failed, unlock g)
    else (done, unlock (inc_wr_idx (circ_write g items num) num))

-- The number of items to read is computed before the lock is taken.
pub peek : SwFifo → List ℕ → ℕ → ℕ × List ℕ × SwFifo
peek f dst num =
    let num_to_read = if ltb num (count f) then num else count f in
    let g = lock f in
    if is_empty_now g
    then (0, dst, unlock g)
    else (num_to_read, circ_read g dst num_to_read, unlock g)

pub ack : SwFifo → ℕ → SwFifo
ack f num = unlock (inc_rd_idx (lock f) num)

pub read : SwFifo → List ℕ → ℕ → ℕ × List ℕ × SwFifo
read f dst num = let (n, dst', g) = peek f dst num in (n, dst', if n == 0 then g else ack g n)

pub get_count : SwFifo → ℕ × SwFifo
get_count f = let g = lock f in (count g, unlock g)

pub get_avail : SwFifo → ℕ × SwFifo
get_avail f = let g = lock f in (avail g, unlock g)

-- `alloc` is `malloc`, and `mutex` what RTOS_MUTEX_CREATE() returns.
module _ (alloc : ℕ → Option (List ℕ)) (mutex : Option ℕ) where
  -- The last step: the mutex of a thread-safe fifo.
  init_lock : SwFifo → Status × SwFifo
  init_lock f =
      if f.threadsafe
      then elim mutex [ none ↦ (failed, f) | some m ↦ (done, record f { lock = some m }) ]
      else (done, f)

  pub init :
      SwFifo
      → (name : List ℕ) (depth item_size : ℕ) (mem : Option (List ℕ)) (size : ℕ)
      → (threadsafe : Bool) → Status × SwFifo
  unfolding init_lock
  init f name depth item_size mem size threadsafe =
      let wanted = mul32 (add32 depth 1) item_size in
      let g : SwFifo = record f {
        name = strncpy f.name name 15;
        depth = depth;
        item_size = item_size;
        threadsafe = threadsafe;
        lock = none;
        wr_idx = 0;
        rd_idx = 0;
      } in
      elim mem [
        | some block ↦
            if not (size == wanted) then (failed, g) else init_lock (record g { mem = block })
        | none ↦ elim (alloc wanted) [
          | none ↦ (failed, record g { mem = [] })
          | some block ↦ init_lock (record g { mem = block })
        ]
      ]

-- Frees the memory; the pointer stays, and leads nowhere.
pub fini : SwFifo → SwFifo
fini f = record f { mem = [] }
