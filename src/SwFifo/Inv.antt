-- ===== src/SwFifo/Inv.antt =====
-- The representation invariant of `SwFifo`, and what it says of the counts and indices.
use esp32_components.Base.{
  ℕ, ◌+◌, ◌-◌, ◌*◌, ◌^◌, ◌≤◌, ◌<◌, ◌≡◌, ◌⊎◌, List, ◌++◌, arith, leb, if◌then◌else◌, length, slice,
  mul32,
}
use esp32_components.SwFifo.{SwFifo, lock, count, avail}

pub record IsValid (f : SwFifo) : Type 0 where
  pub storage : length f.mem ≡ (f.depth + 1) * f.item_size
  pub small : f.depth < 2 ^ 31
  pub sized : (f.depth + 1) * f.item_size < 2 ^ 32
  pub wr_in : f.wr_idx ≤ f.depth
  pub rd_in : f.rd_idx ≤ f.depth

-- The items between the two indices, without the machine's wrap-around.
abbrev pub stored : SwFifo → ℕ
stored f = if leb f.rd_idx f.wr_idx then f.wr_idx - f.rd_idx else f.depth + 1 - f.rd_idx + f.wr_idx

-- The bytes in the fifo, oldest first.
unfoldable pub contents : SwFifo → List ℕ
contents f =
    if leb f.rd_idx f.wr_idx
    then slice f.mem (f.rd_idx * f.item_size) (f.wr_idx * f.item_size)
    else slice f.mem (f.rd_idx * f.item_size) ((f.depth + 1) * f.item_size)
      ++ slice f.mem 0 (f.wr_idx * f.item_size)

pub count_lem : {f : SwFifo} → IsValid f → (count f ≡ stored f) × (stored f ≤ f.depth)
unfolding count
count_lem v = ground arith

pub avail_lem : {f : SwFifo} → IsValid f → avail f ≡ f.depth - stored f
unfolding avail
avail_lem v = ground (arith, count_lem v)

pub mul_mono : (a b s : ℕ) → a ≤ b → a * s ≤ b * s
mul_mono a b s h = grind arith

-- Every byte offset below the end of the block is computed without wrap-around.
pub mul32_lem :
    {f : SwFifo} (n : ℕ) → IsValid f → n ≤ f.depth + 1 → mul32 n f.item_size ≡ n * f.item_size
mul32_lem {f} n v h = omega (arith, mul_mono n (f.depth + 1) f.item_size h)

pub lock-IsValid : {f : SwFifo} → IsValid f → IsValid (lock f)
unfolding lock
lock-IsValid v = record {
  storage = v.storage;
  small = v.small;
  sized = v.sized;
  wr_in = v.wr_in;
  rd_in = v.rd_in;
}

-- The caller's pointer is advanced rightly when items are bytes, or when the write does not have to be split.
abbrev pub Aligned : SwFifo → ℕ → ℕ → Type 0
Aligned f idx num = (f.item_size ≡ 1) ⊎ (idx + num ≤ f.depth + 1)
