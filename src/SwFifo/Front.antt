-- ===== src/SwFifo/Front.antt =====
-- The oldest items of a fifo, and the fifo without them.
use esp32_components.Base.{
  ℕ, ◌+◌, ◌-◌, ◌*◌, ◌≤◌, ◌≡◌, List, ◌++◌, arith, ltb, if◌then◌else◌, length, slice, slice-append,
  length-slice, length-append, append_assoc, dec_lt,
}
use esp32_components.SwFifo.Bytes.{mul_add, mul_sub}
use esp32_components.SwFifo.{SwFifo, lock, unlock, inc_rd_idx, ack}
use esp32_components.SwFifo.Inv.{IsValid, stored, contents, mul_mono}

-- Items up to the end of the block.
abbrev pub ahead : SwFifo → ℕ
ahead f = f.depth + 1 - f.rd_idx

-- The bytes of the first `num` items, in the one or two pieces in which they stand in the block.
abbrev pub front : SwFifo → ℕ → List ℕ
front f num =
    if ltb f.depth (f.rd_idx + num)
    then slice f.mem (f.rd_idx * f.item_size) ((f.depth + 1) * f.item_size)
      ++ slice f.mem 0 ((num - ahead f) * f.item_size)
    else slice f.mem (f.rd_idx * f.item_size) ((f.rd_idx + num) * f.item_size)

-- The fifo after `num` items are taken off.
abbrev pub shortened : SwFifo → ℕ → SwFifo
shortened f num = record f {
  rd_idx = if ltb f.depth (f.rd_idx + num) then num - ahead f else f.rd_idx + num;
}

pub ack-shortened :
    {f : SwFifo} (num : ℕ) → IsValid f → num ≤ stored f → ack f num ≡ shortened f num
unfolding ack lock unlock inc_rd_idx
ack-shortened {f} num v h = ground arith

pub contents-front :
    {f : SwFifo} (num : ℕ)
    → IsValid f
    → num ≤ stored f
    → contents f ≡ front f num ++ contents (shortened f num)
unfolding contents
contents-front {f} num v h =
    let s = f.item_size in
    elim (dec_lt f.depth (f.rd_idx + num)) [
      | yes p ↦ ground (
        arith,
        mul_mono (num - ahead f) f.wr_idx s (ground arith),
        slice-append f.mem 0 ((num - ahead f) * s) (f.wr_idx * s),
        append_assoc (slice f.mem (f.rd_idx * s) ((f.depth + 1) * s))
            (slice f.mem 0 ((num - ahead f) * s))
            (slice f.mem ((num - ahead f) * s) (f.wr_idx * s)),
      )
      | no p ↦ ground (
        arith,
        mul_add f.rd_idx num s,
        mul_mono (f.rd_idx + num) (f.depth + 1) s (omega arith),
        mul_mono (f.rd_idx + num) f.wr_idx s,
        slice-append f.mem (f.rd_idx * s) ((f.rd_idx + num) * s) (f.wr_idx * s),
        slice-append f.mem (f.rd_idx * s) ((f.rd_idx + num) * s) ((f.depth + 1) * s),
        append_assoc (slice f.mem (f.rd_idx * s) ((f.rd_idx + num) * s))
            (slice f.mem ((f.rd_idx + num) * s) ((f.depth + 1) * s)) (slice f.mem 0 (f.wr_idx * s)),
      )
    ]

pub length-front :
    {f : SwFifo} (num : ℕ) → IsValid f → num ≤ stored f → length (front f num) ≡ num * f.item_size
length-front {f} num v h =
    let s = f.item_size in
    let a = slice f.mem (f.rd_idx * s) ((f.depth + 1) * s) in
    let b = slice f.mem 0 ((num - ahead f) * s) in
    ground (
      arith,
      length-append a b,
      length-slice f.mem (f.rd_idx * s) ((f.depth + 1) * s),
      length-slice f.mem (f.rd_idx * s) ((f.rd_idx + num) * s),
      length-slice f.mem 0 ((num - ahead f) * s),
      mul_sub (f.depth + 1) f.rd_idx s (omega arith),
      mul_sub num (ahead f) s,
      mul_mono (num - ahead f) (f.depth + 1) s (ground arith),
      mul_add f.rd_idx num s,
      mul_mono (f.rd_idx + num) (f.depth + 1) s,
    )
