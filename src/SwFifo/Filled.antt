-- ===== src/SwFifo/Filled.antt =====
-- The fifo after a write that is accepted, and the bytes in it.
use esp32_components.Base.{
  ℕ, ◌+◌, ◌-◌, ◌*◌, ◌≤◌, ◌<◌, ◌≡◌, sym, ap, ◌∙◌, List, ◌++◌, arith, ltb, if◌then◌else◌, length,
  take, drop, splice, length-take, length-drop, take-all, done, dec_lt,
}
use esp32_components.SwFifo.Bytes.{
  mul_add, mul_sub, le-mul, slice_extend, split_extend, wrap_extend,
}
use esp32_components.SwFifo.{SwFifo, lock, unlock, inc_wr_idx, circ_write, write}
use esp32_components.SwFifo.Inv.{
  IsValid, stored, contents, lock-IsValid, avail_lem, mul32_lem, mul_mono,
}

-- Room up to the end of the block.
abbrev pub room : SwFifo → ℕ
room f = f.depth + 1 - f.wr_idx

-- The bytes that a write of `num` items leaves in the block: past the end of the block the source
-- goes on at `items + room` (a count of items, used as a count of bytes).
abbrev pub laid : SwFifo → List ℕ → ℕ → List ℕ
laid f items num =
    if ltb f.depth (f.wr_idx + num)
    then take (room f * f.item_size) items
      ++ take ((num - room f) * f.item_size) (drop (room f) items)
    else take (num * f.item_size) items

-- The fifo after an accepted write.
abbrev pub filled : SwFifo → List ℕ → ℕ → SwFifo
filled f items num =
    if ltb f.depth (f.wr_idx + num)
    then record f {
      wr_idx = num - room f;
      mem =
          splice (splice f.mem (f.wr_idx * f.item_size) (take (room f * f.item_size) items)) 0
            (take ((num - room f) * f.item_size) (drop (room f) items));
    }
    else record f {
      wr_idx = f.wr_idx + num;
      mem = splice f.mem (f.wr_idx * f.item_size) (take (num * f.item_size) items);
    }

pub stored_fill :
    {f : SwFifo} (items : List ℕ) (num : ℕ)
    → IsValid f
    → num + stored f ≤ f.depth
    → inc_wr_idx (circ_write f items num) num ≡ filled f items num
unfolding inc_wr_idx circ_write
stored_fill {f} items num v h = elim (dec_lt f.depth (f.wr_idx + num)) [
  | yes p ↦ ground (arith, mul32_lem f.wr_idx v, mul32_lem (room f) v, mul32_lem (num - room f) v)
  | no p ↦ ground (arith, mul32_lem f.wr_idx v, mul32_lem num v)
]

pub write-filled :
    {f : SwFifo} (items : List ℕ) (num : ℕ)
    → IsValid f
    → num + stored f ≤ f.depth
    → write f items num ≡ (done, filled f items num)
unfolding write lock unlock
write-filled {f} items num v h =
    let v' : IsValid (lock f) = lock-IsValid v in
    ground (arith, avail_lem v', stored_fill items num v')

module _ {f : SwFifo} (items : List ℕ) (num : ℕ) (v : IsValid f)
    (h : num + stored f ≤ f.depth) where
  -- The write stops before the end of the block.
  pub contents_flat :
      length items ≡ num * f.item_size
      → f.wr_idx + num ≤ f.depth
      → contents (filled f items num) ≡ contents f ++ laid f items num
  unfolding contents
  contents_flat e p =
      let s = f.item_size in
      let d = take (num * s) items in
      let all : d ≡ items = take-all (num * s) items (omega arith) in
      let end : (f.wr_idx + num) * s ≡ f.wr_idx * s + length d =
        rw all (mul_add f.wr_idx num s ∙ ap (λ k. f.wr_idx * s + k) (sym e)) in
      let low = mul_mono (f.wr_idx + num) (f.depth + 1) s (omega arith) in
      elim (dec_lt f.wr_idx f.rd_idx) [
        | yes q ↦ ground (
          arith,
          mul_mono (f.wr_idx + num) f.rd_idx s (ground arith),
          split_extend f.mem (f.rd_idx * s) (f.wr_idx * s) ((f.depth + 1) * s)
              ((f.wr_idx + num) * s) d,
        )
        | no q ↦ ground (
          arith,
          mul_mono f.rd_idx f.wr_idx s (ground arith),
          slice_extend f.mem (f.rd_idx * s) (f.wr_idx * s) ((f.wr_idx + num) * s) d,
        )
      ]

  -- The write goes round the end of the block.
  pub contents_wrap :
      length items ≡ num * f.item_size
      → f.depth < f.wr_idx + num
      → contents (filled f items num) ≡ contents f ++ laid f items num
  unfolding contents
  contents_wrap e p =
      let s = f.item_size in
      let d = take (room f * s) items in
      let d' = take ((num - room f) * s) (drop (room f) items) in
      ground (
        arith,
        mul_mono f.rd_idx f.wr_idx s (ground arith),
        mul_mono (num - room f) f.rd_idx s (ground arith),
        mul_sub (f.depth + 1) f.wr_idx s (omega arith),
        mul_sub num (room f) s (omega arith),
        le-mul (room f) s,
        length-take (room f * s) items,
        length-take ((num - room f) * s) (drop (room f) items),
        length-drop (room f) items,
        wrap_extend f.mem (f.rd_idx * s) (f.wr_idx * s) ((f.depth + 1) * s) ((num - room f) * s) d
            d',
      )

pub contents-filled :
    {f : SwFifo} (items : List ℕ) (num : ℕ)
    → IsValid f
    → num + stored f ≤ f.depth
    → length items ≡ num * f.item_size
    → contents (filled f items num) ≡ contents f ++ laid f items num
contents-filled {f} items num v h e = elim (dec_lt f.depth (f.wr_idx + num)) [
  | yes p ↦ contents_wrap items num v h e p
  | no p ↦ contents_flat items num v h e (omega arith)
]
