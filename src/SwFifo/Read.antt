-- ===== src/SwFifo/Read.antt =====
-- `SwFifo_peek`, `SwFifo_ack` and `SwFifo_read`: what they hand out and what they leave.
use esp32_components.Base.{
  ℕ, ◌+◌, ◌-◌, ◌*◌, ◌≤◌, ◌<◌, ◌≡◌, sym, ap, ◌∙◌, inl, inr, List, ◌++◌, arith, ltb, if◌then◌else◌,
  length, take, drop, slice, length-slice, length-append, splice_start, splice-splice, splice_nil,
  dec_lt, splice, append-nil, take-append, drop-append,
}
use esp32_components.SwFifo.Bytes.{mul_add, mul_sub}
use esp32_components.SwFifo.{
  SwFifo, lock, unlock, inc_rd_idx, circ_read, is_empty_now, peek, ack, read, count,
}
use esp32_components.SwFifo.Inv.{
  IsValid, Aligned, stored, contents, lock-IsValid, count_lem, mul32_lem,
}
use esp32_components.SwFifo.Front.{
  ahead, front, shortened, ack-shortened, contents-front, length-front,
}

circ_wrap :
    {f : SwFifo} (dst : List ℕ) (num : ℕ)
    → IsValid f
    → f.depth < f.rd_idx + num
    → num ≤ stored f
    → circ_read f dst num
      ≡ splice
          (splice dst 0 (slice f.mem (f.rd_idx * f.item_size) ((f.depth + 1) * f.item_size)))
          (ahead f)
          (slice f.mem 0 ((num - ahead f) * f.item_size))
unfolding circ_read
circ_wrap {f} dst num v p h = ground (
  arith,
  mul32_lem f.rd_idx v,
  mul32_lem (ahead f) v,
  mul32_lem (num - ahead f) v,
  mul_sub (f.depth + 1) f.rd_idx f.item_size (omega arith),
)

-- `circRead` fills the front of the destination, if items are bytes or the read is not split.
circ_read-front :
    {f : SwFifo} (dst : List ℕ) (num : ℕ)
    → IsValid f
    → num ≤ stored f
    → num * f.item_size ≤ length dst
    → Aligned f f.rd_idx num
    → circ_read f dst num ≡ front f num ++ drop (num * f.item_size) dst
unfolding circ_read
circ_read-front {f} dst num v h l a = elim (dec_lt f.depth (f.rd_idx + num)) [
  | yes p ↦
      let s = f.item_size in
      let a' = slice f.mem (f.rd_idx * s) ((f.depth + 1) * s) in
      let b' = slice f.mem 0 ((num - ahead f) * s) in
      circ_wrap dst num v p h ∙ elim a [
        | inl bytes ↦ ground (
          arith,
          bytes,
          length-append a' b',
          length-slice f.mem (f.rd_idx * s) ((f.depth + 1) * s),
          length-front num v h,
          splice-splice dst a' b',
        )
        | inr fits ↦
            let none_left : num - ahead f ≡ 0 = omega arith in
            ground (
              arith,
              none_left,
              length-front num v h,
              append-nil a',
              splice_nil (splice dst 0 a') (ahead f),
              splice_start dst a',
            )
      ]
  | no p ↦
      let s = f.item_size in
      let d = slice f.mem (f.rd_idx * s) ((f.rd_idx + num) * s) in
      ground (
        arith,
        mul32_lem f.rd_idx v,
        mul32_lem num v,
        mul_add f.rd_idx num s,
        length-front num v h,
        splice_start dst d,
      )
]

-- The number of items that a call for `num` gets.
abbrev pub granted : SwFifo → ℕ → ℕ
granted f num = if ltb num (count f) then num else count f

take-contents :
    {f : SwFifo} (num : ℕ)
    → IsValid f
    → num ≤ stored f
    → take (num * f.item_size) (contents f) ≡ front f num
take-contents {f} num v h =
    ap (take (num * f.item_size)) (contents-front num v h)
    ∙ ap (λ k. take k (front f num ++ contents (shortened f num))) (sym (length-front num v h))
    ∙ take-append (front f num) (contents (shortened f num))

drop-contents :
    {f : SwFifo} (num : ℕ)
    → IsValid f
    → num ≤ stored f
    → drop (num * f.item_size) (contents f) ≡ contents (shortened f num)
drop-contents {f} num v h =
    ap (drop (num * f.item_size)) (contents-front num v h)
    ∙ ap (λ k. drop k (front f num ++ contents (shortened f num))) (sym (length-front num v h))
    ∙ drop-append (front f num) (contents (shortened f num))

-- `SwFifo_peek` reads as many items as were asked for and are there, puts the oldest bytes of the
-- fifo at the front of a destination that holds them, leaves the rest of the destination, and does
-- not change the fifo. Items are bytes, or the read is not split at the end of the block.
pub peek_lem :
    {f : SwFifo} (dst : List ℕ) (num : ℕ)
    → IsValid f
    → granted f num * f.item_size ≤ length dst
    → Aligned f f.rd_idx (granted f num)
    → peek f dst num ≡ (
      granted f num,
      take (granted f num * f.item_size) (contents f) ++ drop (granted f num * f.item_size) dst,
      f,
    )
unfolding peek lock unlock is_empty_now
peek_lem {f} dst num v l a =
    let v' : IsValid (lock f) = lock-IsValid v in
    ground
      (arith, count_lem v, circ_read-front dst (granted f num) v', take-contents (granted f num) v)

shortened-IsValid : {f : SwFifo} (num : ℕ) → IsValid f → num ≤ stored f → IsValid (shortened f num)
shortened-IsValid num v h = ground arith

-- `SwFifo_ack` of at most the stored items drops the oldest bytes, and keeps the invariant.
pub ack-contents :
    {f : SwFifo} (num : ℕ)
    → IsValid f
    → num ≤ count f
    → IsValid (ack f num)
      × (contents (ack f num) ≡ drop (num * f.item_size) (contents f))
      × (count (ack f num) + num ≡ count f)
ack-contents {f} num v h =
    let q : num ≤ stored f = omega (arith, count_lem v) in
    let v' = shortened-IsValid num v q in
    rw (ack-shortened num v q)
      (v', sym (drop-contents num v q), ground (arith, count_lem v, count_lem v'))

-- `SwFifo_read` hands out what `SwFifo_peek` does and drops exactly those bytes.
pub read_lem :
    {f : SwFifo} (dst : List ℕ) (num : ℕ)
    → IsValid f
    → granted f num * f.item_size ≤ length dst
    → Aligned f f.rd_idx (granted f num)
    → let (n, dst', g) = read f dst num in
      (n ≡ granted f num)
      × (dst' ≡ take (n * f.item_size) (contents f) ++ drop (n * f.item_size) dst)
      × (contents g ≡ drop (n * f.item_size) (contents f))
      × (count g + n ≡ count f)
      × IsValid g
unfolding read
read_lem {f} dst num v l a =
    rw (peek_lem dst num v l a) (ground (arith, ack-contents (granted f num) v))

pub read_shape :
    (f : SwFifo) (dst : List ℕ) (num : ℕ)
    → let g = (read f dst num).2 in (g.depth ≡ f.depth) × (g.item_size ≡ f.item_size)
unfolding read peek ack lock unlock inc_rd_idx
read_shape f dst num = ground arith
