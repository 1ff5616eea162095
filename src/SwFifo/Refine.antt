-- ===== src/SwFifo/Refine.antt =====
-- A client's session with a fifo of bytes, and the bounded queue that it cannot tell it from.
use esp32_components.Base.{
  ℕ, ◌+◌, ◌-◌, ◌*◌, ◌≤◌, ◌≡◌, refl, sym, ap, subst, ◌∙◌, inl, List, [], ◌∷◌, ◌++◌, arith, length,
  take, drop, replicate, length-replicate, length-append, length-slice, length-take, take-all,
  take-append, dec_lt, slice, slice_self, drop-all, ◌==◌,
}
use esp32_components.SwFifo.Bytes.{mul_add, mul_sub}
use esp32_components.SwFifo.Queue
use esp32_components.SwFifo.Queue.{
  Op, Reply, put, get, look, release, clear, ask_count, ask_avail, ask_empty, ask_full, wrote, got,
  number, flag, nothing,
}
use esp32_components.SwFifo.{
  SwFifo, lock, unlock, count, avail, is_empty_now, is_full_now, flush, write, peek, ack, read,
  get_count, get_avail, inc_rd_idx, is_empty, is_full,
}
use esp32_components.SwFifo.Inv.{IsValid, stored, contents, count_lem, avail_lem, mul_mono}
use esp32_components.SwFifo.Write.{write-contents, write_full, write-IsValid, write_shape}
use esp32_components.SwFifo.Read.{granted, peek_lem, read_lem, read_shape, ack-contents}

-- One call, with a fresh buffer for what is read.
unfoldable pub step : SwFifo → Op → Reply × SwFifo
step f (put d) = let (r, g) = write f d (length d) in (wrote r, g)
step f (get n) = let (k, dst, g) = read f (replicate n 0) n in (got (take k dst), g)
step f (look n) = let (k, dst, g) = peek f (replicate n 0) n in (got (take k dst), g)
step f (release n) = (nothing, ack f n)
step f clear = (nothing, flush f)
step f ask_count = let (n, g) = get_count f in (number n, g)
step f ask_avail = let (n, g) = get_avail f in (number n, g)
step f ask_empty = let (b, g) = is_empty f in (flag b, g)
step f ask_full = let (b, g) = is_full f in (flag b, g)

pub run : SwFifo → List Op → List Reply
run f [] = []
run f (op ∷ ops) = let (r, g) = step f op in r ∷ run g ops

length-contents : {f : SwFifo} → IsValid f → length (contents f) ≡ stored f * f.item_size
unfolding contents
length-contents {f} v =
    let s = f.item_size in
    let a = slice f.mem (f.rd_idx * s) ((f.depth + 1) * s) in
    let b = slice f.mem 0 (f.wr_idx * s) in
    elim (dec_lt f.wr_idx f.rd_idx) [
      | yes p ↦ ground (
        arith,
        length-append a b,
        length-slice f.mem (f.rd_idx * s) ((f.depth + 1) * s),
        length-slice f.mem 0 (f.wr_idx * s),
        mul_sub (f.depth + 1) f.rd_idx s (omega arith),
        mul_add (f.depth + 1 - f.rd_idx) f.wr_idx s,
        mul_mono f.wr_idx (f.depth + 1) s (omega arith),
      )
      | no p ↦ ground (
        arith,
        length-slice f.mem (f.rd_idx * s) (f.wr_idx * s),
        mul_sub f.wr_idx f.rd_idx s (omega arith),
        mul_mono f.wr_idx (f.depth + 1) s (omega arith),
      )
    ]

-- A valid fifo of bytes.
pub record IsByteFifo (depth : ℕ) (f : SwFifo) : Type 0 where
  pub valid : IsValid f
  pub bytes : f.item_size ≡ 1
  pub deep : f.depth ≡ depth

-- The queries leave the fifo as it was.
pub query_lem :
    (f : SwFifo)
    → (get_count f ≡ (count f, f))
      × (get_avail f ≡ (avail f, f))
      × (is_empty f ≡ (f.wr_idx == f.rd_idx, f))
      × (is_full f ≡ (count f == f.depth, f))
unfolding get_count get_avail is_empty is_full lock unlock is_empty_now is_full_now count avail
query_lem f = (ground arith, ground arith, ground arith, ground arith)

pub flush_lem : {f : SwFifo} → IsValid f → IsValid (flush f) × (contents (flush f) ≡ [])
unfolding flush lock unlock contents
flush_lem {f} v = (ground arith, slice_self f.mem (0 * f.item_size))

pub flush_shape : (f : SwFifo) → ((flush f).depth ≡ f.depth) × ((flush f).item_size ≡ f.item_size)
unfolding flush lock unlock
flush_shape f = ground arith

module _ {cap : ℕ} {f : SwFifo} (v : IsByteFifo cap f) where
  pub count-length : length (contents f) ≡ count f
  count-length = ground (arith, length-contents v.valid, count_lem v.valid)

  pub put_refines :
      (d : List ℕ)
      → let (r, g) = step f (put d) in
        ((r, contents g) ≡ Queue.step cap (contents f) (put d)) × IsByteFifo cap g
  unfolding step Queue.step
  put_refines d = elim (dec_lt (avail f) (length d)) [
    | yes p ↦
        rw (write_full d (length d) p)
          (ground (arith, avail_lem v.valid, count_lem v.valid, count-length), v)
    | no p ↦ ground (
      arith,
      v.bytes,
      write-contents d (length d) v.valid (rw v.bytes (omega arith)) (omega arith) (inl v.bytes),
      write-IsValid d (length d) v.valid,
      write_shape f d (length d),
      avail_lem v.valid,
      count_lem v.valid,
      count-length,
    )
  ]

  -- as many bytes as there are, up to the number asked for
  granted-take : (n : ℕ) → take (granted f n * f.item_size) (contents f) ≡ take n (contents f)
  granted-take n =
      ground
        (arith, v.bytes, count-length, take-all n (contents f), take-all (granted f n) (contents f))

  granted-drop : (n : ℕ) → drop (granted f n * f.item_size) (contents f) ≡ drop n (contents f)
  granted-drop n =
      ground
        (arith, v.bytes, count-length, drop-all n (contents f), drop-all (granted f n) (contents f))

  granted-fits : (n : ℕ) → granted f n * f.item_size ≤ length (replicate {A = ℕ} n 0)
  granted-fits n = ground (arith, v.bytes, length-replicate {A = ℕ} n 0)

  front_bytes :
      (n : ℕ) (rest : List ℕ)
      → take (granted f n) (take (granted f n * f.item_size) (contents f) ++ rest)
        ≡ take n (contents f)
  front_bytes n rest =
      let l = take (granted f n * f.item_size) (contents f) in
      let e : length l ≡ granted f n =
        ground
          (arith, v.bytes, count-length, length-take (granted f n * f.item_size) (contents f)) in
      ap (λ k. take k (l ++ rest)) (sym e) ∙ take-append l rest ∙ granted-take n

  get_refines :
      (n : ℕ)
      → let (r, g) = step f (get n) in
        ((r, contents g) ≡ Queue.step cap (contents f) (get n)) × IsByteFifo cap g
  unfolding step Queue.step
  get_refines n =
      let dst = replicate {A = ℕ} n 0 in
      let (k, filled, taken, left, valid) = read_lem dst n v.valid (granted-fits n) (inl v.bytes) in
      ground (
        arith,
        k,
        filled,
        taken,
        valid,
        front_bytes n (drop (granted f n * f.item_size) dst),
        granted-drop n,
        read_shape f dst n,
      )

  look_refines :
      (n : ℕ)
      → let (r, g) = step f (look n) in
        ((r, contents g) ≡ Queue.step cap (contents f) (look n)) × IsByteFifo cap g
  unfolding step Queue.step
  look_refines n =
      let dst = replicate {A = ℕ} n 0 in
      rw (peek_lem dst n v.valid (granted-fits n) (inl v.bytes))
        (ap (λ l. (got l, contents f)) (front_bytes n (drop (granted f n * f.item_size) dst)), v)

  ack_shape : (n : ℕ) → ((ack f n).depth ≡ f.depth) × ((ack f n).item_size ≡ f.item_size)
  unfolding ack lock unlock inc_rd_idx
  ack_shape n = ground arith

  release_refines :
      (n : ℕ)
      → n ≤ length (contents f)
      → let (r, g) = step f (release n) in
        ((r, contents g) ≡ Queue.step cap (contents f) (release n)) × IsByteFifo cap g
  unfolding step Queue.step
  release_refines n h =
      ground (arith, v.bytes, ack-contents n v.valid (omega (arith, count-length)), ack_shape n)

  -- One call and one step of the queue give the same reply and the same bytes.
  step_refines :
      (op : Op)
      → Queue.Allowed (contents f) op
      → let (r, g) = step f op in
        ((r, contents g) ≡ Queue.step cap (contents f) op) × IsByteFifo cap g
  unfolding step Queue.step
  step_refines (put d) a = put_refines d
  step_refines (get n) a = get_refines n
  step_refines (look n) a = look_refines n
  step_refines (release n) a = release_refines n a
  step_refines clear a =
      (ground (arith, flush_lem v.valid), ground (arith, flush_lem v.valid, flush_shape f))
  step_refines ask_count a = ground (arith, query_lem f, count-length)
  step_refines ask_avail a =
      ground (arith, query_lem f, count-length, avail_lem v.valid, count_lem v.valid)
  step_refines ask_empty a = ground (arith, query_lem f, count-length, count_lem v.valid)
  step_refines ask_full a = ground (arith, query_lem f, count-length)

-- A session of calls on a valid fifo of bytes, in which no more bytes are released by SwFifo_ack() than
-- are stored then, has the replies that the bounded queue of its contents gives.
pub run_refines :
    {cap : ℕ} (ops : List Op) {f : SwFifo}
    → IsByteFifo cap f
    → Queue.AllAllowed cap (contents f) ops
    → run f ops ≡ Queue.run cap (contents f) ops
unfolding run Queue.run Queue.AllAllowed
run_refines [] v a = refl
run_refines {cap} (op ∷ ops) {f} v a =
    let (same, v') = step_refines v op a.0 in
    let rest =
      run_refines ops v' (subst (λ q. Queue.AllAllowed cap q ops) (sym (ap (λ s. s.1) same)) a.1) in
    ground (arith, same, rest)
