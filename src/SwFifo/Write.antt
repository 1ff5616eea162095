-- ===== src/SwFifo/Write.antt =====
-- `SwFifo_write`: what it stores and when it refuses.
use esp32_components.Base.{
  ℕ, ◌+◌, ◌-◌, ◌*◌, ◌≤◌, ◌<◌, ◌≡◌, refl, sym, ap, ◌∙◌, inl, inr, List, ◌++◌, arith, length, take,
  drop, splice, length-splice, length-take, length-drop, take-all, take-append-drop, append-nil,
  get_elem?, get_elem?-append_end, get_elem?-take, get_elem?-drop, drop-append, ◌≢◌, done, failed,
  dec_lt,
}
use esp32_components.SwFifo.Bytes.{le-mul}
use esp32_components.SwFifo.{SwFifo, lock, unlock, inc_wr_idx, circ_write, write, count, avail}
use esp32_components.SwFifo.Inv.{IsValid, Aligned, stored, contents, count_lem, avail_lem, mul_mono}
use esp32_components.SwFifo.Filled.{room, laid, filled, write-filled, contents-filled}

laid-items :
    (f : SwFifo) (items : List ℕ) (num : ℕ)
    → f.wr_idx ≤ f.depth
    → length items ≡ num * f.item_size
    → Aligned f f.wr_idx num
    → laid f items num ≡ items
laid-items f items num w e a = elim (dec_lt f.depth (f.wr_idx + num)) [
  | yes p ↦ elim a [
    | inl bytes ↦ ground (
      arith,
      bytes,
      length-drop (room f) items,
      take-all (num - room f) (drop (room f) items),
      take-append-drop (room f) items,
    )
    | inr fits ↦
        let whole : num ≡ room f = omega arith in
        let none_left : num - room f ≡ 0 = omega arith in
        ground (arith, whole, none_left, take-all (room f * f.item_size) items, append-nil items)
  ]
  | no p ↦ ground (arith, take-all (num * f.item_size) items)
]

filled-IsValid :
    {f : SwFifo} (items : List ℕ) (num : ℕ)
    → IsValid f
    → num + stored f ≤ f.depth
    → IsValid (filled f items num)
filled-IsValid {f} items num v h =
    let d = take (num * f.item_size) items in
    let d' = take (room f * f.item_size) items in
    ground (
      arith,
      length-splice f.mem (f.wr_idx * f.item_size) d,
      length-splice f.mem (f.wr_idx * f.item_size) d',
      length-splice (splice f.mem (f.wr_idx * f.item_size) d') 0
          (take ((num - room f) * f.item_size) (drop (room f) items)),
    )

-- A write of at most `avail` items succeeds and puts the items behind the contents, if items are
-- bytes or the write is not split at the end of the block.
pub write-contents :
    {f : SwFifo} (items : List ℕ) (num : ℕ)
    → IsValid f
    → length items ≡ num * f.item_size
    → num ≤ avail f
    → Aligned f f.wr_idx num
    → let (r, g) = write f items num in
      (r ≡ done) × (contents g ≡ contents f ++ items) × (count g ≡ count f + num)
write-contents {f} items num v e h a =
    let q : num + stored f ≤ f.depth = omega (arith, avail_lem v, count_lem v) in
    let v' = filled-IsValid items num v q in
    rw (write-filled items num v q) (
      refl,
      contents-filled items num v q e
          ∙ ap (λ l. contents f ++ l) (laid-items f items num v.wr_in e a),
      ground (arith, count_lem v, count_lem v'),
    )

-- A write of more than `avail` items fails and leaves the fifo as it was.
pub write_full :
    {f : SwFifo} (items : List ℕ) (num : ℕ) → avail f < num → write f items num ≡ (failed, f)
unfolding write lock unlock avail count
write_full {f} items num h = ground arith

-- `SwFifo_write` keeps the invariant, whether it stores or refuses.
pub write-IsValid :
    {f : SwFifo} (items : List ℕ) (num : ℕ) → IsValid f → IsValid (write f items num).1
write-IsValid {f} items num v = elim (dec_lt (avail f) num) [
  | yes p ↦ rw (write_full items num p) v
  | no p ↦
      let q : num + stored f ≤ f.depth = omega (arith, avail_lem v, count_lem v) in
      rw (write-filled items num v q) (filled-IsValid items num v q)
]

laid-room :
    (f : SwFifo) (items : List ℕ) (num : ℕ)
    → f.wr_idx ≤ f.depth
    → length items ≡ num * f.item_size
    → f.depth + 1 < f.wr_idx + num
    → 1 < f.item_size
    → get_elem? (laid f items num) (room f * f.item_size) ≡ get_elem? items (room f)
laid-room f items num w e p s =
    let d = take (room f * f.item_size) items in
    let d' = take ((num - room f) * f.item_size) (drop (room f) items) in
    let long = mul_mono (room f) num f.item_size (omega arith) in
    let some_left = le-mul (num - room f) f.item_size (omega arith) in
    let at : length d ≡ room f * f.item_size =
      omega (arith, length-take (room f * f.item_size) items) in
    let split : laid f items num ≡ d ++ d' = ground arith in
    rw split (
      ap (get_elem? (d ++ d')) (sym at)
      ∙ get_elem?-append_end d d'
      ∙ get_elem?-take ((num - room f) * f.item_size) (drop (room f) items) (omega arith)
      ∙ get_elem?-drop (room f) items)

-- On a valid fifo, a write that fits and is split at the end of the block does not store the caller's
-- items after those stored before, if items are longer than a byte and the caller's byte at
-- `room * item_size`, the first one that belongs at the start of the block, differs from the one at
-- `room`.
pub write_misplaces :
    {f : SwFifo} (items : List ℕ) (num : ℕ)
    → IsValid f
    → length items ≡ num * f.item_size
    → num ≤ avail f
    → f.depth + 1 < f.wr_idx + num
    → 1 < f.item_size
    → get_elem? items (room f) ≢ get_elem? items (room f * f.item_size)
    → contents (write f items num).1 ≢ contents f ++ items
write_misplaces {f} items num v e h p s differ same =
    let q : num + stored f ≤ f.depth = omega (arith, avail_lem v, count_lem v) in
    differ (
      sym (laid-room f items num v.wr_in e p s)
      ∙ ap (λ l. get_elem? l (room f * f.item_size))
          (sym (drop-append (contents f) (laid f items num))
            ∙ ap (drop (length (contents f))) (stored_as q ∙ same)
            ∙ drop-append (contents f) items))
  where
    stored_as :
        num + stored f ≤ f.depth → contents f ++ laid f items num ≡ contents (write f items num).1
    stored_as q = rw (write-filled items num v q) (sym (contents-filled items num v q e))

pub write_shape :
    (f : SwFifo) (items : List ℕ) (num : ℕ)
    → let g = (write f items num).1 in (g.depth ≡ f.depth) × (g.item_size ≡ f.item_size)
unfolding write lock unlock inc_wr_idx circ_write
write_shape f items num = ground arith
