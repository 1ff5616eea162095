-- ===== src/LfsPart/Blocks.antt =====
-- The places of the blocks on the flash.
use esp32_components.Base.{ℕ, ◌+◌, ◌*◌, ◌/◌, ◌^◌, ◌<◌, ◌≤◌, ◌≡◌, ◌≢◌, ◌⊎◌, inl, inr, arith, dec_lt}
use esp32_components.LfsPart.{part_off, block_size}

part_off-exact :
    (size block off n : ℕ)
    → size < 2 ^ 32
    → block < size / block_size
    → off + n ≤ block_size
    → part_off block off ≡ block * block_size + off
unfolding part_off
part_off-exact size block off n s b l =
    let inside : (block + 1) * block_size ≤ size = omega arith in omega arith

-- Accesses inside the blocks that littlefs is given stay inside the partition, and those to different
-- blocks do not touch the same bytes.
pub part_off_apart :
    (size block block' off off' n n' : ℕ)
    → size < 2 ^ 32
    → block < size / block_size
    → block' < size / block_size
    → block ≢ block'
    → off + n ≤ block_size
    → off' + n' ≤ block_size
    → (part_off block off + n ≤ size)
      × ((part_off block off + n ≤ part_off block' off')
          ⊎ (part_off block' off' + n' ≤ part_off block off))
part_off_apart size block block' off off' n n' s b b' d l l' =
    let e = part_off-exact size block off n s b l in
    let e' = part_off-exact size block' off' n' s b' l' in
    (
      omega (arith, e),
      elim (dec_lt block block') [
        | yes h ↦ inl (omega (arith, e, e'))
        | no h ↦ inr (omega (arith, e, e'))
      ],
    )
