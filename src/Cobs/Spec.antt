-- ===== src/Cobs/Spec.antt =====
-- The byte stuffing that the encoder performs, on lists: `pending` are the bytes of the block that
-- is being read, whose code byte is not yet known.
use esp32_components.Base.{
  ℕ, ◌+◌, ◌*◌, ◌/◌, ◌≤◌, ◌<◌, ◌≡◌, ◌≢◌, List, [], ◌∷◌, ◌++◌, true, false, ◌==◌, arith, length,
  length-append,
}

unfoldable pub stuff : List ℕ → List ℕ → List ℕ
stuff pending [] = (length pending + 1) ∷ pending
stuff pending (b ∷ bs) = elim (length pending == 254) [
  | true ↦ 255 ∷ (pending ++ stuff (b ∷ []) bs)
  | false ↦ elim (b == 0) [
    | true ↦ (length pending + 1) ∷ (pending ++ stuff [] bs)
    | false ↦ stuff (pending ++ b ∷ []) bs
  ]
]

-- The encoding of a message.
abbrev pub stuffed : List ℕ → List ℕ
stuffed = stuff []

module _ (pending bs : List ℕ) where
  pub stuff-plain :
      (b : ℕ) → length pending < 254 → b ≢ 0 → stuff pending (b ∷ bs) ≡ stuff (pending ++ b ∷ []) bs
  unfolding stuff
  stuff-plain b h z = ground arith

  pub stuff-zero :
      length pending < 254
      → stuff pending (0 ∷ bs) ≡ (length pending + 1) ∷ (pending ++ stuff [] bs)
  unfolding stuff
  stuff-zero h = ground arith

  pub stuff-full :
      (b : ℕ) → length pending ≡ 254 → stuff pending (b ∷ bs) ≡ 255 ∷ (pending ++ stuff (b ∷ []) bs)
  unfolding stuff
  stuff-full b h = ground arith

-- The code byte and the pending bytes are always part of the encoding.
pub length-stuff_gt : (pending bs : List ℕ) → length pending < length (stuff pending bs)
unfolding stuff
length-stuff_gt pending [] = omega arith
length-stuff_gt pending (b ∷ bs) = ground (
  arith,
  length-append pending (stuff (b ∷ []) bs),
  length-append pending (stuff [] bs),
  length-append pending (b ∷ []),
  length-stuff_gt (pending ++ b ∷ []) bs,
)

-- One byte of overhead, and one more for each 254 bytes of the message.
length-stuff_le :
    (pending bs : List ℕ)
    → length pending ≤ 254
    → length (stuff pending bs) * 254 ≤ 254 + 255 * (length pending + length bs)
unfolding stuff
length-stuff_le pending [] h = omega arith
length-stuff_le pending (b ∷ bs) h = ground (
  arith,
  length-append pending (stuff (b ∷ []) bs),
  length-append pending (stuff [] bs),
  length-append pending (b ∷ []),
  length-stuff_le (pending ++ b ∷ []) bs,
  length-stuff_le (b ∷ []) bs,
  length-stuff_le [] bs,
)

-- The encoding of `n` bytes has at least `n + 1` bytes, and at most `n + 1 + n / 254`.
pub length-stuffed : (bs : List ℕ) → length (stuffed bs) ≤ length bs + 1 + length bs / 254
length-stuffed bs = omega (arith, length-stuff_le [] bs)

pub length-stuff_two :
    (pending : List ℕ) (b : ℕ) (bs : List ℕ) → length pending + 2 ≤ length (stuff pending (b ∷ bs))
unfolding stuff
length-stuff_two pending b bs = ground (
  arith,
  length-append pending (stuff (b ∷ []) bs),
  length-append pending (stuff [] bs),
  length-append pending (b ∷ []),
  length-stuff_gt (pending ++ b ∷ []) bs,
  length-stuff_gt (b ∷ []) bs,
  length-stuff_gt [] bs,
)

module _ (pending bs : List ℕ) where
  pub length-stuff_zero :
      length pending < 254
      → length (stuff pending (0 ∷ bs)) ≡ length pending + 1 + length (stuff [] bs)
  length-stuff_zero h =
      rw (stuff-zero pending bs h) (omega (arith, length-append pending (stuff [] bs)))

  pub length-stuff_full :
      (b : ℕ)
      → length pending ≡ 254
      → length (stuff pending (b ∷ bs)) ≡ 255 + length (stuff (b ∷ []) bs)
  length-stuff_full b h =
      rw (stuff-full pending bs b h) (omega (arith, length-append pending (stuff (b ∷ []) bs)))
