-- ===== src/Cobs/Clean.antt =====
-- Where the framing byte may stand in the encoder's output.
use esp32_components.Base.{
  ℕ, zero, suc, ◌+◌, ◌%◌, ◌≤◌, ◌<◌, ◌≡◌, ◌⊎◌, inl, inr, Bool, true, false, not, ◌&&◌, ◌||◌, List,
  [], ◌∷◌, ◌++◌, arith, ◌==◌, ltb, length, length-append, dec_lt, take, drop, take-append, returns,
  ◌>>=◌,
}
use esp32_components.Cobs.{encode}
use esp32_components.Cobs.Encode.{encode-stuffed}
use esp32_components.Cobs.Spec.{stuff, stuffed, stuff-plain, stuff-zero, stuff-full}

-- No byte is the framing byte.
unfoldable pub no_zero : List ℕ → Bool
no_zero [] = true
no_zero (b ∷ bs) = not (b == 0) && no_zero bs

-- Some zero byte comes after a run of 254, 508, … nonzero bytes; `run` counts those before the list.
unfoldable pub zero_after_full : ℕ → List ℕ → Bool
zero_after_full run [] = false
zero_after_full run (b ∷ bs) = elim (b == 0) [
  | true ↦ (ltb 0 run && (run % 254 == 0)) || zero_after_full 0 bs
  | false ↦ zero_after_full (run + 1) bs
]

no_zero-append : (xs ys : List ℕ) → no_zero (xs ++ ys) ≡ (no_zero xs && no_zero ys)
unfolding no_zero
no_zero-append [] ys = ground arith
no_zero-append (x ∷ xs) ys = ground (arith, no_zero-append xs ys)

-- The pending bytes of a block, counted against the run of nonzero bytes that is being read.
abbrev InStep : ℕ → ℕ → Type 0
InStep run len =
    ((run ≡ 0) × (len ≡ 0)) ⊎ ((0 < run) × (0 < len) × (len ≤ 254) × (run % 254 ≡ len % 254))

no_zero-stuff :
    (run : ℕ) (pending bs : List ℕ)
    → InStep run (length pending)
    → no_zero (stuff pending bs) ≡ (no_zero pending && not (zero_after_full run bs))
unfolding no_zero zero_after_full
no_zero-stuff run pending [] h = unfold stuff in ground arith
no_zero-stuff run pending (zero ∷ bs) h = elim (dec_lt (length pending) 254) [
  | yes p ↦
      let s = stuff [] bs in
      rw (stuff-zero pending bs p)
        (ground (arith, no_zero-append pending s, no_zero-stuff 0 [] bs (inl (omega arith))))
  | no p ↦
      let s = stuff (0 ∷ []) bs in
      rw (stuff-full pending bs 0 (ground arith))
        (ground (arith, no_zero-append pending s, no_zero-stuff 1 (0 ∷ []) bs (inr (omega arith))))
]
no_zero-stuff run pending (suc b ∷ bs) h = elim (dec_lt (length pending) 254) [
  | yes p ↦
      let longer = length-append pending (suc b ∷ []) in
      rw (stuff-plain pending bs (suc b) p (omega arith)) (
        ground (
          arith,
          no_zero-append pending (suc b ∷ []),
          no_zero-stuff (run + 1) (pending ++ suc b ∷ []) bs (inr (ground arith)),
        ))
  | no p ↦
      let s = stuff (suc b ∷ []) bs in
      rw (stuff-full pending bs (suc b) (ground arith)) (
        ground (
          arith,
          no_zero-append pending s,
          no_zero-stuff (run + 1) (suc b ∷ []) bs (inr (ground arith)),
        ))
]

-- The encoding holds no framing byte exactly when the message has no zero byte right after a run of
-- nonzero bytes whose length is a positive multiple of 254.
pub no_zero-stuffed : (msg : List ℕ) → no_zero (stuffed msg) ≡ not (zero_after_full 0 msg)
no_zero-stuffed msg = unfold no_zero in no_zero-stuff 0 [] msg (inl (omega arith))

-- With room for the encoding, the bytes that `Cobs_encode` returns hold no framing byte exactly when
-- the message has no zero byte right after a run of nonzero bytes whose length is a positive multiple
-- of 254.
pub encode-no_zero :
    (msg enc_out : List ℕ) (max_enc_len : ℕ)
    → length (stuffed msg) ≤ length enc_out
    → length (stuffed msg) ≤ max_enc_len
    → (encode msg enc_out max_enc_len >>= λ (n, enc). returns (no_zero (take n enc)))
      ≡ returns (not (zero_after_full 0 msg))
encode-no_zero msg enc_out max r m = rw (
  encode-stuffed msg enc_out max r m,
  take-append (stuffed msg) (drop (length (stuffed msg)) enc_out),
  no_zero-stuffed msg,
)
