-- ===== src/Cobs/Overrun.antt =====
-- Inputs on which the encoder and the decoder leave their buffers. The overflow checks compare for
-- equality, and not every write or read has one.
use esp32_components.Base.{
  ℕ, zero, suc, ◌+◌, ◌-◌, ◌≤◌, ◌<◌, ◌≡◌, List, [], ◌∷◌, ◌++◌, arith, length, length-append,
  length-set, set, replicate, faults, ◌>>=◌, store_outside, load_outside, load_middle, append_assoc,
  ne→==, refl, dec_lt, store_inside,
}
use esp32_components.Cobs.{
  encode_step, encode_loop, finish, encode, copy_block, decode_loop, decode,
}
use esp32_components.Cobs.DecodeBlock.{written, emit_lem}

zeros_loop :
    (max n k : ℕ) (out : List ℕ)
    → length out ≤ k + n
    → (encode_loop max (record { count = 0; code_word_idx = k; out = out }) (replicate n 0)
        >>= finish)
      ≡ faults
unfolding encode_loop finish encode_step
zeros_loop max zero k out h = rw (store_outside out k 1 (omega arith))
zeros_loop max (suc n) k out h = elim (dec_lt k (length out)) [
  | yes p ↦
      let out' = set out k 1 in
      rw (store_inside out k 1 p)
        (zeros_loop max n (k + 1) out' (omega (arith, length-set out k 1)))
  | no p ↦ rw (store_outside out k 1 (omega arith))
]

-- `Cobs_encode` of `n` zero bytes writes outside a buffer of at most `n` bytes, whatever maximum size
-- it is told.
pub encode_overruns :
    (n : ℕ) (enc_out : List ℕ) (max_enc_len : ℕ)
    → length enc_out ≤ n
    → encode (replicate n 0) enc_out max_enc_len ≡ faults
unfolding encode
encode_overruns n enc_out max h = zeros_loop max n 0 enc_out (omega arith)

copy_overruns :
    (max : ℕ) (pre cur done free : List ℕ) (i left : ℕ)
    → i ≡ length pre
    → length cur < left
    → length cur ≤ length free
    → length done + length cur < max
    → copy_block (pre ++ cur) max left i (written done free) ≡ faults
unfolding copy_block
copy_overruns max pre cur done free i zero e l r m = absurd (omega arith)
copy_overruns max pre [] done free i (suc left) e l r m = rw (
  ne→== (length done) max (omega arith),
  load_outside (pre ++ []) i (omega (arith, length-append pre [])),
)
copy_overruns max pre (b ∷ cur) done [] i (suc left) e l r m = absurd (omega arith)
copy_overruns max pre (b ∷ cur) done (f ∷ free) i (suc left) e l r m =
    let next =
      copy_overruns max (pre ++ b ∷ []) cur (done ++ b ∷ []) free (i + 1) left
        (omega (arith, length-append pre (b ∷ []))) (omega arith) (omega arith)
        (omega (arith, length-append done (b ∷ []))) in
    rw (ne→== (length done) max (omega arith), load_middle pre b cur e, emit_lem done f b free)
      (rw (append_assoc pre (b ∷ []) cur) at next)

-- `Cobs_decode` reads outside its input when the first code byte points past the end of the buffer
-- and the output still has room for what was read before.
pub decode_overruns :
    (code : ℕ) (rest buf_out : List ℕ) (max_buf_out : ℕ)
    → length rest + 1 < code
    → length rest ≤ length buf_out
    → length rest < max_buf_out
    → decode (code ∷ rest) (length rest + 1) buf_out max_buf_out ≡ faults
unfolding decode decode_loop
decode_overruns code rest buf_out max c r m =
    let rounds : max + 1 ≡ suc max = omega arith in
    rw (
      rounds,
      load_middle [] code rest {i = 0} refl,
      copy_overruns max (code ∷ []) rest [] buf_out (0 + 1) (code - 1) refl (omega arith) r
          (omega arith),
    )
