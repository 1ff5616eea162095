-- ===== src/Cobs/Total.antt =====
-- The decoder on any bytes at all.
use esp32_components.Base.{
  ℕ, zero, suc, ◌+◌, ◌-◌, ◌≤◌, ◌<◌, ◌≡◌, List, arith, ◌==◌, if◌then◌else◌, length, returns,
  Ends-mono, refl, returned, Ends, Ends-bind, Ends-fail_if, Ends-if, load-Ends, store-Ends,
}
use esp32_components.Cobs.{Decoded, emit, copy_block, decode_loop, decode}

-- One more byte, in a buffer of the same length.
emit-Ends :
    (s : Decoded) (b : ℕ)
    → Ends (λ t. (t.num_out ≡ s.num_out + 1) × (length t.out ≡ length s.out)) (emit s b)
unfolding emit
emit-Ends s b =
    Ends-bind (λ out. returns (record { num_out = s.num_out + 1; out = out }))
      (store-Ends s.out s.num_out b) (λ out l. returned (refl, l))

-- The output grows by the bytes of the block, never past the stated maximum.
abbrev Grown : ℕ → ℕ → Decoded → Decoded → Type 0
Grown max left s t =
    (t.num_out ≡ s.num_out + left) × (t.num_out ≤ max) × (length t.out ≡ length s.out)

copy-Ends :
    (enc : List ℕ) (max left i : ℕ) (s : Decoded)
    → s.num_out ≤ max
    → Ends (Grown max left s) (copy_block enc max left i s)
unfolding copy_block
copy-Ends enc max zero i s h = returned (omega arith)
copy-Ends enc max (suc left) i s h = Ends-fail_if (s.num_out == max) λ room.
    Ends-bind _ (load-Ends enc i) λ b _.
      Ends-bind _ (emit-Ends s b)
        λ t one. Ends-mono (copy-Ends enc max left (i + 1) t (ground arith)) λ u grown. ground arith

abbrev Bounded : ℕ → Decoded → Decoded → Type 0
Bounded max s t = (t.num_out ≤ max) × (length t.out ≡ length s.out)

decode_loop-Ends :
    (fuel : ℕ) (enc : List ℕ) (len max i : ℕ) (s : Decoded)
    → s.num_out ≤ max
    → max < fuel + s.num_out
    → Ends (λ t. Bounded max s t × (i < len)) (decode_loop fuel enc len max i s)
unfolding decode_loop
decode_loop-Ends zero enc len max i s h fuel = absurd (omega arith)
decode_loop-Ends (suc fuel) enc len max i s h enough = Ends-bind _ (load-Ends enc i) λ code _.
    Ends-bind _ (copy-Ends enc max (code - 1) (i + 1) s h) λ t grown.
      Ends-if (i + (if code == 0 then 1 else code) == len)
        (λ at_end. returned ((omega arith, omega arith), ground arith))
        λ _.
          Ends-if ((if code == 0 then 1 else code) == 255)
            (λ full.
              Ends-mono
                (decode_loop-Ends fuel enc len max (i + (if code == 0 then 1 else code)) t
                  (omega arith) (ground arith))
                λ u b. ((omega arith, omega arith), ground arith))
            λ _. Ends-fail_if (t.num_out == max) λ room. Ends-bind _ (emit-Ends t 0) λ u one.
              Ends-mono
                (decode_loop-Ends fuel enc len max (i + (if code == 0 then 1 else code)) u
                  (ground arith) (omega arith))
                λ w b. ((omega arith, omega arith), ground arith)

-- `Cobs_decode` comes to an end on every input: it returns a number of bytes within the stated
-- maximum and an output buffer of the same length, reports an error, or leaves its buffers, and the
-- `max_buf_out + 1` rounds that the model allows are enough.
pub decode_total :
    (enc_in : List ℕ) (enc_in_len : ℕ) (buf_out : List ℕ) (max_buf_out : ℕ)
    → Ends
        (λ (n, out). (n ≤ max_buf_out) × (length out ≡ length buf_out))
        (decode enc_in enc_in_len buf_out max_buf_out)
unfolding decode
decode_total enc_in len buf_out max =
    Ends-bind _
      (decode_loop-Ends (max + 1) enc_in len max 0 (record { num_out = 0; out = buf_out })
        (omega arith) (omega arith))
      λ t b. returned b.0

-- No input of length 0 is ever decoded: the run reports an error or leaves its buffers.
pub decode-empty :
    (enc_in buf_out : List ℕ) (max_buf_out : ℕ)
    → Ends (λ r. ⊥) (decode enc_in 0 buf_out max_buf_out)
unfolding decode
decode-empty enc_in buf_out max =
    Ends-bind _
      (decode_loop-Ends (max + 1) enc_in 0 max 0 (record { num_out = 0; out = buf_out })
        (omega arith) (omega arith))
      λ t b. absurd (omega arith)
