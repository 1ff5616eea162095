-- ===== src/Cobs/RoundTrip.antt =====
-- `Cobs_encode` followed by `Cobs_decode`.
use esp32_components.Base.{ℕ, ◌+◌, ◌/◌, ◌≤◌, ◌≡◌, List, ◌++◌, arith, length, drop, returns, ◌>>=◌}
use esp32_components.Cobs.{encode, decode}
use esp32_components.Cobs.Spec.{stuffed, length-stuffed}
use esp32_components.Cobs.Encode.{encode-stuffed}
use esp32_components.Cobs.Decode.{decode-stuffed}

-- What the encoder wrote into a buffer of `n + 1 + n / 254` bytes or more, the decoder turns back into
-- the `n` bytes of the message, whatever they are, given an output buffer that holds them.
pub decode-encode :
    (msg enc_out buf_out : List ℕ) (max_enc_len max_buf_out : ℕ)
    → length msg + 1 + length msg / 254 ≤ length enc_out
    → length msg + 1 + length msg / 254 ≤ max_enc_len
    → length msg ≤ length buf_out
    → length msg ≤ max_buf_out
    → (encode msg enc_out max_enc_len >>= λ (num, enc). decode enc num buf_out max_buf_out)
      ≡ returns (length msg, msg ++ drop (length msg) buf_out)
decode-encode msg enc_out buf_out max_enc max_out r m r' m' =
    rw
      (encode-stuffed msg enc_out max_enc (omega (arith, length-stuffed msg))
        (omega (arith, length-stuffed msg)))
      (decode-stuffed msg (drop (length (stuffed msg)) enc_out) buf_out max_out r' m')
