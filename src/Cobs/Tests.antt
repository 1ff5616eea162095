-- ===== src/Cobs/Tests.antt =====
-- Runs of the COBS coder at concrete messages, and its theorems there.
use esp32_components.Base.{
  ℕ, ◌≤◌, ◌≡◌, refl, true, List, [], ◌∷◌, ◌++◌, arith, length, drop, take, replicate, returns,
  faults, Ends, ◌>>=◌,
}
use esp32_components.Cobs.{encode, decode}
use esp32_components.Cobs.Spec.{stuff, stuffed}
use esp32_components.Cobs.Encode.{encode-stuffed}
use esp32_components.Cobs.RoundTrip.{decode-encode}
use esp32_components.Cobs.Clean.{no_zero, zero_after_full, encode-no_zero}
use esp32_components.Cobs.Total.{decode_total}
use esp32_components.Cobs.Overrun.{encode_overruns}

abbrev message : List ℕ
message = 17 ∷ 0 ∷ 0 ∷ 34 ∷ 51 ∷ []

abbrev buffer : List ℕ
buffer = 9 ∷ 9 ∷ 9 ∷ 9 ∷ 9 ∷ 9 ∷ 9 ∷ 9 ∷ []

stuffed-message : stuffed message ≡ 2 ∷ 17 ∷ 1 ∷ 3 ∷ 34 ∷ 51 ∷ []
unfolding stuff
stuffed-message = refl

encode-stuffed_example :
    encode message buffer 8
    ≡ returns (length (stuffed message), stuffed message ++ drop (length (stuffed message)) buffer)
unfolding stuff
encode-stuffed_example = encode-stuffed message buffer 8 (omega arith) (omega arith)

decode-encode_example :
    (encode message buffer 8 >>= λ (num, enc). decode enc num buffer 5)
    ≡ returns (5, message ++ drop 5 buffer)
decode-encode_example =
    decode-encode message buffer buffer 8 5 (omega arith) (omega arith) (omega arith) (omega arith)

encode-no_zero_example :
    (encode message buffer 8 >>= λ (n, enc). returns (no_zero (take n enc))) ≡ returns true
unfolding stuff zero_after_full
encode-no_zero_example = encode-no_zero message buffer 8 (omega arith) (omega arith)

-- A zero byte after 254 nonzero bytes is passed on as it is.
long_run : zero_after_full 0 (replicate 254 1 ++ 0 ∷ []) ≡ true
unfolding zero_after_full
long_run = refl

decode_total_example :
    Ends (λ (n, out). (n ≤ 3) × (length out ≡ 8)) (decode (5 ∷ 1 ∷ 0 ∷ []) 3 buffer 3)
decode_total_example = decode_total (5 ∷ 1 ∷ 0 ∷ []) 3 buffer 3

encode_overruns_example : encode (replicate 3 0) (9 ∷ 9 ∷ []) 2 ≡ faults
encode_overruns_example = encode_overruns 3 (9 ∷ 9 ∷ []) 2 (omega arith)
