-- ===== src/Cobs.antt =====
-- Cobs/src/Cobs.c: the COBS encoder and decoder over byte buffers. A buffer is the list of the bytes
-- that it holds, and an access outside it is `faults`; the lengths that the caller states are
-- arguments of their own. The index variables are `int`s below 2^31, here natural numbers.
pub mod Spec
pub mod Encode
mod DecodeBlock
mod EncodeStep
pub mod Decode
pub mod RoundTrip
pub mod Clean
pub mod Total
pub mod Overrun
mod Tests
use esp32_components.Base.{
  ℕ, zero, suc, ◌+◌, ◌-◌, ◌||◌, List, [], ◌∷◌, ◌==◌, if◌then◌else◌, Outcome, returns, unfinished,
  ◌>>=◌, fail_if, u8, load, store,
}

-- `count` bytes of the current block have been read; its code byte goes to `code_word_idx`.
pub record Encoder : Type 0 where
  pub count : ℕ
  pub code_word_idx : ℕ
  pub out : List ℕ

-- A byte that ends a block: an escaped byte, or the 255th.
end_block : ℕ → Encoder → ℕ → Outcome Encoder
end_block max_enc_len s byte = do
  out ← store s.out s.code_word_idx (u8 s.count)
  let next = s.code_word_idx + s.count
  let wr_idx = next + 1
  if s.count == 255
      then fail_if (wr_idx == max_enc_len) (do
        out' ← store out wr_idx byte
        returns (record { count = 1; code_word_idx = next; out = out' }))
      else returns (record { count = 0; code_word_idx = next; out = out })

pub encode_step : ℕ → Encoder → ℕ → Outcome Encoder
unfolding end_block
encode_step max_enc_len s byte =
    let count = s.count + 1 in
    let wr_idx = s.code_word_idx + count in
    if byte == 0 || count == 255
    then end_block max_enc_len (record s { count = count }) byte
    else fail_if (wr_idx == max_enc_len)
        (do out ← store s.out wr_idx byte; returns (record s { count = count; out = out }))

-- The rounds of `while (rd_idx != buf_in_len)`, over the bytes from `rd_idx` on.
pub encode_loop : ℕ → Encoder → List ℕ → Outcome Encoder
encode_loop max_enc_len s [] = returns s
encode_loop max_enc_len s (byte ∷ rest) = do
  s' ← encode_step max_enc_len s byte
  encode_loop max_enc_len s' rest

-- The last code byte; the return value, and `enc_out` after the call.
pub finish : Encoder → Outcome (ℕ × List ℕ)
finish s = do
  out ← store s.out s.code_word_idx (u8 (s.count + 1))
  returns (s.code_word_idx + (s.count + 1), out)

pub encode : List ℕ → List ℕ → ℕ → Outcome (ℕ × List ℕ)
encode buf_in enc_out max_enc_len =
    encode_loop max_enc_len (record { count = 0; code_word_idx = 0; out = enc_out }) buf_in
    >>= finish

-- What the decoder has written: `num_out` bytes of `buf_out`.
pub record Decoded : Type 0 where
  pub num_out : ℕ
  pub out : List ℕ

-- One byte to the output, after the caller's overflow check.
pub emit : Decoded → ℕ → Outcome Decoded
emit s byte = do
  out ← store s.out s.num_out byte
  returns (record { num_out = s.num_out + 1; out = out })

-- The `for` loop with `left` rounds to go, `p_data` an index into the input.
pub copy_block : List ℕ → ℕ → ℕ → ℕ → Decoded → Outcome Decoded
unfolding emit
copy_block enc_in max_buf_out zero p_data s = returns s
copy_block enc_in max_buf_out (suc left) p_data s = fail_if (s.num_out == max_buf_out) (do
  byte ← load enc_in p_data
  s' ← emit s byte
  copy_block enc_in max_buf_out left (p_data + 1) s')

-- The rounds of `while (1)`, on fuel; `p_code` is an index into the input. A code byte of zero leaves
-- `count` at 1.
pub decode_loop : ℕ → List ℕ → ℕ → ℕ → ℕ → Decoded → Outcome Decoded
unfolding emit
decode_loop zero enc_in enc_in_len max_buf_out p_code s = unfinished
decode_loop (suc fuel) enc_in enc_in_len max_buf_out p_code s = do
  code ← load enc_in p_code
  s' ← copy_block enc_in max_buf_out (code - 1) (p_code + 1) s
  let count = if code == 0 then 1 else code
  let p_code' = p_code + count
  let continue = λ (t : Decoded). decode_loop fuel enc_in enc_in_len max_buf_out p_code' t
  if p_code' == enc_in_len
      then returns s'
      else if count == 255
      then continue s'
      else fail_if (s'.num_out == max_buf_out) (emit s' 0 >>= continue)

-- The return value, and `buf_out` after the call. Every round but the last writes a byte, so
-- `max_buf_out + 1` rounds are enough.
pub decode : List ℕ → ℕ → List ℕ → ℕ → Outcome (ℕ × List ℕ)
decode enc_in enc_in_len buf_out max_buf_out = do
  s ←
      decode_loop (max_buf_out + 1) enc_in enc_in_len max_buf_out 0
        (record { num_out = 0; out = buf_out })
  returns (s.num_out, s.out)
