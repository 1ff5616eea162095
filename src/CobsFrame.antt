-- ===== src/CobsFrame.antt =====
-- Cobs/src/Cobs_frame.c: frames of COBS bytes between zero bytes, written by the framer and found in a
-- byte stream by the deframer. Buffers are lists with an end, as in Cobs.
pub mod Bytes
pub mod Search
pub mod Receive
pub mod Stream
pub mod RoundTrip
pub mod Total
pub mod Init
mod Tests
use esp32_components.Base.{
  ℕ, zero, suc, ◌+◌, ◌%◌, ◌^◌, Bool, true, false, List, [], ◌∷◌, ◌==◌, if◌then◌else◌, leb, Option,
  none, some, Status, done, failed, Outcome, returns, fails, faults, unfinished, ◌>>=◌, fail_if,
  load, store, take, drop, ◌++◌, length,
}
use esp32_components.SwFifo.{SwFifo, write, read, get_count, flush, init}
use esp32_components.Cobs.{encode, decode}

pub data State : Type 0 where
  starting find_sof find_eof decoding error : State

-- `work` is the working buffer, and `work_size` the length of it that the deframer goes by.
pub record Deframer : Type 0 where
  pub state : State
  pub work : List ℕ
  pub work_size : ℕ
  pub fifo : SwFifo
  pub count : ℕ

-- What a call returns: a decoded frame, its length and `buf_out` after the call, or 0.
pub data Reply : Type 0 where
  frame : ℕ → List ℕ → Reply
  nothing : Reply

-- `enc_out` from its second byte on goes to the encoder.
unfoldable pub framer : List ℕ → List ℕ → ℕ → Outcome (ℕ × List ℕ)
framer buf_in [] max_enc_len = encode buf_in [] max_enc_len >>= λ r. faults
framer buf_in (x ∷ enc_out) max_enc_len = do
  (num, enc) ← encode buf_in enc_out max_enc_len
  fail_if (num == 0) (
      fail_if (leb max_enc_len (num + 2))
        (do out ← store (0 ∷ enc) (1 + num) 0; returns (num + 2, out)))

-- One byte out of the fifo into `buf[i]`; nothing is stored when the fifo is empty.
unfoldable pub read_byte : SwFifo → List ℕ → ℕ → Outcome (List ℕ × SwFifo)
read_byte fifo buf i =
    let (n, byte, fifo') = read fifo (0 ∷ []) 1 in
    if n == 0
    then returns (buf, fifo')
    else (do b ← load byte 0; buf' ← store buf i b; returns (buf', fifo'))

-- The search for a start of frame, with `left` bytes to look at.
unfoldable pub sof_loop : ℕ → Deframer → Outcome Deframer
unfolding read_byte
sof_loop zero d = returns d
sof_loop (suc left) d = do
  (byte, fifo) ← read_byte d.fifo (0 ∷ []) 0
  b ← load byte 0
  if b == 0
      then returns (record d { state = find_eof; fifo = fifo })
      else sof_loop left (record d { fifo = fifo })

-- The search for the end of the frame, with `left` bytes to look at: whether it was found.
unfoldable pub eof_loop : ℕ → Deframer → Outcome (Bool × Deframer)
unfolding read_byte
eof_loop zero d = returns (false, d)
eof_loop (suc left) d =
    if d.count == d.work_size then returns (false, record d { state = error }) else (do
      (work, fifo) ← read_byte d.fifo d.work d.count
      b ← load work d.count
      let d' : Deframer = record d { work = work; fifo = fifo }
      if b == 0
          then returns (true, record d' { state = decoding })
          else eof_loop left (record d' { count = (d.count + 1) % 2 ^ 16 }))

-- Another round of `while (1)`, or the return from it.
pub data Next : Type 0 where
  again : Deframer → Next
  leave : Reply → Deframer → Next

unfoldable pub find_start : Deframer → Outcome Next
unfolding sof_loop
find_start d =
    let (avail, fifo) = get_count d.fifo in
    let d' : Deframer = record d { fifo = fifo } in
    if avail == 0
    then returns (leave nothing (record d' { state = starting }))
    else (do d'' ← sof_loop avail d'; returns (again d''))

unfoldable pub find_end : Deframer → Outcome Next
unfolding eof_loop
find_end d =
    let (avail, fifo) = get_count d.fifo in
    let d' : Deframer = record d { fifo = fifo } in
    if avail == 0 then returns (leave nothing d') else (do
      (found, d'') ← eof_loop avail d'
      returns (if found then again d'' else leave nothing d''))

-- The decoder's error return leads to the state `error`.
unfoldable pub after_decode : Deframer → Outcome (ℕ × List ℕ) → Outcome Next
after_decode d (returns (num, out)) =
    returns (leave (frame num out) (record d { state = starting }))
after_decode d fails = returns (again (record d { state = error }))
after_decode d faults = faults
after_decode d unfinished = unfinished

unfoldable pub decode_work : Deframer → List ℕ → ℕ → Outcome Next
unfolding after_decode
decode_work d buf_out max_buf_out = after_decode d (decode d.work d.count buf_out max_buf_out)

-- The cases of the switch.
unfoldable pub dispatch : State → Deframer → List ℕ → ℕ → Outcome Next
unfolding find_start find_end decode_work
dispatch starting d buf_out max_buf_out = returns (again (record d { count = 0; state = find_sof }))
dispatch find_sof d buf_out max_buf_out = find_start d
dispatch find_eof d buf_out max_buf_out = find_end d
dispatch decoding d buf_out max_buf_out = decode_work d buf_out max_buf_out
dispatch error d buf_out max_buf_out =
    returns (leave nothing (record d { fifo = flush d.fifo; state = starting }))

abbrev pub step : Deframer → List ℕ → ℕ → Outcome Next
step d buf_out max_buf_out = dispatch d.state d buf_out max_buf_out

unfoldable pub rounds : ℕ → Deframer → List ℕ → ℕ → Outcome (Reply × Deframer)
unfolding dispatch
rounds zero d buf_out max_buf_out = unfinished
rounds (suc fuel) d buf_out max_buf_out = do
  next ← step d buf_out max_buf_out
  elim next [ again d' ↦ rounds fuel d' buf_out max_buf_out | leave r d' ↦ returns (r, d') ]

-- Each state but the last leads to a later one, so five rounds are enough.
unfoldable pub after_write : Status → Deframer → List ℕ → ℕ → Outcome (Reply × Deframer)
unfolding rounds
after_write failed d buf_out max_buf_out =
    returns (nothing, record d { fifo = flush d.fifo; state = starting })
after_write done d buf_out max_buf_out = rounds 5 d buf_out max_buf_out

unfoldable pub deframer : Deframer → List ℕ → List ℕ → ℕ → Outcome (Reply × Deframer)
unfolding after_write
deframer d buf_in buf_out max_buf_out =
    let (r, fifo) = write d.fifo buf_in (length buf_in) in
    after_write r (record d { fifo = fifo }) buf_out max_buf_out

-- `name` is "cobs_deframer". `alloc` is `malloc`, and `mutex` what RTOS_MUTEX_CREATE() returns, as for
-- `SwFifo.init`.
module _ (alloc : ℕ → Option (List ℕ)) (mutex : Option ℕ) where
  -- What follows the allocation of the working buffer.
  unfoldable pub after_alloc :
      Option (List ℕ) → Deframer → (name : List ℕ) (buf_depth : ℕ) → Status × Deframer
  after_alloc none d name buf_depth =
      (failed, record d { state = starting; work = []; work_size = buf_depth })
  after_alloc (some work) d name buf_depth =
      let (r, fifo) = init alloc mutex d.fifo name buf_depth 1 none 0 false in
      (r, record d { state = starting; work = work; work_size = buf_depth; fifo = fifo })

  unfoldable pub deframer_init : Deframer → (name : List ℕ) (buf_depth : ℕ) → Status × Deframer
  unfolding after_alloc
  deframer_init d name buf_depth = after_alloc (alloc buf_depth) d name buf_depth
