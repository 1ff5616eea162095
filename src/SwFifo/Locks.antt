-- ===== src/SwFifo/Locks.antt =====
-- The mutex of a thread-safe fifo across each call.
use esp32_components.Base.{◌≡◌, arith}
use esp32_components.SwFifo.{
  SwFifo, lock, unlock, inc_wr_idx, inc_rd_idx, circ_write, flush, write, peek, ack, read,
  get_count, get_avail, is_empty, is_full,
}
use esp32_components.SwFifo.Queue.{
  Op, put, get, look, release, clear, ask_count, ask_avail, ask_empty, ask_full,
}
use esp32_components.SwFifo.Refine.{step}

-- Every call gives back the mutex as often as it takes it, on the paths that refuse a write or find
-- the fifo empty too, and whatever the indices are.
pub step-held : (f : SwFifo) (op : Op) → (step f op).1.held ≡ f.held
unfolding step lock unlock
step-held f (put d) = unfold write inc_wr_idx circ_write in ground arith
step-held f (get n) = unfold read peek ack inc_rd_idx in ground arith
step-held f (look n) = unfold peek in ground arith
step-held f (release n) = unfold ack inc_rd_idx in ground arith
step-held f clear = unfold flush in ground arith
step-held f ask_count = unfold get_count in ground arith
step-held f ask_avail = unfold get_avail in ground arith
step-held f ask_empty = unfold is_empty in ground arith
step-held f ask_full = unfold is_full in ground arith
