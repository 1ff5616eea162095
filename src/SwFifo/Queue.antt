-- ===== src/SwFifo/Queue.antt =====
-- What a fifo of bytes promises its client: a bounded queue, oldest byte first, and the calls and
-- replies by which a client sees it.
use esp32_components.Base.{
  ℕ, ◌-◌, ◌≤◌, Bool, List, [], ◌∷◌, ◌++◌, ltb, ◌==◌, if◌then◌else◌, length, take, drop, Status,
  done, failed,
}

pub data Op : Type 0 where
  put : List ℕ → Op
  get : ℕ → Op
  look : ℕ → Op
  release : ℕ → Op
  clear ask_count ask_avail ask_empty ask_full : Op

pub data Reply : Type 0 where
  wrote : Status → Reply
  got : List ℕ → Reply
  number : ℕ → Reply
  flag : Bool → Reply
  nothing : Reply

-- One call on a queue of at most `cap` bytes.
unfoldable pub step : ℕ → List ℕ → Op → Reply × List ℕ
step cap q (put d) =
    if ltb (cap - length q) (length d) then (wrote failed, q) else (wrote done, q ++ d)
step cap q (get n) = (got (take n q), drop n q)
step cap q (look n) = (got (take n q), q)
step cap q (release n) = (nothing, drop n q)
step cap q clear = (nothing, [])
step cap q ask_count = (number (length q), q)
step cap q ask_avail = (number (cap - length q), q)
step cap q ask_empty = (flag (length q == 0), q)
step cap q ask_full = (flag (length q == cap), q)

-- No more bytes are released than there are.
abbrev pub Allowed : List ℕ → Op → Type 0
Allowed q (release n) = n ≤ length q
Allowed q (put d) = Unit
Allowed q (get n) = Unit
Allowed q (look n) = Unit
Allowed q clear = Unit
Allowed q ask_count = Unit
Allowed q ask_avail = Unit
Allowed q ask_empty = Unit
Allowed q ask_full = Unit

unfoldable pub AllAllowed : ℕ → List ℕ → List Op → Type 0
AllAllowed cap q [] = Unit
AllAllowed cap q (op ∷ ops) = Allowed q op × AllAllowed cap (step cap q op).1 ops

unfoldable pub run : ℕ → List ℕ → List Op → List Reply
run cap q [] = []
run cap q (op ∷ ops) = let (r, q') = step cap q op in r ∷ run cap q' ops
