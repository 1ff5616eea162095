-- ===== src/SwFifo/Tests.antt =====
-- Runs of SwFifo at concrete fifos, and its theorems there.
use esp32_components.Base.{
  ℕ, ◌+◌, ◌*◌, ◌≡◌, ◌≢◌, ◌↔◌, refl, true, false, Option, none, some, List, [], ◌∷◌, ◌++◌, arith,
  length, length-replicate, replicate, failed, done, drop,
}
use esp32_components.SwFifo.{SwFifo, write, ack, count, avail, init}
use esp32_components.SwFifo.Inv.{IsValid, contents}
use esp32_components.SwFifo.Queue
use esp32_components.SwFifo.Queue.{Op, put, get, look, release, clear, ask_count, ask_full}
use esp32_components.SwFifo.Refine.{step, run, run_refines}
use esp32_components.SwFifo.Write.{write_full, write_misplaces}
use esp32_components.SwFifo.Read.{ack-contents}
use esp32_components.SwFifo.Init.{init-Fresh, init-done_iff}
use esp32_components.SwFifo.Locks.{step-held}

-- Three bytes at most; 7 is the oldest and 8, round the end of the block, the newest.
abbrev wrapped : SwFifo
wrapped = record {
  name = [];
  depth = 3;
  item_size = 1;
  wr_idx = 1;
  rd_idx = 3;
  threadsafe = true;
  lock = some 1;
  mem = 8 ∷ 0 ∷ 0 ∷ 7 ∷ [];
  held = 0;
}

-- Items of two bytes, with two free places at the end of the block and one at its start.
abbrev pairs : SwFifo
pairs = record wrapped {
  item_size = 2;
  wr_idx = 2;
  rd_idx = 2;
  mem = 0 ∷ 0 ∷ 0 ∷ 0 ∷ 0 ∷ 0 ∷ 0 ∷ 0 ∷ [];
}

wrapped-IsValid : IsValid wrapped
wrapped-IsValid = omega arith

pairs-IsValid : IsValid pairs
pairs-IsValid = omega arith

contents-wrapped : contents wrapped ≡ 7 ∷ 8 ∷ []
unfolding contents
contents-wrapped = refl

abbrev session : List Op
session =
    put (9 ∷ [])
    ∷ ask_full
    ∷ put (1 ∷ [])
    ∷ look 2
    ∷ release 2
    ∷ look 5
    ∷ ask_count
    ∷ clear
    ∷ get 1
    ∷ []

run_refines_example : run wrapped session ≡ Queue.run 3 (contents wrapped) session
unfolding Queue.AllAllowed Queue.step contents
run_refines_example =
    run_refines session (record { valid = wrapped-IsValid; bytes = refl; deep = refl })
      (_, (_, (_, (_, (omega arith, _)))))

write_misplaces_example :
    contents (write pairs (1 ∷ 2 ∷ 3 ∷ 4 ∷ 5 ∷ 6 ∷ []) 3).1
    ≢ contents pairs ++ 1 ∷ 2 ∷ 3 ∷ 4 ∷ 5 ∷ 6 ∷ []
unfolding avail count
write_misplaces_example =
    write_misplaces (1 ∷ 2 ∷ 3 ∷ 4 ∷ 5 ∷ 6 ∷ []) 3 pairs-IsValid refl (omega arith) (omega arith)
      (omega arith) (λ e. cc e)

write_full_example : write wrapped (9 ∷ 9 ∷ []) 2 ≡ (failed, wrapped)
unfolding avail count
write_full_example = write_full (9 ∷ 9 ∷ []) 2 (omega arith)

ack-contents_example :
    IsValid (ack wrapped 1)
    × (contents (ack wrapped 1) ≡ drop (1 * 1) (contents wrapped))
    × (count (ack wrapped 1) + 1 ≡ count wrapped)
unfolding count
ack-contents_example = ack-contents 1 wrapped-IsValid (omega arith)

step-held_example : (step wrapped (put (9 ∷ 9 ∷ []))).1.held ≡ 0
step-held_example = step-held wrapped (put (9 ∷ 9 ∷ []))

-- An allocator that never runs out, of zeroed blocks.
abbrev zeroed : ℕ → Option (List ℕ)
zeroed n = some (replicate n 0)

length-zeroed : (n : ℕ) (b : List ℕ) → zeroed n ≡ some b → length b ≡ n
length-zeroed n b e = ground (arith, length-replicate {A = ℕ} n 0)

abbrev made : SwFifo
made = record wrapped {
  name = 102 ∷ [];
  lock = some 5;
  wr_idx = 0;
  rd_idx = 0;
  mem = 0 ∷ 0 ∷ 0 ∷ 0 ∷ [];
}

init-Fresh_example :
    IsValid made
    × (contents made ≡ [])
    × (made.depth ≡ 3)
    × (made.item_size ≡ 1)
    × (made.threadsafe ≡ true)
unfolding init
init-Fresh_example =
    init-Fresh zeroed (some 5) length-zeroed (record wrapped { name = 0 ∷ [] }) (102 ∷ []) 3 1 true
      (omega arith) (omega arith) none 0 (λ b e. cc) refl

abbrev absent : Option ℕ
absent = none

init-done_iff_example :
    ((init zeroed absent wrapped [] 3 1 (some (0 ∷ [])) 1 false).0 ≡ done)
    ↔ ((1 ≡ (3 + 1) * 1) × (false ≡ true → absent ≢ none))
init-done_iff_example =
    init-done_iff zeroed absent length-zeroed wrapped [] 3 1 false (omega arith) (omega arith)
      (some (0 ∷ [])) 1
