-- ===== src/CobsFrame/Tests.antt =====
-- The theorems on frames at concrete messages.
use esp32_components.Base.{
  ℕ, ◌≡◌, refl, List, [], ◌∷◌, replicate, take, none, false, returns, ◌>>=◌, arith,
}
use esp32_components.SwFifo.{SwFifo}
use esp32_components.SwFifo.Inv.{contents}
use esp32_components.Cobs.Spec.{stuff}
use esp32_components.Cobs.Clean.{zero_after_full}
use esp32_components.CobsFrame.{Deframer, starting, framer, deframer, frame, nothing}
use esp32_components.CobsFrame.Receive.{Ready}
use esp32_components.CobsFrame.Total.{IsSound, Good, deframer-Ends}
use esp32_components.CobsFrame.Init.{deframer_init-Ready}
use esp32_components.CobsFrame.{deframer_init}
use esp32_components.Base.{Ends, Option, some, done, length, length-replicate}
use esp32_components.CobsFrame.RoundTrip.{deframer-framer, deframer-split}

abbrev empty_fifo : SwFifo
empty_fifo = record {
  name = [];
  depth = 16;
  item_size = 1;
  wr_idx = 0;
  rd_idx = 0;
  threadsafe = false;
  lock = none;
  mem = replicate 17 0;
  held = 0;
}

abbrev fresh : Deframer
fresh = record {
  state = starting;
  work = replicate 16 0;
  work_size = 16;
  fifo = empty_fifo;
  count = 0;
}

fresh-Ready : Ready 16 [] fresh
unfolding contents
fresh-Ready = record {
  holds = record {
    fits = record {
      valid = record {
        storage = refl;
        small = omega arith;
        sized = omega arith;
        wr_in = omega arith;
        rd_in = omega arith;
      };
      bytes = refl;
      deep = refl;
    };
    has = refl;
  };
  at_start = refl;
  sized = refl;
  small = omega arith;
}

abbrev message : List ℕ
message = 1 ∷ 0 ∷ 2 ∷ []

abbrev room : List ℕ
room = replicate 8 0

deframer-framer_example :
    (d' : Deframer) × ((framer message room 8 >>= λ (n, enc). deframer fresh (take n enc) room 8)
      ≡ returns (frame 3 (1 ∷ 0 ∷ 2 ∷ 0 ∷ 0 ∷ 0 ∷ 0 ∷ 0 ∷ []), d'))
    × Ready 16 [] d'
unfolding stuff zero_after_full
deframer-framer_example =
    deframer-framer message refl room 8 (omega arith) (omega arith) fresh room 8 (omega arith)
      (omega arith) fresh-Ready (omega arith) (omega arith)

deframer-split_example :
    (d' d'' : Deframer) × (deframer fresh (0 ∷ 2 ∷ 1 ∷ []) room 8 ≡ returns (nothing, d'))
    × (deframer d' (2 ∷ 2 ∷ 0 ∷ []) room 8
        ≡ returns (frame 3 (1 ∷ 0 ∷ 2 ∷ 0 ∷ 0 ∷ 0 ∷ 0 ∷ 0 ∷ []), d''))
    × Ready 16 [] d''
unfolding stuff zero_after_full
deframer-split_example =
    deframer-split message refl room 8 (omega arith) (omega arith) fresh (2 ∷ 1 ∷ []) (2 ∷ 2 ∷ [])
      refl fresh-Ready (omega arith) (omega arith)

fresh-IsSound : IsSound 16 fresh
fresh-IsSound = record {
  fits = fresh-Ready.holds.fits;
  sized = refl;
  small = omega arith;
  counted = omega arith;
}

deframer-Ends_example : Ends (Good 16 room 8) (deframer fresh (0 ∷ 7 ∷ 0 ∷ 9 ∷ []) room 8)
deframer-Ends_example = deframer-Ends 16 room 8 fresh (0 ∷ 7 ∷ 0 ∷ 9 ∷ []) fresh-IsSound

-- An allocator that never runs out, of zeroed blocks.
abbrev zero_block : ℕ → Option (List ℕ)
zero_block n = some (replicate n 0)

length-zero_block : (n : ℕ) (b : List ℕ) → zero_block n ≡ some b → length b ≡ n
length-zero_block n b e = ground (arith, length-replicate {A = ℕ} n 0)

deframer_init-Ready_example :
    let (r, d') = deframer_init zero_block none fresh [] 4 in
    (r ≡ done) × Ready 4 [] d' × (d'.work_size ≡ 4)
deframer_init-Ready_example =
    deframer_init-Ready zero_block none length-zero_block fresh [] 4 (omega arith) (λ e. cc)
      (λ e. cc)
