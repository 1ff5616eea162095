-- ===== src/CobsFrame/Receive.antt =====
-- What the deframer returns for bytes that hold a whole frame, or a part of one.
use esp32_components.Base.{
  ℕ, suc, ◌+◌, ◌<◌, ◌≤◌, ◌≡◌, ◌≢◌, ◌^◌, refl, ap, ◌∙◌, List, [], ◌∷◌, ◌++◌, inl, Outcome, returns,
  ◌>>=◌, arith, length, length-append, if◌then◌else◌, ne→==, eq→==, Bool,
}
use esp32_components.SwFifo.{SwFifo, write, count, avail}
use esp32_components.SwFifo.Inv.{avail_lem, count_lem}
use esp32_components.SwFifo.Write.{write-contents, write-IsValid, write_shape}
use esp32_components.SwFifo.Refine.{query_lem}
use esp32_components.Cobs.{decode}
use esp32_components.CobsFrame.{
  Deframer, starting, find_sof, find_eof, decoding, sof_loop, eof_loop, find_start, find_end,
  decode_work, after_decode, dispatch, step, rounds, after_write, deframer, Next, again, leave,
  Reply, frame, nothing,
}
use esp32_components.CobsFrame.Bytes.{Holds, count-Holds}
use esp32_components.CobsFrame.Search.{Nonzero, sof_loop-some, Working, eof-end, eof_loop-advance}

-- A deframer between frames, with `q` in its fifo.
pub record Ready (cap : ℕ) (q : List ℕ) (d : Deframer) : Type 0 where
  pub holds : Holds cap q d.fifo
  pub at_start : d.state ≡ starting
  pub sized : d.work_size ≡ length d.work
  pub small : d.work_size < 2 ^ 16

pub find_start-empty :
    (d : Deframer)
    → count d.fifo ≡ 0
    → find_start d ≡ returns (leave nothing (record d { state = starting }))
unfolding find_start
find_start-empty d h = rw ((query_lem d.fifo).0, eq→== (count d.fifo) 0 h)

pub find_start-sof_loop :
    (d : Deframer)
    → count d.fifo ≢ 0
    → find_start d ≡ (sof_loop (count d.fifo) d >>= λ d'. returns (again d'))
unfolding find_start
find_start-sof_loop d h = rw ((query_lem d.fifo).0, ne→== (count d.fifo) 0 h)

-- What is done after the search for the end.
abbrev pub after_eof : Outcome (Bool × Deframer) → Outcome Next
after_eof o = o >>= λ (found, d). returns (if found then again d else leave nothing d)

pub find_end-eof_loop :
    (d : Deframer) → count d.fifo ≢ 0 → find_end d ≡ after_eof (eof_loop (count d.fifo) d)
unfolding find_end
find_end-eof_loop d h = rw ((query_lem d.fifo).0, ne→== (count d.fifo) 0 h)

pub find_end-empty : (d : Deframer) → count d.fifo ≡ 0 → find_end d ≡ returns (leave nothing d)
unfolding find_end
find_end-empty d h = rw ((query_lem d.fifo).0, eq→== (count d.fifo) 0 h)

module _ (buf_out : List ℕ) (max_buf_out : ℕ) where
  pub rounds-again :
      (k : ℕ) (d d' : Deframer)
      → step d buf_out max_buf_out ≡ returns (again d')
      → rounds (suc k) d buf_out max_buf_out ≡ rounds k d' buf_out max_buf_out
  unfolding rounds
  rounds-again k d d' e = rw e refl

  pub rounds-leave :
      (k : ℕ) (d d' : Deframer) (r : Reply)
      → step d buf_out max_buf_out ≡ returns (leave r d')
      → rounds (suc k) d buf_out max_buf_out ≡ returns (r, d')
  unfolding rounds
  rounds-leave k d d' r e = rw e refl

  -- From the start of the frame on: `seen` are the bytes that earlier calls have put aside.
  pub step-sof :
      {cap : ℕ} (junk q : List ℕ) (d : Deframer)
      → Holds cap (junk ++ 0 ∷ q) d.fifo
      → Nonzero junk
      → d.state ≡ find_sof
      → d.count ≡ 0
      → d.work_size ≡ length d.work
      → d.work_size < 2 ^ 16
      → (d' : Deframer) × (step d buf_out max_buf_out ≡ returns (again d'))
        × Working cap q [] d'
        × (d'.state ≡ find_eof)
        × (d'.work_size ≡ d.work_size)
  unfolding dispatch
  step-sof {cap} junk q d h n s c z b =
      let l : count d.fifo ≡ suc (length junk + length q) =
        omega (arith, count-Holds h, length-append junk (0 ∷ q)) in
      let (g, e, k) = sof_loop-some junk q (count d.fifo) d h n (omega (arith, l)) in
      (
        record d { state = find_eof; fifo = g },
        ap (λ t. dispatch t d buf_out max_buf_out) s
            ∙ find_start-sof_loop d (omega (arith, l))
            ∙ ap (λ o. o >>= λ d'. returns (again d')) e,
        record { holds = k; free = d.work; work_is = refl; counted = c; sized = z; small = b },
        refl,
        refl,
      )

  pub step-eof :
      {cap : ℕ} (enc q seen : List ℕ) (d : Deframer)
      → Working cap (enc ++ 0 ∷ q) seen d
      → Nonzero enc
      → d.state ≡ find_eof
      → length seen + length enc < d.work_size
      → (d' : Deframer) × (step d buf_out max_buf_out ≡ returns (again d'))
        × Working cap q (seen ++ enc) d'
        × (d'.state ≡ decoding)
  unfolding dispatch
  step-eof {cap} enc q seen d w n s l =
      let c : count d.fifo ≡ length enc + suc (length q) =
        omega (arith, count-Holds w.holds, length-append enc (0 ∷ q)) in
      let (d', e, w', s', z) = eof_loop-advance enc w n (omega arith) in
      let (d'', e', w'', s'') = eof-end w' (omega (arith, length-append seen enc)) in
      (
        d'',
        ap (λ t. dispatch t d buf_out max_buf_out) s
            ∙ find_end-eof_loop d (omega (arith, c))
            ∙ ap after_eof (e (suc (length q)) (count d.fifo) c ∙ e' (length q)),
        w'',
        s'',
      )

  pub step-decode :
      (seen : List ℕ) (d : Deframer) (n : ℕ) (out : List ℕ)
      → d.state ≡ decoding
      → decode d.work d.count buf_out max_buf_out ≡ returns (n, out)
      → step d buf_out max_buf_out ≡ returns (leave (frame n out) (record d { state = starting }))
  unfolding dispatch decode_work after_decode
  step-decode seen d n out s e =
      ap (λ t. dispatch t d buf_out max_buf_out) s ∙ ap (after_decode d) e

-- What the rest of a call needs: the bytes go into the fifo when there is room for them.
pub deframer-rounds :
    {cap : ℕ} {q : List ℕ} (d : Deframer) (buf_in buf_out : List ℕ) (max_buf_out : ℕ)
    → Holds cap q d.fifo
    → length q + length buf_in ≤ cap
    → (g : SwFifo) × (deframer d buf_in buf_out max_buf_out
        ≡ rounds 5 (record d { fifo = g }) buf_out max_buf_out)
      × Holds cap (q ++ buf_in) g
unfolding deframer after_write
deframer-rounds d buf_in buf_out max h l =
    let v = h.fits.valid in
    let room : length buf_in ≤ avail d.fifo =
      omega (arith, avail_lem v, count_lem v, count-Holds h, h.fits.deep) in
    let (e, c, n) =
      write-contents buf_in (length buf_in) v (rw h.fits.bytes (omega arith)) room
        (inl h.fits.bytes) in
    let shape = write_shape d.fifo buf_in (length buf_in) in
    (
      (write d.fifo buf_in (length buf_in)).1,
      ap
          (λ r.
            after_write r (record d { fifo = (write d.fifo buf_in (length buf_in)).1 }) buf_out max)
          e,
      record {
        fits = record {
          valid = write-IsValid buf_in (length buf_in) v;
          bytes = ground (arith, shape, h.fits.bytes);
          deep = ground (arith, shape, h.fits.deep);
        };
        has = c ∙ ap (λ l. l ++ buf_in) h.has;
      },
    )
