-- ===== src/CobsFrame/Total.antt =====
-- Every call of the deframer ends, whatever bytes come in, and leaves a deframer that works.
use esp32_components.Base.{
  ℕ, zero, suc, ◌+◌, ◌<◌, ◌≤◌, ◌≡◌, ◌≢◌, ◌⊎◌, inl, inr, ◌^◌, ◌%◌, refl, sym, ◌∙◌, subst, List, [],
  ◌∷◌, Outcome, returns, fails, faults, unfinished, arith, length, ◌==◌, if◌then◌else◌, ne→==, Bool,
  true, false, Status, done, failed, Ends, Ends-bind, Ends-if, Ends-ne_unfinished, returned,
  faulted, load-Ends, length-set, set, ℕ_discrete,
}
use esp32_components.SwFifo.{write, count, flush}
use esp32_components.SwFifo.Inv.{contents}
use esp32_components.SwFifo.Write.{write-IsValid, write_shape}
use esp32_components.SwFifo.Refine.{IsByteFifo, flush_lem, flush_shape}
use esp32_components.Cobs.{decode}
use esp32_components.Cobs.Total.{decode_total}
use esp32_components.CobsFrame.{
  Deframer, State, starting, find_sof, find_eof, decoding, error, sof_loop, eof_loop, find_start,
  find_end, after_decode, decode_work, dispatch, rounds, after_write, deframer, Next, again, leave,
  Reply, frame, nothing,
}
use esp32_components.CobsFrame.Bytes.{Holds, count-Holds, read_byte-Holds}
use esp32_components.CobsFrame.Receive.{
  find_start-sof_loop, find_end-eof_loop, find_end-empty, find_start-empty,
}

-- The invariant of a deframer, in any state.
pub record IsSound (cap : ℕ) (d : Deframer) : Type 0 where
  pub fits : IsByteFifo cap d.fifo
  pub sized : d.work_size ≡ length d.work
  pub small : d.work_size < 2 ^ 16
  pub counted : d.count ≤ d.work_size

-- A returned frame is within the stated maximum, and `buf_out` keeps its length.
abbrev pub Within : ℕ → List ℕ → Reply → Type 0
Within max buf_out (frame n out) = (n ≤ max) × (length out ≡ length buf_out)
Within max buf_out nothing = Unit {0}

abbrev AfterSof : ℕ → Deframer → Type 0
AfterSof cap d =
    IsSound cap d × ((d.state ≡ find_eof) ⊎ ((d.state ≡ find_sof) × (count d.fifo ≡ 0)))

sof_loop-Ends :
    {cap : ℕ} (q : List ℕ) (d : Deframer)
    → IsSound cap d
    → Holds cap q d.fifo
    → d.state ≡ find_sof
    → Ends (AfterSof cap) (sof_loop (length q) d)
unfolding sof_loop
sof_loop-Ends [] d s h e = returned (s, inr (e, count-Holds h))
sof_loop-Ends {cap} (b ∷ q) d s h e =
    let (g, a, k) = read_byte-Holds (0 ∷ []) 0 h (omega arith) in
    let sound : (t : State) → IsSound cap (record d { fifo = g; state = t }) =
      λ t. record { fits = k.fits; sized = s.sized; small = s.small; counted = s.counted } in
    rw a (
      Ends-bind _ (load-Ends (b ∷ []) 0) (λ x u.
        Ends-if (x == 0) (λ _. returned (sound find_eof, inl refl))
          (λ _. sof_loop-Ends q (record d { fifo = g }) (sound d.state) k e)))

false_ne_true : false ≢ true
false_ne_true e = cc

abbrev AfterEof : ℕ → Bool × Deframer → Type 0
AfterEof cap (found, d) = IsSound cap d × (found ≡ true → d.state ≡ decoding)

eof_loop-Ends :
    {cap : ℕ} (q : List ℕ) (d : Deframer)
    → IsSound cap d
    → Holds cap q d.fifo
    → Ends (AfterEof cap) (eof_loop (length q) d)
unfolding eof_loop
eof_loop-Ends [] d s h = returned (s, λ e. absurd (false_ne_true e))
eof_loop-Ends {cap} (b ∷ q) d s h =
    Ends-if (d.count == d.work_size)
      (λ _. returned (
        record { fits = s.fits; sized = s.sized; small = s.small; counted = s.counted },
        λ e. absurd (false_ne_true e),
      ))
      (λ n.
        let l : d.count < d.work_size = ground (arith, n, s.counted) in
        let (g, a, k) = read_byte-Holds d.work d.count h (omega (arith, s.sized)) in
        let work = set d.work d.count b in
        let sound : (t : State) (c : ℕ)
            → c ≤ d.work_size
            → IsSound cap (record d { work = work; fifo = g; state = t; count = c }) =
          λ t c m. record {
            fits = k.fits;
            sized = s.sized ∙ sym (length-set d.work d.count b);
            small = s.small;
            counted = m;
          } in
        rw a (
          Ends-bind _ (load-Ends work d.count) (λ x u.
            Ends-if (x == 0) (λ _. returned (sound decoding d.count (omega arith), λ _. refl))
              (λ _.
                eof_loop-Ends q (record d { work = work; fifo = g; count = (d.count + 1) % 2 ^ 16 })
                  (sound d.state ((d.count + 1) % 2 ^ 16) (omega (arith, s.small))) k))))

-- How many rounds of the loop a deframer can still take.
rank_of : State → ℕ → ℕ
rank_of starting n = 5
rank_of find_sof n = if n == 0 then 1 else 4
rank_of find_eof n = 3
rank_of decoding n = 2
rank_of error n = 1

abbrev rank : Deframer → ℕ
rank d = rank_of d.state (count d.fifo)

rank_of_pos : (t : State) (n : ℕ) → 0 < rank_of t n
unfolding rank_of
rank_of_pos starting n = omega arith
rank_of_pos find_sof n = ground arith
rank_of_pos find_eof n = omega arith
rank_of_pos decoding n = omega arith
rank_of_pos error n = omega arith

rank_of_le : (t : State) (n : ℕ) → rank_of t n ≤ 5
unfolding rank_of
rank_of_le starting n = omega arith
rank_of_le find_sof n = ground arith
rank_of_le find_eof n = omega arith
rank_of_le decoding n = omega arith
rank_of_le error n = omega arith

rank-sof : (cap : ℕ) (d : Deframer) → AfterSof cap d → rank d < 4
unfolding rank_of
rank-sof cap d (s, inl e) = rw e (omega arith)
rank-sof cap d (s, inr (e, z)) = rw (e, z) (omega arith)

-- One round returns, or leads to a sound deframer of lower rank.
data After (cap max r : ℕ) (buf_out : List ℕ) : Next → Type 0 where
  goes_on : {d : Deframer} → IsSound cap d → rank d < r → After cap max r buf_out (again d)
  leaves :
      {d : Deframer} {w : Reply}
      → IsSound cap d
      → Within max buf_out w
      → After cap max r buf_out (leave w d)

module _ (cap : ℕ) (buf_out : List ℕ) (max : ℕ) where
  with_state :
      {d : Deframer} (t : State) (c : ℕ)
      → c ≤ d.work_size
      → IsSound cap d
      → IsSound cap (record d { state = t; count = c })
  with_state t c l s = record { fits = s.fits; sized = s.sized; small = s.small; counted = l }

  own : {d : Deframer} → IsSound cap d → Holds cap (contents d.fifo) d.fifo
  own s = record { fits = s.fits; has = refl }

  find_start-Ends :
      (d : Deframer)
      → IsSound cap d
      → d.state ≡ find_sof
      → Ends (After cap max (rank_of find_sof (count d.fifo)) buf_out) (find_start d)
  unfolding rank_of
  find_start-Ends d s e = elim (ℕ_discrete (count d.fifo) 0) [
    | yes z ↦
        rw (find_start-empty d z) (returned (leaves (with_state starting d.count s.counted s) tt))
    | no n ↦
        rw (find_start-sof_loop d n, ne→== (count d.fifo) 0 n)
          (Ends-bind _
            (subst (λ k. Ends (AfterSof cap) (sof_loop k d)) (sym (count-Holds (own s)))
              (sof_loop-Ends (contents d.fifo) d s (own s) e))
            (λ d' a. returned (goes_on a.0 (rank-sof cap d' a))))
  ]

  find_end-Ends : (d : Deframer) → IsSound cap d → Ends (After cap max 3 buf_out) (find_end d)
  unfolding rank_of
  find_end-Ends d s = elim (ℕ_discrete (count d.fifo) 0) [
    | yes z ↦ rw (find_end-empty d z) (returned (leaves s tt))
    | no n ↦ rw (find_end-eof_loop d n) (
        Ends-bind _
          (subst (λ k. Ends (AfterEof cap) (eof_loop k d)) (sym (count-Holds (own s)))
            (eof_loop-Ends (contents d.fifo) d s (own s)))
          (λ (found, d') a. returned (after_search found d' a)))
  ]
    where
      after_search :
          (found : Bool) (d' : Deframer)
          → AfterEof cap (found, d')
          → After cap max 3 buf_out (if found then again d' else leave nothing d')
      after_search true d' a = goes_on a.0 (rw (a.1 refl) (omega arith))
      after_search false d' a = leaves a.0 tt

  decode-Ends :
      (d : Deframer) (o : Outcome (ℕ × List ℕ))
      → IsSound cap d
      → Ends (λ (n, out). (n ≤ max) × (length out ≡ length buf_out)) o
      → Ends (After cap max 2 buf_out) (after_decode d o)
  unfolding after_decode rank_of
  decode-Ends d (returns (n, out)) s (returned b) =
      returned (leaves (with_state starting d.count s.counted s) b)
  decode-Ends d fails s e = returned (goes_on (with_state error d.count s.counted s) (omega arith))
  decode-Ends d faults s e = faulted
  decode-Ends d unfinished s e = absurd (Ends-ne_unfinished e refl)

  flush-IsSound :
      {d : Deframer}
      → IsSound cap d
      → IsSound cap (record d { fifo = flush d.fifo; state = starting })
  flush-IsSound {d} s = record {
    fits = record {
      valid = (flush_lem s.fits.valid).0;
      bytes = (flush_shape d.fifo).1 ∙ s.fits.bytes;
      deep = (flush_shape d.fifo).0 ∙ s.fits.deep;
    };
    sized = s.sized;
    small = s.small;
    counted = s.counted;
  }

  dispatch-Ends :
      (t : State) (d : Deframer)
      → d.state ≡ t
      → IsSound cap d
      → Ends (After cap max (rank_of t (count d.fifo)) buf_out) (dispatch t d buf_out max)
  unfolding dispatch decode_work rank_of
  dispatch-Ends starting d e s =
      returned (goes_on (with_state find_sof 0 (omega arith) s) (ground arith))
  dispatch-Ends find_sof d e s = find_start-Ends d s e
  dispatch-Ends find_eof d e s = find_end-Ends d s
  dispatch-Ends decoding d e s =
      decode-Ends d (decode d.work d.count buf_out max) s (decode_total d.work d.count buf_out max)
  dispatch-Ends error d e s = returned (leaves (flush-IsSound s) tt)

  abbrev pub Good : Reply × Deframer → Type 0
  Good (r, d) = IsSound cap d × Within max buf_out r

  next-Ends :
      (k r : ℕ) (next : Next)
      → ((d : Deframer) → IsSound cap d → rank d ≤ k → Ends Good (rounds k d buf_out max))
      → r ≤ suc k
      → After cap max r buf_out next
      → Ends Good (elim next [ again d' ↦ rounds k d' buf_out max | leave w d' ↦ returns (w, d') ])
  next-Ends k r (again d') rest l (goes_on s b) = rest d' s (omega arith)
  next-Ends k r (leave w d') rest l (leaves s b) = returned (s, b)

  rounds-Ends :
      (k : ℕ) (d : Deframer) → IsSound cap d → rank d ≤ k → Ends Good (rounds k d buf_out max)
  unfolding rounds
  rounds-Ends zero d s l = absurd (omega (arith, rank_of_pos d.state (count d.fifo)))
  rounds-Ends (suc k) d s l =
      Ends-bind _ (dispatch-Ends d.state d refl s)
        (λ next a. next-Ends k (rank d) next (rounds-Ends k) l a)

  after_write-Ends :
      (r : Status) (d : Deframer) → IsSound cap d → Ends Good (after_write r d buf_out max)
  unfolding after_write
  after_write-Ends failed d s = returned (flush-IsSound s, tt)
  after_write-Ends done d s = rounds-Ends 5 d s (rank_of_le d.state (count d.fifo))

  -- A call of the deframer ends on every input and in every state of a sound deframer, if not by an
  -- access outside a buffer then by a return that leaves the deframer sound; it returns at most `max`
  -- decoded bytes, and does not change the length of the buffer for them.
  pub deframer-Ends :
      (d : Deframer) (buf_in : List ℕ) → IsSound cap d → Ends Good (deframer d buf_in buf_out max)
  unfolding deframer
  deframer-Ends d buf_in s =
      let (r, fifo) = write d.fifo buf_in (length buf_in) in
      let shape = write_shape d.fifo buf_in (length buf_in) in
      after_write-Ends r (record d { fifo = fifo })
        (record {
          fits = record {
            valid = write-IsValid buf_in (length buf_in) s.fits.valid;
            bytes = ground (arith, shape, s.fits.bytes);
            deep = ground (arith, shape, s.fits.deep);
          };
          sized = s.sized;
          small = s.small;
          counted = s.counted;
        })
