-- ===== src/CobsFrame/Stream.antt =====
-- The deframer over a stream that arrives in pieces.
use esp32_components.Base.{
  ℕ, suc, ◌+◌, ◌<◌, ◌≤◌, ◌≡◌, refl, sym, ap, ◌∙◌, subst, List, [], ◌∷◌, ◌++◌, append-nil, returns,
  arith, length,
}
use esp32_components.Cobs.{decode}
use esp32_components.SwFifo.{count}
use esp32_components.CobsFrame.{
  Deframer, starting, find_sof, find_eof, rounds, deframer, frame, nothing, dispatch, eof_loop,
}
use esp32_components.CobsFrame.Bytes.{Holds, count-Holds}
use esp32_components.CobsFrame.Search.{Nonzero, Working, eof_loop-advance}
use esp32_components.CobsFrame.Receive.{
  Ready, rounds-again, rounds-leave, step-sof, step-eof, step-decode, deframer-rounds,
  find_end-eof_loop, find_end-empty, after_eof,
}

-- A deframer inside a frame, with the bytes `seen` of it and an empty fifo.
pub record Waiting (cap : ℕ) (seen : List ℕ) (d : Deframer) : Type 0 where
  pub working : Working cap [] seen d
  pub inside : d.state ≡ find_eof

module _ (buf_out : List ℕ) (max_buf_out : ℕ) where
  -- The last two rounds of a call that sees the end of a frame.
  rounds-frame :
      {cap : ℕ} (k : ℕ) (enc q seen : List ℕ) (d : Deframer) (n : ℕ) (out : List ℕ)
      → Working cap (enc ++ 0 ∷ q) seen d
      → Nonzero enc
      → d.state ≡ find_eof
      → length seen + length enc < d.work_size
      → ((post : List ℕ)
          → decode ((seen ++ enc) ++ post) (length (seen ++ enc)) buf_out max_buf_out
            ≡ returns (n, out))
      → (d' : Deframer) × (rounds (suc (suc k)) d buf_out max_buf_out ≡ returns (frame n out, d'))
        × Ready cap q d'
  rounds-frame k enc q seen d n out w z s l e =
      let (d', a, w', s') = step-eof buf_out max_buf_out enc q seen d w z s l in
      let decoded =
        ap (λ b. decode b d'.count buf_out max_buf_out) w'.work_is
        ∙ ap (λ c. decode ((seen ++ enc) ++ w'.free) c buf_out max_buf_out) w'.counted
        ∙ e w'.free in
      (
        record d' { state = starting },
        rounds-again buf_out max_buf_out (suc k) d d' a
            ∙ rounds-leave buf_out max_buf_out k d' (record d' { state = starting }) (frame n out)
                (step-decode buf_out max_buf_out (seen ++ enc) d' n out s' decoded),
        record { holds = w'.holds; at_start = refl; sized = w'.sized; small = w'.small },
      )

  -- The first two rounds of a call on a deframer between frames.
  rounds-sof :
      {cap : ℕ} (k : ℕ) (junk q : List ℕ) (d : Deframer)
      → Ready cap (junk ++ 0 ∷ q) d
      → Nonzero junk
      → (d' : Deframer) × (rounds (suc (suc k)) d buf_out max_buf_out
          ≡ rounds k d' buf_out max_buf_out)
        × Working cap q [] d'
        × (d'.state ≡ find_eof)
        × (d'.work_size ≡ d.work_size)
  unfolding dispatch
  rounds-sof k junk q d r n =
      let d₁ : Deframer = record d { count = 0; state = find_sof } in
      let (d', e, w, s, z) =
        step-sof buf_out max_buf_out junk q d₁ r.holds n refl refl r.sized r.small in
      (
        d',
        rounds-again buf_out max_buf_out (suc k) d d₁
              (ap (λ t. dispatch t d buf_out max_buf_out) r.at_start)
            ∙ rounds-again buf_out max_buf_out k d₁ d' e,
        w,
        s,
        z,
      )

  -- The bytes of a frame that has not ended are put aside.
  rounds-wait :
      {cap : ℕ} (k : ℕ) (part seen : List ℕ) (d : Deframer)
      → Working cap part seen d
      → Nonzero part
      → d.state ≡ find_eof
      → length seen + length part ≤ d.work_size
      → (d' : Deframer) × (rounds (suc k) d buf_out max_buf_out ≡ returns (nothing, d'))
        × Waiting cap (seen ++ part) d'
        × (d'.work_size ≡ d.work_size)
  unfolding dispatch eof_loop
  rounds-wait {cap} k [] seen d w z s l = (
    d,
    rounds-leave buf_out max_buf_out k d d nothing
        (ap (λ t. dispatch t d buf_out max_buf_out) s ∙ find_end-empty d (count-Holds w.holds)),
    record { working = subst (λ x. Working cap [] x d) (sym (append-nil seen)) w; inside = s },
    refl,
  )
  rounds-wait {cap} k (b ∷ part) seen d w z s l =
      let c : count d.fifo ≡ suc (length part) = count-Holds w.holds in
      let w' = subst (λ x. Working cap x seen d) (sym (append-nil (b ∷ part))) w in
      let (d', e, w'', s', t) = eof_loop-advance (b ∷ part) w' z l in
      (
        d',
        rounds-leave buf_out max_buf_out k d d' nothing (
            ap (λ t. dispatch t d buf_out max_buf_out) s
            ∙ find_end-eof_loop d (omega (arith, c))
            ∙ ap after_eof (e 0 (count d.fifo) (omega (arith, c)))),
        record { working = w''; inside = s' ∙ s },
        t,
      )

  deframer-Ready :
      {cap : ℕ} (junk rest q buf_in : List ℕ) (d : Deframer)
      → Ready cap q d
      → length q + length buf_in ≤ cap
      → q ++ buf_in ≡ junk ++ 0 ∷ rest
      → Nonzero junk
      → (d' : Deframer) × (deframer d buf_in buf_out max_buf_out ≡ rounds 3 d' buf_out max_buf_out)
        × Working cap rest [] d'
        × (d'.state ≡ find_eof)
        × (d'.work_size ≡ d.work_size)
  deframer-Ready {cap} junk rest q buf_in d r l e n =
      let (g, a, h) = deframer-rounds d buf_in buf_out max_buf_out r.holds l in
      let ready : Ready cap (junk ++ 0 ∷ rest) (record d { fifo = g }) = record {
        holds = subst (λ x. Holds cap x g) e h;
        at_start = r.at_start;
        sized = r.sized;
        small = r.small;
      } in
      let (d', b, w, s, z) = rounds-sof 3 junk rest (record d { fifo = g }) ready n in
      (d', a ∙ b, w, s, z)

  -- Bytes that complete a frame, after bytes that are none: the call returns what the decoder makes of
  -- the frame, and the deframer keeps the bytes behind it for the next call.
  pub deframer-frame :
      {cap : ℕ} (junk enc rest q buf_in : List ℕ) (d : Deframer) (n : ℕ) (out : List ℕ)
      → Ready cap q d
      → length q + length buf_in ≤ cap
      → q ++ buf_in ≡ junk ++ 0 ∷ (enc ++ 0 ∷ rest)
      → Nonzero junk
      → Nonzero enc
      → length enc < d.work_size
      → ((post : List ℕ) → decode (enc ++ post) (length enc) buf_out max_buf_out ≡ returns (n, out))
      → (d' : Deframer) × (deframer d buf_in buf_out max_buf_out ≡ returns (frame n out, d'))
        × Ready cap rest d'
  deframer-frame junk enc rest q buf_in d n out r l e u v s decoded =
      let (d', a, w, t, z) = deframer-Ready junk (enc ++ 0 ∷ rest) q buf_in d r l e u in
      let (d'', b, r') = rounds-frame 1 enc rest [] d' n out w v t (omega (arith, z)) decoded in
      (d'', a ∙ b, r')

  -- Bytes that begin a frame: the call returns 0 and the deframer waits for the rest of it.
  pub deframer-part :
      {cap : ℕ} (junk part q buf_in : List ℕ) (d : Deframer)
      → Ready cap q d
      → length q + length buf_in ≤ cap
      → q ++ buf_in ≡ junk ++ 0 ∷ part
      → Nonzero junk
      → Nonzero part
      → length part ≤ d.work_size
      → (d' : Deframer) × (deframer d buf_in buf_out max_buf_out ≡ returns (nothing, d'))
        × Waiting cap part d'
        × (d'.work_size ≡ d.work_size)
  deframer-part junk part q buf_in d r l e u v s =
      let (d', a, w, t, z) = deframer-Ready junk part q buf_in d r l e u in
      let (d'', b, w', z') = rounds-wait 2 part [] d' w v t (omega (arith, z)) in
      (d'', a ∙ b, w', z' ∙ z)

  more :
      {cap : ℕ} (seen buf_in : List ℕ) (d : Deframer)
      → Waiting cap seen d
      → length buf_in ≤ cap
      → (d' : Deframer) × (deframer d buf_in buf_out max_buf_out ≡ rounds 5 d' buf_out max_buf_out)
        × Working cap buf_in seen d'
        × (d'.state ≡ find_eof)
        × (d'.work_size ≡ d.work_size)
  more seen buf_in d w l =
      let (g, a, h) = deframer-rounds d buf_in buf_out max_buf_out w.working.holds (omega arith) in
      (
        record d { fifo = g },
        a,
        record {
          holds = h;
          free = w.working.free;
          work_is = w.working.work_is;
          counted = w.working.counted;
          sized = w.working.sized;
          small = w.working.small;
        },
        w.inside,
        refl,
      )

  -- A waiting deframer puts aside more bytes of the frame.
  pub deframer-more :
      {cap : ℕ} (seen part : List ℕ) (d : Deframer)
      → Waiting cap seen d
      → length part ≤ cap
      → Nonzero part
      → length seen + length part ≤ d.work_size
      → (d' : Deframer) × (deframer d part buf_out max_buf_out ≡ returns (nothing, d'))
        × Waiting cap (seen ++ part) d'
        × (d'.work_size ≡ d.work_size)
  deframer-more seen part d w l n s =
      let (d', a, w', t, z) = more seen part d w l in
      let (d'', b, w'', z') = rounds-wait 4 part seen d' w' n t (omega (arith, z)) in
      (d'', a ∙ b, w'', z' ∙ z)

  -- The bytes that end the frame make a waiting deframer return what the decoder makes of all of it.
  pub deframer-end :
      {cap : ℕ} (seen enc rest : List ℕ) (d : Deframer) (n : ℕ) (out : List ℕ)
      → Waiting cap seen d
      → length (enc ++ 0 ∷ rest) ≤ cap
      → Nonzero enc
      → length seen + length enc < d.work_size
      → ((post : List ℕ)
          → decode ((seen ++ enc) ++ post) (length (seen ++ enc)) buf_out max_buf_out
            ≡ returns (n, out))
      → (d' : Deframer) × (deframer d (enc ++ 0 ∷ rest) buf_out max_buf_out
          ≡ returns (frame n out, d'))
        × Ready cap rest d'
  deframer-end seen enc rest d n out w l u s decoded =
      let (d', a, w', t, z) = more seen (enc ++ 0 ∷ rest) d w l in
      let (d'', b, r) = rounds-frame 3 enc rest seen d' n out w' u t (omega (arith, z)) decoded in
      (d'', a ∙ b, r)
