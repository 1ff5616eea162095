-- ===== src/CobsFrame/RoundTrip.antt =====
-- Frames that the framer writes, received by the deframer.
use esp32_components.Base.{
  ℕ, suc, ◌+◌, ◌<◌, ◌≤◌, ◌≡◌, refl, sym, ap, ◌∙◌, subst, List, [], ◌∷◌, ◌++◌, append_assoc, returns,
  ◌>>=◌, arith, length, length-append, drop, drop-next, drop-cons, take, take-append, true, false,
  not, store_middle, leb, ne→==, store,
}
use esp32_components.Cobs.{decode}
use esp32_components.Cobs.Spec.{stuffed, length-stuff_gt}
use esp32_components.Cobs.Encode.{encode-stuffed}
use esp32_components.Cobs.Decode.{decode-stuffed}
use esp32_components.Cobs.Clean.{no_zero, zero_after_full, no_zero-stuffed}
use esp32_components.CobsFrame.{Deframer, framer, deframer, frame, nothing}
use esp32_components.CobsFrame.Search.{Nonzero}
use esp32_components.CobsFrame.Receive.{Ready}
use esp32_components.CobsFrame.Stream.{deframer-frame, deframer-part, deframer-end}

no_zero-Nonzero : (bs : List ℕ) → no_zero bs ≡ true → Nonzero bs
unfolding no_zero
no_zero-Nonzero [] h = _
no_zero-Nonzero (b ∷ bs) h = (ground arith, no_zero-Nonzero bs (ground arith))

Nonzero-append : (xs bs : List ℕ) → Nonzero (xs ++ bs) → Nonzero xs × Nonzero bs
Nonzero-append [] bs h = (_, h)
Nonzero-append (a ∷ xs) bs h = let r = Nonzero-append xs bs h.1 in ((h.0, r.0), r.1)

-- The frame of a message.
unfoldable pub framed : List ℕ → List ℕ
framed msg = 0 ∷ (stuffed msg ++ 0 ∷ [])

pub length-framed : (msg : List ℕ) → length (framed msg) ≡ length (stuffed msg) + 2
unfolding framed
length-framed msg = omega (arith, length-append (stuffed msg) (0 ∷ []))

gt→leb : (a b : ℕ) → b < a → leb a b ≡ false
gt→leb a b h = ground arith

-- The framer writes the frame of the message when `enc_out` and `max_enc_len` have the room.
pub framer-framed :
    (msg enc_out : List ℕ) (max_enc_len : ℕ)
    → length (stuffed msg) + 2 ≤ length enc_out
    → length (stuffed msg) + 2 < max_enc_len
    → framer msg enc_out max_enc_len
      ≡ returns (length (stuffed msg) + 2, framed msg ++ drop (length (stuffed msg) + 2) enc_out)
unfolding framer framed
framer-framed msg [] max r m = absurd (omega arith)
framer-framed msg (x ∷ enc_out) max r m =
    let s = stuffed msg in
    let n = length s in
    let (z, e) = drop-next n enc_out (omega arith) in
    let behind : drop (n + 2) (x ∷ enc_out) ≡ drop (suc n) enc_out =
      drop-cons (n + 2) (suc n) x enc_out (omega arith) in
    rw
      (
        encode-stuffed msg enc_out max (omega arith) (omega arith),
        ne→== n 0 (omega (arith, length-stuff_gt [] msg)),
        gt→leb max (n + 2) m,
      )
      (ap (λ l. store (0 ∷ s ++ l) (1 + n) 0 >>= λ out. returns (n + 2, out)) e
        ∙ ap (λ o. o >>= λ out. returns (n + 2, out))
            (store_middle (0 ∷ s) z 0 (drop (suc n) enc_out) (omega arith))
        ∙ ap (λ l. returns (n + 2, l))
            (ap (λ l. 0 ∷ l)
              (sym (append_assoc s (0 ∷ []) (drop (suc n) enc_out))
                ∙ ap (λ l. (s ++ 0 ∷ []) ++ l) (sym behind))))

module _ (msg : List ℕ) (clean : zero_after_full 0 msg ≡ false) (buf_out : List ℕ) (max_buf_out : ℕ)
    (room : length msg ≤ length buf_out) (max : length msg ≤ max_buf_out) where
  stuffed-Nonzero : Nonzero (stuffed msg)
  stuffed-Nonzero = no_zero-Nonzero (stuffed msg) (no_zero-stuffed msg ∙ ap not clean)

  decoded :
      (post : List ℕ)
      → decode (stuffed msg ++ post) (length (stuffed msg)) buf_out max_buf_out
        ≡ returns (length msg, msg ++ drop (length msg) buf_out)
  decoded post = decode-stuffed msg post buf_out max_buf_out room max

  -- A ready deframer whose buffers hold the frame of a message takes the message out of it.
  pub deframer-framed :
      {cap : ℕ} (d : Deframer)
      → Ready cap [] d
      → length (stuffed msg) + 2 ≤ cap
      → length (stuffed msg) < d.work_size
      → (d' : Deframer) × (deframer d (framed msg) buf_out max_buf_out
          ≡ returns (frame (length msg) (msg ++ drop (length msg) buf_out), d'))
        × Ready cap [] d'
  unfolding framed
  deframer-framed d ready c s =
      deframer-frame buf_out max_buf_out [] (stuffed msg) [] [] (framed msg) d (length msg)
        (msg ++ drop (length msg) buf_out) ready (omega (arith, length-framed msg)) refl _
        stuffed-Nonzero s decoded

  -- A message in which no zero byte follows a full run of 254 nonzero ones, put into a frame by the
  -- framer with room to spare, comes out of a ready deframer whose buffers hold the frame; the
  -- deframer is then ready for the next frame.
  pub deframer-framer :
      {cap : ℕ} (d : Deframer) (enc_out : List ℕ) (max_enc_len : ℕ)
      → length (stuffed msg) + 2 ≤ length enc_out
      → length (stuffed msg) + 2 < max_enc_len
      → Ready cap [] d
      → length (stuffed msg) + 2 ≤ cap
      → length (stuffed msg) < d.work_size
      → (d' : Deframer) × ((framer msg enc_out max_enc_len >>= λ (n, enc).
            deframer d (take n enc) buf_out max_buf_out)
          ≡ returns (frame (length msg) (msg ++ drop (length msg) buf_out), d'))
        × Ready cap [] d'
  unfolding framed
  deframer-framer d enc_out max_enc_len r m ready c s =
      let n = length-framed msg in
      let (d', e, ready') = deframer-framed d ready c s in
      (
        d',
        ap (λ o. o >>= λ (n, enc). deframer d (take n enc) buf_out max_buf_out)
              (framer-framed msg enc_out max_enc_len r m)
            ∙ ap (λ l. deframer d l buf_out max_buf_out)
                (ap (λ k. take k (framed msg ++ drop (length (stuffed msg) + 2) enc_out)) (sym n)
                  ∙ take-append (framed msg) (drop (length (stuffed msg) + 2) enc_out))
            ∙ e,
        ready',
      )

  -- The frame of such a message may come in two pieces, cut anywhere between its two framing bytes:
  -- the first call of the deframer returns 0, the second the message.
  pub deframer-split :
      {cap : ℕ} (d : Deframer) (first second : List ℕ)
      → stuffed msg ≡ first ++ second
      → Ready cap [] d
      → length (stuffed msg) + 2 ≤ cap
      → length (stuffed msg) < d.work_size
      → (d' d'' : Deframer) × (deframer d (0 ∷ first) buf_out max_buf_out ≡ returns (nothing, d'))
        × (deframer d' (second ++ 0 ∷ []) buf_out max_buf_out
            ≡ returns (frame (length msg) (msg ++ drop (length msg) buf_out), d''))
        × Ready cap [] d''
  deframer-split d first second e ready c s =
      let (u, v) = Nonzero-append first second (subst Nonzero e stuffed-Nonzero) in
      let l : length (stuffed msg) ≡ length first + length second =
        omega (arith, ap length e, length-append first second) in
      let (d', a, w, z) =
        deframer-part buf_out max_buf_out [] first [] (0 ∷ first) d ready (omega arith) refl _ u
          (omega arith) in
      let (d'', b, ready') =
        deframer-end buf_out max_buf_out first second [] d' (length msg)
          (msg ++ drop (length msg) buf_out) w (omega (arith, length-append second (0 ∷ []))) v
          (omega (arith, z))
          (λ post.
            ap (λ x. decode (x ++ post) (length x) buf_out max_buf_out) (sym e) ∙ decoded post) in
      (d', d'', a, b, ready')
