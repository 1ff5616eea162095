-- ===== src/Cobs/Decode.antt =====
-- `Cobs_decode`: it undoes the encoder, and it ends on every input.
use esp32_components.Base.{
  ℕ, zero, suc, ◌+◌, ◌≤◌, ◌<◌, ◌≡◌, refl, ap, ap₂, subst, ◌∙◌, List, [], ◌∷◌, ◌++◌, append_assoc,
  append-nil, arith, length, length-append, drop, drop-drop, drop-next, length-drop, returns, ◌>>=◌,
  ne→==, eq→==, dec_lt,
}
use esp32_components.Cobs.{Decoded, decode_loop, decode}
use esp32_components.Cobs.Spec.{
  stuff, stuffed, stuff-plain, stuff-zero, stuff-full, length-stuff_gt, length-stuff_zero,
  length-stuff_full,
}
use esp32_components.Cobs.DecodeBlock.{written, emit_lem, At, At-skip, At-front, round-At}

-- The loop decodes `cur ++ bs` and stops.
abbrev Decodes : ℕ → List ℕ → ℕ → List ℕ → List ℕ → List ℕ → List ℕ → ℕ → ℕ → Type 0
Decodes fuel enc i cur bs done free len max =
    decode_loop fuel enc len max i (written done free)
    ≡ returns (written (done ++ (cur ++ bs)) (drop (length cur + length bs) free))

module _ (fuel : ℕ) (enc : List ℕ) (i : ℕ) (cur bs done free : List ℕ) (len max : ℕ) where
  Decodes-nil :
      At enc i ((length cur + 1) ∷ cur)
      → length cur ≤ length free
      → length done + length cur ≤ max
      → len ≡ i + (length cur + 1)
      → Decodes (suc fuel) enc i cur [] done free len max
  Decodes-nil h r m e =
      let all : length cur + length {A = ℕ} [] ≡ length cur = omega arith in
      round-At fuel enc i cur done free len max h r m
      ∙ rw (eq→== (i + (length cur + 1)) len (omega arith), append-nil cur, all)

  Decodes-full :
      (b : ℕ)
      → At enc i ((length cur + 1) ∷ cur)
      → length cur ≡ 254
      → length cur ≤ length free
      → length done + length cur ≤ max
      → i + (length cur + 1) < len
      → Decodes fuel enc
          (i + (length cur + 1))
          (b ∷ [])
          bs
          (done ++ cur)
          (drop (length cur) free)
          len
          max
      → Decodes (suc fuel) enc i cur (b ∷ bs) done free len max
  Decodes-full b h c r m e rest =
      round-At fuel enc i cur done free len max h r m
      ∙ rw
          (ne→== (i + (length cur + 1)) len (omega arith), eq→== (length cur + 1) 255 (omega arith))
          (rest
            ∙ ap₂ (λ d f. returns (written d f)) (append_assoc done cur (b ∷ bs))
                (drop-drop (length (b ∷ []) + length bs) (length cur) free
                  ∙ ap (λ k. drop k free) same))
    where
      same : length cur + (length (b ∷ []) + length bs) ≡ length cur + suc (length bs)
      same = omega arith

  Decodes-zero :
      At enc i ((length cur + 1) ∷ cur)
      → length cur < 254
      → length cur < length free
      → length done + length cur < max
      → i + (length cur + 1) < len
      → Decodes fuel enc
          (i + (length cur + 1))
          []
          bs
          (done ++ (cur ++ 0 ∷ []))
          (drop (suc (length cur)) free)
          len
          max
      → Decodes (suc fuel) enc i cur (0 ∷ bs) done free len max
  Decodes-zero h c r m e rest =
      let (f, here) = drop-next (length cur) free r in
      round-At fuel enc i cur done free len max h (omega arith) (omega arith)
      ∙ rw
          (
            ne→== (i + (length cur + 1)) len (omega arith),
            ne→== (length cur + 1) 255 (omega arith),
            here,
            ne→== (length (done ++ cur)) max (omega (arith, length-append done cur)),
            emit_lem (done ++ cur) f 0 (drop (suc (length cur)) free),
            append_assoc done cur (0 ∷ []),
          )
          (rest
            ∙ ap₂ (λ d t. returns (written d t)) joined
                (drop-drop (length {A = ℕ} [] + length bs) (suc (length cur)) free
                  ∙ ap (λ k. drop k free) same))
    where
      joined : (done ++ (cur ++ 0 ∷ [])) ++ bs ≡ done ++ (cur ++ 0 ∷ bs)
      joined =
          append_assoc done (cur ++ 0 ∷ []) bs ∙ ap (λ l. done ++ l) (append_assoc cur (0 ∷ []) bs)

      same : suc (length cur) + (length {A = ℕ} [] + length bs) ≡ length cur + suc (length bs)
      same = omega arith

-- The room that the loop needs: in the buffer, under the stated maximum, and in rounds.
abbrev Fits : ℕ → ℕ → List ℕ → List ℕ → List ℕ → List ℕ → ℕ → ℕ → Type 0
Fits fuel i cur bs done free len max =
    (length cur ≤ 254)
    × (length cur + length bs ≤ length free)
    × (length done + (length cur + length bs) ≤ max)
    × (length cur + length bs < fuel)
    × (len ≡ i + length (stuff cur bs))

Decodes-255 :
    (fuel : ℕ) (enc : List ℕ) (i : ℕ) (cur : List ℕ) (b : ℕ) (bs done free : List ℕ) (len max : ℕ)
    → length cur ≡ 254
    → At enc i (stuff cur (b ∷ bs))
    → Fits (suc fuel) i cur (b ∷ bs) done free len max
    → (At enc (i + (length cur + 1)) (stuff (b ∷ []) bs)
        → Fits fuel
            (i + (length cur + 1))
            (b ∷ [])
            bs
            (done ++ cur)
            (drop (length cur) free)
            len
            max
        → Decodes fuel enc
            (i + (length cur + 1))
            (b ∷ [])
            bs
            (done ++ cur)
            (drop (length cur) free)
            len
            max)
    → Decodes (suc fuel) enc i cur (b ∷ bs) done free len max
Decodes-255 fuel enc i cur b bs done free len max p h fits rest =
    let s = stuff (b ∷ []) bs in
    let code = (length cur + 1) ∷ cur in
    let coded : 255 ∷ (cur ++ s) ≡ (length cur + 1) ∷ (cur ++ s) =
      ap (λ c. c ∷ (cur ++ s)) (omega arith) in
    let h' = subst (At enc i) (stuff-full cur bs b p ∙ coded) h in
    let total = length-stuff_full cur bs b p in
    let some_left = length-stuff_gt (b ∷ []) bs in
    Decodes-full fuel enc i cur bs done free len max b (At-front code s h') p (omega arith)
      (omega arith) (omega arith)
      (rest (At-skip code s (omega arith) h')
        (omega (arith, length-drop (length cur) free, length-append done cur)))

decode_loop-stuff :
    (fuel : ℕ) (enc : List ℕ) (i : ℕ) (cur bs done free : List ℕ) (len max : ℕ)
    → At enc i (stuff cur bs)
    → Fits fuel i cur bs done free len max
    → Decodes fuel enc i cur bs done free len max
decode_loop-stuff zero enc i cur bs done free len max h fits = absurd (omega arith)
decode_loop-stuff (suc fuel) enc i cur [] done free len max h fits =
    Decodes-nil fuel enc i cur [] done free len max (unfold stuff in h) (omega arith) (omega arith)
      (unfold stuff in omega arith)
decode_loop-stuff (suc fuel) enc i cur (zero ∷ bs) done free len max h fits =
    elim (dec_lt (length cur) 254) [
      | yes p ↦
          let code = (length cur + 1) ∷ cur in
          let h' = subst (At enc i) (stuff-zero cur bs p) h in
          let total = length-stuff_zero cur bs p in
          let some_left = length-stuff_gt [] bs in
          Decodes-zero fuel enc i cur bs done free len max (At-front code (stuff [] bs) h') p
            (omega arith) (omega arith) (omega arith)
            (decode_loop-stuff fuel enc (i + (length cur + 1)) [] bs (done ++ (cur ++ 0 ∷ []))
              (drop (suc (length cur)) free) len max (At-skip code (stuff [] bs) (omega arith) h')
              (omega (
                arith,
                length-drop (suc (length cur)) free,
                length-append done (cur ++ 0 ∷ []),
                length-append cur (0 ∷ []),
              )))
      | no p ↦ Decodes-255 fuel enc i cur 0 bs done free len max (omega arith) h fits (
          decode_loop-stuff fuel enc (i + (length cur + 1)) (0 ∷ []) bs (done ++ cur)
            (drop (length cur) free) len max)
    ]
decode_loop-stuff (suc fuel) enc i cur (suc b ∷ bs) done free len max h fits =
    elim (dec_lt (length cur) 254) [
      | yes p ↦
          let e = stuff-plain cur bs (suc b) p (omega arith) in
          let l = length-append cur (suc b ∷ []) in
          let l' = ap length e in
          decode_loop-stuff (suc fuel) enc i (cur ++ suc b ∷ []) bs done free len max
            (subst (At enc i) e h) (omega arith)
          ∙ ap₂ (λ d t. returns (written (done ++ d) t)) (append_assoc cur (suc b ∷ []) bs)
              (ap (λ k. drop k free) (omega arith))
      | no p ↦ Decodes-255 fuel enc i cur (suc b) bs done free len max (omega arith) h fits (
          decode_loop-stuff fuel enc (i + (length cur + 1)) (suc b ∷ []) bs (done ++ cur)
            (drop (length cur) free) len max)
    ]

-- `Cobs_decode` of the encoding of a message, in a buffer that may go on behind it, writes the message
-- at the front of the output, leaves the rest of the output, and returns the message's length, if the
-- output buffer and the stated maximum hold the message.
pub decode-stuffed :
    (msg post buf_out : List ℕ) (max_buf_out : ℕ)
    → length msg ≤ length buf_out
    → length msg ≤ max_buf_out
    → decode (stuffed msg ++ post) (length (stuffed msg)) buf_out max_buf_out
      ≡ returns (length msg, msg ++ drop (length msg) buf_out)
unfolding decode
decode-stuffed msg post buf_out max r m =
    let none_done : 0 + length msg ≡ length msg = omega arith in
    ap (λ o. o >>= λ (s : Decoded). returns (s.num_out, s.out))
      (decode_loop-stuff (max + 1) (stuffed msg ++ post) 0 [] msg [] buf_out (length (stuffed msg))
        max (record { pre = []; post = post; whole = refl; start = refl }) (omega arith))
    ∙ rw none_done
