-- ===== src/Cobs/Encode.antt =====
-- `Cobs_encode`: the bytes that it writes and when it stays inside its buffer.
use esp32_components.Base.{
  ℕ, zero, suc, ◌+◌, ◌-◌, ◌≤◌, ◌<◌, ◌≡◌, sym, ap, ◌∙◌, List, [], ◌∷◌, ◌++◌, append_assoc, arith,
  length, length-append, drop, drop-cons, returns, u8, store_middle, dec_lt, ◌≢◌,
}
use esp32_components.Cobs.{encode_loop, finish, encode}
use esp32_components.Cobs.Spec.{
  stuff, stuffed, length-stuff_gt, stuff-plain, stuff-zero, stuff-full, length-stuff_two,
  length-stuff_zero, length-stuff_full,
}
use esp32_components.Cobs.EncodeStep.{step_plain, step_zero, step_full, Completes}

module _ (max : ℕ) (done : List ℕ) (x : ℕ) (cur bs : List ℕ) where
  complete_plain :
      (f : ℕ) (free : List ℕ) (b : ℕ)
      → length cur < 254
      → b ≢ 0
      → length done + (length cur + 1) < max
      → Completes max done x (cur ++ b ∷ []) bs free
      → Completes max done x cur (b ∷ bs) (f ∷ free)
  unfolding encode_loop
  complete_plain f free b c z m rest =
      rw (step_plain max done x cur f free b c z m, stuff-plain cur bs b c z)
        (rest
          ∙ ap (λ l. returns (length done + length s, done ++ (s ++ l)))
              (sym (
                drop-cons (length s - suc (length cur)) (length s - suc (length (cur ++ b ∷ []))) f
                  free
                  (omega (arith, length-append cur (b ∷ []), length-stuff_gt (cur ++ b ∷ []) bs)))))
    where
      s : List ℕ
      s = stuff (cur ++ b ∷ []) bs

  complete_zero :
      (f : ℕ) (free : List ℕ)
      → length cur < 254
      → Completes max (done ++ (length cur + 1) ∷ cur) f [] bs free
      → Completes max done x cur (0 ∷ bs) (f ∷ free)
  unfolding encode_loop
  complete_zero f free c rest =
      let s = stuff [] bs in
      let code = length cur + 1 in
      rw (step_zero max done x cur f free c, stuff-zero cur bs c)
        (rest
          ∙ ground (
            arith,
            length-append done (code ∷ cur),
            length-append cur s,
            append_assoc done (code ∷ cur) (s ++ drop (length s - 1) free),
            append_assoc cur s (drop (length s - 1) free),
            drop-cons (suc (length (cur ++ s)) - suc (length cur)) (length s - 1) f free,
            length-stuff_gt [] bs,
          ))

  complete_full :
      (f g : ℕ) (free : List ℕ) (b : ℕ)
      → length cur ≡ 254
      → length done + 256 < max
      → Completes max (done ++ 255 ∷ cur) f (b ∷ []) bs free
      → Completes max done x cur (b ∷ bs) (f ∷ g ∷ free)
  unfolding encode_loop
  complete_full f g free b c m rest =
      let s = stuff (b ∷ []) bs in
      rw (step_full max done x cur f g free b c m, stuff-full cur bs b c)
        (rest
          ∙ ground (
            arith,
            length-append done (255 ∷ cur),
            length-append cur s,
            append_assoc done (255 ∷ cur) (s ++ drop (length s - 2) free),
            append_assoc cur s (drop (length s - 2) free),
            drop-cons (suc (length (cur ++ s)) - suc (length cur)) (length s - 1) f (g ∷ free),
            drop-cons (length s - 1) (length s - 2) g free,
            length-stuff_gt (b ∷ []) bs,
          ))

complete_nil :
    (max : ℕ) (done : List ℕ) (x : ℕ) (cur free : List ℕ)
    → length cur ≤ 254
    → Completes max done x cur [] free
unfolding finish stuff encode_loop
complete_nil max done x cur free c =
    let none_taken : suc (length cur) - suc (length cur) ≡ 0 = omega arith in
    ground
      (arith, none_taken, store_middle done x (u8 (length cur + 1)) (cur ++ free) {i = length done})

-- The premises of the loop's lemma: room in the buffer, and under the stated maximum.
abbrev HasRoom : ℕ → List ℕ → List ℕ → List ℕ → List ℕ → Type 0
HasRoom max done cur bs free =
    (length cur ≤ 254)
    × (length (stuff cur bs) ≤ suc (length cur + length free))
    × (length done + length (stuff cur bs) ≤ max)

complete_255 :
    (max : ℕ) (done : List ℕ) (x : ℕ) (cur : List ℕ) (b : ℕ) (bs : List ℕ) (f : ℕ) (free : List ℕ)
    → length cur ≡ 254
    → HasRoom max done cur (b ∷ bs) (f ∷ free)
    → ((left : List ℕ)
        → HasRoom max (done ++ 255 ∷ cur) (b ∷ []) bs left
        → Completes max (done ++ 255 ∷ cur) f (b ∷ []) bs left)
    → Completes max done x cur (b ∷ bs) (f ∷ free)
complete_255 max done x cur b bs f [] p (_, r, m) rest =
    absurd (omega (arith, length-stuff_full cur bs b p, length-stuff_gt (b ∷ []) bs))
complete_255 max done x cur b bs f (g ∷ free) p (_, r, m) rest =
    let l = length-stuff_full cur bs b p in
    let l' = length-append done (255 ∷ cur) in
    complete_full max done x cur bs f g free b p (omega (arith, length-stuff_gt (b ∷ []) bs))
      (rest free (omega arith))

-- With room for the encoding the loop writes it.
encode_loop-stuff :
    (max : ℕ) (done : List ℕ) (x : ℕ) (cur bs free : List ℕ)
    → HasRoom max done cur bs free
    → Completes max done x cur bs free
encode_loop-stuff max done x cur [] free room = complete_nil max done x cur free room.0
encode_loop-stuff max done x cur (b ∷ bs) [] room =
    absurd (omega (arith, length-stuff_two cur b bs))
encode_loop-stuff max done x cur (zero ∷ bs) (f ∷ free) room = elim (dec_lt (length cur) 254) [
  | yes p ↦
      let l = length-stuff_zero cur bs p in
      let l' = length-append done ((length cur + 1) ∷ cur) in
      complete_zero max done x cur bs f free p
        (encode_loop-stuff max (done ++ (length cur + 1) ∷ cur) f [] bs free (omega arith))
  | no p ↦
      complete_255 max done x cur 0 bs f free (omega arith) room
        (encode_loop-stuff max (done ++ 255 ∷ cur) f (0 ∷ []) bs)
]
encode_loop-stuff max done x cur (suc b ∷ bs) (f ∷ free) room = elim (dec_lt (length cur) 254) [
  | yes p ↦
      let l = length-append cur (suc b ∷ []) in
      let e = ap length (stuff-plain cur bs (suc b) p (omega arith)) in
      complete_plain max done x cur bs f free (suc b) p (omega arith)
        (omega (arith, length-stuff_two cur (suc b) bs))
        (encode_loop-stuff max done x (cur ++ suc b ∷ []) bs free (omega arith))
  | no p ↦
      complete_255 max done x cur (suc b) bs f free (omega arith) room
        (encode_loop-stuff max (done ++ 255 ∷ cur) f (suc b ∷ []) bs)
]

-- `Cobs_encode` with a buffer and a stated maximum that hold the encoding writes the encoding at the
-- front of the buffer, leaves the rest of the buffer, and returns the length of the encoding.
pub encode-stuffed :
    (buf_in enc_out : List ℕ) (max_enc_len : ℕ)
    → length (stuffed buf_in) ≤ length enc_out
    → length (stuffed buf_in) ≤ max_enc_len
    → encode buf_in enc_out max_enc_len
      ≡ returns (length (stuffed buf_in), stuffed buf_in ++ drop (length (stuffed buf_in)) enc_out)
unfolding encode
encode-stuffed buf_in [] max r m = absurd (omega (arith, length-stuff_gt [] buf_in))
encode-stuffed buf_in (x ∷ free) max r m =
    encode_loop-stuff max [] x [] buf_in free (omega arith)
    ∙ ground (
      arith,
      drop-cons (length (stuffed buf_in)) (length (stuffed buf_in) - 1) x free,
      length-stuff_gt [] buf_in,
    )
