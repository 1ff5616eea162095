-- ===== src/Cobs/EncodeStep.antt =====
-- One byte of `Cobs_encode`: the state of the encoder before and after it.
use esp32_components.Base.{
  ℕ, suc, ◌+◌, ◌-◌, ◌<◌, ◌≡◌, sym, ap, ◌∙◌, List, [], ◌∷◌, ◌++◌, append_assoc, arith, length,
  length-append, drop, returns, ◌>>=◌, u8, store, store_middle, ◌≢◌,
}
use esp32_components.Cobs.{Encoder, encode_step, encode_loop, finish}
use esp32_components.Cobs.Spec.{stuff}

-- The encoder after it has written `done` and read `cur`: `x` stands where the next code byte goes.
abbrev pub pending : List ℕ → ℕ → List ℕ → List ℕ → Encoder
pending done x cur free = record {
  count = length cur;
  code_word_idx = length done;
  out = done ++ x ∷ (cur ++ free);
}

pub store_tail :
    (done : List ℕ) (x : ℕ) (cur : List ℕ) (f v : ℕ) (free : List ℕ) {i : ℕ}
    → i ≡ length done + (length cur + 1)
    → store (done ++ x ∷ (cur ++ f ∷ free)) i v ≡ returns (done ++ x ∷ ((cur ++ v ∷ []) ++ free))
store_tail done x cur f v free {i} e =
    ap (λ l. store l i v) (sym (append_assoc done (x ∷ cur) (f ∷ free)))
    ∙ store_middle (done ++ x ∷ cur) f v free (omega (arith, length-append done (x ∷ cur)))
    ∙ ap returns (
        append_assoc done (x ∷ cur) (v ∷ free)
        ∙ ap (λ l. done ++ x ∷ l) (sym (append_assoc cur (v ∷ []) free)))

module _ (max : ℕ) (done : List ℕ) (x : ℕ) (cur : List ℕ) where
  pub step_plain :
      (f : ℕ) (free : List ℕ) (b : ℕ)
      → length cur < 254
      → b ≢ 0
      → length done + (length cur + 1) < max
      → encode_step max (pending done x cur (f ∷ free)) b
        ≡ returns (pending done x (cur ++ b ∷ []) free)
  unfolding encode_step
  step_plain f free b c z m = ground (
    arith,
    store_tail done x cur f b free {i = length done + (length cur + 1)},
    length-append cur (b ∷ []),
  )

  pub step_zero :
      (f : ℕ) (free : List ℕ)
      → length cur < 254
      → encode_step max (pending done x cur (f ∷ free)) 0
        ≡ returns (pending (done ++ (length cur + 1) ∷ cur) f [] free)
  unfolding encode_step
  step_zero f free c = ground (
    arith,
    store_middle done x (u8 (length cur + 1)) (cur ++ f ∷ free) {i = length done},
    append_assoc done ((length cur + 1) ∷ cur) (f ∷ free),
    length-append done ((length cur + 1) ∷ cur),
  )

  pub step_full :
      (f g : ℕ) (free : List ℕ) (b : ℕ)
      → length cur ≡ 254
      → length done + 256 < max
      → encode_step max (pending done x cur (f ∷ g ∷ free)) b
        ≡ returns (pending (done ++ 255 ∷ cur) f (b ∷ []) free)
  unfolding encode_step
  step_full f g free b c m = ground (
    arith,
    store_middle done x (u8 255) (cur ++ f ∷ g ∷ free) {i = length done},
    append_assoc done (255 ∷ cur) (f ∷ g ∷ free),
    length-append done (255 ∷ cur),
    store_tail (done ++ 255 ∷ cur) f [] g b free {i = length done + 255 + 1},
  )

-- What is left of the free bytes once the rest of the message is encoded.
abbrev pub spare : List ℕ → List ℕ → List ℕ → List ℕ
spare cur bs free = drop (length (stuff cur bs) - suc (length cur)) free

-- What the encoder has left to do in a state with room for it.
abbrev pub Completes : ℕ → List ℕ → ℕ → List ℕ → List ℕ → List ℕ → Type 0
Completes max done x cur bs free =
    (encode_loop max (pending done x cur free) bs >>= finish)
    ≡ returns (length done + length (stuff cur bs), done ++ (stuff cur bs ++ spare cur bs free))
