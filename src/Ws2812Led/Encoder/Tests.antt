-- ===== src/Ws2812Led/Encoder/Tests.antt =====
-- The theorems on the encoder with a driver that takes two symbols at a time.
use esp32_components.Base.{
  ℕ, subst, drop-drop, ◌+◌, ◌<◌, ◌≤◌, ◌≡◌, refl, sym, ap, ◌∙◌, true, false, List, [], ◌∷◌, ◌++◌,
  ◌⊎◌, inl, inr, arith, length, take, drop, leb, not, if◌then◌else◌, Returns, take-append-drop,
  take-all, length-drop,
}
use esp32_components.Ws2812Led.Encoder.{Driver, ResetCode, Encoder, transmit, no_mem, encoder_new}
use esp32_components.Ws2812Led.Encoder.Transmit.{IsSender, Idle, transmit-Sent}
use esp32_components.Ws2812Led.Encoder.Create.{Kept, Dropped, encoder_new_cases}

-- The state is how many symbols are sent.
abbrev two_at_a_time : {Input : Type 0} → (Input → List ℕ) → Driver ℕ Input
two_at_a_time symbols = record {
  State = ℕ;
  encode = λ s x.
      let last = leb (length (symbols x)) (s + 2) in
      (
        take 2 (drop s (symbols x)),
        (record { complete = last; mem_full = not last }, if last then 0 else s + 2),
      );
  reset = λ s. 0;
}

short : (n s : ℕ) → leb n (s + 2) ≡ true → n ≤ s + 2
short n s e = ground arith

long : (n s : ℕ) → leb n (s + 2) ≡ false → s + 2 < n
long n s e = ground arith

two_at_a_time-IsSender :
    {Input : Type 0} (symbols : Input → List ℕ) → IsSender (two_at_a_time symbols) symbols
two_at_a_time-IsSender symbols = record {
  left = λ s x. drop s (symbols x);
  at_end = λ s x e. (
    sym (
        take-all 2 (drop s (symbols x))
          (omega (arith, short (length (symbols x)) s e, length-drop s (symbols x)))),
    λ y. ap (λ b. drop (if b then 0 else s + 2) (symbols y)) e,
  );
  before_end = λ s x e. (
    ap not e,
    sym (take-append-drop 2 (drop s (symbols x)))
        ∙ ap (λ l. take 2 (drop s (symbols x)) ++ l)
            (drop-drop 2 s (symbols x)
              ∙ sym (ap (λ b. drop (if b then 0 else s + 2) (symbols x)) e)),
    subst (λ b. length (drop (if b then 0 else s + 2) (symbols x)) < length (drop s (symbols x)))
        (sym e)
        (omega (
          arith,
          long (length (symbols x)) s e,
          length-drop s (symbols x),
          length-drop (s + 2) (symbols x),
        )),
  );
}

-- The bytes are their own symbols, and the reset code has one.
abbrev pause : ResetCode → List ℕ
pause code = (code.duration0 + code.duration1) ∷ []

abbrev bytes : Driver ℕ (List ℕ)
bytes = two_at_a_time (λ x. x)

abbrev codes : Driver ℕ ResetCode
codes = two_at_a_time pause

abbrev idle : Encoder bytes codes
idle = record {
  bytes_encoder = 0;
  copy_encoder = 0;
  state = 0;
  reset_code = record { duration0 = 250; duration1 = 250 };
}

transmit-Sent_example :
    Returns
      (λ r.
        (r.0 ≡ 1 ∷ 2 ∷ 3 ∷ 500 ∷ [])
        × Idle bytes codes (two_at_a_time-IsSender (λ x. x)) (two_at_a_time-IsSender pause) r.1
        × (r.1.reset_code ≡ idle.reset_code))
      (transmit bytes codes 6 idle (1 ∷ 2 ∷ 3 ∷ []))
unfolding two_at_a_time-IsSender
transmit-Sent_example =
    transmit-Sent bytes codes (two_at_a_time-IsSender (λ x. x)) (two_at_a_time-IsSender pause) 6
      idle (1 ∷ 2 ∷ 3 ∷ []) (record { state = refl; bytes = λ x. refl; copy = λ x. refl })
      (omega arith)

-- There is no room for the driver's second encoder.
encoder_new_cases_example :
    Kept bytes codes (encoder_new bytes codes 10000000 true (inr 0) (inl no_mem))
    ⊎ Dropped bytes codes (encoder_new bytes codes 10000000 true (inr 0) (inl no_mem))
encoder_new_cases_example =
    encoder_new_cases bytes codes 10000000 true (inr 0) (inl no_mem) (λ e. cc) (λ e. cc)
