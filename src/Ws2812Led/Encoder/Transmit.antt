-- ===== src/Ws2812Led/Encoder/Transmit.antt =====
-- The symbols of a transmission.
use esp32_components.Base.{
  ℕ, zero, suc, ◌+◌, ◌<◌, ◌≡◌, refl, sym, ap, ap₂, subst, Bool-cases, inl, inr, ◌∙◌, Bool, true,
  false, List, [], ◌++◌, append_assoc, length, arith, if◌then◌else◌, Outcome, returns, ◌>>=◌,
  Returns, returning, Returns-bind, Returns-if,
}
use esp32_components.Ws2812Led.Encoder.{
  Driver, ResetCode, Encoder, Encoded, send_reset, send_data, encode_led_strip, transmit,
}

-- What the driver documents of an encoder, which sends `symbols x` for the input `x`: a call sends a
-- part of what is left of them, at least one symbol unless it sends the last, and is either complete,
-- and at the start again, or short of memory.
pub record IsSender {Symbol Input : Type 0} (D : Driver Symbol Input)
    (symbols : Input → List Symbol) : Type 0 where
  pub left : D.State → Input → List Symbol
  pub at_end :
      (s : D.State) (x : Input)
      → (D.encode s x).1.0.complete ≡ true
      → (left s x ≡ (D.encode s x).0) × ((y : Input) → left (D.encode s x).1.1 y ≡ symbols y)
  pub before_end :
      (s : D.State) (x : Input)
      → (D.encode s x).1.0.complete ≡ false
      → ((D.encode s x).1.0.mem_full ≡ true)
        × (left s x ≡ (D.encode s x).0 ++ left (D.encode s x).1.1 x)
        × (length (left (D.encode s x).1.1 x) < length (left s x))

module _ {Symbol : Type 0} (B : Driver Symbol (List ℕ)) (C : Driver Symbol ResetCode)
    {bits : List ℕ → List Symbol} {pause : ResetCode → List Symbol} (b : IsSender B bits)
    (c : IsSender C pause) where
  -- Nothing of a transmission is under way.
  pub record Idle (enc : Encoder B C) : Type 0 where
    pub state : enc.state ≡ 0
    pub bytes : (x : List ℕ) → b.left enc.bytes_encoder x ≡ bits x
    pub copy : (x : ResetCode) → c.left enc.copy_encoder x ≡ pause x

  -- The reset code is under way, or about to be sent.
  record Resetting (enc : Encoder B C) : Type 0 where
    state : enc.state ≡ 1
    bytes : (x : List ℕ) → b.left enc.bytes_encoder x ≡ bits x

  -- The symbols `out` are sent in the end.
  abbrev Sent : List Symbol → ResetCode → List Symbol × Encoder B C → Type 0
  Sent out code r = (r.0 ≡ out) × Idle r.1 × (r.1.reset_code ≡ code)

  abbrev continue : ℕ → List ℕ → Encoded B C → Outcome (List Symbol × Encoder B C)
  continue fuel x (out, (session, enc')) =
      if session.complete
      then returns (out, enc')
      else (do (more, enc'') ← transmit B C fuel enc' x; returns (out ++ more, enc''))

  -- A run that goes on sends what was sent before, and then the rest.
  goes_on :
      (out rest all : List Symbol) (code : ResetCode) {m : Outcome (List Symbol × Encoder B C)}
      → out ++ rest ≡ all
      → Returns (Sent rest code) m
      → Returns (Sent all code) (m >>= λ r. returns (out ++ r.0, r.1))
  goes_on out rest all code e h =
      Returns-bind _ h (λ r s. returning (ap (λ l. out ++ l) s.0 ∙ e, s.1, s.2))

  in_reset :
      (enc : Encoder B C) (x : List ℕ)
      → enc.state ≡ 1
      → encode_led_strip B C enc x ≡ send_reset B C enc
  unfolding encode_led_strip
  in_reset enc x e = rw e refl

  in_data :
      (enc : Encoder B C) (x : List ℕ)
      → enc.state ≡ 0
      → encode_led_strip B C enc x ≡ send_data B C enc x
  unfolding encode_led_strip
  in_data enc x e = rw e refl

  abbrev code_left : Encoder B C → List Symbol
  code_left enc = c.left enc.copy_encoder enc.reset_code

  -- Each transmission that starts in the reset code, with fuel enough for it, sends the rest of it.
  abbrev Resets : ℕ → List ℕ → Type 0
  Resets fuel x =
      (enc : Encoder B C)
      → Resetting enc
      → length (code_left enc) < fuel
      → Returns (Sent (code_left enc) enc.reset_code) (transmit B C fuel enc x)

  -- A call for the reset code, after `out` in the same call of the encoder.
  send_reset-Sent :
      (fuel : ℕ) (out : List Symbol) (enc : Encoder B C) (x : List ℕ)
      → Resets fuel x
      → Resetting enc
      → length (code_left enc) < suc fuel
      → Returns
          (Sent (out ++ code_left enc) enc.reset_code)
          (continue fuel x (out ++ (send_reset B C enc).0, (send_reset B C enc).1))
  unfolding send_reset
  send_reset-Sent fuel out enc x ih r l =
      let sent = C.encode enc.copy_encoder enc.reset_code in
      Returns-if sent.1.0.complete
        (λ e.
          let (p, q) = c.at_end enc.copy_encoder enc.reset_code e in
          returning (
            ap (λ l. out ++ l) (sym p),
            record { state = ap (λ b. if b then 0 else enc.state) e; bytes = r.bytes; copy = q },
            refl,
          ))
        (λ e.
          let (_, p, q) = c.before_end enc.copy_encoder enc.reset_code e in
          goes_on (out ++ sent.0) (c.left sent.1.1 enc.reset_code) (out ++ code_left enc)
            enc.reset_code
            (append_assoc out sent.0 (c.left sent.1.1 enc.reset_code) ∙ ap (λ l. out ++ l) (sym p))
            (ih
              (record enc {
                copy_encoder = sent.1.1;
                state = if sent.1.0.complete then 0 else enc.state;
              })
              (record { state = ap (λ b. if b then 0 else enc.state) e ∙ r.state; bytes = r.bytes })
              (omega arith)))

  transmit-Resets : (fuel : ℕ) (x : List ℕ) → Resets fuel x
  unfolding transmit
  transmit-Resets zero x enc r l = absurd (omega arith)
  transmit-Resets (suc fuel) x enc r l =
      subst (λ m. Returns (Sent (code_left enc) enc.reset_code) (continue fuel x m))
        (sym (in_reset enc x r.state)) (send_reset-Sent fuel [] enc x (transmit-Resets fuel x) r l)

  continue-if :
      (P : List Symbol × Encoder B C → Type 0) (fuel : ℕ) (x : List ℕ) (m : Bool)
      (r t : Encoded B C)
      → (m ≡ true → Returns P (continue fuel x r))
      → (m ≡ false → Returns P (continue fuel x t))
      → Returns P (continue fuel x (if m then r else t))
  continue-if P fuel x true r t h k = h refl
  continue-if P fuel x false r t h k = k refl

  data-Sent :
      (fuel : ℕ) (enc : Encoder B C) (x : List ℕ)
      → enc.state ≡ 0
      → ((y : ResetCode) → c.left enc.copy_encoder y ≡ pause y)
      → length (b.left enc.bytes_encoder x) + length (pause enc.reset_code) + 1 < fuel
      → Returns
          (Sent (b.left enc.bytes_encoder x ++ pause enc.reset_code) enc.reset_code)
          (transmit B C fuel enc x)
  unfolding transmit send_data
  data-Sent zero enc x s y l = absurd (omega arith)
  data-Sent (suc fuel) enc x s y l =
      let sent = B.encode enc.bytes_encoder x in
      let enc' : Encoder B C = record enc {
        bytes_encoder = sent.1.1;
        state = if sent.1.0.complete then 1 else enc.state;
      } in
      subst
        (λ m.
          Returns (Sent (b.left enc.bytes_encoder x ++ pause enc.reset_code) enc.reset_code)
            (continue fuel x m))
        (sym (in_data enc x s))
        (continue-if (Sent (b.left enc.bytes_encoder x ++ pause enc.reset_code) enc.reset_code) fuel
          x sent.1.0.mem_full _ _
          (λ full. elim (Bool-cases sent.1.0.complete) [
            | inl e ↦
                let (p, q) = b.at_end enc.bytes_encoder x e in
                subst
                  (λ l.
                    Returns (Sent l enc.reset_code)
                      (transmit B C fuel enc' x >>= λ r. returns (sent.0 ++ r.0, r.1)))
                  (ap₂ (λ u v. u ++ v) (sym p) (y enc.reset_code))
                  (goes_on sent.0 (code_left enc') (sent.0 ++ code_left enc') enc.reset_code refl (
                    transmit-Resets fuel x enc'
                      (record { state = ap (λ b. if b then 1 else enc.state) e; bytes = q })
                      (omega (arith, ap length (y enc.reset_code)))))
            | inr e ↦
                let (_, p, q) = b.before_end enc.bytes_encoder x e in
                goes_on sent.0 (b.left sent.1.1 x ++ pause enc.reset_code)
                  (b.left enc.bytes_encoder x ++ pause enc.reset_code) enc.reset_code
                  (sym (append_assoc sent.0 (b.left sent.1.1 x) (pause enc.reset_code))
                    ∙ ap (λ l. l ++ pause enc.reset_code) (sym p))
                  (data-Sent fuel enc' x (ap (λ b. if b then 1 else enc.state) e ∙ s) y
                    (omega arith))
          ])
          (λ room. elim (Bool-cases sent.1.0.complete) [
            | inl e ↦
                let (p, q) = b.at_end enc.bytes_encoder x e in
                subst
                  (λ l.
                    Returns (Sent l enc.reset_code) (
                      continue fuel x (sent.0 ++ (send_reset B C enc').0, (send_reset B C enc').1)))
                  (ap₂ (λ u v. u ++ v) (sym p) (y enc.reset_code))
                  (send_reset-Sent fuel sent.0 enc' x (transmit-Resets fuel x)
                    (record { state = ap (λ b. if b then 1 else enc.state) e; bytes = q })
                    (omega (arith, ap length (y enc.reset_code))))
            | inr e ↦ let (full, _, _) = b.before_end enc.bytes_encoder x e in absurd (cc)
          ]))

  -- A transmission from the idle encoder sends the symbols of the bytes, then those of the reset code,
  -- each once and whatever parts the driver takes them in, and leaves the encoder idle with the same
  -- reset code. As many calls as there are symbols and two more are enough.
  pub transmit-Sent :
      (fuel : ℕ) (enc : Encoder B C) (x : List ℕ)
      → Idle enc
      → length (bits x) + length (pause enc.reset_code) + 1 < fuel
      → Returns
          (λ r.
            (r.0 ≡ bits x ++ pause enc.reset_code) × Idle r.1 × (r.1.reset_code ≡ enc.reset_code))
          (transmit B C fuel enc x)
  transmit-Sent fuel enc x i l =
      subst
        (λ l. Returns (Sent (l ++ pause enc.reset_code) enc.reset_code) (transmit B C fuel enc x))
        (i.bytes x) (data-Sent fuel enc x i.state i.copy (rw (i.bytes x) l))
