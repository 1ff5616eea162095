-- ===== src/Ws2812Led/Encoder.antt =====
-- WS2812Led/src/encoder.c: the encoder that sends a strip's bytes and then the reset code. The two
-- encoders of the RMT driver that it is made of are parameters. A call of one gives symbols, which the
-- source only counts, and flags.
pub mod Transmit
pub mod Create
mod Tests
use esp32_components.Base.{
  ℕ, zero, suc, ◌+◌, ◌*◌, ◌/◌, Bool, true, false, List, [], ◌∷◌, ◌++◌, Option, none, some, ◌==◌,
  if◌then◌else◌, Outcome, returns, unfinished, ◌>>=◌, ◌⊎◌, inl, inr,
}

pub data EspErr : Type 0 where
  esp_ok no_mem invalid_arg : EspErr
  other : ℕ → EspErr

-- RMT_ENCODING_COMPLETE and RMT_ENCODING_MEM_FULL; neither is RMT_ENCODING_RESET.
pub record Flags : Type 0 where
  pub complete : Bool
  pub mem_full : Bool

-- Both halves of the code have the level 0.
pub record ResetCode : Type 0 where
  pub duration0 : ℕ
  pub duration1 : ℕ

-- An encoder of the driver, for inputs of one kind. `Symbol` is an `rmt_symbol_word_t`.
pub record Driver (Symbol Input : Type 0) : Type 1 where
  pub State : Type 0
  pub encode : State → Input → List Symbol × (Flags × State)
  pub reset : State → State

module _ {Symbol : Type 0} (B : Driver Symbol (List ℕ)) (C : Driver Symbol ResetCode) where
  pub record Encoder : Type 0 where
    pub bytes_encoder : B.State
    pub copy_encoder : C.State
    pub state : ℕ
    pub reset_code : ResetCode

  -- What a call returns: the symbols, its flags and the encoder.
  abbrev pub Encoded : Type 0
  Encoded = List Symbol × (Flags × Encoder)

  unfoldable pub send_reset : Encoder → Encoded
  send_reset enc =
      let (out, (session, copy)) = C.encode enc.copy_encoder enc.reset_code in
      (
        out,
        (
          record { complete = session.complete; mem_full = session.mem_full },
          record enc { copy_encoder = copy; state = if session.complete then 0 else enc.state },
        ),
      )

  unfoldable pub send_data : Encoder → List ℕ → Encoded
  unfolding send_reset
  send_data enc data_bytes =
      let (out, (session, bytes)) = B.encode enc.bytes_encoder data_bytes in
      let enc' : Encoder = record enc {
        bytes_encoder = bytes;
        state = if session.complete then 1 else enc.state;
      } in
      if session.mem_full
      then (out, (record { complete = false; mem_full = true }, enc'))
      else (let (more, rest) = send_reset enc' in (out ++ more, rest))

  unfoldable pub encode_led_strip : Encoder → List ℕ → Encoded
  unfolding send_data send_reset
  encode_led_strip enc data_bytes =
      if enc.state == 0
      then send_data enc data_bytes
      else (if enc.state == 1
          then send_reset enc
          else ([], (record { complete = false; mem_full = false }, enc)))

  unfoldable pub encoder_reset : Encoder → Encoder
  encoder_reset enc = record enc {
    bytes_encoder = B.reset enc.bytes_encoder;
    copy_encoder = C.reset enc.copy_encoder;
    state = 0;
  }

  -- The driver asks for symbols until the encoding is complete.
  unfoldable pub transmit : ℕ → Encoder → List ℕ → Outcome (List Symbol × Encoder)
  unfolding encode_led_strip
  transmit zero enc data_bytes = unfinished
  transmit (suc fuel) enc data_bytes =
      let (out, (session, enc')) = encode_led_strip enc data_bytes in
      let rest = transmit fuel enc' data_bytes in
      if session.complete
      then returns (out, enc')
      else (do (more, enc'') ← rest; returns (out ++ more, enc''))

-- The reset lasts 50 us, half of it in each duration. The product is below 2^32 for a `uint32_t`.
unfoldable pub reset_code_of : ℕ → ResetCode
reset_code_of resolution =
    let reset_ticks = resolution / 1000000 * 50 / 2 in
    record { duration0 = reset_ticks; duration1 = reset_ticks }

-- What is allocated after a call: the object and the driver's two encoders.
pub record Held : Type 0 where
  pub object : Bool
  pub bytes : Bool
  pub copy : Bool

abbrev pub nothing_held : Held
nothing_held = record { object = false; bytes = false; copy = false }

module _ {Symbol : Type 0} (B : Driver Symbol (List ℕ)) (C : Driver Symbol ResetCode) where
  pub record Created : Type 0 where
    pub result : EspErr
    pub encoder : Option (Encoder B C)
    pub held : Held

  -- The clean-up deletes the encoders whose handles are set, and the object. A driver's call gives an
  -- encoder or an error other than ESP_OK, and then sets no handle.
  unfoldable pub clean_up : EspErr → Held → Created
  clean_up err held = record {
    result = err;
    encoder = none;
    held = record {
      object = false;
      bytes = if held.bytes then false else held.bytes;
      copy = if held.copy then false else held.copy;
    };
  }

  unfoldable pub new_copy_encoder : (resolution : ℕ) → B.State → EspErr ⊎ C.State → Created
  unfolding reset_code_of clean_up
  new_copy_encoder resolution bytes copy = elim copy [
    | inl e ↦ clean_up e (record { object = true; bytes = true; copy = false })
    | inr c ↦ record {
      result = esp_ok;
      encoder = some (record {
        bytes_encoder = bytes;
        copy_encoder = c;
        state = 0;
        reset_code = reset_code_of resolution;
      });
      held = record { object = true; bytes = true; copy = true };
    }
  ]

  unfoldable pub encoder_new :
      (resolution : ℕ) → (room : Bool) → EspErr ⊎ B.State → EspErr ⊎ C.State → Created
  unfolding new_copy_encoder clean_up
  encoder_new resolution room bytes copy =
      if room
      then elim bytes [
        | inl e ↦ clean_up e (record { object = true; bytes = false; copy = false })
        | inr b ↦ new_copy_encoder resolution b copy
      ]
      else record { result = no_mem; encoder = none; held = nothing_held }
