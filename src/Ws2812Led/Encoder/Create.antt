-- ===== src/Ws2812Led/Encoder/Create.antt =====
-- What is left when an encoder is created, or is not.
use esp32_components.Base.{ℕ, ◌≡◌, ◌≢◌, refl, Bool, true, false, List, none, some, ◌⊎◌, inl, inr}
use esp32_components.Ws2812Led.Encoder.{
  EspErr, esp_ok, Driver, ResetCode, Encoder, nothing_held, Created, encoder_new,
}

module _ {Symbol : Type 0} (B : Driver Symbol (List ℕ)) (C : Driver Symbol ResetCode) where
  abbrev pub Kept : Created B C → Type 0
  Kept m =
      ((enc : Encoder B C) × (m.encoder ≡ some enc) × (enc.state ≡ 0))
      × (m.result ≡ esp_ok)
      × (m.held ≡ record { object = true; bytes = true; copy = true })

  abbrev pub Dropped : Created B C → Type 0
  Dropped m = (m.encoder ≡ none) × (m.result ≢ esp_ok) × (m.held ≡ nothing_held)

  -- The creation of an encoder, where the driver's errors are not ESP_OK, either succeeds with an
  -- encoder in its first state, which holds the object and both encoders of the driver, or it gives
  -- an error and no encoder, and all that it allocated is released.
  pub encoder_new_cases :
      (resolution : ℕ) (room : Bool) (bytes : EspErr ⊎ B.State) (copy : EspErr ⊎ C.State)
      → bytes ≢ inl esp_ok
      → copy ≢ inl esp_ok
      → Kept (encoder_new B C resolution room bytes copy)
        ⊎ Dropped (encoder_new B C resolution room bytes copy)
  unfolding encoder_new
  encoder_new_cases resolution false bytes copy b c = inr (refl, (λ e. cc), refl)
  encoder_new_cases resolution true (inl e) copy b c = inr (refl, (λ q. b (cc)), refl)
  encoder_new_cases resolution true (inr s) (inl e) b c = inr (refl, (λ q. c (cc)), refl)
  encoder_new_cases resolution true (inr s) (inr t) b c = inl ((_, refl, refl), refl, refl)
