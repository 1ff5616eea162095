-- ===== src/Ws2812Led/Color/Tests.antt =====
-- The theorems on colours at concrete bytes.
use esp32_components.Base.{◌≤◌, ◌≡◌, true, [], ◌∷◌, arith}
use esp32_components.Ws2812Led.Color.{Crgb, Chsv, hsv2rgb, is_seg_blank_rgb}
use esp32_components.Ws2812Led.Color.Hsv.{Corrected, hsv2rgb-Peak}
use esp32_components.Ws2812Led.Color.Fade.{AllDecayed, faded_all, faded_all-Decayed}

abbrev teal : Chsv
teal = record { h = 120; s = 200; v = 180 }

hsv2rgb-Peak_example : Corrected 180 (hsv2rgb teal)
hsv2rgb-Peak_example = hsv2rgb-Peak teal (omega arith) (omega arith) (omega arith)

abbrev pink : Crgb
pink = record { g = 40; r = 255; b = 90 }

faded_all-Decayed_example :
    AllDecayed 3 155 (pink ∷ pink ∷ []) (faded_all 3 100 (pink ∷ pink ∷ []))
    × (255 ≤ 3 → is_seg_blank_rgb (faded_all 3 100 (pink ∷ pink ∷ [])) ≡ true)
faded_all-Decayed_example =
    faded_all-Decayed 3 100 (pink ∷ pink ∷ [])
      ((omega arith, omega arith, omega arith), ((omega arith, omega arith, omega arith), _))
      (omega arith)
