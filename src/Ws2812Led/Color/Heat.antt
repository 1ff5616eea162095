-- ===== src/Ws2812Led/Color/Heat.antt =====
-- The colours of heat.
use esp32_components.Base.{ℕ, ◌<◌, ◌≤◌, arith}
use esp32_components.Ws2812Led.Color.{scale8_nz, get_heatcolor}

-- 192 levels of heat, of which 0 is only for a temperature of 0.
level_lem : (t : ℕ) → t < 256 → scale8_nz t 191 < 192
unfolding scale8_nz
level_lem t h = ground arith

level_mono : (t t' : ℕ) → t ≤ t' → t' < 256 → scale8_nz t 191 ≤ scale8_nz t' 191
unfolding scale8_nz
level_mono t t' l h = ground arith

-- No channel gets darker as the temperature rises, and red is never behind green, nor green behind
-- blue: the colours go from black over red and yellow to white.
pub get_heatcolor_mono :
    (t t' : ℕ)
    → t ≤ t'
    → t' < 256
    → let c = get_heatcolor t in
      let c' = get_heatcolor t' in
      (c.r ≤ c'.r) × (c.g ≤ c'.g) × (c.b ≤ c'.b) × (c'.b ≤ c'.g) × (c'.g ≤ c'.r) × (c'.r < 256)
unfolding get_heatcolor
get_heatcolor_mono t t' l h = ground (arith, level_lem t, level_lem t', level_mono t t')
