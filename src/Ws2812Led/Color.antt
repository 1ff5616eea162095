-- ===== src/Ws2812Led/Color.antt =====
-- WS2812Led/src/WS2812Led.c, the colour arithmetic: scaling, gamma correction, the conversion from HSV
-- to RGB, and the colours of heat. Bytes are numbers below 256.
pub mod Hsv
pub mod Heat
pub mod Fade
mod Tests
use esp32_components.Base.{
  ℕ, ◌+◌, ◌-◌, ◌*◌, ◌/◌, ◌%◌, ◌&&◌, ◌||◌, not, Bool, true, false, List, [], ◌∷◌, ◌==◌,
  if◌then◌else◌, ltb, leb, u8, Outcome, returns, load, ◌>>=◌,
}

pub record Crgb : Type 0 where
  pub g : ℕ
  pub r : ℕ
  pub b : ℕ

pub record Chsv : Type 0 where
  pub h : ℕ
  pub s : ℕ
  pub v : ℕ

unfoldable pub scale8 : ℕ → ℕ → ℕ
scale8 x scale = u8 (x * scale / 256)

-- The sum is an `int`, which no caller lets go past a byte.
unfoldable pub scale8_nz : ℕ → ℕ → ℕ
scale8_nz x scale = u8 (x * scale / 256) + (if not (x == 0) && not (scale == 0) then 1 else 0)

unfoldable pub sub_safe : ℕ → ℕ → ℕ
sub_safe a b = if ltb a b then 0 else a - b

unfoldable pub add8_safe : ℕ → ℕ → ℕ
add8_safe a b = if ltb 255 (a + b) then 255 else a + b

unfoldable pub gamma_array : List ℕ
gamma_array =
    0 ∷ 0 ∷ 0 ∷ 0 ∷ 0 ∷ 0 ∷ 0 ∷ 0 ∷ 0 ∷ 0 ∷ 0 ∷ 0 ∷ 0 ∷ 0 ∷ 0 ∷ 0 ∷ 0 ∷ 0 ∷ 0 ∷ 0 ∷ 0 ∷ 0 ∷ 0 ∷ 0
    ∷ 0 ∷ 0 ∷ 0 ∷ 0 ∷ 1 ∷ 1 ∷ 1 ∷ 1 ∷ 1 ∷ 1 ∷ 1 ∷ 1 ∷ 1 ∷ 1 ∷ 1 ∷ 1 ∷ 1 ∷ 2 ∷ 2 ∷ 2 ∷ 2 ∷ 2 ∷ 2 ∷ 2
    ∷ 2 ∷ 3 ∷ 3 ∷ 3 ∷ 3 ∷ 3 ∷ 3 ∷ 3 ∷ 4 ∷ 4 ∷ 4 ∷ 4 ∷ 4 ∷ 5 ∷ 5 ∷ 5 ∷ 5 ∷ 6 ∷ 6 ∷ 6 ∷ 6 ∷ 7 ∷ 7 ∷ 7
    ∷ 7 ∷ 8 ∷ 8 ∷ 8 ∷ 9 ∷ 9 ∷ 9 ∷ 10 ∷ 10 ∷ 10 ∷ 11 ∷ 11 ∷ 11 ∷ 12 ∷ 12 ∷ 13 ∷ 13 ∷ 13 ∷ 14 ∷ 14
    ∷ 15 ∷ 15 ∷ 16 ∷ 16 ∷ 17 ∷ 17 ∷ 18 ∷ 18 ∷ 19 ∷ 19 ∷ 20 ∷ 20 ∷ 21 ∷ 21 ∷ 22 ∷ 22 ∷ 23 ∷ 24 ∷ 24
    ∷ 25 ∷ 25 ∷ 26 ∷ 27 ∷ 27 ∷ 28 ∷ 29 ∷ 29 ∷ 30 ∷ 31 ∷ 32 ∷ 32 ∷ 33 ∷ 34 ∷ 35 ∷ 35 ∷ 36 ∷ 37 ∷ 38
    ∷ 39 ∷ 39 ∷ 40 ∷ 41 ∷ 42 ∷ 43 ∷ 44 ∷ 45 ∷ 46 ∷ 47 ∷ 48 ∷ 49 ∷ 50 ∷ 50 ∷ 51 ∷ 52 ∷ 54 ∷ 55 ∷ 56
    ∷ 57 ∷ 58 ∷ 59 ∷ 60 ∷ 61 ∷ 62 ∷ 63 ∷ 64 ∷ 66 ∷ 67 ∷ 68 ∷ 69 ∷ 70 ∷ 72 ∷ 73 ∷ 74 ∷ 75 ∷ 77 ∷ 78
    ∷ 79 ∷ 81 ∷ 82 ∷ 83 ∷ 85 ∷ 86 ∷ 87 ∷ 89 ∷ 90 ∷ 92 ∷ 93 ∷ 95 ∷ 96 ∷ 98 ∷ 99 ∷ 101 ∷ 102 ∷ 104
    ∷ 105 ∷ 107 ∷ 109 ∷ 110 ∷ 112 ∷ 114 ∷ 115 ∷ 117 ∷ 119 ∷ 120 ∷ 122 ∷ 124 ∷ 126 ∷ 127 ∷ 129 ∷ 131
    ∷ 133 ∷ 135 ∷ 137 ∷ 138 ∷ 140 ∷ 142 ∷ 144 ∷ 146 ∷ 148 ∷ 150 ∷ 152 ∷ 154 ∷ 156 ∷ 158 ∷ 160 ∷ 162
    ∷ 164 ∷ 167 ∷ 169 ∷ 171 ∷ 173 ∷ 175 ∷ 177 ∷ 180 ∷ 182 ∷ 184 ∷ 186 ∷ 189 ∷ 191 ∷ 193 ∷ 196 ∷ 198
    ∷ 200 ∷ 203 ∷ 205 ∷ 208 ∷ 210 ∷ 213 ∷ 215 ∷ 218 ∷ 220 ∷ 223 ∷ 225 ∷ 228 ∷ 231 ∷ 233 ∷ 236 ∷ 239
    ∷ 241 ∷ 244 ∷ 247 ∷ 249 ∷ 252 ∷ 255 ∷ []

unfoldable pub gamma8 : ℕ → Outcome ℕ
unfolding gamma_array
gamma8 idx = load gamma_array idx

unfoldable pub scale8_rgb : Crgb → ℕ → Crgb
unfolding scale8
scale8_rgb rgb scale = record {
  g = scale8 rgb.g scale;
  r = scale8 rgb.r scale;
  b = scale8 rgb.b scale;
}

-- `bin` is what RANDOM_BIN() gives. Positions are `uint16_t`.
unfoldable pub random_walk : Bool → ℕ → ℕ → ℕ
random_walk bin pos limit =
    if bin
    then (if ltb limit (pos + 1) then 0 else pos + 1)
    else (if pos == 0 then (limit + 65536 - 1) % 65536 else pos - 1)

unfoldable pub get_heatcolor : ℕ → Crgb
unfolding scale8_nz
get_heatcolor temperature =
    let t192 = u8 (scale8_nz temperature 191) in
    let heatramp = u8 (t192 % 64 * 4) in
    if not (t192 / 128 % 2 == 0)
    then record { r = 255; g = 255; b = heatramp }
    else (if not (t192 / 64 % 2 == 0)
        then record { r = 255; g = heatramp; b = 0 }
        else record { r = heatramp; g = 0; b = 0 })

-- The colour of a region of the hue circle, before the gamma correction.
unfoldable pub hsv_region : ℕ → (v p q t : ℕ) → Crgb
hsv_region region v p q t =
    if region == 0
    then record { r = v; g = t; b = p }
    else if region == 1
    then record { r = q; g = v; b = p }
    else if region == 2
    then record { r = p; g = v; b = t }
    else if region == 3
    then record { r = p; g = q; b = v }
    else if region == 4
    then record { r = t; g = p; b = v }
    else record { r = v; g = p; b = q }

unfoldable pub gamma_rgb : Crgb → Outcome Crgb
unfolding gamma8
gamma_rgb c = do
  r ← gamma8 c.r
  g ← gamma8 c.g
  b ← gamma8 c.b
  returns (record { g = g; r = r; b = b })

-- The arithmetic is on `int`s, and each result goes into an `unsigned char`.
unfoldable pub hsv2rgb : Chsv → Outcome Crgb
unfolding gamma_rgb hsv_region
hsv2rgb hsv =
    if hsv.s == 0
    then gamma_rgb (record { g = hsv.v; r = hsv.v; b = hsv.v })
    else (let region = u8 (hsv.h / 43) in
        let remainder = u8 ((hsv.h - region * 43) * 6) in
        let p = u8 (hsv.v * (255 - hsv.s) / 256) in
        let q = u8 (hsv.v * (255 - hsv.s * remainder / 256) / 256) in
        let t = u8 (hsv.v * (255 - hsv.s * (255 - remainder) / 256) / 256) in
        gamma_rgb (hsv_region region hsv.v p q t))

-- In place, by a factor from 0 to 255.
unfoldable pub fade_color : Crgb → ℕ → Crgb
unfolding scale8_rgb
fade_color rgb factor = scale8_rgb rgb (255 - factor)

-- All pixels of the segment are off.
unfoldable pub is_seg_blank_rgb : List Crgb → Bool
is_seg_blank_rgb [] = true
is_seg_blank_rgb (pix ∷ rest) =
    let blank = is_seg_blank_rgb rest in
    if ltb 0 pix.r || ltb 0 pix.g || ltb 0 pix.b then false else blank
