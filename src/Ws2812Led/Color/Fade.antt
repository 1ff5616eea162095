-- ===== src/Ws2812Led/Color/Fade.antt =====
-- Fading a pixel.
use native.Mathlib.Nat.{pow-le-pow_left, pow-succ', pow-zero}
use esp32_components.Base.{
  ℕ, zero, suc, ◌-◌, ◌*◌, ◌+◌, ◌^◌, ◌<◌, ◌≤◌, ◌≡◌, arith, true, List, [], ◌∷◌, refl,
}
use esp32_components.Ws2812Led.Color.{Crgb, scale8, scale8_rgb, fade_color, is_seg_blank_rgb}

mul_le : (x k : ℕ) → k < 256 → x * k ≤ x * 255
mul_le x k h = grind arith

-- Scaling a byte makes it smaller, unless it is 0.
scale8_lt : (x k : ℕ) → x < 256 → k < 256 → scale8 x k ≤ x - 1
unfolding scale8
scale8_lt x k h l = omega (arith, mul_le x k l)

-- The pixel after `n` fades.
unfoldable pub faded : ℕ → ℕ → Crgb → Crgb
faded zero factor c = c
faded (suc n) factor c = faded n factor (fade_color c factor)

abbrev pub IsByte : Crgb → Type 0
IsByte c = (c.r < 256) × (c.g < 256) × (c.b < 256)

-- Every fade takes at least 1 from each channel that is on, whatever the factor: the factor 0 too.
pub faded_le :
    (n factor : ℕ) (c : Crgb)
    → IsByte c
    → let d = faded n factor c in (d.r ≤ c.r - n) × (d.g ≤ c.g - n) × (d.b ≤ c.b - n)
unfolding faded fade_color scale8_rgb
faded_le zero factor c h = (omega arith, omega arith, omega arith)
faded_le (suc n) factor c h =
    let k : 255 - factor < 256 = omega arith in
    let r = scale8_lt c.r (255 - factor) h.0 k in
    let g = scale8_lt c.g (255 - factor) h.1 k in
    let b = scale8_lt c.b (255 - factor) h.2 k in
    let rest = faded_le n factor (fade_color c factor) (omega arith, omega arith, omega arith) in
    (omega (arith, rest.0), omega (arith, rest.1), omega (arith, rest.2))

unfoldable pub faded_all : ℕ → ℕ → List Crgb → List Crgb
faded_all n factor [] = []
faded_all n factor (c ∷ rest) = faded n factor c ∷ faded_all n factor rest

abbrev pub AreBytes : List Crgb → Type 0
AreBytes [] = Unit {0}
AreBytes (c ∷ rest) = IsByte c × AreBytes rest

-- A byte `x` after `n` scalings by `k` of 256: `y` is below the exact decay, by no more than `n`.
abbrev pub Decayed : (n k x y : ℕ) → Type 0
Decayed n k x y = (y * 256 ^ n ≤ x * k ^ n) × (x * k ^ n ≤ (y + n) * 256 ^ n)

mul_mono : (a b s : ℕ) → a ≤ b → a * s ≤ b * s
mul_mono a b s h = grind arith

Decayed-zero : (k x : ℕ) → Decayed 0 k x x
Decayed-zero k x = rw (pow-zero 256, pow-zero k) (omega arith, omega arith)

-- A step of the decay, `p` and `q` being the powers of `k` and of 256.
decay_step :
    (n k p q x x' y : ℕ)
    → p ≤ q
    → x' * 256 ≤ x * k
    → x * k ≤ (x' + 1) * 256
    → y * q ≤ x' * p
    → x' * p ≤ (y + n) * q
    → (y * (256 * q) ≤ x * (k * p)) × (x * (k * p) ≤ (y + suc n) * (256 * q))
decay_step n k p q x x' y e low high below above =
    let b = mul_mono (x' * 256) (x * k) p low in
    let c = mul_mono (x * k) ((x' + 1) * 256) p high in (omega arith, omega arith)

Decayed-suc :
    (n k x x' y : ℕ)
    → k ≤ 256
    → x' * 256 ≤ x * k
    → x * k ≤ (x' + 1) * 256
    → Decayed n k x' y
    → Decayed (suc n) k x y
Decayed-suc n k x x' y small low high (below, above) =
    let step =
      decay_step n k (k ^ n) (256 ^ n) x x' y (pow-le-pow_left small n) low high below above in
    rw (pow-succ' 256 n, pow-succ' k n) step

-- What is left of a channel of a byte after one scaling.
scale8-bounds :
    (x k : ℕ) → x < 256 → k < 256 → (scale8 x k * 256 ≤ x * k) × (x * k ≤ (scale8 x k + 1) * 256)
unfolding scale8
scale8-bounds x k h l = (omega (arith, mul_le x k l), omega (arith, mul_le x k l))

scale8-Decayed :
    (n k x y : ℕ) → x < 256 → k < 256 → Decayed n k (scale8 x k) y → Decayed (suc n) k x y
scale8-Decayed n k x y h l rest =
    let (low, high) = scale8-bounds x k h l in
    Decayed-suc n k x (scale8 x k) y (omega arith) low high rest

abbrev pub PixelDecayed : (n k : ℕ) → Crgb → Crgb → Type 0
PixelDecayed n k c d = Decayed n k c.r d.r × Decayed n k c.g d.g × Decayed n k c.b d.b

abbrev pub AllDecayed : (n k : ℕ) → List Crgb → List Crgb → Type 0
AllDecayed n k [] [] = Unit {0}
AllDecayed n k [] (d ∷ ds) = ⊥
AllDecayed n k (c ∷ cs) [] = ⊥
AllDecayed n k (c ∷ cs) (d ∷ ds) = PixelDecayed n k c d × AllDecayed n k cs ds

fade_color-IsByte : (c : Crgb) (factor : ℕ) → IsByte (fade_color c factor)
unfolding fade_color scale8_rgb scale8
fade_color-IsByte c factor = (omega arith, omega arith, omega arith)

faded-Decayed :
    (n factor : ℕ) (c : Crgb) → IsByte c → PixelDecayed n (255 - factor) c (faded n factor c)
unfolding faded fade_color scale8_rgb
faded-Decayed zero factor c h = (
  Decayed-zero (255 - factor) c.r,
  Decayed-zero (255 - factor) c.g,
  Decayed-zero (255 - factor) c.b,
)
faded-Decayed (suc n) factor c h =
    let k = 255 - factor in
    let d = fade_color c factor in
    let small : k < 256 = omega arith in
    let (r, g, b) = faded-Decayed n factor d (fade_color-IsByte c factor) in
    (
      scale8-Decayed n k c.r (faded n factor d).r h.0 small r,
      scale8-Decayed n k c.g (faded n factor d).g h.1 small g,
      scale8-Decayed n k c.b (faded n factor d).b h.2 small b,
    )

faded_all-AllDecayed :
    (n factor : ℕ) (pixels : List Crgb)
    → AreBytes pixels
    → AllDecayed n (255 - factor) pixels (faded_all n factor pixels)
unfolding faded_all
faded_all-AllDecayed n factor [] h = _
faded_all-AllDecayed n factor (c ∷ cs) h =
    (faded-Decayed n factor c h.0, faded_all-AllDecayed n factor cs h.1)

faded_all_off :
    (n factor : ℕ) (pixels : List Crgb)
    → AreBytes pixels
    → 255 ≤ n
    → is_seg_blank_rgb (faded_all n factor pixels) ≡ true
unfolding is_seg_blank_rgb faded_all
faded_all_off n factor [] h l = refl
faded_all_off n factor (c ∷ cs) h l =
    ground (arith, faded_le n factor c h.0, faded_all_off n factor cs h.1 l)

-- After `n` fades of a segment by a factor from 0 to 255, each channel of each pixel is the exact decay
-- by (255 - factor) / 256 at each fade, less the rounding, which takes at most 1 at each; after 255 or
-- more fades all of them are off.
pub faded_all-Decayed :
    (n factor : ℕ) (pixels : List Crgb)
    → AreBytes pixels
    → factor < 256
    → AllDecayed n (255 - factor) pixels (faded_all n factor pixels)
      × (255 ≤ n → is_seg_blank_rgb (faded_all n factor pixels) ≡ true)
faded_all-Decayed n factor pixels h f =
    (faded_all-AllDecayed n factor pixels h, faded_all_off n factor pixels h)
