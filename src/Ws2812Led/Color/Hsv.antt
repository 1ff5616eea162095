-- ===== src/Ws2812Led/Color/Hsv.antt =====
-- From HSV to RGB: the gamma table and the brightest channel.
use esp32_components.Base.{
  ℕ, zero, suc, ◌-◌, ◌*◌, ◌/◌, ◌<◌, ◌≤◌, ◌≡◌, refl, sym, ap, ◌∙◌, arith, u8, Bool, true, leb, ◌&&◌,
  if◌then◌else◌, List, [], ◌∷◌, Outcome, returns, load, load-zero, load-suc, length, inl, inr, ◌⊎◌,
  ℕ_discrete, ne→==, eq→==,
}
use esp32_components.Base.{subst, load_middle, take, Returns, returning}
use esp32_components.Ws2812Led.Color.{
  Crgb, Chsv, gamma_array, gamma8, gamma_rgb, hsv_region, hsv2rgb,
}

-- No entry is below the one before it, nor the first below `lo`.
rising : ℕ → List ℕ → Bool
rising lo [] = true
rising lo (x ∷ xs) = leb lo x && rising x xs

-- Two reads in order from a rising list.
load-rising :
    (lo : ℕ) (xs : List ℕ) (i j : ℕ)
    → rising lo xs ≡ true
    → i ≤ j
    → j < length xs
    → (a b : ℕ) × (load xs i ≡ returns a) × (load xs j ≡ returns b) × (lo ≤ a) × (a ≤ b)
unfolding rising
load-rising lo [] i j r l h = absurd (omega arith)
load-rising lo (x ∷ xs) zero zero r l h =
    (x, x, load-zero x xs, load-zero x xs, ground arith, omega arith)
load-rising lo (x ∷ xs) zero (suc j) r l h =
    let (a, b, e, e', m, m') = load-rising x xs j j (ground arith) (omega arith) (omega arith) in
    (x, b, load-zero x xs, load-suc x xs j ∙ e', ground arith, omega (arith, m, m'))
load-rising lo (x ∷ xs) (suc i) zero r l h = absurd (omega arith)
load-rising lo (x ∷ xs) (suc i) (suc j) r l h =
    let (a, b, e, e', m, m') = load-rising x xs i j (ground arith) (omega arith) (omega arith) in
    (a, b, load-suc x xs i ∙ e, load-suc x xs j ∙ e', ground (arith, m), m')

-- The table is read inside its bounds by every byte, and it keeps the order.
gamma8_mono :
    (i j : ℕ)
    → i ≤ j
    → j < 256
    → (a b : ℕ) × (gamma8 i ≡ returns a) × (gamma8 j ≡ returns b) × (a ≤ b)
unfolding gamma8 gamma_array rising
gamma8_mono i j l h =
    let (a, b, e, e', m, m') = load-rising 0 gamma_array i j refl l h in (a, b, e, e', m')

mul_le : (x k : ℕ) → k < 256 → x * k ≤ x * 255
mul_le x k h = grind arith

-- The three other levels of a colour are not above its value.
scaled_le : (v k : ℕ) → v < 256 → k < 256 → u8 (v * k / 256) ≤ v
scaled_le v k h l = omega (arith, mul_le v k l)

-- The brightest channel of a colour is `v`.
abbrev pub Peak : ℕ → Crgb → Type 0
Peak v c = ((c.r ≤ v) × (c.g ≤ v) × (c.b ≤ v)) × ((c.r ≡ v) ⊎ ((c.g ≡ v) ⊎ (c.b ≡ v)))

-- The result of a run is a colour whose brightest channel is what the table has at `v`.
pub data Corrected (v : ℕ) (o : Outcome Crgb) : Type 0 where
  corrected : (m : ℕ) (d : Crgb) → gamma8 v ≡ returns m → o ≡ returns d → Peak m d → Corrected v o

same_read : {a b : ℕ} {i j : ℕ} → i ≡ j → gamma8 i ≡ returns a → gamma8 j ≡ returns b → a ≡ b
same_read e p q = cc

gamma_rgb-Peak : (v : ℕ) (c : Crgb) → v < 256 → Peak v c → Corrected v (gamma_rgb c)
unfolding gamma_rgb
gamma_rgb-Peak v c h ((r, g, b), top) =
    let (x, m, e, f, l) = gamma8_mono c.r v r h in
    let (y, m', e', f', l') = gamma8_mono c.g v g h in
    let (z, m'', e'', f'', l'') = gamma8_mono c.b v b h in
    let n : m' ≡ m = same_read refl f' f in
    let n' : m'' ≡ m = same_read refl f'' f in
    corrected m (record { g = y; r = x; b = z }) f (rw (e, e', e''))
      (
        (l, omega arith, omega arith),
        elim top [
          | inl t ↦ inl (same_read t e f)
          | inr t ↦
              inr (elim t [ inl u ↦ inl (same_read u e' f) | inr u ↦ inr (same_read u e'' f) ])
        ],
      )

region-Peak : (region v p q t : ℕ) → p ≤ v → q ≤ v → t ≤ v → Peak v (hsv_region region v p q t)
unfolding hsv_region
region-Peak region v p q t a b c = ground arith

-- The conversion of any colour reads the gamma table inside its bounds, and the brightest channel of
-- the result is the table's entry for the value of the colour.
pub hsv2rgb-Peak :
    (hsv : Chsv) → hsv.h < 256 → hsv.s < 256 → hsv.v < 256 → Corrected hsv.v (hsv2rgb hsv)
unfolding hsv2rgb
hsv2rgb-Peak hsv h s v =
    let region = u8 (hsv.h / 43) in
    let remainder = u8 ((hsv.h - region * 43) * 6) in
    let p = u8 (hsv.v * (255 - hsv.s) / 256) in
    let q = u8 (hsv.v * (255 - hsv.s * remainder / 256) / 256) in
    let t = u8 (hsv.v * (255 - hsv.s * (255 - remainder) / 256) / 256) in
    let grey = gamma_rgb (record { g = hsv.v; r = hsv.v; b = hsv.v }) in
    let colour = gamma_rgb (hsv_region region hsv.v p q t) in
    elim (ℕ_discrete hsv.s 0) [
      | yes z ↦
          subst (λ o. Corrected hsv.v o)
            (sym (ap (λ b. if b then grey else colour) (eq→== hsv.s 0 z)))
            (gamma_rgb-Peak hsv.v (record { g = hsv.v; r = hsv.v; b = hsv.v }) v
              ((omega arith, omega arith, omega arith), inl refl))
      | no n ↦
          subst (λ o. Corrected hsv.v o)
            (sym (ap (λ b. if b then grey else colour) (ne→== hsv.s 0 n)))
            (gamma_rgb-Peak hsv.v (hsv_region region hsv.v p q t) v (
              region-Peak region hsv.v p q t (scaled_le hsv.v (255 - hsv.s) v (omega arith))
                (scaled_le hsv.v (255 - hsv.s * remainder / 256) v (omega arith))
                (scaled_le hsv.v (255 - hsv.s * (255 - remainder) / 256) v (omega arith))))
    ]

last_entry : gamma8 255 ≡ returns 255
unfolding gamma8 gamma_array
last_entry = load_middle (take 255 gamma_array) 255 [] refl

same_read_top : (b : ℕ) → gamma8 255 ≡ returns b → b ≡ 255
same_read_top b e = same_read {a = b} {b = 255} {i = 255} refl e last_entry

-- No entry of the table is above a byte.
pub gamma8-lt : (v m : ℕ) → v < 256 → gamma8 v ≡ returns m → m < 256
gamma8-lt v m h e =
    let (a, b, f, g, l) = gamma8_mono v 255 (omega arith) (omega arith) in
    let t : b ≡ 255 = same_read_top b g in let q : a ≡ m = same_read refl f e in omega arith

-- A colour of bytes is converted to a colour of bytes.
pub hsv2rgb-Returns :
    (hsv : Chsv)
    → hsv.h < 256
    → hsv.s < 256
    → hsv.v < 256
    → Returns (λ c. (c.r < 256) × (c.g < 256) × (c.b < 256)) (hsv2rgb hsv)
hsv2rgb-Returns hsv h s v = bytes (hsv2rgb-Peak hsv h s v)
  where
    bytes :
        {o : Outcome Crgb}
        → Corrected hsv.v o
        → Returns (λ (c : Crgb). (c.r < 256) × (c.g < 256) × (c.b < 256)) o
    bytes (corrected m d e f ((r, g, b), top)) =
        let l = gamma8-lt hsv.v m v e in
        subst (λ p. Returns (λ (c : Crgb). (c.r < 256) × (c.g < 256) × (c.b < 256)) p) (sym f)
          (returning (omega arith, omega arith, omega arith))
