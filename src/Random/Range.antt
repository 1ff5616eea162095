-- ===== src/Random/Range.antt =====
-- The ranges of the random numbers.
use esp32_components.Base.{ℕ, ◌+◌, ◌-◌, ◌*◌, ◌%◌, ◌^◌, ◌≤◌, ◌<◌, ◌≡◌, arith, u8}
use esp32_components.Random.{random8, random, random8_range}

mul_le_word : (n w : ℕ) → w < 2 ^ 32 → w * n ≤ (2 ^ 32 - 1) * n
mul_le_word n w h = grind arith

-- The number is what its comment does not say: it never reaches `n - 1`.
pub random-lt : (n w : ℕ) → w < 2 ^ 32 → 2 ≤ n → n ≤ 2 ^ 32 → random n w < n - 1
unfolding random
random-lt n w h l u =
    let e : (n + 2 ^ 64 - 1) % 2 ^ 64 ≡ n - 1 = omega arith in
    rw e (omega (arith, mul_le_word (n - 1) w h))

pub random8-lt : (w : ℕ) → w < 2 ^ 32 → random8 w < 255
unfolding random8
random8-lt w h = omega arith

-- The bounds of `RANDOM8_RANGE`: the two topmost numbers below and at `right` do not come.
pub random8_range_bounds :
    (left right w : ℕ)
    → w < 2 ^ 32
    → left + 2 ≤ right
    → right < 256
    → (left ≤ random8_range left right w) × (random8_range left right w + 1 < right)
unfolding random8_range
random8_range_bounds left right w h l u =
    let e : u8 (right + 256 - left) ≡ right - left = omega arith in
    rw e (omega (arith, random-lt (right - left) w h (omega arith) (omega arith)))

-- An index below the number of elements, cast to a `uint16_t`.
pub random_index : (n w : ℕ) → w < 2 ^ 32 → 1 ≤ n → n < 2 ^ 16 → random n w % 2 ^ 16 < n
unfolding random
random_index n w h l u =
    let e : (n + 2 ^ 64 - 1) % 2 ^ 64 ≡ n - 1 = omega arith in
    rw e (omega (arith, mul_le_word (n - 1) w h))
