-- ===== src/Random.antt =====
-- Random/include/Random.h: numbers made of a word `w` that esp_random() gives, below 2^32.
pub mod Range
mod Tests
use esp32_components.Base.{ℕ, ◌+◌, ◌-◌, ◌*◌, ◌/◌, ◌%◌, ◌^◌, Bool, not, ◌==◌, u8}

unfoldable pub random8 : ℕ → ℕ
random8 w = u8 (w * 255 / 2 ^ 32)

unfoldable pub random16 : ℕ → ℕ
random16 w = w * 65535 / 2 ^ 32 % 2 ^ 16

-- The product is a `uint64_t`, into which `n - 1` is converted; the cast to the type is the caller's.
unfoldable pub random : ℕ → ℕ → ℕ
random n w = w * ((n + 2 ^ 64 - 1) % 2 ^ 64) % 2 ^ 64 / 2 ^ 32

unfoldable pub random8_range : ℕ → ℕ → ℕ → ℕ
unfolding random
random8_range left right w = let delta = u8 (right + 256 - left) in u8 (u8 (random delta w) + left)

unfoldable pub random_bin : ℕ → Bool
random_bin w = not (w / 2 ^ 31 % 2 == 0)
