-- ===== src/Random/Tests.antt =====
-- The range of random numbers at concrete words.
use esp32_components.Base.{◌-◌, ◌^◌, ◌<◌, arith}
use esp32_components.Random.{random}
use esp32_components.Random.Range.{random-lt}

-- The largest word, for a number that is to lie below 7.
random-lt_example : random 7 (2 ^ 32 - 1) < 6
random-lt_example = random-lt 7 (2 ^ 32 - 1) (omega arith) (omega arith) (omega arith)
