-- ===== src/SwTimer/Tests.antt =====
-- The theorems on timers at concrete clocks.
use esp32_components.Base.{◌≡◌, [], ◌∷◌, ◌++◌, some, arith}
use esp32_components.SwTimer.{SwTimer, idle, one_shot, set_us, sleep_us}
use esp32_components.SwTimer.Elapsed.{polls, passed, polls-set_us}
use esp32_components.SwTimer.Sleep.{sleep_us-some}

abbrev timer : SwTimer
timer = record { state = idle; capture = 0; delay_us = 0; handle = 0; timer_type = one_shot }

polls-set_us_example :
    polls (set_us timer 50 100) (120 ∷ 150 ∷ 151 ∷ []) ≡ passed 100 50 (120 ∷ 150 ∷ 151 ∷ [])
polls-set_us_example = polls-set_us timer 50 100 (120 ∷ 150 ∷ 151 ∷ []) (omega arith)

sleep_us-some_example : sleep_us timer 50 100 ((110 ∷ 149 ∷ []) ++ 160 ∷ 170 ∷ []) ≡ some (170 ∷ [])
sleep_us-some_example =
    sleep_us-some timer 50 100 160 (110 ∷ 149 ∷ []) (170 ∷ []) (omega arith) (omega arith)
      (omega arith)
