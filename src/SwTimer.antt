-- ===== src/SwTimer.antt =====
-- SwTimer/SwTimer.c: software timers over the microsecond clock. What esp_timer_get_time() returns is
-- an argument of each function that reads it, a number below 2^63; what the esp_timer calls return is
-- an argument too, 0 for ESP_OK.
pub mod Elapsed
pub mod Sleep
mod Tests
use esp32_components.Base.{
  ℕ, ◌*◌, ◌+◌, ◌-◌, ◌%◌, ◌^◌, Bool, true, false, List, [], ◌∷◌, Option, none, some, ◌==◌,
  if◌then◌else◌, leb, Status, done, failed,
}

pub data TimerType : Type 0 where
  one_shot periodic : TimerType

pub data TimerState : Type 0 where
  idle running expired : TimerState

-- The fields `cb`, `cb_arg` and `name` are never used.
pub record SwTimer : Type 0 where
  pub state : TimerState
  pub capture : ℕ
  pub delay_us : ℕ
  pub handle : ℕ
  pub timer_type : TimerType

-- The difference of two `uint64_t` counts.
abbrev pub delta : ℕ → ℕ → ℕ
delta cnt ref = (cnt + 2 ^ 64 - ref) % 2 ^ 64

pub get_count : ℕ → ℕ
get_count now = now

-- The count goes through a `uint32_t`.
pub tic : SwTimer → ℕ → ℕ × SwTimer
tic swt now = let capture = now % 2 ^ 32 in (capture, record swt { capture = capture })

pub toc : SwTimer → ℕ → ℕ
toc swt now = delta now swt.capture

pub set_us : SwTimer → ℕ → ℕ → SwTimer
set_us swt us now = record swt { capture = now; delay_us = us; state = running }

unfoldable pub set_ms : SwTimer → ℕ → ℕ → SwTimer
unfolding set_us
set_ms swt ms now = set_us swt (ms * 1000 % 2 ^ 64) now

test_running : SwTimer → ℕ → Bool × SwTimer
test_running swt now =
    if leb swt.delay_us (delta now swt.capture)
    then (true, record swt { state = expired })
    else (false, swt)

unfoldable pub test : SwTimer → ℕ → Bool × SwTimer
unfolding test_running
test swt now = elim swt.state [
  | idle ↦ (true, swt)
  | running ↦ test_running swt now
  | expired ↦ (true, swt)
]

-- The rounds of `do { } while (!SwTimer_test(&t))` over the counts that the clock gives: those that
-- are not read, or `none` if the clock has no more to give.
sleep_loop : SwTimer → List ℕ → Option (List ℕ)
sleep_loop t [] = none
sleep_loop t (now ∷ rest) =
    let (over, t') = test t now in
    let again = sleep_loop t' rest in if over then some rest else again

pub sleep_us : SwTimer → ℕ → ℕ → List ℕ → Option (List ℕ)
unfolding sleep_loop
sleep_us t us now clock = sleep_loop (set_us t us now) clock

pub create : SwTimer → (ret handle : ℕ) → Status × SwTimer
create swt ret handle = if ret == 0 then (done, record swt { handle = handle }) else (failed, swt)

-- The results of the two start calls.
pub start : SwTimer → TimerType → (ret_once ret_periodic : ℕ) → Status × SwTimer
start swt t ret_once ret_periodic =
    let swt' : SwTimer = record swt { timer_type = t } in
    elim t [
      | one_shot ↦ (if ret_once == 0 then done else failed, swt')
      | periodic ↦ (if ret_periodic == 0 then done else failed, swt')
    ]

pub stop : SwTimer → ℕ → Status
stop swt ret = if ret == 0 then done else failed
