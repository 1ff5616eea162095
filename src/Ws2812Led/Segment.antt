-- ===== src/Ws2812Led/Segment.antt =====
-- WS2812Led/src/WS2812Led.c, the segments of a strip: their state, what the effects share, and the
-- fills. An access outside an array of a segment is the outcome `faults`.
use esp32_components.Base.{
  ℕ, ◌+◌, ◌/◌, Bool, true, false, List, Option, if◌then◌else◌, Outcome, returns, ◌>>=◌, put,
  for_loop,
}
use esp32_components.SwTimer
use esp32_components.SwTimer.{SwTimer, test, set_ms}
use esp32_components.Random.{random8}
use esp32_components.Ws2812Led.Color.{Crgb, Chsv}

pub data SegState : Type 0 where
  seg_off seg_on : SegState

pub data Mode : Type 0 where
  static blinking blending twinkling sparkling meteoring dissolving burning : Mode

-- The accumulators are u[8 8] numbers in a `uint16_t`.
pub record GradientIter : Type 0 where
  pub initialized : Bool
  pub num_steps : ℕ
  pub step_idx : ℕ
  pub hue_start : ℕ
  pub sat_start : ℕ
  pub val_start : ℕ
  pub hue_accum : ℕ
  pub sat_accum : ℕ
  pub val_accum : ℕ
  pub hue_delta : ℕ
  pub sat_delta : ℕ
  pub val_delta : ℕ

-- The stack, the name and the handle of the segment's task are left out, and so are its methods, which
-- are always the functions of this file.
pub record Segment : Type 0 where
  pub number : ℕ
  pub start_idx : ℕ
  pub end_idx : ℕ
  pub num_pixels : ℕ
  pub use_rgb_pixels : Bool
  pub pixels : List Chsv
  pub rgb_pixels : List Crgb
  pub timer : SwTimer
  pub timer_period_ms : ℕ
  pub state : SegState
  pub mode : Mode
  pub work_buf : List ℕ
  pub grad_iter : GradientIter

-- The `static` variables of the effects, one set for all segments. `sparkle_color` is a pointer, `none`
-- for NULL.
pub record Statics : Type 0 where
  pub twinkle_num : ℕ
  pub twinkle_count : ℕ
  pub sparkle_color : Option ℕ
  pub sparkle_num : ℕ
  pub fire_cool : ℕ
  pub fire_spark : ℕ
  pub dissolve_c : Crgb
  pub dissolve_decay : ℕ
  pub dissolve_prob : ℕ
  pub meteor_c : Crgb
  pub meteor_size : ℕ
  pub meteor_decay : ℕ
  pub meteor_random : Bool
  pub meteor_count : ℕ

-- What a call meets outside: the clock when the timer is first set, when it is tested and when it is
-- set again, the words that esp_random() gives in order, and the colours that pointers lead to.
pub record Inputs : Type 0 where
  pub at_init : ℕ
  pub at_test : ℕ
  pub at_set : ℕ
  pub words : ℕ → ℕ
  pub color_at : ℕ → Chsv

abbrev pub Effect : Type 0
Effect = Segment → Statics → Outcome (Segment × Statics)

-- `GET_RANDOM_HSV()` and its kin take their words from the `k`th on.
abbrev pub random_hsv : Inputs → ℕ → Chsv
random_hsv inp k = record {
  h = random8 (inp.words k);
  s = random8 (inp.words (k + 1));
  v = random8 (inp.words (k + 2));
}

abbrev pub random_hue : Inputs → ℕ → (sat val : ℕ) → Chsv
random_hue inp k sat val = record { h = random8 (inp.words k); s = sat; v = val }

abbrev pub random_satval : Inputs → ℕ → ℕ → Chsv
random_satval inp k hue = record {
  h = hue;
  s = random8 (inp.words k);
  v = random8 (inp.words (k + 1));
}

unfoldable pub fill_solid : Segment → Chsv → Outcome Segment
fill_solid seg color = do
  pixels ← for_loop seg.num_pixels 0 (λ i px. put px i color) seg.pixels
  returns (record seg { pixels = pixels; mode = static })

unfoldable pub fill_solid_rgb : Segment → Crgb → Outcome Segment
fill_solid_rgb seg color = do
  pixels ← for_loop seg.num_pixels 0 (λ i px. put px i color) seg.rgb_pixels
  returns (record seg { rgb_pixels = pixels; mode = static })

unfoldable pub fill_random : Segment → (sat val : ℕ) → Inputs → Outcome Segment
fill_random seg sat val inp = do
  pixels ← for_loop seg.num_pixels 0 (λ i px. put px i (random_hue inp i sat val)) seg.pixels
  returns (record seg { pixels = pixels; mode = static })

unfoldable pub blank_strip : Segment → Outcome Segment
unfolding fill_solid
blank_strip seg = fill_solid seg (record { h = 0; s = 0; v = 0 })

unfoldable pub blank_strip_rgb : Segment → Outcome Segment
unfolding fill_solid_rgb
blank_strip_rgb seg = fill_solid_rgb seg (record { g = 0; r = 0; b = 0 })

-- What an effect does when it is started: the timer runs, and the pixels are those of one kind.
unfoldable pub start_timer : Segment → (delay_ms : ℕ) → Bool → Inputs → Segment
start_timer seg delay_ms rgb inp = record seg {
  timer_period_ms = delay_ms;
  use_rgb_pixels = rgb;
  timer = set_ms seg.timer delay_ms inp.at_init;
}

-- What an effect does on each turn: if the time is over, the timer runs again and a step is made.
unfoldable pub on_timer : Inputs → Effect → Effect
on_timer inp tick seg st =
    let (over, timer) = test seg.timer inp.at_test in
    if over
    then tick (record seg { timer = set_ms timer seg.timer_period_ms inp.at_set }) st
    else returns (record seg { timer = timer }, st)

unfoldable pub with_mode : Mode → Segment × Statics → Segment × Statics
with_mode mode (seg, st) = (record seg { mode = mode }, st)

unfoldable pub show : Segment → Segment
show seg = record seg { state = seg_on }

unfoldable pub off : Segment → Outcome Segment
unfolding fill_solid
off seg = fill_solid seg (record { h = 0; s = 0; v = 0 })

unfoldable pub toggled : SegState → SegState
toggled seg_on = seg_off
toggled seg_off = seg_on

unfoldable pub is_running : SwTimer.TimerState → Bool
is_running SwTimer.running = true
is_running SwTimer.idle = false
is_running SwTimer.expired = false

unfoldable pub blink : Segment → (period_ms : ℕ) → Inputs → Segment
unfolding toggled is_running
blink seg period_ms inp =
    let seg : Segment = record seg { timer_period_ms = period_ms; mode = blinking } in
    if is_running seg.timer.state
    then (let (over, timer) = test seg.timer inp.at_test in
        if over
        then record seg {
          timer = set_ms timer (seg.timer_period_ms / 2) inp.at_set;
          state = toggled seg.state;
        }
        else record seg { timer = timer })
    else record seg { timer = set_ms seg.timer period_ms inp.at_set }
