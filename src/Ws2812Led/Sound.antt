-- ===== src/Ws2812Led/Sound.antt =====
-- The invariant of a segment, and the fills and timers that keep it.
use esp32_components.Base.{
  ℕ, ◌+◌, ◌^◌, ◌<◌, ◌≤◌, Bool, true, false, List, arith, returns, ◌>>=◌, put, for_loop, Returns,
  returning, Returns-bind, Returns-if, for_loop-Returns, Array, put-Returns,
}
use esp32_components.SwTimer.{SwTimer, test, set_ms}
use esp32_components.Random.{random8}
use esp32_components.Random.Range.{random8-lt}
use esp32_components.Ws2812Led.Color.{Crgb, Chsv}
use esp32_components.Ws2812Led.Color.Fade.{IsByte}
use esp32_components.Ws2812Led.Segment.{
  Segment, SegState, Statics, Inputs, Mode, GradientIter, Effect, fill_solid, fill_solid_rgb,
  blank_strip, blank_strip_rgb, start_timer, on_timer, with_mode, random_hsv, random_satval,
}
use esp32_components.Ws2812Led.Effects.{started}

abbrev pub IsHsv : Chsv → Type 0
IsHsv c = (c.h < 256) × (c.s < 256) × (c.v < 256)

-- The accumulators and the starting values of a gradient are 16-bit numbers.
pub record IsIter (it : GradientIter) : Type 0 where
  pub hue_start : it.hue_start < 2 ^ 16
  pub sat_start : it.sat_start < 2 ^ 16
  pub val_start : it.val_start < 2 ^ 16
  pub hue_accum : it.hue_accum < 2 ^ 16
  pub sat_accum : it.sat_accum < 2 ^ 16
  pub val_accum : it.val_accum < 2 ^ 16

-- The arrays have an element for each pixel, all colours are bytes, and there are pixels enough for
-- the sparks of a fire.
pub record IsSound (seg : Segment) : Type 0 where
  pub pixels : Array seg.num_pixels IsHsv seg.pixels
  pub rgb_pixels : Array seg.num_pixels IsByte seg.rgb_pixels
  pub work_buf : Array seg.num_pixels (λ h. h < 256) seg.work_buf
  pub enough : 6 ≤ seg.num_pixels
  pub few : seg.num_pixels < 2 ^ 16
  pub grad_iter : IsIter seg.grad_iter

pub record AreSound (st : Statics) : Type 0 where
  pub dissolve_c : IsByte st.dissolve_c
  pub meteor_c : IsByte st.meteor_c

pub record IsInput (inp : Inputs) : Type 0 where
  pub words : (k : ℕ) → inp.words k < 2 ^ 32
  pub color_at : (c : ℕ) → IsHsv (inp.color_at c)

abbrev pub Good : Segment × Statics → Type 0
Good (seg, st) = IsSound seg × AreSound st

pub put_all-Returns :
    {A : Type 0} (P : A → Type 0) (n : ℕ) (xs : List A) (f : ℕ → A)
    → Array n P xs
    → ((k : ℕ) → P (f k))
    → Returns (Array n P) (for_loop n 0 (λ i px. put px i (f i)) xs)
put_all-Returns P n xs f a p =
    for_loop-Returns (Array n P) n (λ k s h b. put-Returns P n s k (f k) b h (p k)) n 0 xs
      (omega arith) a

pub with_pixels-IsSound :
    {seg : Segment} (mode : Mode) (px : List Chsv)
    → IsSound seg
    → Array seg.num_pixels IsHsv px
    → IsSound (record seg { pixels = px; mode = mode })
with_pixels-IsSound mode px s a = record {
  pixels = a;
  rgb_pixels = s.rgb_pixels;
  work_buf = s.work_buf;
  enough = s.enough;
  few = s.few;
  grad_iter = s.grad_iter;
}

pub with_rgb-IsSound :
    {seg : Segment} (mode : Mode) (px : List Crgb)
    → IsSound seg
    → Array seg.num_pixels IsByte px
    → IsSound (record seg { rgb_pixels = px; mode = mode })
with_rgb-IsSound mode px s a = record {
  pixels = s.pixels;
  rgb_pixels = a;
  work_buf = s.work_buf;
  enough = s.enough;
  few = s.few;
  grad_iter = s.grad_iter;
}

pub fill_solid-Returns :
    {seg : Segment} (color : Chsv)
    → IsSound seg
    → IsHsv color
    → Returns IsSound (fill_solid seg color)
unfolding fill_solid
fill_solid-Returns {seg} color s c =
    Returns-bind _ (put_all-Returns IsHsv seg.num_pixels seg.pixels (λ k. color) s.pixels (λ k. c))
      (λ px a. returning (with_pixels-IsSound _ px s a))

pub fill_solid_rgb-Returns :
    {seg : Segment} (color : Crgb)
    → IsSound seg
    → IsByte color
    → Returns IsSound (fill_solid_rgb seg color)
unfolding fill_solid_rgb
fill_solid_rgb-Returns {seg} color s c =
    Returns-bind _
      (put_all-Returns IsByte seg.num_pixels seg.rgb_pixels (λ k. color) s.rgb_pixels (λ k. c))
      (λ px a. returning (with_rgb-IsSound _ px s a))

pub blank_strip-Returns : {seg : Segment} → IsSound seg → Returns IsSound (blank_strip seg)
unfolding blank_strip
blank_strip-Returns s = fill_solid-Returns _ s (omega arith, omega arith, omega arith)

pub blank_strip_rgb-Returns : {seg : Segment} → IsSound seg → Returns IsSound (blank_strip_rgb seg)
unfolding blank_strip_rgb
blank_strip_rgb-Returns s = fill_solid_rgb-Returns _ s (omega arith, omega arith, omega arith)

-- The fields that the invariant does not speak of.
pub retimed-IsSound :
    {seg : Segment} (timer : SwTimer) (period : ℕ) (rgb : Bool) (mode : Mode) (state : SegState)
    → IsSound seg
    → IsSound (record seg {
      timer = timer;
      timer_period_ms = period;
      use_rgb_pixels = rgb;
      mode = mode;
      state = state;
    })
retimed-IsSound timer period rgb mode state s = record {
  pixels = s.pixels;
  rgb_pixels = s.rgb_pixels;
  work_buf = s.work_buf;
  enough = s.enough;
  few = s.few;
  grad_iter = s.grad_iter;
}

pub start_timer-IsSound :
    {seg : Segment} (delay_ms : ℕ) (rgb : Bool) (inp : Inputs)
    → IsSound seg
    → IsSound (start_timer seg delay_ms rgb inp)
unfolding start_timer
start_timer-IsSound {seg} delay_ms rgb inp s =
    retimed-IsSound (set_ms seg.timer delay_ms inp.at_init) delay_ms rgb seg.mode seg.state s

pub random8_byte : (w : ℕ) → w < 2 ^ 32 → random8 w < 256
random8_byte w h = omega (arith, random8-lt w h)

pub random_hsv-IsHsv : {inp : Inputs} (k : ℕ) → IsInput inp → IsHsv (random_hsv inp k)
random_hsv-IsHsv {inp} k i = (
  random8_byte (inp.words k) (i.words k),
  random8_byte (inp.words (k + 1)) (i.words (k + 1)),
  random8_byte (inp.words (k + 2)) (i.words (k + 2)),
)

pub random_satval-IsHsv :
    {inp : Inputs} (k hue : ℕ) → IsInput inp → hue < 256 → IsHsv (random_satval inp k hue)
random_satval-IsHsv {inp} k hue i h =
    (h, random8_byte (inp.words k) (i.words k), random8_byte (inp.words (k + 1)) (i.words (k + 1)))

-- An effect that keeps the invariant.
abbrev pub Keeps : Effect → Type 0
Keeps effect =
    (seg : Segment) (st : Statics) → IsSound seg → AreSound st → Returns Good (effect seg st)

pub on_timer-Keeps : (inp : Inputs) {tick : Effect} → Keeps tick → Keeps (on_timer inp tick)
unfolding on_timer
on_timer-Keeps inp {tick} keeps seg st s t =
    let timer = (test seg.timer inp.at_test).1 in
    let set = set_ms timer seg.timer_period_ms inp.at_set in
    Returns-if (test seg.timer inp.at_test).0
      (λ e.
        keeps (record seg { timer = set }) st
          (retimed-IsSound set seg.timer_period_ms seg.use_rgb_pixels seg.mode seg.state s) t)
      (λ e.
        returning
          (retimed-IsSound timer seg.timer_period_ms seg.use_rgb_pixels seg.mode seg.state s, t))

pub with_mode-Good : (mode : Mode) (r : Segment × Statics) → Good r → Good (with_mode mode r)
unfolding with_mode
with_mode-Good mode (seg, st) (s, t) =
    (retimed-IsSound seg.timer seg.timer_period_ms seg.use_rgb_pixels mode seg.state s, t)

-- An effect with a start and a turn, and its mode afterwards.
pub started-Keeps :
    {start turn : Effect} (init : Bool) (mode : Mode)
    → Keeps start
    → Keeps turn
    → Keeps (λ seg st. started init start turn seg st >>= λ r. returns (with_mode mode r))
started-Keeps true mode a b seg st s t =
    Returns-bind _ (Returns-bind _ (a seg st s t) (λ r g. b r.0 r.1 g.0 g.1))
      (λ r g. returning (with_mode-Good mode r g))
started-Keeps false mode a b seg st s t =
    Returns-bind _ (b seg st s t) (λ r g. returning (with_mode-Good mode r g))
