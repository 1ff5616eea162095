-- ===== src/Ws2812Led/Gradient.antt =====
-- WS2812Led/src/WS2812Led.c, gradients: their iterator, the gradient and rainbow fills, and the blend.
pub mod Fill
use esp32_components.Base.{
  ℕ, ◌+◌, ◌-◌, ◌*◌, ◌/◌, ◌%◌, ◌^◌, Bool, true, false, List, ◌==◌, if◌then◌else◌, ltb, leb, not, u8,
  Outcome, returns, faults, ◌>>=◌, put, for_loop,
}
use esp32_components.SwTimer.{set_ms}
use esp32_components.Ws2812Led.Color.{Chsv}
use esp32_components.Ws2812Led.Segment.{
  Segment, Statics, Inputs, GradientIter, Effect, blending, static, fill_solid, start_timer,
  on_timer,
}

pub data GradientDir : Type 0 where
  fwd bwd shortest longest : GradientDir

-- An `int16_t`, by sign and magnitude. All those of this file lie well inside its range, but for a
-- doubled quotient, which goes into a `uint16_t`.
pub record Signed : Type 0 where
  pub negative : Bool
  pub magnitude : ℕ

-- `(int16_t)(to - from) << 7`.
unfoldable pub distance : (from to : ℕ) → Signed
distance from to =
    if leb from to
    then record { negative = false; magnitude = (to - from) * 128 }
    else record { negative = true; magnitude = (from - to) * 128 }

-- A distance is divided by the steps, towards 0, and the double goes into a `uint16_t`.
unfoldable pub delta_8 : Signed → ℕ → ℕ
delta_8 d num_steps =
    let twice = d.magnitude / num_steps * 2 in
    if d.negative then (2 ^ 16 - twice) % 2 ^ 16 else twice

-- The way round the hue circle: forward or not.
unfoldable pub goes_forward : GradientDir → ℕ → Bool
goes_forward fwd hue_delta = true
goes_forward bwd hue_delta = false
goes_forward shortest hue_delta = not (ltb 127 hue_delta)
goes_forward longest hue_delta = not (ltb hue_delta 128)

unfoldable pub hue_distance : GradientDir → ℕ → Signed
unfolding goes_forward
hue_distance dir hue_delta =
    if goes_forward dir hue_delta
    then record { negative = false; magnitude = hue_delta * 128 }
    else record { negative = true; magnitude = u8 (256 - hue_delta) * 128 }

-- A division by no steps has no result.
unfoldable pub get_gradient_iter :
    (start_color end_color : Chsv)
    → GradientDir
    → (num_steps : ℕ) → (initialized : Bool) → Outcome GradientIter
unfolding distance delta_8 hue_distance
get_gradient_iter start_color end_color dir num_steps initialized =
    let hue_delta = u8 (end_color.h + 256 - start_color.h) in
    if num_steps == 0
    then faults
    else returns (record {
      initialized = initialized;
      num_steps = num_steps;
      step_idx = 0;
      hue_start = start_color.h * 256;
      sat_start = start_color.s * 256;
      val_start = start_color.v * 256;
      hue_accum = start_color.h * 256;
      sat_accum = start_color.s * 256;
      val_accum = start_color.v * 256;
      hue_delta = delta_8 (hue_distance dir hue_delta) num_steps;
      sat_delta = delta_8 (distance start_color.s end_color.s) num_steps;
      val_delta = delta_8 (distance start_color.v end_color.v) num_steps;
    })

abbrev pub current : GradientIter → Chsv
current it = record { h = it.hue_accum / 256; s = it.sat_accum / 256; v = it.val_accum / 256 }

abbrev pub initial : GradientIter → Chsv
initial it = record { h = it.hue_start / 256; s = it.sat_start / 256; v = it.val_start / 256 }

unfoldable pub advance : GradientIter → GradientIter
advance it = record it {
  hue_accum = (it.hue_accum + it.hue_delta) % 2 ^ 16;
  sat_accum = (it.sat_accum + it.sat_delta) % 2 ^ 16;
  val_accum = (it.val_accum + it.val_delta) % 2 ^ 16;
}

unfoldable pub gradient_step : ℕ → List Chsv × GradientIter → Outcome (List Chsv × GradientIter)
unfolding advance
gradient_step i (px, it) = do px' ← put px i (current it); returns (px', advance it)

unfoldable pub fill_gradient :
    Segment → (start_color end_color : Chsv) → GradientDir → Outcome Segment
unfolding get_gradient_iter gradient_step
fill_gradient seg start_color end_color dir = do
  it ←
      get_gradient_iter start_color end_color dir
        ((seg.end_idx + 2 ^ 16 - seg.start_idx + 1) % 2 ^ 16) false
  (pixels, it') ← for_loop it.num_steps 0 gradient_step (seg.pixels, it)
  returns (record seg { pixels = pixels; mode = static })

unfoldable pub fill_rainbow : Segment → (initial_hue sat val : ℕ) → Outcome Segment
unfolding fill_gradient
fill_rainbow seg initial_hue sat val =
    fill_gradient seg (record { h = initial_hue; s = sat; v = val })
      (record { h = u8 (initial_hue + 255); s = sat; v = val }) longest

-- The last step of a blend goes back to its start.
unfoldable pub blend_wrap : Segment → GradientIter → Outcome Segment
unfolding fill_solid
blend_wrap seg it =
    if it.step_idx == it.num_steps
    then (do
      seg' ← fill_solid seg (initial it)
      returns (record seg' {
        mode = blending;
        grad_iter = record it {
          hue_accum = it.hue_start;
          sat_accum = it.sat_start;
          val_accum = it.val_start;
          step_idx = 0;
        };
      }))
    else returns (record seg { grad_iter = it })

unfoldable pub blend_tick : Effect
unfolding advance blend_wrap
blend_tick seg st = do
  let it = advance seg.grad_iter
  pixels ← for_loop seg.num_pixels 0 (λ i px. put px i (current it)) seg.pixels
  seg' ←
      blend_wrap (record seg { pixels = pixels })
        (record it { step_idx = (it.step_idx + 1) % 2 ^ 16 })
  returns (seg', st)

unfoldable pub blend_init :
    (start_color end_color : Chsv) → GradientDir → (num_steps step_inc_ms : ℕ) → Inputs → Effect
unfolding get_gradient_iter start_timer fill_solid
blend_init start_color end_color dir num_steps step_inc_ms inp seg st = do
  it ← get_gradient_iter start_color end_color dir num_steps true
  seg' ← fill_solid (record (start_timer seg step_inc_ms false inp) { grad_iter = it }) start_color
  returns (record seg' { mode = blending }, st)

unfoldable pub blend :
    Bool
    → (start_color end_color : Chsv) → GradientDir
    → (num_steps step_inc_ms : ℕ) → Inputs
    → Effect
unfolding blend_init blend_tick on_timer
blend init start_color end_color dir num_steps step_inc_ms inp seg st =
    if init
    then blend_init start_color end_color dir num_steps step_inc_ms inp seg st
    else on_timer inp blend_tick seg st
