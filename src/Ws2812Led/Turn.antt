-- ===== src/Ws2812Led/Turn.antt =====
-- Blends, and any turns of a segment's task, keep the invariant of a segment.
use esp32_components.Base.{
  ℕ, ◌+◌, ◌/◌, ◌%◌, ◌^◌, ◌≡◌, ◌≢◌, refl, Bool, true, false, List, [], ◌∷◌, none, arith, ◌==◌,
  if◌then◌else◌, Returns, returning, Returns-bind, Returns-if, All, ne→==,
}
use esp32_components.SwTimer.{set_ms, test}
use esp32_components.Ws2812Led.Color.{Chsv}
use esp32_components.Ws2812Led.Segment.{
  Segment, Inputs, Mode, GradientIter, static, blinking, blending, twinkling, sparkling, meteoring,
  dissolving, burning, start_timer, blink, is_running, toggled,
}
use esp32_components.Ws2812Led.Gradient.{
  GradientDir, get_gradient_iter, current, initial, advance, blend, blend_init, blend_tick,
  blend_wrap,
}
use esp32_components.Ws2812Led.Effects.{no_color, turn, segment_loop}
use esp32_components.Ws2812Led.Sound.{
  IsSound, IsHsv, IsInput, IsIter, Keeps, put_all-Returns, start_timer-IsSound, on_timer-Keeps,
  fill_solid-Returns, with_pixels-IsSound, retimed-IsSound,
}
use esp32_components.Ws2812Led.Burn.{fire-Keeps}
use esp32_components.Ws2812Led.Lights.{twinkle-Keeps, sparkle-Keeps}
use esp32_components.Ws2812Led.Trails.{dissolve-Keeps, meteor-Keeps}

advance-IsIter : {it : GradientIter} → IsIter it → IsIter (advance it)
unfolding advance
advance-IsIter i = record {
  hue_start = i.hue_start;
  sat_start = i.sat_start;
  val_start = i.val_start;
  hue_accum = omega arith;
  sat_accum = omega arith;
  val_accum = omega arith;
}

current-IsHsv : {it : GradientIter} → IsIter it → IsHsv (current it)
current-IsHsv i =
    (omega (arith, i.hue_accum), omega (arith, i.sat_accum), omega (arith, i.val_accum))

initial-IsHsv : {it : GradientIter} → IsIter it → IsHsv (initial it)
initial-IsHsv i =
    (omega (arith, i.hue_start), omega (arith, i.sat_start), omega (arith, i.val_start))

with_iter-IsSound :
    {seg : Segment} (mode : Mode) (it : GradientIter)
    → IsSound seg
    → IsIter it
    → IsSound (record seg { grad_iter = it; mode = mode })
with_iter-IsSound mode it s i = record {
  pixels = s.pixels;
  rgb_pixels = s.rgb_pixels;
  work_buf = s.work_buf;
  enough = s.enough;
  few = s.few;
  grad_iter = i;
}

get_gradient_iter-IsIter :
    (a b : Chsv) (dir : GradientDir) (num_steps : ℕ) (init : Bool)
    → IsHsv a
    → num_steps ≢ 0
    → Returns IsIter (get_gradient_iter a b dir num_steps init)
unfolding get_gradient_iter
get_gradient_iter-IsIter a b dir num_steps init h n = rw (ne→== num_steps 0 n) (
    returning (record {
      hue_start = omega arith;
      sat_start = omega arith;
      val_start = omega arith;
      hue_accum = omega arith;
      sat_accum = omega arith;
      val_accum = omega arith;
    }))

blend_wrap-Returns :
    {seg : Segment} (it : GradientIter)
    → IsSound seg
    → IsIter it
    → Returns IsSound (blend_wrap seg it)
unfolding blend_wrap
blend_wrap-Returns {seg} it s i =
    Returns-if (it.step_idx == it.num_steps)
      (λ e. Returns-bind _ (fill_solid-Returns (initial it) s (initial-IsHsv i)) (λ seg' s'.
        returning (
          with_iter-IsSound blending
            (record it {
              hue_accum = it.hue_start;
              sat_accum = it.sat_start;
              val_accum = it.val_start;
              step_idx = 0;
            })
            s'
            (record {
              hue_start = i.hue_start;
              sat_start = i.sat_start;
              val_start = i.val_start;
              hue_accum = i.hue_start;
              sat_accum = i.sat_start;
              val_accum = i.val_start;
            }))))
      (λ e. returning (with_iter-IsSound seg.mode it s i))

blend_tick-Keeps : Keeps blend_tick
unfolding blend_tick
blend_tick-Keeps seg st s t =
    let it = advance seg.grad_iter in
    let i : IsIter it = advance-IsIter s.grad_iter in
    Returns-bind _
      (put_all-Returns IsHsv seg.num_pixels seg.pixels (λ k. current it) s.pixels
        (λ k. current-IsHsv i))
      (λ px a.
        Returns-bind _
          (blend_wrap-Returns (record it { step_idx = (it.step_idx + 1) % 2 ^ 16 })
            (with_pixels-IsSound seg.mode px s a)
            (record {
              hue_start = i.hue_start;
              sat_start = i.sat_start;
              val_start = i.val_start;
              hue_accum = i.hue_accum;
              sat_accum = i.sat_accum;
              val_accum = i.val_accum;
            }))
          (λ seg' s'. returning (s', t)))

blend_init-Keeps :
    (a b : Chsv) (dir : GradientDir) (num_steps ms : ℕ) (inp : Inputs)
    → IsHsv a
    → num_steps ≢ 0
    → Keeps (blend_init a b dir num_steps ms inp)
unfolding blend_init
blend_init-Keeps a b dir num_steps ms inp h n seg st s t =
    Returns-bind _ (get_gradient_iter-IsIter a b dir num_steps true h n) (λ it i.
      let begun = start_timer seg ms false inp in
      Returns-bind _
        (fill_solid-Returns {seg = record begun { grad_iter = it }} a
          (with_iter-IsSound begun.mode it (start_timer-IsSound ms false inp s) i) h)
        (λ seg' s'. returning (
          retimed-IsSound seg'.timer seg'.timer_period_ms seg'.use_rgb_pixels blending seg'.state
              s',
          t,
        )))

-- A blend keeps a sound segment sound, if its steps are not 0 where it starts.
pub blend-Keeps :
    (init : Bool) (a b : Chsv) (dir : GradientDir) (num_steps ms : ℕ) (inp : Inputs)
    → IsHsv a
    → (init ≡ true → num_steps ≢ 0)
    → Keeps (blend init a b dir num_steps ms inp)
unfolding blend
blend-Keeps true a b dir num_steps ms inp h n = blend_init-Keeps a b dir num_steps ms inp h (n refl)
blend-Keeps false a b dir num_steps ms inp h n = on_timer-Keeps inp blend_tick-Keeps

if-IsSound : (b : Bool) {x y : Segment} → IsSound x → IsSound y → IsSound (if b then x else y)
if-IsSound true s t = s
if-IsSound false s t = t

blink-IsSound : {seg : Segment} (ms : ℕ) (inp : Inputs) → IsSound seg → IsSound (blink seg ms inp)
unfolding blink
blink-IsSound {seg} ms inp s =
    let over = (test seg.timer inp.at_test).1 in
    if-IsSound (is_running seg.timer.state)
      (if-IsSound (test seg.timer inp.at_test).0
        (retimed-IsSound (set_ms over (ms / 2) inp.at_set) ms seg.use_rgb_pixels blinking
          (toggled seg.state) s)
        (retimed-IsSound over ms seg.use_rgb_pixels blinking seg.state s))
      (retimed-IsSound (set_ms seg.timer ms inp.at_set) ms seg.use_rgb_pixels blinking seg.state s)

-- One turn of a segment's task, in any mode.
turn-Keeps : (mode : Mode) (inp : Inputs) → IsInput inp → Keeps (turn mode inp)
unfolding turn
turn-Keeps static inp i seg st s t = returning (s, t)
turn-Keeps blinking inp i seg st s t = returning (blink-IsSound seg.timer_period_ms inp s, t)
turn-Keeps blending inp i seg st s t =
    blend-Keeps false no_color no_color _ 0 0 inp (omega arith, omega arith, omega arith) (λ e. cc)
      seg st s t
turn-Keeps twinkling inp i seg st s t = twinkle-Keeps false 0 0 inp i seg st s t
turn-Keeps sparkling inp i seg st s t = sparkle-Keeps false none 0 0 inp i seg st s t
turn-Keeps meteoring inp i seg st s t =
    meteor-Keeps false no_color 0 0 false 0 inp (omega arith, omega arith, omega arith) seg st s t
turn-Keeps dissolving inp i seg st s t =
    dissolve-Keeps false no_color 0 0 0 inp (omega arith, omega arith, omega arith) seg st s t
turn-Keeps burning inp i seg st s t = fire-Keeps false 0 0 0 inp i seg st s t

-- A sound segment of six pixels or more stays sound over any number of turns of its task, whatever the
-- mode, the clock and the random words are: no turn reads or writes outside an array.
pub segment_loop-Keeps : (inps : List Inputs) → All IsInput inps → Keeps (segment_loop inps)
unfolding segment_loop
segment_loop-Keeps [] i seg st s t = returning (s, t)
segment_loop-Keeps (inp ∷ rest) i seg st s t =
    Returns-bind _ (turn-Keeps seg.mode inp i.0 seg st s t)
      (λ r g. segment_loop-Keeps rest i.1 r.0 r.1 g.0 g.1)
