-- ===== src/Ws2812Led/Tests.antt =====
-- The theorems on segments and strips at a strip of six pixels.
use esp32_components.Base.{
  ◌<◌, ◌≡◌, refl, true, false, [], ◌∷◌, none, some, arith, replicate, returns, Returns, All,
  All-replicate, tabulate,
}
use esp32_components.SwTimer
use esp32_components.SwTimer.{SwTimer}
use esp32_components.CList
use esp32_components.CList.{CList, append}
use esp32_components.CList.Iter.{init-Ring}
use esp32_components.CList.Insert.{append-Ring}
use esp32_components.Ws2812Led.Color.{Crgb, Chsv}
use esp32_components.Ws2812Led.Color.Fade.{IsByte}
use esp32_components.Ws2812Led.Segment.{
  Segment, Statics, Inputs, GradientIter, static, meteoring, seg_on,
}
use esp32_components.Ws2812Led.Gradient.{fwd, fill_gradient}
use esp32_components.Ws2812Led.Gradient.Fill.{shade, fill_gradient_lem}
use esp32_components.Ws2812Led.Effects.{segment_loop}
use esp32_components.Ws2812Led.Sound.{IsSound, IsHsv, IsInput, Good}
use esp32_components.Ws2812Led.Turn.{segment_loop-Keeps}
use esp32_components.Ws2812Led.Strip.{Strip, led_passes, add_segment}
use esp32_components.Ws2812Led.Strip.Draw.{Fits, IsReady, AllFrames, led_passes-AllFrames}
use esp32_components.Ws2812Led.Strip.Add.{IsListed, add_segment-IsListed}
use esp32_components.Ws2812Led.Encoder.{esp_ok}

abbrev black : Crgb
black = record { g = 0; r = 0; b = 0 }

abbrev red : Chsv
red = record { h = 0; s = 255; v = 255 }

abbrev blue : Chsv
blue = record { h = 160; s = 255; v = 255 }

abbrev timer : SwTimer
timer = record {
  state = SwTimer.running;
  capture = 0;
  delay_us = 0;
  handle = 0;
  timer_type = SwTimer.one_shot;
}

abbrev still : GradientIter
still = record {
  initialized = false;
  num_steps = 0;
  step_idx = 0;
  hue_start = 0;
  sat_start = 0;
  val_start = 0;
  hue_accum = 0;
  sat_accum = 0;
  val_accum = 0;
  hue_delta = 0;
  sat_delta = 0;
  val_delta = 0;
}

abbrev six : Segment
six = record {
  number = 0;
  start_idx = 0;
  end_idx = 5;
  num_pixels = 6;
  use_rgb_pixels = false;
  pixels = replicate 6 red;
  rgb_pixels = replicate 6 black;
  timer = timer;
  timer_period_ms = 10;
  state = seg_on;
  mode = meteoring;
  work_buf = replicate 6 0;
  grad_iter = still;
}

abbrev statics : Statics
statics = record {
  twinkle_num = 3;
  twinkle_count = 0;
  sparkle_color = none;
  sparkle_num = 1;
  fire_cool = 50;
  fire_spark = 120;
  dissolve_c = black;
  dissolve_decay = 30;
  dissolve_prob = 5;
  meteor_c = record { g = 10; r = 200; b = 30 };
  meteor_size = 2;
  meteor_decay = 64;
  meteor_random = true;
  meteor_count = 0;
}

-- The clock and the random words of a turn.
abbrev quiet : Inputs
quiet = record { at_init = 5; at_test = 20; at_set = 30; words = λ k. 7; color_at = λ c. blue }

abbrev quiet-IsInput : IsInput quiet
quiet-IsInput = record {
  words = λ k. omega arith;
  color_at = λ c. (omega arith, omega arith, omega arith);
}

abbrev six_reds : All IsHsv (replicate 6 red)
six_reds = All-replicate IsHsv 6 red (omega arith, omega arith, omega arith)

abbrev six_blacks : All IsByte (replicate 6 black)
six_blacks = All-replicate IsByte 6 black (omega arith, omega arith, omega arith)

abbrev six-IsSound : IsSound six
six-IsSound = record {
  pixels = (refl, six_reds);
  rgb_pixels = (refl, six_blacks);
  work_buf = (refl, All-replicate (λ h. h < 256) 6 0 (omega arith));
  enough = omega arith;
  few = omega arith;
  grad_iter = record {
    hue_start = omega arith;
    sat_start = omega arith;
    val_start = omega arith;
    hue_accum = omega arith;
    sat_accum = omega arith;
    val_accum = omega arith;
  };
}

segment_loop-Keeps_example : Returns Good (segment_loop (quiet ∷ quiet ∷ []) six statics)
segment_loop-Keeps_example =
    segment_loop-Keeps (quiet ∷ quiet ∷ []) (quiet-IsInput, (quiet-IsInput, _)) six statics
      six-IsSound
      (record {
        dissolve_c = (omega arith, omega arith, omega arith);
        meteor_c = (omega arith, omega arith, omega arith);
      })

fill_gradient_lem_example :
    fill_gradient six red blue fwd
    ≡ returns (record six { pixels = tabulate 6 0 (shade red blue fwd 6); mode = static })
fill_gradient_lem_example =
    fill_gradient_lem six red blue fwd 6 (omega arith) (omega arith) (omega arith) (omega arith)
      (omega arith) (omega arith) refl refl

-- The list is at the address 0.
abbrev empty : Strip
empty = record {
  num_pixels = 6;
  list = 0;
  links = CList.init (λ q. record { next = 0; prev = 0 }) 0;
  segments = λ q. six;
  num_segments = 0;
  initialized = true;
}

-- The segment at the address 1 is in the list.
abbrev with_six : Strip
with_six = record empty { links = append empty.links 0 1; num_segments = 1 }

led_passes-AllFrames_example :
    Returns
      (AllFrames 6 (1 ∷ []) (with_six ∷ with_six ∷ []))
      (led_passes 2 (with_six ∷ with_six ∷ []) (replicate 6 black))
led_passes-AllFrames_example =
    let ready : IsReady 6 (1 ∷ []) with_six = record {
      links = append-Ring empty.links 0 1 [] (init-Ring _ 0) ((λ e. omega arith), _);
      fits = (
        record { pixels = (refl, six_reds); rgb_pixels = (refl, six_blacks); within = omega arith },
        _,
      );
      apart = ((λ k h. _), _);
    } in
    led_passes-AllFrames 6 2 (1 ∷ []) (with_six ∷ with_six ∷ []) (replicate 6 black)
      (ready, (ready, _)) (omega arith) (refl, six_blacks)

add_segment-IsListed_example :
    Returns
      (λ r. (r.0 ≡ esp_ok) × IsListed r.1 (1 ∷ []) × Fits 6 (r.1.segments 1))
      (add_segment empty 1
        (record {
          pixels = some (replicate 6 red);
          rgb_pixels = some (replicate 6 black);
          work_buf = some [];
        })
        esp_ok)
add_segment-IsListed_example =
    add_segment-IsListed 6 empty [] 1 (replicate 6 red) (replicate 6 black) [] esp_ok
      (record { links = init-Ring _ 0; count = refl; numbers = _ }) ((λ e. omega arith), _)
      (omega arith) refl (omega arith) (omega arith) (omega arith) (refl, six_reds)
      (refl, six_blacks)
