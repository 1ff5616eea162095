-- ===== src/Ws2812Led/Effects.antt =====
-- WS2812Led/src/WS2812Led.c, the effects with random numbers, and the turn of a segment's task.
use esp32_components.Base.{
  ℕ, ◌+◌, ◌-◌, ◌*◌, ◌/◌, ◌%◌, ◌^◌, Bool, true, false, not, ◌||◌, List, [], ◌∷◌, take, ◌==◌,
  if◌then◌else◌, ltb, Option, none, some, u8, Outcome, returns, ◌>>=◌, put, fetch, for_loop,
}
use esp32_components.Random.{random8, random, random8_range}
use esp32_components.Ws2812Led.Color.{
  Crgb, Chsv, sub_safe, add8_safe, get_heatcolor, hsv2rgb, fade_color, is_seg_blank_rgb,
}
use esp32_components.Ws2812Led.Segment.{
  Segment, Statics, Inputs, Effect, Mode, static, blinking, blending, twinkling, sparkling,
  meteoring, dissolving, burning, random_hsv, random_satval, blank_strip, blank_strip_rgb,
  start_timer, on_timer, with_mode, blink,
}
use esp32_components.Ws2812Led.Gradient.{blend, fwd}

-- An effect that is started with `init` and has a turn in any case.
abbrev pub started : Bool → Effect → Effect → Effect
started init start turn seg st = do
  (seg', st') ← if init then start seg st else returns (seg, st)
  turn seg' st'

unfoldable pub twinkle_start : (num_to_light delay_ms : ℕ) → Inputs → Effect
unfolding start_timer blank_strip
twinkle_start num_to_light delay_ms inp seg st = do
  seg' ← blank_strip (start_timer seg delay_ms false inp)
  returns (seg', record st { twinkle_num = num_to_light; twinkle_count = 0 })

unfoldable pub twinkle_tick : Inputs → Effect
unfolding blank_strip
twinkle_tick inp seg st = do
  pixels ← put seg.pixels (random seg.num_pixels (inp.words 0) % 2 ^ 16) (random_hsv inp 1)
  let seg' : Segment = record seg { pixels = pixels }
  let count = st.twinkle_count + 1
  if count == st.twinkle_num
      then (do blank ← blank_strip seg'; returns (blank, record st { twinkle_count = 0 }))
      else returns (seg', record st { twinkle_count = count })

unfoldable pub twinkle : Bool → (num_to_light delay_ms : ℕ) → Inputs → Effect
unfolding twinkle_start twinkle_tick on_timer with_mode
twinkle init num_to_light delay_ms inp seg st = do
  r ←
      started init (twinkle_start num_to_light delay_ms inp) (on_timer inp (twinkle_tick inp)) seg
        st
  returns (with_mode twinkling r)

unfoldable pub sparkle_start : Option ℕ → (num_to_light delay_ms : ℕ) → Inputs → Effect
unfolding start_timer blank_strip
sparkle_start color num_to_light delay_ms inp seg st = do
  seg' ← blank_strip (start_timer seg delay_ms false inp)
  returns (seg', record st { sparkle_color = color; sparkle_num = num_to_light })

-- Each light takes four words, or three for a given hue.
unfoldable pub sparkle_light : Option ℕ → Segment → Inputs → ℕ → List Chsv → Outcome (List Chsv)
sparkle_light none seg inp i px =
    put px (random seg.num_pixels (inp.words (4 * i)) % 2 ^ 16) (random_hsv inp (4 * i + 1))
sparkle_light (some c) seg inp i px =
    put px (random seg.num_pixels (inp.words (3 * i)) % 2 ^ 16)
      (random_satval inp (3 * i + 1) (inp.color_at c).h)

unfoldable pub sparkle_tick : Inputs → Effect
unfolding blank_strip sparkle_light
sparkle_tick inp seg st = do
  seg' ← blank_strip seg
  pixels ← for_loop st.sparkle_num 0 (sparkle_light st.sparkle_color seg' inp) seg'.pixels
  returns (record seg' { pixels = pixels }, st)

unfoldable pub sparkle : Bool → Option ℕ → (num_to_light delay_ms : ℕ) → Inputs → Effect
unfolding sparkle_start sparkle_tick on_timer with_mode
sparkle init color num_to_light delay_ms inp seg st = do
  r ←
      started init (sparkle_start color num_to_light delay_ms inp) (on_timer inp (sparkle_tick inp))
        seg st
  returns (with_mode sparkling r)

unfoldable pub fire_start : (cooling sparking delay_ms : ℕ) → Inputs → Effect
unfolding start_timer blank_strip_rgb
fire_start cooling sparking delay_ms inp seg st = do
  work_buf ← for_loop seg.num_pixels 0 (λ i w. put w i 0) seg.work_buf
  seg' ← blank_strip_rgb (record (start_timer seg delay_ms true inp) { work_buf = work_buf })
  returns (seg', record st { fire_cool = cooling; fire_spark = sparking })

-- Cool down every pixel a little.
unfoldable pub cool_pixel : (cool num_pixels : ℕ) → Inputs → ℕ → List ℕ → Outcome (List ℕ)
cool_pixel cool num_pixels inp i heat = do
  h ← fetch heat i
  put heat i (sub_safe h (u8 (random (cool * 10 / num_pixels + 2) (inp.words i))))

-- The heat of a pixel drifts up, for the pixels from the last one down to the third: `i` counts the
-- rounds.
unfoldable pub drift_pixel : (num_pixels : ℕ) → ℕ → List ℕ → Outcome (List ℕ)
drift_pixel num_pixels i heat = do
  let j = num_pixels - 1 - i
  a ← fetch heat (j - 1)
  b ← fetch heat (j - 2)
  put heat j (u8 ((a + b + b) / 3))

-- A new spark near the bottom.
unfoldable pub ignite : (spark num_pixels : ℕ) → Inputs → List ℕ → Outcome (List ℕ)
ignite spark num_pixels inp heat =
    if ltb (random8 (inp.words num_pixels)) spark
    then (do
      let at = u8 (random 7 (inp.words (num_pixels + 1)))
      h ← fetch heat at
      put heat at (add8_safe h (random8_range 160 255 (inp.words (num_pixels + 2)))))
    else returns heat

unfoldable pub heat_pixel : List ℕ → ℕ → List Crgb → Outcome (List Crgb)
heat_pixel heat i px = do h ← fetch heat i; put px i (get_heatcolor h)

unfoldable pub fire_tick : Inputs → Effect
unfolding cool_pixel drift_pixel ignite heat_pixel
fire_tick inp seg st = do
  let n = seg.num_pixels
  cooled ← for_loop n 0 (cool_pixel st.fire_cool n inp) seg.work_buf
  drifted ← for_loop (n - 2) 0 (drift_pixel n) cooled
  heat ← ignite st.fire_spark n inp drifted
  rgb_pixels ← for_loop n 0 (heat_pixel heat) seg.rgb_pixels
  returns (record seg { work_buf = heat; rgb_pixels = rgb_pixels }, st)

unfoldable pub fire : Bool → (cooling sparking delay_ms : ℕ) → Inputs → Effect
unfolding fire_start fire_tick on_timer with_mode
fire init cooling sparking delay_ms inp seg st = do
  r ← started init (fire_start cooling sparking delay_ms inp) (on_timer inp (fire_tick inp)) seg st
  returns (with_mode burning r)

-- All pixels of the segment get one colour.
unfoldable pub restore : Segment → Crgb → Outcome Segment
restore seg c = do
  px ← for_loop seg.num_pixels 0 (λ i px. put px i c) seg.rgb_pixels
  returns (record seg { rgb_pixels = px })

unfoldable pub fade_pixel : ℕ → ℕ → List Crgb → Outcome (List Crgb)
fade_pixel factor i px = do c ← fetch px i; put px i (fade_color c factor)

unfoldable pub dissolve_start : Chsv → (decay_factor decay_prob delay_ms : ℕ) → Inputs → Effect
unfolding start_timer blank_strip_rgb restore
dissolve_start color decay_factor decay_prob delay_ms inp seg st = do
  c ← hsv2rgb color
  seg' ← blank_strip_rgb (start_timer seg delay_ms true inp)
  seg'' ← restore seg' c
  returns (
    seg'',
    record st {
      dissolve_c = c;
      dissolve_decay = decay_factor;
      dissolve_prob = if ltb 100 decay_prob then 100 else decay_prob;
    },
  )

unfoldable pub dissolve_pixel : Statics → Inputs → ℕ → List Crgb → Outcome (List Crgb)
unfolding fade_pixel
dissolve_pixel st inp j px =
    if ltb (100 - st.dissolve_prob) (u8 (random 100 (inp.words j)))
    then fade_pixel st.dissolve_decay j px
    else returns px

unfoldable pub dissolve_tick : Inputs → Effect
unfolding dissolve_pixel restore
dissolve_tick inp seg st = do
  px ← for_loop seg.num_pixels 0 (dissolve_pixel st inp) seg.rgb_pixels
  let seg' : Segment = record seg { rgb_pixels = px }
  seg'' ←
      if is_seg_blank_rgb (take seg.num_pixels px) then restore seg' st.dissolve_c else returns seg'
  returns (seg'', st)

unfoldable pub dissolve : Bool → Chsv → (decay_factor decay_prob delay_ms : ℕ) → Inputs → Effect
unfolding dissolve_start dissolve_tick on_timer with_mode
dissolve init color decay_factor decay_prob delay_ms inp seg st = do
  r ←
      started init (dissolve_start color decay_factor decay_prob delay_ms inp)
        (on_timer inp (dissolve_tick inp)) seg st
  returns (with_mode dissolving r)

unfoldable pub meteor_start : Chsv → (size decay : ℕ) → Bool → (delay_ms : ℕ) → Inputs → Effect
unfolding start_timer blank_strip_rgb
meteor_start color size decay decay_random delay_ms inp seg st = do
  c ← hsv2rgb color
  seg' ← blank_strip_rgb (start_timer seg delay_ms true inp)
  returns (
    seg',
    record st {
      meteor_c = c;
      meteor_size = size;
      meteor_decay = decay;
      meteor_random = decay_random;
      meteor_count = 0;
    },
  )

unfoldable pub meteor_fade : Statics → Inputs → ℕ → List Crgb → Outcome (List Crgb)
unfolding fade_pixel
meteor_fade st inp j px =
    if not st.meteor_random || ltb 60 (u8 (random 100 (inp.words j)))
    then fade_pixel st.meteor_decay j px
    else returns px

-- The `j`th pixel of the meteor, if it is on the segment.
unfoldable pub meteor_draw : Statics → (num_pixels : ℕ) → ℕ → List Crgb → Outcome (List Crgb)
meteor_draw st num_pixels j px =
    if ltb st.meteor_count j
    then returns px
    else if ltb (st.meteor_count - j) num_pixels
    then put px (st.meteor_count - j) st.meteor_c
    else returns px

unfoldable pub meteor_tick : Inputs → Effect
unfolding meteor_fade meteor_draw
meteor_tick inp seg st = do
  faded ← for_loop seg.num_pixels 0 (meteor_fade st inp) seg.rgb_pixels
  px ← for_loop st.meteor_size 0 (meteor_draw st seg.num_pixels) faded
  let count = st.meteor_count + 1
  returns (
    record seg { rgb_pixels = px },
    record st { meteor_count = if count == 2 * seg.num_pixels then 0 else count },
  )

unfoldable pub meteor : Bool → Chsv → (size decay : ℕ) → Bool → (delay_ms : ℕ) → Inputs → Effect
unfolding meteor_start meteor_tick on_timer with_mode
meteor init color size decay decay_random delay_ms inp seg st = do
  r ←
      started init (meteor_start color size decay decay_random delay_ms inp)
        (on_timer inp (meteor_tick inp)) seg st
  returns (with_mode meteoring r)

abbrev pub no_color : Chsv
no_color = record { h = 0; s = 0; v = 0 }

-- One turn of the loop of a segment's task, by the mode.
unfoldable pub turn : Mode → Inputs → Effect
unfolding twinkle sparkle fire dissolve meteor
turn static inp seg st = returns (seg, st)
turn blinking inp seg st = returns (blink seg seg.timer_period_ms inp, st)
turn blending inp seg st = blend false no_color no_color fwd 0 0 inp seg st
turn twinkling inp seg st = twinkle false 0 0 inp seg st
turn sparkling inp seg st = sparkle false none 0 0 inp seg st
turn meteoring inp seg st = meteor false no_color 0 0 false 0 inp seg st
turn dissolving inp seg st = dissolve false no_color 0 0 0 inp seg st
turn burning inp seg st = fire false 0 0 0 inp seg st

-- The loop, over what its turns meet.
unfoldable pub segment_loop : List Inputs → Effect
unfolding turn
segment_loop [] seg st = returns (seg, st)
segment_loop (inp ∷ rest) seg st = do
  (seg', st') ← turn seg.mode inp seg st
  segment_loop rest seg' st'
