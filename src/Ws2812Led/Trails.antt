-- ===== src/Ws2812Led/Trails.antt =====
-- Dissolving and meteors keep the invariant of a segment.
use esp32_components.Base.{
  ℕ, ◌-◌, ◌<◌, Bool, true, not, ◌||◌, List, take, arith, u8, ltb, ltb→lt, fetch-Returns, Returns,
  returning, Returns-bind, Returns-if, for_loop-Returns, Array, put-Returns,
}
use esp32_components.Random.{random}
use esp32_components.Ws2812Led.Color.{Crgb, Chsv, fade_color, scale8_rgb, scale8, is_seg_blank_rgb}
use esp32_components.Ws2812Led.Color.Fade.{IsByte}
use esp32_components.Ws2812Led.Color.Hsv.{hsv2rgb-Returns}
use esp32_components.Ws2812Led.Segment.{Segment, Statics, Inputs, dissolving, meteoring}
use esp32_components.Ws2812Led.Effects.{
  restore, fade_pixel, dissolve, dissolve_start, dissolve_tick, dissolve_pixel, meteor,
  meteor_start, meteor_tick, meteor_fade, meteor_draw,
}
use esp32_components.Ws2812Led.Sound.{
  IsSound, IsHsv, Keeps, put_all-Returns, blank_strip_rgb-Returns, start_timer-IsSound,
  on_timer-Keeps, started-Keeps, with_rgb-IsSound,
}

restore-Returns :
    {seg : Segment} (c : Crgb) → IsSound seg → IsByte c → Returns IsSound (restore seg c)
unfolding restore
restore-Returns {seg} c s b =
    Returns-bind _
      (put_all-Returns IsByte seg.num_pixels seg.rgb_pixels (λ k. c) s.rgb_pixels (λ k. b))
      (λ px a. returning (with_rgb-IsSound seg.mode px s a))

fade_color-IsByte : (c : Crgb) (factor : ℕ) → IsByte (fade_color c factor)
unfolding fade_color scale8_rgb scale8
fade_color-IsByte c factor = (omega arith, omega arith, omega arith)

fade_pixel-Returns :
    (n factor i : ℕ) (px : List Crgb)
    → Array n IsByte px
    → i < n
    → Returns (Array n IsByte) (fade_pixel factor i px)
unfolding fade_pixel
fade_pixel-Returns n factor i px a h =
    Returns-bind _ (fetch-Returns IsByte px i a.1 (omega arith))
      (λ c b. put-Returns IsByte n px i (fade_color c factor) a h (fade_color-IsByte c factor))

dissolve_start-Keeps :
    (color : Chsv) (decay prob delay_ms : ℕ) (inp : Inputs)
    → IsHsv color
    → Keeps (dissolve_start color decay prob delay_ms inp)
unfolding dissolve_start
dissolve_start-Keeps color decay prob delay_ms inp h seg st s t =
    Returns-bind _ (hsv2rgb-Returns color h.0 h.1 h.2) (λ c b.
      Returns-bind _ (blank_strip_rgb-Returns (start_timer-IsSound delay_ms true inp s)) (λ seg' s'.
        Returns-bind _ (restore-Returns c s' b)
          (λ seg'' s''. returning (s'', record { dissolve_c = b; meteor_c = t.meteor_c }))))

dissolve_pixel-Returns :
    (n : ℕ) (st : Statics) (inp : Inputs) (j : ℕ) (px : List Crgb)
    → Array n IsByte px
    → j < n
    → Returns (Array n IsByte) (dissolve_pixel st inp j px)
unfolding dissolve_pixel
dissolve_pixel-Returns n st inp j px a h =
    Returns-if (ltb (100 - st.dissolve_prob) (u8 (random 100 (inp.words j))))
      (λ e. fade_pixel-Returns n st.dissolve_decay j px a h) (λ e. returning a)

dissolve_tick-Keeps : (inp : Inputs) → Keeps (dissolve_tick inp)
unfolding dissolve_tick
dissolve_tick-Keeps inp seg st s t =
    let n = seg.num_pixels in
    Returns-bind _
      (for_loop-Returns (Array n IsByte) n (λ k px h a. dissolve_pixel-Returns n st inp k px a h) n
        0 seg.rgb_pixels (omega arith) s.rgb_pixels)
      (λ px a.
        let s' = with_rgb-IsSound seg.mode px s a in
        Returns-bind _
          (Returns-if (is_seg_blank_rgb (take n px))
            (λ e. restore-Returns st.dissolve_c s' t.dissolve_c) (λ e. returning s'))
          (λ seg'' s''. returning (s'', t)))

-- Dissolving keeps a sound segment sound.
pub dissolve-Keeps :
    (init : Bool) (color : Chsv) (decay prob delay_ms : ℕ) (inp : Inputs)
    → IsHsv color
    → Keeps (dissolve init color decay prob delay_ms inp)
unfolding dissolve
dissolve-Keeps init color decay prob delay_ms inp h =
    started-Keeps init dissolving (dissolve_start-Keeps color decay prob delay_ms inp h)
      (on_timer-Keeps inp (dissolve_tick-Keeps inp))

meteor_start-Keeps :
    (color : Chsv) (size decay : ℕ) (rand : Bool) (delay_ms : ℕ) (inp : Inputs)
    → IsHsv color
    → Keeps (meteor_start color size decay rand delay_ms inp)
unfolding meteor_start
meteor_start-Keeps color size decay rand delay_ms inp h seg st s t =
    Returns-bind _ (hsv2rgb-Returns color h.0 h.1 h.2) (λ c b.
      Returns-bind _ (blank_strip_rgb-Returns (start_timer-IsSound delay_ms true inp s))
        (λ seg' s'. returning (s', record { dissolve_c = t.dissolve_c; meteor_c = b })))

meteor_fade-Returns :
    (n : ℕ) (st : Statics) (inp : Inputs) (j : ℕ) (px : List Crgb)
    → Array n IsByte px
    → j < n
    → Returns (Array n IsByte) (meteor_fade st inp j px)
unfolding meteor_fade
meteor_fade-Returns n st inp j px a h =
    Returns-if (not st.meteor_random || ltb 60 (u8 (random 100 (inp.words j))))
      (λ e. fade_pixel-Returns n st.meteor_decay j px a h) (λ e. returning a)

meteor_draw-Returns :
    (n : ℕ) (st : Statics) (j : ℕ) (px : List Crgb)
    → IsByte st.meteor_c
    → Array n IsByte px
    → Returns (Array n IsByte) (meteor_draw st n j px)
unfolding meteor_draw
meteor_draw-Returns n st j px c a =
    Returns-if (ltb st.meteor_count j) (λ e. returning a)
      (λ e.
        Returns-if (ltb (st.meteor_count - j) n)
          (λ l.
            put-Returns IsByte n px (st.meteor_count - j) st.meteor_c a
              (ltb→lt (st.meteor_count - j) n l) c)
          (λ l. returning a))

meteor_tick-Keeps : (inp : Inputs) → Keeps (meteor_tick inp)
unfolding meteor_tick
meteor_tick-Keeps inp seg st s t =
    let n = seg.num_pixels in
    Returns-bind _
      (for_loop-Returns (Array n IsByte) n (λ k px h a. meteor_fade-Returns n st inp k px a h) n 0
        seg.rgb_pixels (omega arith) s.rgb_pixels)
      (λ faded a.
        Returns-bind _
          (for_loop-Returns (Array n IsByte) st.meteor_size
            (λ k px h b. meteor_draw-Returns n st k px t.meteor_c b) st.meteor_size 0 faded
            (omega arith) a)
          (λ px b. returning (
            with_rgb-IsSound seg.mode px s b,
            record { dissolve_c = t.dissolve_c; meteor_c = t.meteor_c },
          )))

-- A meteor keeps a sound segment sound.
pub meteor-Keeps :
    (init : Bool) (color : Chsv) (size decay : ℕ) (rand : Bool) (delay_ms : ℕ) (inp : Inputs)
    → IsHsv color
    → Keeps (meteor init color size decay rand delay_ms inp)
unfolding meteor
meteor-Keeps init color size decay rand delay_ms inp h =
    started-Keeps init meteoring (meteor_start-Keeps color size decay rand delay_ms inp h)
      (on_timer-Keeps inp (meteor_tick-Keeps inp))
