-- ===== src/Ws2812Led/Burn.antt =====
-- The fire effect keeps the invariant of a segment.
use esp32_components.Base.{
  ℕ, ◌+◌, ◌-◌, ◌*◌, ◌/◌, ◌<◌, ◌≤◌, Bool, true, List, arith, u8, ltb, fetch-Returns, Returns,
  returning, Returns-bind, Returns-if, for_loop-Returns, Array, put-Returns,
}
use esp32_components.Random.{random, random8, random8_range}
use esp32_components.Random.Range.{random-lt}
use esp32_components.Ws2812Led.Color.{Crgb, sub_safe, add8_safe, get_heatcolor}
use esp32_components.Ws2812Led.Color.Fade.{IsByte}
use esp32_components.Ws2812Led.Color.Heat.{get_heatcolor_mono}
use esp32_components.Ws2812Led.Segment.{Inputs, burning, start_timer}
use esp32_components.Ws2812Led.Effects.{
  cool_pixel, drift_pixel, ignite, heat_pixel, fire_tick, fire_start, fire,
}
use esp32_components.Ws2812Led.Sound.{
  IsInput, Keeps, put_all-Returns, blank_strip_rgb-Returns, start_timer-IsSound, on_timer-Keeps,
  started-Keeps,
}

abbrev Heat : ℕ → List ℕ → Type 0
Heat n = Array n (λ h. h < 256)

sub_safe-le : (a b : ℕ) → sub_safe a b ≤ a
unfolding sub_safe
sub_safe-le a b = ground arith

add8_safe-lt : (a b : ℕ) → add8_safe a b < 256
unfolding add8_safe
add8_safe-lt a b = ground arith

cool_pixel-Returns :
    (cool n : ℕ) (inp : Inputs) (i : ℕ) (heat : List ℕ)
    → Heat n heat
    → i < n
    → Returns (Heat n) (cool_pixel cool n inp i heat)
unfolding cool_pixel
cool_pixel-Returns cool n inp i heat a h =
    let less = u8 (random (cool * 10 / n + 2) (inp.words i)) in
    Returns-bind _ (fetch-Returns (λ h. h < 256) heat i a.1 (omega arith)) (λ b l.
      put-Returns (λ h. h < 256) n heat i (sub_safe b less) a h (omega (arith, sub_safe-le b less)))

drift_pixel-Returns :
    (n i : ℕ) (heat : List ℕ) → Heat n heat → i < n - 2 → Returns (Heat n) (drift_pixel n i heat)
unfolding drift_pixel
drift_pixel-Returns n i heat a h =
    Returns-bind _ (fetch-Returns (λ h. h < 256) heat (n - 1 - i - 1) a.1 (omega arith)) (λ b l.
      Returns-bind _ (fetch-Returns (λ h. h < 256) heat (n - 1 - i - 2) a.1 (omega arith)) (λ c m.
        put-Returns (λ h. h < 256) n heat (n - 1 - i) (u8 ((b + c + c) / 3)) a (omega arith)
          (omega arith)))

-- The sparks fall on the first six pixels.
ignite-Returns :
    (spark n : ℕ) (inp : Inputs) (heat : List ℕ)
    → IsInput inp
    → 6 ≤ n
    → Heat n heat
    → Returns (Heat n) (ignite spark n inp heat)
unfolding ignite
ignite-Returns spark n inp heat i enough a =
    let place = u8 (random 7 (inp.words (n + 1))) in
    let more = random8_range 160 255 (inp.words (n + 2)) in
    let low : place < 6 =
      omega
        (arith, random-lt 7 (inp.words (n + 1)) (i.words (n + 1)) (omega arith) (omega arith)) in
    Returns-if (ltb (random8 (inp.words n)) spark)
      (λ e. Returns-bind _ (fetch-Returns (λ h. h < 256) heat place a.1 (omega arith)) (λ b l.
        put-Returns (λ h. h < 256) n heat place (add8_safe b more) a (omega arith)
          (add8_safe-lt b more)))
      (λ e. returning a)

get_heatcolor-IsByte : (t : ℕ) → t < 256 → IsByte (get_heatcolor t)
get_heatcolor-IsByte t h = omega (arith, get_heatcolor_mono t t (omega arith) h)

heat_pixel-Returns :
    (n : ℕ) (heat : List ℕ) (i : ℕ) (px : List Crgb)
    → Heat n heat
    → Array n IsByte px
    → i < n
    → Returns (Array n IsByte) (heat_pixel heat i px)
unfolding heat_pixel
heat_pixel-Returns n heat i px a p h =
    Returns-bind _ (fetch-Returns (λ h. h < 256) heat i a.1 (omega arith))
      (λ b l. put-Returns IsByte n px i (get_heatcolor b) p h (get_heatcolor-IsByte b l))

fire_tick-Keeps : (inp : Inputs) → IsInput inp → Keeps (fire_tick inp)
unfolding fire_tick
fire_tick-Keeps inp i seg st s t =
    let n = seg.num_pixels in
    Returns-bind _
      (for_loop-Returns (Heat n) n (λ k w h a. cool_pixel-Returns st.fire_cool n inp k w a h) n 0
        seg.work_buf (omega arith) s.work_buf)
      (λ cooled a.
        Returns-bind _
          (for_loop-Returns (Heat n) (n - 2) (λ k w h b. drift_pixel-Returns n k w b h) (n - 2) 0
            cooled (omega arith) a)
          (λ drifted b.
            Returns-bind _ (ignite-Returns st.fire_spark n inp drifted i s.enough b) (λ heat c.
              Returns-bind _
                (for_loop-Returns (Array n IsByte) n
                  (λ k px h d. heat_pixel-Returns n heat k px c d h) n 0 seg.rgb_pixels
                  (omega arith) s.rgb_pixels)
                (λ px d. returning (
                  record {
                    pixels = s.pixels;
                    rgb_pixels = d;
                    work_buf = c;
                    enough = s.enough;
                    few = s.few;
                    grad_iter = s.grad_iter;
                  },
                  t,
                )))))

fire_start-Keeps :
    (cooling sparking delay_ms : ℕ) (inp : Inputs)
    → Keeps (fire_start cooling sparking delay_ms inp)
unfolding fire_start
fire_start-Keeps cooling sparking delay_ms inp seg st s t =
    let u = start_timer-IsSound delay_ms true inp s in
    Returns-bind _
      (put_all-Returns (λ h. h < 256) seg.num_pixels seg.work_buf (λ k. 0) s.work_buf
        (λ k. omega arith))
      (λ w a.
        Returns-bind _
          (blank_strip_rgb-Returns
            {seg = record (start_timer seg delay_ms true inp) { work_buf = w }}
            (record {
              pixels = u.pixels;
              rgb_pixels = u.rgb_pixels;
              work_buf = a;
              enough = u.enough;
              few = u.few;
              grad_iter = u.grad_iter;
            }))
          (λ seg' s'. returning (s', record { dissolve_c = t.dissolve_c; meteor_c = t.meteor_c })))

-- A fire keeps a sound segment sound: it returns, and reads and writes inside the arrays only.
pub fire-Keeps :
    (init : Bool) (cooling sparking delay_ms : ℕ) (inp : Inputs)
    → IsInput inp
    → Keeps (fire init cooling sparking delay_ms inp)
unfolding fire
fire-Keeps init cooling sparking delay_ms inp i =
    started-Keeps init burning (fire_start-Keeps cooling sparking delay_ms inp)
      (on_timer-Keeps inp (fire_tick-Keeps inp i))
