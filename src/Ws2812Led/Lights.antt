-- ===== src/Ws2812Led/Lights.antt =====
-- Twinkling, sparkling, fills and blends keep the invariant of a segment.
use esp32_components.Base.{
  ℕ, ◌+◌, ◌*◌, ◌%◌, ◌^◌, ◌<◌, Bool, false, List, Option, none, some, arith, ◌==◌, Returns,
  returning, Returns-bind, Returns-if, for_loop-Returns, Array, put-Returns,
}
use esp32_components.Random.{random}
use esp32_components.Random.Range.{random_index}
use esp32_components.Ws2812Led.Color.{Chsv}
use esp32_components.Ws2812Led.Segment.{
  Segment, Inputs, twinkling, sparkling, random_hsv, random_satval,
}
use esp32_components.Ws2812Led.Effects.{
  twinkle, twinkle_start, twinkle_tick, sparkle, sparkle_start, sparkle_tick, sparkle_light,
}
use esp32_components.Ws2812Led.Sound.{
  IsSound, IsHsv, IsInput, Keeps, blank_strip-Returns, start_timer-IsSound, on_timer-Keeps,
  started-Keeps, with_pixels-IsSound, random_hsv-IsHsv, random_satval-IsHsv,
}

index-lt :
    {seg : Segment} {inp : Inputs} (k : ℕ)
    → IsSound seg
    → IsInput inp
    → random seg.num_pixels (inp.words k) % 2 ^ 16 < seg.num_pixels
index-lt {seg} {inp} k s i =
    random_index seg.num_pixels (inp.words k) (i.words k) (omega (arith, s.enough)) s.few

twinkle_start-Keeps : (num delay_ms : ℕ) (inp : Inputs) → Keeps (twinkle_start num delay_ms inp)
unfolding twinkle_start
twinkle_start-Keeps num delay_ms inp seg st s t =
    Returns-bind _ (blank_strip-Returns (start_timer-IsSound delay_ms false inp s))
      (λ seg' s'. returning (s', record { dissolve_c = t.dissolve_c; meteor_c = t.meteor_c }))

twinkle_tick-Keeps : (inp : Inputs) → IsInput inp → Keeps (twinkle_tick inp)
unfolding twinkle_tick
twinkle_tick-Keeps inp i seg st s t =
    Returns-bind _
      (put-Returns IsHsv seg.num_pixels seg.pixels (random seg.num_pixels (inp.words 0) % 2 ^ 16)
        (random_hsv inp 1) s.pixels (index-lt 0 s i) (random_hsv-IsHsv 1 i))
      (λ px a.
        let s' = with_pixels-IsSound seg.mode px s a in
        Returns-if (st.twinkle_count + 1 == st.twinkle_num)
          (λ e. Returns-bind _ (blank_strip-Returns s') (λ seg'' s''.
            returning (s'', record { dissolve_c = t.dissolve_c; meteor_c = t.meteor_c })))
          (λ e. returning (s', record { dissolve_c = t.dissolve_c; meteor_c = t.meteor_c })))

-- Twinkling keeps a sound segment sound.
pub twinkle-Keeps :
    (init : Bool) (num delay_ms : ℕ) (inp : Inputs)
    → IsInput inp
    → Keeps (twinkle init num delay_ms inp)
unfolding twinkle
twinkle-Keeps init num delay_ms inp i =
    started-Keeps init twinkling (twinkle_start-Keeps num delay_ms inp)
      (on_timer-Keeps inp (twinkle_tick-Keeps inp i))

sparkle_start-Keeps :
    (color : Option ℕ) (num delay_ms : ℕ) (inp : Inputs)
    → Keeps (sparkle_start color num delay_ms inp)
unfolding sparkle_start
sparkle_start-Keeps color num delay_ms inp seg st s t =
    Returns-bind _ (blank_strip-Returns (start_timer-IsSound delay_ms false inp s))
      (λ seg' s'. returning (s', record { dissolve_c = t.dissolve_c; meteor_c = t.meteor_c }))

sparkle_light-Returns :
    (color : Option ℕ) {seg : Segment} {inp : Inputs} (k : ℕ) (px : List Chsv)
    → IsSound seg
    → IsInput inp
    → Array seg.num_pixels IsHsv px
    → Returns (Array seg.num_pixels IsHsv) (sparkle_light color seg inp k px)
unfolding sparkle_light
sparkle_light-Returns none {seg} {inp} k px s i a =
    put-Returns IsHsv seg.num_pixels px (random seg.num_pixels (inp.words (4 * k)) % 2 ^ 16)
      (random_hsv inp (4 * k + 1)) a (index-lt (4 * k) s i) (random_hsv-IsHsv (4 * k + 1) i)
sparkle_light-Returns (some c) {seg} {inp} k px s i a =
    put-Returns IsHsv seg.num_pixels px (random seg.num_pixels (inp.words (3 * k)) % 2 ^ 16)
      (random_satval inp (3 * k + 1) (inp.color_at c).h) a (index-lt (3 * k) s i)
      (random_satval-IsHsv (3 * k + 1) (inp.color_at c).h i (i.color_at c).0)

sparkle_tick-Keeps : (inp : Inputs) → IsInput inp → Keeps (sparkle_tick inp)
unfolding sparkle_tick
sparkle_tick-Keeps inp i seg st s t = Returns-bind _ (blank_strip-Returns s) (λ seg' s'.
    Returns-bind _
      (for_loop-Returns (Array seg'.num_pixels IsHsv) st.sparkle_num
        (λ k px h a. sparkle_light-Returns st.sparkle_color k px s' i a) st.sparkle_num 0
        seg'.pixels (omega arith) s'.pixels)
      (λ px a. returning (with_pixels-IsSound seg'.mode px s' a, t)))

-- Sparkling keeps a sound segment sound.
pub sparkle-Keeps :
    (init : Bool) (color : Option ℕ) (num delay_ms : ℕ) (inp : Inputs)
    → IsInput inp
    → Keeps (sparkle init color num delay_ms inp)
unfolding sparkle
sparkle-Keeps init color num delay_ms inp i =
    started-Keeps init sparkling (sparkle_start-Keeps color num delay_ms inp)
      (on_timer-Keeps inp (sparkle_tick-Keeps inp i))
