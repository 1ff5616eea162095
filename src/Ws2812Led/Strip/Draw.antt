-- ===== src/Ws2812Led/Strip/Draw.antt =====
-- What is drawn of the segments of a strip.
use esp32_components.Base.{
  ℕ, ◌+◌, ◌<◌, ◌≤◌, ◌≡◌, ◌≢◌, refl, sym, subst, ◌∙◌, List, [], ◌∷◌, none, some, get_elem?, ◌⊎◌, inl,
  inr, length, arith, unfinished, fetch, Returns, returning, Returns-bind, Returns-mono, Returns-if,
  Returns-value, for_loop_upto-Returns, ℕ_discrete, fetch-some, fetch-same, Array, All,
  put_at-Returns, fetch-Returns,
}
use esp32_components.CList.Links.{Ring}
use esp32_components.CList.Iter.{iter-some}
use esp32_components.Ws2812Led.Color.{Crgb, hsv2rgb}
use esp32_components.Ws2812Led.Color.Fade.{IsByte}
use esp32_components.Ws2812Led.Color.Hsv.{hsv2rgb-Returns}
use esp32_components.Ws2812Led.Segment.{Segment}
use esp32_components.Ws2812Led.Sound.{IsHsv}
use esp32_components.Ws2812Led.Strip.{
  Strip, is_off, pixel_color, draw_pixel, draw_segment, draw_all, draw, led_passes,
}

-- A segment with arrays of its size that lies within a strip of `n` pixels.
pub record Fits (n : ℕ) (seg : Segment) : Type 0 where
  pub pixels : Array seg.num_pixels IsHsv seg.pixels
  pub rgb_pixels : Array seg.num_pixels IsByte seg.rgb_pixels
  pub within : seg.start_idx + seg.num_pixels ≤ n

-- An index on the strip that is not the segment's.
abbrev pub Beside : Segment → ℕ → Type 0
Beside seg j = (j < seg.start_idx) ⊎ (seg.start_idx + seg.num_pixels ≤ j)

-- The first `m` pixels of a segment stand on the strip.
abbrev pub Shows : Segment → ℕ → List Crgb → Type 0
Shows seg m leds = (k : ℕ) → k < m → fetch leds (k + seg.start_idx) ≡ pixel_color seg k

-- What happens to an array of `n` colours when `m` pixels of a segment are drawn.
abbrev pub Drawn : ℕ → Segment → List Crgb → ℕ → List Crgb → Type 0
Drawn n seg before m leds =
    Array n IsByte leds
    × Shows seg m leds
    × ((j : ℕ) → Beside seg j → get_elem? leds j ≡ get_elem? before j)

pixel_color-Returns :
    {n : ℕ} {seg : Segment} (k : ℕ)
    → Fits n seg
    → k < seg.num_pixels
    → Returns IsByte (pixel_color seg k)
unfolding pixel_color
pixel_color-Returns {n} {seg} k f h =
    Returns-if (is_off seg.state)
      (λ e. returning {a = record { g = 0; r = 0; b = 0 }} (omega arith, omega arith, omega arith))
      (λ e.
        Returns-if seg.use_rgb_pixels
          (λ e.
            fetch-Returns IsByte seg.rgb_pixels k f.rgb_pixels.1 (omega (arith, f.rgb_pixels.0)))
          (λ e.
            Returns-bind hsv2rgb
              (fetch-Returns IsHsv seg.pixels k f.pixels.1 (omega (arith, f.pixels.0)))
              (λ c p. hsv2rgb-Returns c p.0 p.1 p.2)))

Beside-ne : (seg : Segment) {j m : ℕ} → Beside seg j → m < seg.num_pixels → j ≢ m + seg.start_idx
Beside-ne seg (inl l) h z = omega arith
Beside-ne seg (inr l) h z = omega arith

draw_pixel-Returns :
    (n : ℕ) (seg : Segment) (before leds : List Crgb) (m : ℕ)
    → Fits n seg
    → m < seg.num_pixels
    → Drawn n seg before m leds
    → Returns (Drawn n seg before (m + 1)) (draw_pixel seg m leds)
unfolding draw_pixel
draw_pixel-Returns n seg before leds m f h (a, s, o) =
    let (c, e, p) = Returns-value (pixel_color-Returns m f h) in
    rw e (
      Returns-mono
        (put_at-Returns IsByte n leds (m + seg.start_idx) c a (omega (arith, f.within)) p)
        (λ ys r. (
          r.0,
          (λ k l. elim (ℕ_discrete k m) [
            | yes q ↦
                subst (λ i. fetch ys (i + seg.start_idx) ≡ pixel_color seg i) (sym q)
                  (fetch-some ys (m + seg.start_idx) c r.1 ∙ sym e)
            | no q ↦
                fetch-same leds ys (k + seg.start_idx)
                  (r.2 (k + seg.start_idx) (λ z. q (omega arith)))
                ∙ s k (omega arith)
          ]),
          λ j b. r.2 j (λ z. Beside-ne seg b h z) ∙ o j b,
        )))

-- A segment that is drawn on a strip it fits on shows all its pixels there and changes no other.
pub draw_segment-Returns :
    (n : ℕ) (seg : Segment) (leds : List Crgb)
    → Fits n seg
    → Array n IsByte leds
    → Returns (Drawn n seg leds seg.num_pixels) (draw_segment seg leds)
unfolding draw_segment
draw_segment-Returns n seg leds f a =
    for_loop_upto-Returns (Drawn n seg leds) seg.num_pixels
      (λ m s h d. draw_pixel-Returns n seg leds s m f h d) seg.num_pixels 0 leds (omega arith)
      (a, (λ k h. absurd (omega arith)), λ j b. refl)

module _ (segments : ℕ → Segment) where
  abbrev pub AllBeside : List ℕ → ℕ → Type 0
  AllBeside ps j = All (λ p. Beside (segments p) j) ps

  abbrev pub AllFit : ℕ → List ℕ → Type 0
  AllFit n ps = All (λ p. Fits n (segments p)) ps

  -- No two of the segments have a place on the strip in common.
  abbrev pub Disjoint : List ℕ → Type 0
  Disjoint [] = Unit
  Disjoint (p ∷ ps) =
      ((k : ℕ) → k < (segments p).num_pixels → AllBeside ps (k + (segments p).start_idx))
      × Disjoint ps

  abbrev pub AllShow : List ℕ → List Crgb → Type 0
  AllShow ps leds = All (λ p. Shows (segments p) (segments p).num_pixels leds) ps

  -- Segments that fit on a strip are all shown when they are drawn on it, if no two overlap, and
  -- nothing beside them changes.
  draw_all-Returns :
      (n : ℕ) (ps : List ℕ) (leds : List Crgb)
      → AllFit n ps
      → Disjoint ps
      → Array n IsByte leds
      → Returns
          (λ leds'.
            Array n IsByte leds'
            × AllShow ps leds'
            × ((j : ℕ) → AllBeside ps j → get_elem? leds' j ≡ get_elem? leds j))
          (draw_all segments ps leds)
  unfolding draw_all
  draw_all-Returns n [] leds f d a = returning (a, _, λ j b. refl)
  draw_all-Returns n (p ∷ ps) leds f d a =
      Returns-bind _ (draw_segment-Returns n (segments p) leds f.0 a) (λ leds' (a', s, o).
        Returns-mono (draw_all-Returns n ps leds' f.1 d.1 a') (λ leds'' (a'', s', o'). (
          a'',
          (
            (λ k h.
                fetch-same leds' leds'' (k + (segments p).start_idx)
                  (o' (k + (segments p).start_idx) (d.0 k h))
                ∙ s k h),
            s',
          ),
          λ j b. o' j b.1 ∙ o j b.0,
        )))

-- The strip's list is well formed and holds the segments `ps`, which fit on it and do not overlap.
pub record IsReady (n : ℕ) (ps : List ℕ) (strip : Strip) : Type 0 where
  pub links : Ring strip.links strip.list ps
  pub fits : AllFit strip.segments n ps
  pub apart : Disjoint strip.segments ps

-- A pass over the segments of a strip of `n` pixels, with more fuel than there are segments, gives an
-- array of `n` colours in which every segment shows all its pixels.
pub draw-Shows :
    (n fuel : ℕ) (ps : List ℕ) (strip : Strip) (leds : List Crgb)
    → IsReady n ps strip
    → length ps < fuel
    → Array n IsByte leds
    → Returns
        (λ leds'. Array n IsByte leds' × AllShow strip.segments ps leds')
        (draw fuel strip leds)
unfolding draw
draw-Shows n fuel ps strip leds r l a =
    subst
      (λ o.
        Returns (λ leds'. Array n IsByte leds' × AllShow strip.segments ps leds')
          (elim o [ none ↦ unfinished | some qs ↦ draw_all strip.segments qs leds ]))
      (sym (iter-some strip.links strip.list ps fuel r.links l))
      (Returns-mono (draw_all-Returns strip.segments n ps leds r.fits r.apart a)
        (λ leds' q. (q.0, q.1)))

-- The arrays of the passes, each with what the strip has at that pass.
abbrev pub AllFrames : ℕ → List ℕ → List Strip → List (List Crgb) → Type 0
AllFrames n ps [] [] = Unit
AllFrames n ps [] (f ∷ fs) = ⊥
AllFrames n ps (s ∷ ss) [] = ⊥
AllFrames n ps (s ∷ ss) (f ∷ fs) =
    (Array n IsByte f × AllShow s.segments ps f) × AllFrames n ps ss fs

-- The task sends at each pass an array of `n` colours that shows every segment as it then stands.
pub led_passes-AllFrames :
    (n fuel : ℕ) (ps : List ℕ) (strips : List Strip) (leds : List Crgb)
    → All (IsReady n ps) strips
    → length ps < fuel
    → Array n IsByte leds
    → Returns (AllFrames n ps strips) (led_passes fuel strips leds)
unfolding led_passes
led_passes-AllFrames n fuel ps [] leds r l a = returning _
led_passes-AllFrames n fuel ps (strip ∷ rest) leds r l a =
    Returns-bind _ (draw-Shows n fuel ps strip leds r.0 l a) (λ leds' q.
      Returns-bind _ (led_passes-AllFrames n fuel ps rest leds' r.1 l q.0)
        (λ fs t. returning (q, t)))
