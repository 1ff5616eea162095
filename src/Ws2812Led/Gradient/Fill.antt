-- ===== src/Ws2812Led/Gradient/Fill.antt =====
-- The colours of a gradient fill.
use esp32_components.Base.{
  ℕ, zero, suc, ◌+◌, ◌-◌, ◌*◌, ◌/◌, ◌%◌, ◌^◌, ◌<◌, ◌≤◌, ◌≡◌, ◌≢◌, refl, sym, ap, ap₂, ◌∙◌, false,
  List, [], ◌∷◌, ◌++◌, append_assoc, arith, length, length-append, Outcome, returns, ◌>>=◌,
  put_behind, for_loop, tabulate, ne→==, u8,
}
use esp32_components.Ws2812Led.Color.{Chsv}
use esp32_components.Ws2812Led.Segment.{Segment, GradientIter, static}
use esp32_components.Ws2812Led.Gradient.{
  GradientDir, get_gradient_iter, gradient_step, advance, current, fill_gradient, delta_8, distance,
  hue_distance,
}

-- The iterator after `k` steps.
unfoldable pub advanced : ℕ → GradientIter → GradientIter
advanced zero it = it
advanced (suc k) it = advance (advanced k it)

-- The level of a channel after `k` steps.
abbrev pub level : (start delta k : ℕ) → ℕ
level start delta k = (start + k * delta) % 2 ^ 16 / 256

more : (s k d : ℕ) → ((s + k * d) % 2 ^ 16 + d) % 2 ^ 16 ≡ (s + suc k * d) % 2 ^ 16
more s k d = let e : suc k * d ≡ k * d + d = grind arith in omega (arith, e)

-- The accumulators only ever add up their deltas.
pub advanced_lem :
    (k : ℕ) (it : GradientIter)
    → it.hue_accum < 2 ^ 16
    → it.sat_accum < 2 ^ 16
    → it.val_accum < 2 ^ 16
    → let r = advanced k it in
      (r.hue_accum ≡ (it.hue_accum + k * it.hue_delta) % 2 ^ 16)
      × (r.sat_accum ≡ (it.sat_accum + k * it.sat_delta) % 2 ^ 16)
      × (r.val_accum ≡ (it.val_accum + k * it.val_delta) % 2 ^ 16)
      × (r.hue_delta ≡ it.hue_delta)
      × (r.sat_delta ≡ it.sat_delta)
      × (r.val_delta ≡ it.val_delta)
unfolding advanced advance
advanced_lem zero it h s v = (omega arith, omega arith, omega arith, refl, refl, refl)
advanced_lem (suc k) it h s v =
    let (a, b, c, d, e, f) = advanced_lem k it h s v in
    (
      ap₂ (λ x y. (x + y) % 2 ^ 16) a d ∙ more it.hue_accum k it.hue_delta,
      ap₂ (λ x y. (x + y) % 2 ^ 16) b e ∙ more it.sat_accum k it.sat_delta,
      ap₂ (λ x y. (x + y) % 2 ^ 16) c f ∙ more it.val_accum k it.val_delta,
      d,
      e,
      f,
    )

fill_rest :
    (it : GradientIter) (pre xs : List Chsv) (left k t : ℕ)
    → k ≡ length pre
    → left ≡ length xs
    → k + left ≡ t
    → for_loop left k gradient_step (pre ++ xs, advanced k it)
      ≡ returns (pre ++ tabulate left k (λ j. current (advanced j it)), advanced t it)
unfolding for_loop gradient_step advanced
fill_rest it pre [] zero k t e l h =
    let same : k ≡ t = omega arith in ap (λ j. returns (pre ++ [], advanced j it)) same
fill_rest it pre [] (suc left) k t e l h = absurd (omega arith)
fill_rest it pre (x ∷ xs) zero k t e l h = absurd (omega arith)
fill_rest it pre (x ∷ xs) (suc left) k t e l h =
    let v = current (advanced k it) in
    let s : k + 1 ≡ suc k = omega arith in
    ap (λ m. (do px ← m; returns (px, advanced (suc k) it)) >>= for_loop left (k + 1) gradient_step)
      (put_behind pre x v xs k e)
    ∙ ap (λ j. for_loop left (k + 1) gradient_step ((pre ++ v ∷ []) ++ xs, advanced j it)) (sym s)
    ∙ fill_rest it (pre ++ v ∷ []) xs left (k + 1) t (omega (arith, length-append pre (v ∷ [])))
        (omega arith) (omega arith)
    ∙ ap (λ l. returns (l, advanced t it))
        (append_assoc pre (v ∷ []) (tabulate left (k + 1) (λ j. current (advanced j it))))

tabulate_ext :
    {f g : ℕ → Chsv} → ((k : ℕ) → f k ≡ g k) → (n i : ℕ) → tabulate n i f ≡ tabulate n i g
tabulate_ext e zero i = refl
tabulate_ext e (suc n) i = ap₂ (λ x l. x ∷ l) (e i) (tabulate_ext e n (i + 1))

-- Pixel `k` of a gradient over `n` pixels.
abbrev pub shade : (start_color end_color : Chsv) → GradientDir → (n k : ℕ) → Chsv
shade start_color end_color dir n k = record {
  h =
      level (start_color.h * 256)
        (delta_8 (hue_distance dir (u8 (end_color.h + 256 - start_color.h))) n) k;
  s = level (start_color.s * 256) (delta_8 (distance start_color.s end_color.s) n) k;
  v = level (start_color.v * 256) (delta_8 (distance start_color.v end_color.v) n) k;
}

abbrev iter_of : (start_color end_color : Chsv) → GradientDir → ℕ → GradientIter
iter_of a b dir n = record {
  initialized = false;
  num_steps = n;
  step_idx = 0;
  hue_start = a.h * 256;
  sat_start = a.s * 256;
  val_start = a.v * 256;
  hue_accum = a.h * 256;
  sat_accum = a.s * 256;
  val_accum = a.v * 256;
  hue_delta = delta_8 (hue_distance dir (u8 (b.h + 256 - a.h))) n;
  sat_delta = delta_8 (distance a.s b.s) n;
  val_delta = delta_8 (distance a.v b.v) n;
}

get_gradient_iter-iter_of :
    (a b : Chsv) (dir : GradientDir) (n : ℕ)
    → n ≢ 0
    → get_gradient_iter a b dir n false ≡ returns (iter_of a b dir n)
unfolding get_gradient_iter
get_gradient_iter-iter_of a b dir n ne = rw (ne→== n 0 ne) refl

fill_pixels :
    (it : GradientIter) (px : List Chsv) (n : ℕ)
    → length px ≡ n
    → for_loop n 0 gradient_step (px, it)
      ≡ returns (tabulate n 0 (λ j. current (advanced j it)), advanced n it)
unfolding advanced
fill_pixels it px n l = fill_rest it [] px n 0 n refl (sym l) (omega arith)

current-shade :
    (a b : Chsv) (dir : GradientDir) (n : ℕ)
    → a.h < 256
    → a.s < 256
    → a.v < 256
    → (k : ℕ) → current (advanced k (iter_of a b dir n)) ≡ shade a b dir n k
current-shade a b dir n h s v k =
    let (x, y, z, _, _, _) =
      advanced_lem k (iter_of a b dir n) (omega arith) (omega arith) (omega arith) in
    λ i. record { h = x i / 256; s = y i / 256; v = z i / 256 }

-- A gradient fill of a segment of `n` pixels, below 2^16 and one at least, gives pixel `k` in each
-- channel the level that `k` times the channel's delta leads to from the start colour, in u[8 8]
-- arithmetic modulo 2^16, and leaves the rest of the segment but its mode.
pub fill_gradient_lem :
    (seg : Segment) (start_color end_color : Chsv) (dir : GradientDir) (n : ℕ)
    → start_color.h < 256
    → start_color.s < 256
    → start_color.v < 256
    → 1 ≤ n
    → n < 2 ^ 16
    → seg.end_idx < 2 ^ 16
    → seg.end_idx + 1 ≡ seg.start_idx + n
    → length seg.pixels ≡ n
    → fill_gradient seg start_color end_color dir
      ≡ returns
          (record seg { pixels = tabulate n 0 (shade start_color end_color dir n); mode = static })
unfolding fill_gradient
fill_gradient_lem seg a b dir n h s v l m u e p =
    let c : (seg.end_idx + 2 ^ 16 - seg.start_idx + 1) % 2 ^ 16 ≡ n = omega arith in
    let put_in : List Chsv → Outcome Segment =
      λ px. returns (record seg { pixels = px; mode = static }) in
    ap
      (λ k. do
        it ← get_gradient_iter a b dir k false
        (px, _) ← for_loop it.num_steps 0 gradient_step (seg.pixels, it)
        put_in px)
      c
    ∙ ap
        (λ o. do
          it ← o
          (px, _) ← for_loop it.num_steps 0 gradient_step (seg.pixels, it)
          put_in px)
        (get_gradient_iter-iter_of a b dir n (omega arith))
    ∙ ap (λ o. o >>= λ r. put_in r.0) (fill_pixels (iter_of a b dir n) seg.pixels n p)
    ∙ ap put_in (tabulate_ext (current-shade a b dir n h s v) n 0)
