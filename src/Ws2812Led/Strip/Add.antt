-- ===== src/Ws2812Led/Strip/Add.antt =====
-- Segments that are added to a strip.
use esp32_components.Base.{
  ℕ, suc, ◌+◌, ◌-◌, ◌<◌, ◌≤◌, ◌%◌, ◌^◌, ◌≡◌, refl, sym, ap, subst, ◌∙◌, Bool, true, List, [], ◌∷◌,
  ◌++◌, Option, none, some, length, length-append, arith, ◌==◌, if◌then◌else◌, eq→==, ne→==,
  returns, unfinished, Returns, returning, Array, ◌⊎◌, inl, inr,
}
use esp32_components.CList.Links.{Ring, NotIn, last}
use esp32_components.CList.Iter.{head-tail, ends, init-Ring}
use esp32_components.CList.Insert.{append-Ring}
use esp32_components.Ws2812Led.Color.{Crgb, Chsv}
use esp32_components.Ws2812Led.Color.Fade.{IsByte}
use esp32_components.Ws2812Led.Segment.{Segment}
use esp32_components.Ws2812Led.Sound.{IsHsv}
use esp32_components.Ws2812Led.Encoder.{EspErr, esp_ok, no_mem}
use esp32_components.Ws2812Led.Strip.{
  Strip, set_segment, prepared, next_number, attach, add_segment, led_start,
}
use esp32_components.Ws2812Led.Strip.Draw.{Fits}

-- The segments are numbered in the order of the list.
abbrev pub Numbered : (ℕ → Segment) → List ℕ → ℕ → Type 0
Numbered segments [] i = Unit
Numbered segments (p ∷ ps) i = ((segments p).number ≡ i) × Numbered segments ps (suc i)

-- The strip's list holds the segments `ps`, which are counted and numbered.
pub record IsListed (strip : Strip) (ps : List ℕ) : Type 0 where
  pub links : Ring strip.links strip.list ps
  pub count : strip.num_segments ≡ length ps
  pub numbers : Numbered strip.segments ps 0

Numbered-last :
    (segments : ℕ → Segment) (x : ℕ) (xs : List ℕ) (i : ℕ)
    → Numbered segments (x ∷ xs) i
    → (segments (last x xs)).number ≡ i + length xs
unfolding last
Numbered-last segments x [] i n = omega (arith, n.0)
Numbered-last segments x (y ∷ ys) i n = omega (arith, Numbered-last segments y ys (suc i) n.1)

-- What comes last gets the next number, and what is not in the list plays no part.
Numbered-append :
    (segments : ℕ → Segment) (p : ℕ) (seg : Segment) (ps : List ℕ) (i : ℕ)
    → Numbered segments ps i
    → NotIn p ps
    → seg.number ≡ i + length ps
    → Numbered (λ q. if q == p then seg else segments q) (ps ++ p ∷ []) i
Numbered-append segments p seg [] i n h e =
    (ap (λ b. (if b then seg else segments p).number) (eq→== p p refl) ∙ e ∙ omega arith, _)
Numbered-append segments p seg (x ∷ xs) i n h e = (
  ap (λ b. (if b then seg else segments x).number) (ne→== x p (λ z. h.0 (sym z))) ∙ n.0,
  Numbered-append segments p seg xs (suc i) n.1 h.1 (omega arith),
)

Numbered-other :
    (segments : ℕ → Segment) (p : ℕ) (seg : Segment) (ps : List ℕ) (i : ℕ)
    → Numbered segments ps i
    → NotIn p ps
    → Numbered (λ q. if q == p then seg else segments q) ps i
Numbered-other segments p seg [] i n h = _
Numbered-other segments p seg (x ∷ xs) i n h = (
  ap (λ b. (if b then seg else segments x).number) (ne→== x p (λ z. h.0 (sym z))) ∙ n.0,
  Numbered-other segments p seg xs (suc i) n.1 h.1,
)

number_after : Strip → Option ℕ → ℕ
number_after strip o = elim o [ none ↦ 0 | some last ↦ ((strip.segments last).number + 1) % 2 ^ 16 ]

next_number-length :
    (strip : Strip) (ps : List ℕ)
    → IsListed strip ps
    → length ps < 2 ^ 16
    → next_number strip ≡ length ps
unfolding next_number number_after ends last
next_number-length strip [] i l =
    ap (number_after strip) (head-tail strip.links strip.list [] i.links).1
next_number-length strip (x ∷ xs) i l =
    ap (number_after strip) (head-tail strip.links strip.list (x ∷ xs) i.links).1
    ∙ omega (arith, Numbered-last strip.segments x xs 0 i.numbers)

-- The arrays of a new segment have its size.
pub prepared-Fits :
    (n : ℕ) (seg : Segment) (px : List Chsv) (rgb : List Crgb) (work : List ℕ)
    → seg.start_idx ≤ seg.end_idx
    → seg.end_idx < n
    → n < 2 ^ 16
    → Array (seg.end_idx + 1 - seg.start_idx) IsHsv px
    → Array (seg.end_idx + 1 - seg.start_idx) IsByte rgb
    → Fits n (prepared seg px rgb work)
unfolding prepared
prepared-Fits n seg px rgb work h l u a b = record {
  pixels = (omega (arith, a.0), a.1);
  rgb_pixels = (omega (arith, b.0), b.1);
  within = omega arith;
}

attach-IsListed :
    (strip : Strip) (ps : List ℕ) (p : ℕ) (seg : Segment) (created : EspErr)
    → IsListed strip ps
    → NotIn p (strip.list ∷ ps)
    → length ps + 1 < 2 ^ 16
    → IsListed (attach strip p seg created).1 (ps ++ p ∷ [])
unfolding attach
attach-IsListed strip ps p seg created i n l = record {
  links = append-Ring strip.links strip.list p ps i.links n;
  count = omega (arith, i.count, length-append ps (p ∷ []));
  numbers =
      Numbered-append strip.segments p (record seg { number = next_number strip }) ps 0 i.numbers
        n.1 (omega (arith, next_number-length strip ps i (omega arith)));
}

-- The segment's place in the strip afterwards.
attach-Fits :
    (n : ℕ) (strip : Strip) (p : ℕ) (seg : Segment) (created : EspErr)
    → Fits n seg
    → Fits n ((attach strip p seg created).1.segments p)
unfolding attach
attach-Fits n strip p seg created f =
    subst (λ b. Fits n (if b then record seg { number = next_number strip } else strip.segments p))
      (sym (eq→== p p refl))
      (record { pixels = f.pixels; rgb_pixels = f.rgb_pixels; within = f.within })

-- A segment that lies within a strip of `n` pixels, is not in its list yet and gets its three arrays
-- is put last in the list, with the next number, and fits on the strip: its pixels can be drawn. The
-- result is that of the creation of its task, and the segment stays in the list in any case.
pub add_segment-IsListed :
    (n : ℕ) (strip : Strip) (ps : List ℕ) (p : ℕ) (px : List Chsv) (rgb : List Crgb) (work : List ℕ)
    (created : EspErr)
    → let seg = strip.segments p in
      IsListed strip ps
      → NotIn p (strip.list ∷ ps)
      → length ps + 1 < 2 ^ 16
      → strip.initialized ≡ true
      → seg.start_idx ≤ seg.end_idx
      → seg.end_idx < n
      → n < 2 ^ 16
      → Array (seg.end_idx + 1 - seg.start_idx) IsHsv px
      → Array (seg.end_idx + 1 - seg.start_idx) IsByte rgb
      → Returns
          (λ r. (r.0 ≡ created) × IsListed r.1 (ps ++ p ∷ []) × Fits n (r.1.segments p))
          (add_segment strip p
            (record { pixels = some px; rgb_pixels = some rgb; work_buf = some work })
            created)
unfolding add_segment
add_segment-IsListed n strip ps p px rgb work created i q l f h u v a b =
    let seg = prepared (strip.segments p) px rgb work in
    subst
      (λ b.
        Returns (λ r. (r.0 ≡ created) × IsListed r.1 (ps ++ p ∷ []) × Fits n (r.1.segments p))
          (if b then returns (attach strip p seg created) else unfinished))
      (sym f)
      (returning (
        refl,
        attach-IsListed strip ps p seg created i q l,
        attach-Fits n strip p seg created
            (prepared-Fits n (strip.segments p) px rgb work h u v a b),
      ))

set_segment-IsListed :
    (strip : Strip) (ps : List ℕ) (p : ℕ) (seg : Segment)
    → IsListed strip ps
    → NotIn p ps
    → IsListed (set_segment strip p seg) ps
set_segment-IsListed strip ps p seg i q = record {
  links = i.links;
  count = i.count;
  numbers = Numbered-other strip.segments p seg ps 0 i.numbers q;
}

-- Where one of the three arrays is not to be had, the result says so, and the list, its count and its
-- numbers stay.
pub add_segment-no_mem :
    (strip : Strip) (ps : List ℕ) (p : ℕ) (pixels : Option (List Chsv))
    (rgb_pixels : Option (List Crgb)) (work_buf : Option (List ℕ)) (created : EspErr)
    → IsListed strip ps
    → NotIn p ps
    → (pixels ≡ none) ⊎ ((rgb_pixels ≡ none) ⊎ (work_buf ≡ none))
    → Returns
        (λ r. (r.0 ≡ no_mem) × IsListed r.1 ps)
        (add_segment strip p
          (record { pixels = pixels; rgb_pixels = rgb_pixels; work_buf = work_buf })
          created)
unfolding add_segment
add_segment-no_mem strip ps p none rgb work created i q o =
    returning (refl, set_segment-IsListed strip ps p _ i q)
add_segment-no_mem strip ps p (some px) none work created i q o =
    returning (refl, set_segment-IsListed strip ps p _ i q)
add_segment-no_mem strip ps p (some px) (some rgb) none created i q o =
    returning (refl, set_segment-IsListed strip ps p _ i q)
add_segment-no_mem strip ps p (some px) (some rgb) (some work) created i q o =
    absurd (elim o [ inl e ↦ cc | inr r ↦ elim r [ inl e ↦ cc | inr e ↦ cc ] ])

-- A strip that starts has a list with no segment, and its flag is set.
pub led_start-IsListed :
    (strip : Strip) (room : Bool)
    → strip.num_segments ≡ 0
    → let r = led_start strip esp_ok esp_ok esp_ok room in
      IsListed r.0 [] × (r.0.initialized ≡ true)
unfolding led_start
led_start-IsListed strip room e =
    (record { links = init-Ring strip.links strip.list; count = e; numbers = _ }, refl)
