-- ===== src/Ws2812Led/Strip.antt =====
-- WS2812Led/src/WS2812Led.c, the strip: its list of segments, the task that draws them, and the calls
-- that add segments and show them. A segment is at the address of its list entry.
pub mod Draw
pub mod Add
use esp32_components.Base.{
  ℕ, zero, suc, ◌+◌, ◌-◌, ◌*◌, ◌%◌, ◌^◌, Bool, true, false, List, [], ◌∷◌, length, replicate,
  Option, none, some, ◌==◌, if◌then◌else◌, Outcome, returns, unfinished, ◌>>=◌, put, fetch,
  for_loop, ◌⊎◌,
}
use esp32_components.CList.{Heap, append, is_empty, iter, tail}
use esp32_components.CList
use esp32_components.Ws2812Led.Color.{Crgb, Chsv, hsv2rgb}
use esp32_components.Ws2812Led.Segment.{Segment, SegState, seg_off, seg_on, static, show}
use esp32_components.Ws2812Led.Encoder.{
  EspErr, esp_ok, no_mem, invalid_arg, other, Driver, ResetCode, Encoder, encoder_new,
}

-- `list` is the address of the strip's list, `links` the heap of list entries, and `initialized` the
-- strip's event flag.
pub record Strip : Type 0 where
  pub num_pixels : ℕ
  pub list : ℕ
  pub links : Heap
  pub segments : ℕ → Segment
  pub num_segments : ℕ
  pub initialized : Bool

abbrev pub is_off : SegState → Bool
is_off seg_off = true
is_off seg_on = false

-- The colour of a pixel on the strip.
unfoldable pub pixel_color : Segment → ℕ → Outcome Crgb
pixel_color seg k =
    if is_off seg.state
    then returns (record { g = 0; r = 0; b = 0 })
    else (if seg.use_rgb_pixels then fetch seg.rgb_pixels k else fetch seg.pixels k >>= hsv2rgb)

unfoldable pub draw_pixel : Segment → ℕ → List Crgb → Outcome (List Crgb)
unfolding pixel_color
draw_pixel seg k leds = do color ← pixel_color seg k; put leds (k + seg.start_idx) color

unfoldable pub draw_segment : Segment → List Crgb → Outcome (List Crgb)
unfolding draw_pixel
draw_segment seg leds = for_loop seg.num_pixels 0 (draw_pixel seg) leds

unfoldable pub draw_all : (ℕ → Segment) → List ℕ → List Crgb → Outcome (List Crgb)
unfolding draw_segment
draw_all segments [] leds = returns leds
draw_all segments (p ∷ ps) leds = do
  leds' ← draw_segment (segments p) leds
  draw_all segments ps leds'

-- One pass over the list of segments, which has fuel.
unfoldable pub draw : ℕ → Strip → List Crgb → Outcome (List Crgb)
unfolding draw_all
draw fuel strip leds = elim (iter fuel strip.links strip.list) [
  | none ↦ unfinished
  | some ps ↦ draw_all strip.segments ps leds
]

-- The arrays that are sent, each with what rmt_transmit() returns in the end: the strip as it stands
-- at each pass is given. An error only delays the next pass.
unfoldable pub led_passes : ℕ → List Strip → List Crgb → Outcome (List (List Crgb))
unfolding draw
led_passes fuel [] leds = returns []
led_passes fuel (strip ∷ rest) leds = do
  leds' ← draw fuel strip leds
  more ← led_passes fuel rest leds'
  returns (leds' ∷ more)

-- What the driver says to the three calls: the channel, the encoder, and its start.
unfoldable pub init_strip : Strip → (channel encoder enable : EspErr) → EspErr × Strip
init_strip strip channel encoder enable = elim channel [
  | esp_ok ↦ elim encoder [
    | esp_ok ↦ elim enable [
      | esp_ok ↦ (esp_ok, record strip { links = CList.init strip.links strip.list })
      | e ↦ (e, strip)
    ]
    | e ↦ (e, strip)
  ]
  | e ↦ (e, strip)
]

abbrev is_ok : EspErr → Bool
is_ok esp_ok = true
is_ok e = false

-- The task up to its loop: the strip with its flag, and the array where there is room for it.
unfoldable pub led_start :
    Strip → (channel encoder enable : EspErr) → (room : Bool) → Strip × Option (List Crgb)
unfolding init_strip
led_start strip channel encoder enable room =
    let (ret, strip') = init_strip strip channel encoder enable in
    if is_ok ret
    then (
      record strip' { initialized = true },
      if room then some (replicate strip.num_pixels (record { g = 0; r = 0; b = 0 })) else none,
    )
    else (strip', none)

-- What malloc() gives for the three arrays, with any content.
pub record Arrays : Type 0 where
  pub pixels : Option (List Chsv)
  pub rgb_pixels : Option (List Crgb)
  pub work_buf : Option (List ℕ)

abbrev set_segment : Strip → ℕ → Segment → Strip
set_segment strip p seg = record strip { segments = λ q. if q == p then seg else strip.segments q }

-- The segment with its arrays and the defaults.
unfoldable pub prepared : Segment → List Chsv → List Crgb → List ℕ → Segment
prepared seg pixels rgb_pixels work_buf = record seg {
  pixels = pixels;
  rgb_pixels = rgb_pixels;
  work_buf = work_buf;
  mode = static;
  num_pixels = (seg.end_idx + 2 ^ 16 - seg.start_idx + 1) % 2 ^ 16;
  use_rgb_pixels = false;
  grad_iter = record seg.grad_iter { initialized = false };
}

-- The allocations, in order; the segment keeps those that were made before one that fails.
unfoldable pub allocate : Segment → Arrays → EspErr × Segment
unfolding prepared
allocate seg arrays = elim arrays.pixels [
  | none ↦ (no_mem, record seg { pixels = [] })
  | some px ↦ elim arrays.rgb_pixels [
    | none ↦ (no_mem, record seg { pixels = px; rgb_pixels = [] })
    | some rgb ↦ elim arrays.work_buf [
      | none ↦ (no_mem, record seg { pixels = px; rgb_pixels = rgb; work_buf = [] })
      | some work ↦ (esp_ok, prepared seg px rgb work)
    ]
  ]
]

-- The number that comes next in the list.
unfoldable pub next_number : Strip → ℕ
next_number strip = elim (tail strip.links strip.list) [
  | none ↦ 0
  | some last ↦ ((strip.segments last).number + 1) % 2 ^ 16
]

-- A segment that has its arrays is put last in the list; `created` is what the creation of its task
-- returns.
unfoldable pub attach : Strip → ℕ → Segment → (created : EspErr) → EspErr × Strip
unfolding next_number
attach strip p seg created =
    let numbered : Segment = record seg { number = next_number strip } in
    (
      created,
      record (set_segment strip p numbered) {
        links = append strip.links strip.list p;
        num_segments = (strip.num_segments + 1) % 2 ^ 16;
      },
    )

-- The call waits for the strip's flag, which another task sets.
unfoldable pub add_segment : Strip → ℕ → Arrays → (created : EspErr) → Outcome (EspErr × Strip)
unfolding allocate attach
add_segment strip p arrays created =
    let (ret, seg) = allocate (strip.segments p) arrays in
    if is_ok ret
    then (if strip.initialized then returns (attach strip p seg created) else unfinished)
    else returns (ret, set_segment strip p seg)

unfoldable pub show_all : (ℕ → Segment) → List ℕ → ℕ → Segment
show_all segments [] = segments
show_all segments (p ∷ ps) = show_all (λ q. if q == p then show (segments p) else segments q) ps

unfoldable pub show_strip : ℕ → Strip → Outcome Strip
unfolding show_all
show_strip fuel strip = elim (iter fuel strip.links strip.list) [
  | none ↦ unfinished
  | some ps ↦ returns (record strip { segments = show_all strip.segments ps })
]
