-- ===== src/CobsFrame/Search.antt =====
-- The two searches of the deframer, for the start of a frame and for its end.
use esp32_components.Base.{
  ℕ, zero, suc, ◌+◌, ◌<◌, ◌≤◌, ◌≡◌, ◌≢◌, ◌^◌, ◌%◌, refl, sym, ap, ◌∙◌, subst, List, [], ◌∷◌, ◌++◌,
  append_assoc, append-nil, returns, arith, length, length-append, set, load_middle, ne→==, true,
}
use esp32_components.SwFifo.{SwFifo}
use esp32_components.CobsFrame.{Deframer, find_eof, decoding, read_byte, sof_loop, eof_loop}
use esp32_components.CobsFrame.Bytes.{Holds, read_byte-Holds}

-- No byte of the list is the framing byte.
abbrev pub Nonzero : List ℕ → Type 0
Nonzero [] = Unit {0}
Nonzero (b ∷ bs) = (b ≢ 0) × Nonzero bs

-- Bytes before a start of frame are thrown away, and so is the framing byte itself.
pub sof_loop-some :
    {cap : ℕ} (junk q : List ℕ) (left : ℕ) (d : Deframer)
    → Holds cap (junk ++ 0 ∷ q) d.fifo
    → Nonzero junk
    → length junk < left
    → (g : SwFifo) × (sof_loop left d ≡ returns (record d { state = find_eof; fifo = g }))
      × Holds cap q g
unfolding sof_loop
sof_loop-some junk q zero d h n l = absurd (omega arith)
sof_loop-some [] q (suc left) d h n l =
    let (g, e, k) = read_byte-Holds (0 ∷ []) 0 h (omega arith) in
    (g, rw (e, load_middle [] 0 [] refl), k)
sof_loop-some (b ∷ junk) q (suc left) d h n l =
    let (g, e, k) = read_byte-Holds (0 ∷ []) 0 h (omega arith) in
    let (g', e', k') = sof_loop-some junk q left (record d { fifo = g }) k n.1 (omega arith) in
    (g', rw (e, load_middle [] b [] refl, ne→== b 0 n.0) e', k')

-- The deframer has `seen` in its working buffer and `q` in its fifo.
pub record Working (cap : ℕ) (q seen : List ℕ) (d : Deframer) : Type 0 where
  pub holds : Holds cap q d.fifo
  pub free : List ℕ
  pub work_is : d.work ≡ seen ++ free
  pub counted : d.count ≡ length seen
  pub sized : d.work_size ≡ length d.work
  pub small : d.work_size < 2 ^ 16

set-behind :
    (seen free : List ℕ) (b : ℕ)
    → 0 < length free
    → (free' : List ℕ) × (set (seen ++ free) (length seen) b ≡ seen ++ b ∷ free')
      × (length (seen ++ b ∷ free') ≡ length (seen ++ free))
set-behind seen [] b h = absurd (omega arith)
set-behind [] (x ∷ free) b h = (free, refl, refl)
set-behind (y ∷ seen) (x ∷ free) b h =
    let (free', e, l) = set-behind seen (x ∷ free) b h in (free', ap (λ l. y ∷ l) e, ap suc l)

-- A byte goes from the fifo to the place behind those seen.
stored :
    {cap b : ℕ} {q seen : List ℕ} {d : Deframer}
    → Working cap (b ∷ q) seen d
    → length seen < d.work_size
    → (g : SwFifo) × (free : List ℕ) × (read_byte d.fifo d.work d.count
        ≡ returns (seen ++ b ∷ free, g))
      × Holds cap q g
      × (length (seen ++ b ∷ free) ≡ d.work_size)
stored {b = b} {seen = seen} {d = d} w l =
    let (g, e, k) = read_byte-Holds d.work d.count w.holds (omega (arith, w.counted, w.sized)) in
    let (free, s, t) =
      set-behind seen w.free b
        (omega (arith, w.sized, ap length w.work_is, length-append seen w.free)) in
    (
      g,
      free,
      e
          ∙ ap (λ l. returns (l, g))
              (ap (λ l. set l d.count b) w.work_is
                ∙ ap (λ i. set (seen ++ w.free) i b) w.counted
                ∙ s),
      k,
      t ∙ sym (ap length w.work_is) ∙ sym w.sized,
    )

-- A byte that is not the framing byte is kept.
eof-byte :
    {cap b : ℕ} {q seen : List ℕ} {d : Deframer}
    → Working cap (b ∷ q) seen d
    → b ≢ 0
    → length seen < d.work_size
    → (d' : Deframer) × ((k : ℕ) → eof_loop (suc k) d ≡ eof_loop k d')
      × Working cap q (seen ++ b ∷ []) d'
      × (d'.state ≡ d.state)
      × (d'.work_size ≡ d.work_size)
unfolding eof_loop
eof-byte {b = b} {seen = seen} {d = d} w n l =
    let (g, free, e, h, s) = stored w l in
    (
      record d { work = seen ++ b ∷ free; fifo = g; count = (d.count + 1) % 2 ^ 16 },
      λ k. rw (
        ne→== d.count d.work_size (omega (arith, w.counted)),
        e,
        load_middle seen b free w.counted,
        ne→== b 0 n,
      ),
      record {
        holds = h;
        free = free;
        work_is = sym (append_assoc seen (b ∷ []) free);
        counted = omega (arith, w.counted, w.small, length-append seen (b ∷ []));
        sized = sym s;
        small = w.small;
      },
      refl,
      refl,
    )

-- The framing byte ends the search; what was seen before it stands in the working buffer.
pub eof-end :
    {cap : ℕ} {q seen : List ℕ} {d : Deframer}
    → Working cap (0 ∷ q) seen d
    → length seen < d.work_size
    → (d' : Deframer) × ((k : ℕ) → eof_loop (suc k) d ≡ returns (true, d'))
      × Working cap q seen d'
      × (d'.state ≡ decoding)
unfolding eof_loop
eof-end {seen = seen} {d = d} w l =
    let (g, free, e, h, s) = stored w l in
    (
      record d { work = seen ++ 0 ∷ free; fifo = g; state = decoding },
      λ k. rw (
        ne→== d.count d.work_size (omega (arith, w.counted)),
        e,
        load_middle seen 0 free w.counted,
      ),
      record {
        holds = h;
        free = 0 ∷ free;
        work_is = refl;
        counted = w.counted;
        sized = sym s;
        small = w.small;
      },
      refl,
    )

-- All bytes up to the framing byte are kept.
pub eof_loop-advance :
    {cap : ℕ} (enc : List ℕ) {q seen : List ℕ} {d : Deframer}
    → Working cap (enc ++ q) seen d
    → Nonzero enc
    → length seen + length enc ≤ d.work_size
    → (d' : Deframer) × ((k n : ℕ) → n ≡ length enc + k → eof_loop n d ≡ eof_loop k d')
      × Working cap q (seen ++ enc) d'
      × (d'.state ≡ d.state)
      × (d'.work_size ≡ d.work_size)
eof_loop-advance {cap} [] {q} {seen} {d} w n l = (
  d,
  λ k n e. ap (λ i. eof_loop i d) (omega arith),
  subst (λ s. Working cap q s d) (sym (append-nil seen)) w,
  refl,
  refl,
)
eof_loop-advance {cap} (b ∷ enc) {q} {seen} {d} w n l =
    let (d', e, w', s, z) = eof-byte w n.0 (omega arith) in
    let (d'', e', w'', s', z') =
      eof_loop-advance enc w' n.1 (omega (arith, length-append seen (b ∷ []))) in
    (
      d'',
      λ k n q.
          ap (λ i. eof_loop i d) (omega arith) ∙ e (length enc + k) ∙ e' k (length enc + k) refl,
      subst (λ s. Working cap q s d'') (append_assoc seen (b ∷ []) enc) w'',
      s' ∙ s,
      z' ∙ z,
    )
