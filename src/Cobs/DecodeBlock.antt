-- ===== src/Cobs/DecodeBlock.antt =====
-- One block of `Cobs_decode`: the copy of its bytes, and what the loop does next.
use esp32_components.Base.{
  ℕ, suc, ◌+◌, ◌-◌, ◌≤◌, ◌≡◌, refl, sym, ap, ◌∙◌, List, [], ◌∷◌, ◌++◌, append_assoc, append-nil,
  ◌==◌, arith, length, length-append, drop, Outcome, returns, ◌>>=◌, fail_if, if◌then◌else◌, ne→==,
  store_middle, load_middle,
}
use esp32_components.Cobs.{Decoded, emit, copy_block, decode_loop}

-- The decoder after it has written `done` at the front of a buffer that ends in `free`.
abbrev pub written : List ℕ → List ℕ → Decoded
written done free = record { num_out = length done; out = done ++ free }

pub emit_lem :
    (done : List ℕ) (f b : ℕ) (free : List ℕ)
    → emit (written done (f ∷ free)) b ≡ returns (written (done ++ b ∷ []) free)
unfolding emit
emit_lem done f b free = ground (
  arith,
  store_middle done f b free {i = length done},
  append_assoc done (b ∷ []) free,
  length-append done (b ∷ []),
)

-- The loop over one block copies its bytes.
pub copy_lem :
    (max : ℕ) (pre cur post done free : List ℕ) (i : ℕ)
    → i ≡ length pre
    → length cur ≤ length free
    → length done + length cur ≤ max
    → copy_block (pre ++ (cur ++ post)) max (length cur) i (written done free)
      ≡ returns (written (done ++ cur) (drop (length cur) free))
unfolding copy_block
copy_lem max pre [] post done free i e r m = rw (append-nil done)
copy_lem max pre (b ∷ cur) post done [] i e r m = absurd (omega arith)
copy_lem max pre (b ∷ cur) post done (f ∷ free) i e r m =
    let next =
      copy_lem max (pre ++ b ∷ []) cur post (done ++ b ∷ []) free (i + 1)
        (omega (arith, length-append pre (b ∷ []))) (omega arith)
        (omega (arith, length-append done (b ∷ []))) in
    rw
      (
        load_middle pre b (cur ++ post) e,
        ne→== (length done) max (omega arith),
        emit_lem done f b free,
      )
      (rw (append_assoc pre (b ∷ []) (cur ++ post), append_assoc done (b ∷ []) cur) at next)

-- What follows the copy of a block in one round of the loop.
abbrev pub continue : ℕ → List ℕ → ℕ → ℕ → ℕ → ℕ → Decoded → Outcome Decoded
continue fuel enc len max p_code count s =
    if p_code == len
    then returns s
    else if count == 255
    then decode_loop fuel enc len max p_code s
    else fail_if (s.num_out == max) (emit s 0 >>= (λ t. decode_loop fuel enc len max p_code t))

pub round_lem :
    (fuel : ℕ) (pre cur post done free : List ℕ) (len max : ℕ)
    → length cur ≤ length free
    → length done + length cur ≤ max
    → decode_loop
        (suc fuel)
        (pre ++ (length cur + 1) ∷ (cur ++ post))
        len
        max
        (length pre)
        (written done free)
      ≡ continue fuel
          (pre ++ (length cur + 1) ∷ (cur ++ post))
          len
          max
          (length pre + (length cur + 1))
          (length cur + 1)
          (written (done ++ cur) (drop (length cur) free))
unfolding decode_loop
round_lem fuel pre cur post done free len max r m =
    let code = length cur + 1 in
    let left : code - 1 ≡ length cur = omega arith in
    let copied =
      copy_lem max (pre ++ code ∷ []) cur post done free (length pre + 1)
        (omega (arith, length-append pre (code ∷ []))) r m in
    rw (
      load_middle pre code (cur ++ post) refl,
      left,
      rw (append_assoc pre (code ∷ []) (cur ++ post)) at copied,
      ne→== code 0 (omega arith),
    )

-- The bytes `l` stand in the buffer `enc` from the index `i` on.
pub record At (enc : List ℕ) (i : ℕ) (l : List ℕ) : Type 0 where
  pub pre : List ℕ
  pub post : List ℕ
  pub whole : enc ≡ pre ++ (l ++ post)
  pub start : i ≡ length pre

pub At-skip :
    {enc : List ℕ} {i j : ℕ} (a l : List ℕ) → j ≡ i + length a → At enc i (a ++ l) → At enc j l
At-skip a l e h = record {
  pre = h.pre ++ a;
  post = h.post;
  whole =
      h.whole
      ∙ ap (λ t. h.pre ++ t) (append_assoc a l h.post)
      ∙ sym (append_assoc h.pre a (l ++ h.post));
  start = omega (arith, h.start, e, length-append h.pre a);
}

pub At-front : {enc : List ℕ} {i : ℕ} (a l : List ℕ) → At enc i (a ++ l) → At enc i a
At-front a l h = record {
  pre = h.pre;
  post = l ++ h.post;
  whole = h.whole ∙ ap (λ t. h.pre ++ t) (append_assoc a l h.post);
  start = h.start;
}

pub round-At :
    (fuel : ℕ) (enc : List ℕ) (i : ℕ) (cur done free : List ℕ) (len max : ℕ)
    → At enc i ((length cur + 1) ∷ cur)
    → length cur ≤ length free
    → length done + length cur ≤ max
    → decode_loop (suc fuel) enc len max i (written done free)
      ≡ continue fuel enc len max
          (i + (length cur + 1))
          (length cur + 1)
          (written (done ++ cur) (drop (length cur) free))
round-At fuel enc i cur done free len max h r m =
    rw (h.whole, h.start) (round_lem fuel h.pre cur h.post done free len max r m)
