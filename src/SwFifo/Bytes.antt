-- ===== src/SwFifo/Bytes.antt =====
-- Byte offsets of the fifo's indices, and a block of memory after the copies of a write.
use esp32_components.Base.{
  ℕ, ◌+◌, ◌-◌, ◌*◌, ◌≤◌, ◌≡◌, ◌≢◌, sym, ap, ap₂, ◌∙◌, List, ◌++◌, arith, length, splice, slice,
  length-splice, slice-append, slice-splice_before, slice-splice_after, slice-splice_self,
  append_assoc,
}

pub mul_add : (a b s : ℕ) → (a + b) * s ≡ a * s + b * s
mul_add a b s = omega arith

pub mul_sub : (a b s : ℕ) → b ≤ a → (a - b) * s + b * s ≡ a * s
mul_sub a b s h = sym (mul_add (a - b) b s) ∙ ap (λ k. k * s) (omega arith)

-- Multiplying by the item size never makes a count smaller, unless items are empty.
pub le-mul : (a s : ℕ) → s ≢ 0 → a ≤ a * s
le-mul a s h = grind arith

module _ (m : List ℕ) where
  -- Bytes written at the end of a region extend it.
  pub slice_extend :
      (r w e : ℕ) (d : List ℕ)
      → r ≤ w
      → e ≡ w + length d
      → e ≤ length m
      → slice (splice m w d) r e ≡ slice m r w ++ d
  slice_extend r w e d h q l =
      sym (slice-append (splice m w d) r w e h (omega arith))
      ∙ ap₂ ◌++◌ (slice-splice_before m r w w d (omega arith)) (slice-splice_self m w e d q l)

  -- The same for a region in two pieces, from `r` to `c` and from the start to `w`.
  pub split_extend :
      (r w c e : ℕ) (d : List ℕ)
      → e ≡ w + length d
      → e ≤ r
      → e ≤ length m
      → slice (splice m w d) r c ++ slice (splice m w d) 0 e ≡ (slice m r c ++ slice m 0 w) ++ d
  split_extend r w c e d q h l =
      ap₂ ◌++◌ (slice-splice_after m r c w d (omega arith)) (slice_extend 0 w e d (omega arith) q l)
      ∙ sym (append_assoc (slice m r c) (slice m 0 w) d)

  -- Bytes written up to the end of the block and on from its start.
  pub wrap_extend :
      (r w c e : ℕ) (d d' : List ℕ)
      → r ≤ w
      → c ≡ w + length d
      → c ≤ length m
      → e ≡ length d'
      → e ≤ r
      → slice (splice (splice m w d) 0 d') r c ++ slice (splice (splice m w d) 0 d') 0 e
        ≡ slice m r w ++ (d ++ d')
  wrap_extend r w c e d d' h q l q' h' =
      ap₂ ◌++◌
        (slice-splice_after (splice m w d) r c 0 d' (omega arith) ∙ slice_extend r w c d h q l)
        (slice-splice_self (splice m w d) 0 e d' (omega arith) (omega (arith, length-splice m w d)))
      ∙ append_assoc (slice m r w) d d'
