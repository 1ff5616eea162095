-- ===== src/Base/Slices.antt =====
-- A block of memory as a list of bytes: `splice` is the destination side of a `memcpy`, `slice` its
-- source side.
use Prim.Native.Nat.{ℕ, zero, suc, ◌+◌, ◌-◌, ◌≤◌}
use mathlib.Core.Path.{◌≡◌, refl, sym, ap, ◌∙◌}
use mathlib.Core.List.{List, [], ◌∷◌, ◌++◌, append_assoc}
use native.Mathlib.Omega.{arith}
use esp32_components.Base.Lists.{length, take, drop, length-take, length-drop}

module _ {ℓ} {A : Type ℓ} where
  -- `memcpy(m + i, s, length s)`; what would fall outside the block is dropped.
  abbrev pub splice : List A → ℕ → List A → List A
  splice [] i s = []
  splice (x ∷ m) zero [] = x ∷ m
  splice (x ∷ m) zero (y ∷ s) = y ∷ splice m zero s
  splice (x ∷ m) (suc i) s = x ∷ splice m i s

  -- The elements at the positions from `i` up to `j`.
  abbrev pub slice : List A → ℕ → ℕ → List A
  slice m zero j = take j m
  slice [] (suc i) j = []
  slice (x ∷ m) (suc i) zero = []
  slice (x ∷ m) (suc i) (suc j) = slice m i j

drop_nil {ℓ} : (A : Type ℓ) (i : ℕ) → drop {A = A} i [] ≡ []
drop_nil A zero = refl
drop_nil A (suc i) = refl

module _ {ℓ} {A : Type ℓ} where
  pub length-splice : (m : List A) (i : ℕ) (s : List A) → length (splice m i s) ≡ length m
  length-splice [] i s = refl
  length-splice (x ∷ m) zero [] = refl
  length-splice (x ∷ m) zero (y ∷ s) = ap suc (length-splice m zero s)
  length-splice (x ∷ m) (suc i) s = ap suc (length-splice m i s)

  pub slice-append :
      (m : List A) (i j k : ℕ) → i ≤ j → j ≤ k → slice m i j ++ slice m j k ≡ slice m i k
  slice-append [] zero zero k p q = refl
  slice-append [] zero (suc j) zero p q = refl
  slice-append [] zero (suc j) (suc k) p q = refl
  slice-append [] (suc i) zero k p q = absurd (omega arith)
  slice-append [] (suc i) (suc j) k p q = refl
  slice-append (x ∷ m) zero zero k p q = refl
  slice-append (x ∷ m) zero (suc j) zero p q = absurd (omega arith)
  slice-append (x ∷ m) zero (suc j) (suc k) p q =
      ap (λ l. x ∷ l) (slice-append m zero j k (omega arith) (omega arith))
  slice-append (x ∷ m) (suc i) zero k p q = absurd (omega arith)
  slice-append (x ∷ m) (suc i) (suc j) zero p q = absurd (omega arith)
  slice-append (x ∷ m) (suc i) (suc j) (suc k) p q =
      slice-append m i j k (omega arith) (omega arith)

  pub slice-splice_before :
      (m : List A) (i j o : ℕ) (s : List A) → j ≤ o → slice (splice m o s) i j ≡ slice m i j
  slice-splice_before [] i j o s h = refl
  slice-splice_before (x ∷ m) zero zero o s h = refl
  slice-splice_before (x ∷ m) zero (suc j) zero s h = absurd (omega arith)
  slice-splice_before (x ∷ m) zero (suc j) (suc o) s h =
      ap (λ l. x ∷ l) (slice-splice_before m zero j o s (omega arith))
  slice-splice_before (x ∷ m) (suc i) zero zero [] h = refl
  slice-splice_before (x ∷ m) (suc i) zero zero (y ∷ s) h = refl
  slice-splice_before (x ∷ m) (suc i) zero (suc o) s h = refl
  slice-splice_before (x ∷ m) (suc i) (suc j) zero s h = absurd (omega arith)
  slice-splice_before (x ∷ m) (suc i) (suc j) (suc o) s h =
      slice-splice_before m i j o s (omega arith)

  pub slice-splice_after :
      (m : List A) (i j o : ℕ) (s : List A)
      → o + length s ≤ i
      → slice (splice m o s) i j ≡ slice m i j
  slice-splice_after [] i j o s h = refl
  slice-splice_after (x ∷ m) zero j zero [] h = refl
  slice-splice_after (x ∷ m) zero j zero (y ∷ s) h = absurd (omega arith)
  slice-splice_after (x ∷ m) zero j (suc o) s h = absurd (omega arith)
  slice-splice_after (x ∷ m) (suc i) j zero [] h = refl
  slice-splice_after (x ∷ m) (suc i) zero zero (y ∷ s) h = refl
  slice-splice_after (x ∷ m) (suc i) (suc j) zero (y ∷ s) h =
      slice-splice_after m i j zero s (omega arith)
  slice-splice_after (x ∷ m) (suc i) zero (suc o) s h = refl
  slice-splice_after (x ∷ m) (suc i) (suc j) (suc o) s h =
      slice-splice_after m i j o s (omega arith)

  pub slice-splice_self :
      (m : List A) (o k : ℕ) (s : List A)
      → k ≡ o + length s
      → k ≤ length m
      → slice (splice m o s) o k ≡ s
  slice-splice_self [] zero zero [] e h = refl
  slice-splice_self [] zero zero (y ∷ s) e h = absurd (omega arith)
  slice-splice_self [] zero (suc k) s e h = absurd (omega arith)
  slice-splice_self [] (suc o) k s e h = absurd (omega arith)
  slice-splice_self (x ∷ m) zero zero [] e h = refl
  slice-splice_self (x ∷ m) zero zero (y ∷ s) e h = absurd (omega arith)
  slice-splice_self (x ∷ m) zero (suc k) [] e h = absurd (omega arith)
  slice-splice_self (x ∷ m) zero (suc k) (y ∷ s) e h =
      ap (λ l. y ∷ l) (slice-splice_self m zero k s (omega arith) (omega arith))
  slice-splice_self (x ∷ m) (suc o) zero s e h = absurd (omega arith)
  slice-splice_self (x ∷ m) (suc o) (suc k) s e h =
      slice-splice_self m o k s (omega arith) (omega arith)

  pub slice_self : (m : List A) (i : ℕ) → slice m i i ≡ []
  slice_self m zero = refl
  slice_self [] (suc i) = refl
  slice_self (x ∷ m) (suc i) = slice_self m i

  pub length-slice : (m : List A) (i j : ℕ) → j ≤ length m → length (slice m i j) ≡ j - i
  length-slice m zero j h = omega (arith, length-take j m)
  length-slice [] (suc i) j h = omega arith
  length-slice (x ∷ m) (suc i) zero h = omega arith
  length-slice (x ∷ m) (suc i) (suc j) h = omega (arith, length-slice m i j (omega arith))

  pub splice_nil : (m : List A) (i : ℕ) → splice m i [] ≡ m
  splice_nil [] i = refl
  splice_nil (x ∷ m) zero = refl
  splice_nil (x ∷ m) (suc i) = ap (λ l. x ∷ l) (splice_nil m i)

  pub splice_start : (m s : List A) → length s ≤ length m → splice m zero s ≡ s ++ drop (length s) m
  splice_start [] [] h = refl
  splice_start [] (y ∷ s) h = absurd (omega arith)
  splice_start (x ∷ m) [] h = refl
  splice_start (x ∷ m) (y ∷ s) h = ap (λ l. y ∷ l) (splice_start m s (omega arith))

  pub splice_behind : (a m s : List A) → splice (a ++ m) (length a) s ≡ a ++ splice m zero s
  splice_behind [] m s = refl
  splice_behind (x ∷ a) m s = ap (λ l. x ∷ l) (splice_behind a m s)

  pub drop-drop : (i j : ℕ) (m : List A) → drop i (drop j m) ≡ drop (j + i) m
  drop-drop i zero m = ap (λ k. drop k m) (omega arith)
  drop-drop i (suc j) [] = drop_nil A i ∙ sym (drop_nil A (suc j + i))
  drop-drop i (suc j) (x ∷ m) =
      let e : suc (j + i) ≡ suc j + i = omega arith in drop-drop i j m ∙ ap (λ k. drop k (x ∷ m)) e

  -- Two copies, the second behind the first, fill the front of the destination.
  pub splice-splice :
      (m a b : List A)
      → length a + length b ≤ length m
      → splice (splice m zero a) (length a) b ≡ (a ++ b) ++ drop (length a + length b) m
  splice-splice m a b h =
      ap (λ l. splice l (length a) b) (splice_start m a (omega arith))
      ∙ splice_behind a (drop (length a) m) b
      ∙ ap (λ l. a ++ l)
          (splice_start (drop (length a) m) b (omega (arith, length-drop (length a) m))
            ∙ ap (λ l. b ++ l) (drop-drop (length b) (length a) m))
      ∙ sym (append_assoc a b (drop (length a + length b) m))
