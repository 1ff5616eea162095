-- ===== src/CList/Drain.antt =====
-- `CLIST_ITER_SAFE` around a body that unlinks the entry it is given.
use esp32_components.Base.{
  ℕ, zero, suc, ◌<◌, ◌≡◌, sym, ap, ◌∙◌, List, [], ◌∷◌, some, if◌then◌else◌, arith, length, ne→==,
}
use esp32_components.CList.{Heap, remove, iter_safe_loop, iter_safe}
use esp32_components.CList.Links.{Ring, first, next-first}
use esp32_components.CList.Remove.{remove-Ring}

iter_safe_loop-Ring :
    (xs : List ℕ) (h : Heap) (p fuel : ℕ)
    → Ring h p xs
    → length xs < fuel
    → (g : Heap) × (iter_safe_loop fuel remove h p (first xs p) (h (first xs p)).next ≡ some g)
      × Ring g p []
unfolding iter_safe_loop first
iter_safe_loop-Ring xs h p zero r f = absurd (omega arith)
iter_safe_loop-Ring [] h p (suc fuel) r f = (h, ground arith, r)
iter_safe_loop-Ring (x ∷ xs) h p (suc fuel) r f =
    let s = iter_safe_loop-Ring xs (remove h x) p fuel (remove-Ring h p x [] xs r) (omega arith) in
    let again = λ (q : ℕ). iter_safe_loop fuel remove (remove h x) p q (remove h x q).next in
    (
      s.0,
      ap (λ b. if b then some h else again (h x).next) (ne→== x p (λ e. r.1.0.0 (sym e)))
          ∙ ap again (next-first h x p xs r.0.2)
          ∙ s.1,
      s.2,
    )

-- The safe loop goes over all entries although each is unlinked on the way, ends, and leaves an empty
-- list.
pub iter_safe-Ring :
    (h : Heap) (p : ℕ) (xs : List ℕ) (fuel : ℕ)
    → Ring h p xs
    → length xs < fuel
    → (g : Heap) × (iter_safe fuel remove h p ≡ some g) × Ring g p []
unfolding iter_safe
iter_safe-Ring h p xs fuel r f =
    let s = iter_safe_loop-Ring xs h p fuel r f in
    (
      s.0,
      ap (λ q. iter_safe_loop fuel remove h p q (h q).next) (next-first h p p xs r.0) ∙ s.1,
      s.2,
    )
