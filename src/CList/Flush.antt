-- ===== src/CList/Flush.antt =====
-- `CLIST_FLUSH` and the entries it goes over.
use esp32_components.Base.{
  ℕ, suc, zero, ◌<◌, ◌≡◌, ◌≢◌, inl, inr, sym, ap, subst, ◌∙◌, List, [], ◌∷◌, some, if◌then◌else◌,
  arith, length, ne→==,
}
use esp32_components.CList.{Heap, set_next, set_prev, init, flush_loop, flush}
use esp32_components.CList.Links.{Linked, NotIn, In, Nodup, Ring, first, first-NotIn, next-first}
use esp32_components.CList.Iter.{Single, init-Single}

-- The links of an entry are the same in two heaps.
abbrev pub Same : Heap → Heap → ℕ → Type 0
Same g h q = ((g q).next ≡ (h q).next) × ((g q).prev ≡ (h q).prev)

init-Same : (h : Heap) (x q : ℕ) → q ≢ x → Same (init h x) h q
unfolding init set_next set_prev
init-Same h x q n = (ground arith, ground arith)

-- Each entry of `xs` leads to the one after it, and the last to `p`.
abbrev Chain : Heap → List ℕ → ℕ → Type 0
Chain h [] p = Unit {0}
Chain h (x ∷ xs) p = ((h x).next ≡ first xs p) × Chain h xs p

Linked-Chain : (h : Heap) (a p : ℕ) (xs : List ℕ) → Linked h a xs p → Chain h xs p
Linked-Chain h a p [] l = _
Linked-Chain h a p (x ∷ xs) l = (next-first h x p xs l.2, Linked-Chain h x p xs l.2)

init-Chain : (h : Heap) (x p : ℕ) (xs : List ℕ) → Chain h xs p → NotIn x xs → Chain (init h x) xs p
init-Chain h x p [] c n = _
init-Chain h x p (y ∷ ys) c n =
    ((init-Same h x y (λ e. n.0 (sym e))).0 ∙ c.0, init-Chain h x p ys c.1 n.1)

-- In `g` the entries of `qs` point to themselves and all others are as in `h`.
abbrev pub Flushed : Heap → Heap → List ℕ → Type 0
Flushed h g qs = ((q : ℕ) → In q qs → Single g q) × ((q : ℕ) → NotIn q qs → Same g h q)

step-Single : (h g : Heap) (x : ℕ) → Same g (init h x) x → Single g x
step-Single h g x s = let t = init-Single h x in (s.0 ∙ t.0, s.1 ∙ t.1)

flush_loop-some :
    (xs : List ℕ) (h : Heap) (p fuel : ℕ)
    → Chain h xs p
    → Nodup (p ∷ xs)
    → length xs < fuel
    → (g : Heap) × (flush_loop fuel h p (first xs p) (h (first xs p)).next ≡ some g)
      × Flushed h g (p ∷ xs)
unfolding flush_loop first
flush_loop-some xs h p zero c d f = absurd (omega arith)
flush_loop-some [] h p (suc fuel) c d f = (
  init h p,
  ground arith,
  (
    λ q m. elim m [
      | inl e ↦ subst (λ r. Single (init h p) r) e (init-Single h p)
      | inr k ↦ elim k [ ]
    ],
    λ q n. init-Same h p q n.0,
  ),
)
flush_loop-some (x ∷ xs) h p (suc fuel) c d f =
    let n : x ≢ first xs p = first-NotIn x p xs (λ e. d.0.0 (sym e)) d.1.0 in
    let r =
      flush_loop-some xs (init h x) p fuel (init-Chain h x p xs c.1 d.1.0) (d.0.1, d.1.1)
        (omega arith) in
    let single = step-Single h r.0 x (r.2.1 x (λ e. d.0.0 (sym e), d.1.0)) in
    (
      r.0,
      ap
            (λ b.
              if b
              then some (init h x)
              else flush_loop fuel (init h x) p (h x).next (init h x (h x).next).next)
            (ne→== x p (λ e. d.0.0 (sym e)))
          ∙ ap (λ s. flush_loop fuel (init h x) p s (init h x s).next) c.0
          ∙ r.1,
      (
        λ q m. elim m [
          | inl e ↦ r.2.0 q (inl e)
          | inr k ↦ elim k [ inl e ↦ subst (λ y. Single r.0 y) e single | inr j ↦ r.2.0 q (inr j) ]
        ],
        λ q u.
            let s = r.2.1 q (u.0, u.1.1) in
            let s' = init-Same h x q u.1.0 in (s.0 ∙ s'.0, s.1 ∙ s'.1),
      ),
    )

-- Flushing a list ends, and makes the list and each of its entries point to itself; no other entry
-- of the heap is changed.
pub flush-Ring :
    (h : Heap) (p : ℕ) (xs : List ℕ) (fuel : ℕ)
    → Ring h p xs
    → length xs < fuel
    → (g : Heap) × (flush fuel h p ≡ some g) × Flushed h g (p ∷ xs)
unfolding flush
flush-Ring h p xs fuel r f =
    let s = flush_loop-some xs h p fuel (Linked-Chain h p p xs r.0) r.1 f in
    let e = next-first h p p xs r.0 in
    (s.0, ap (λ q. flush_loop fuel h p q (h q).next) e ∙ s.1, s.2)
