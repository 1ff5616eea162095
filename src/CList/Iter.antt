-- ===== src/CList/Iter.antt =====
-- What the loops over a list visit and leave behind.
use mathlib.Core.Option.{map}
use esp32_components.Base.{
  ℕ, suc, zero, ◌<◌, ◌≡◌, sym, ap, subst, ◌∙◌, List, [], ◌∷◌, Option, none, some, if◌then◌else◌,
  arith, length, ne→==,
}
use esp32_components.CList.{Heap, set_next, set_prev, init, is_empty, head, tail, iter_loop, iter}
use esp32_components.CList.Links.{Linked, NotIn, Ring, last, first, prev-last}

iter_loop-some :
    (h : Heap) (p a : ℕ) (xs : List ℕ) (fuel : ℕ)
    → Linked h a xs p
    → NotIn p xs
    → length xs < fuel
    → iter_loop fuel h p (h a).next ≡ some xs
unfolding iter_loop
iter_loop-some h p a [] (suc fuel) l n f = ground arith
iter_loop-some h p a (x ∷ xs) (suc fuel) l n f =
    subst (λ q. iter_loop (suc fuel) h p q ≡ some (x ∷ xs)) (sym l.0)
      (ap (λ b. if b then some [] else map (λ r. x ∷ r) (iter_loop fuel h p (h x).next))
          (ne→== x p (λ e. n.0 (sym e)))
        ∙ ap (λ r. map (λ r. x ∷ r) r) (iter_loop-some h p x xs fuel l.2 n.1 (omega arith)))
iter_loop-some h p a xs zero l n f = absurd (omega arith)

-- The loop over a list visits its entries in order, each once, and ends.
pub iter-some :
    (h : Heap) (p : ℕ) (xs : List ℕ) (fuel : ℕ)
    → Ring h p xs
    → length xs < fuel
    → iter fuel h p ≡ some xs
unfolding iter
iter-some h p xs fuel r f = iter_loop-some h p p xs fuel r.0 r.1.0 f

-- An end of a list, where there is one.
unfoldable pub ends : List ℕ → ℕ → Option ℕ
ends [] q = none
ends (x ∷ xs) q = some q

-- The first entry of a list and the last; `none` for a list with no entry.
pub head-tail :
    (h : Heap) (p : ℕ) (xs : List ℕ)
    → Ring h p xs
    → (head h p ≡ ends xs (first xs p)) × (tail h p ≡ ends xs (last p xs))
unfolding head tail is_empty ends first last
head-tail h p [] r = (ground arith, ground arith)
head-tail h p (x ∷ xs) r = let l = prev-last h p p (x ∷ xs) r.0 in (ground arith, ground arith)

-- An entry that points to itself.
abbrev pub Single : Heap → ℕ → Type 0
Single h q = ((h q).next ≡ q) × ((h q).prev ≡ q)

pub init-Single : (h : Heap) (q : ℕ) → Single (init h q) q
unfolding init set_next set_prev
init-Single h q = (ground arith, ground arith)

-- An initialised list has no entry.
pub init-Ring : (h : Heap) (q : ℕ) → Ring (init h q) q []
init-Ring h q = (init-Single h q, (_, _))
