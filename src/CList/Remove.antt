-- ===== src/CList/Remove.antt =====
-- Unlinking an entry of a chain.
use esp32_components.Base.{ℕ, ◌≡◌, sym, ◌∙◌, List, [], ◌∷◌, ◌++◌, arith}
use esp32_components.CList.{Heap, set_next, set_prev, remove}
use esp32_components.CList.Links.{
  Linked, NotIn, Nodup, Ring, last, first, NotIn-append, last-NotIn, first-NotIn, prev-last,
  next-first, Linked-append, AgreesBut, Linked-frame,
}

-- `g` is `h` with `l` and `t` made neighbours.
pub record Joined (h g : Heap) (l t : ℕ) : Type 0 where
  pub after_l : (g l).next ≡ t
  pub before_t : (g t).prev ≡ l
  pub others : AgreesBut h g l l t t

remove-Joined : (h : Heap) (l t x : ℕ) → (h x).prev ≡ l → (h x).next ≡ t → Joined h (remove h x) l t
unfolding remove set_next set_prev
remove-Joined h l t x e e' = record {
  after_l = ground arith;
  before_t = ground arith;
  others = (λ q u v. ground arith, λ q u v. ground arith);
}

Linked-remove :
    (h g : Heap) (a b x : ℕ) (ys zs : List ℕ)
    → Joined h g (last a ys) (first zs b)
    → Linked h a (ys ++ x ∷ zs) b
    → NotIn b (ys ++ x ∷ zs)
    → Nodup (a ∷ ys ++ x ∷ zs)
    → Linked g a (ys ++ zs) b
unfolding last first
Linked-remove h g a b x [] [] i l nd d = (i.after_l, i.before_t)
Linked-remove h g a b x [] (z ∷ zs) i l nd d = (
  i.after_l,
  i.before_t,
  Linked-frame h g a a z z z b zs i.others d.0.1 d.0.1 (λ e. nd.1.0 (sym e), d.1.1.0)
      (λ e. nd.1.0 (sym e), d.1.1.0) l.2.2,
)
Linked-remove h g a b x (y ∷ ys) zs i l nd d =
    let a_ne = last-NotIn a y ys d.0.0 (NotIn-append a ys (x ∷ zs) d.0.1).0 in
    let y_ne = first-NotIn y b zs (λ e. nd.0 (sym e)) (NotIn-append y ys (x ∷ zs) d.1.0).1.1 in
    (
      i.others.0 a a_ne a_ne ∙ l.0,
      i.others.1 y y_ne y_ne ∙ l.1,
      Linked-remove h g y b x ys zs i l.2 nd.1 d.1,
    )

NotIn-delete : (q x : ℕ) (ys zs : List ℕ) → NotIn q (ys ++ x ∷ zs) → NotIn q (ys ++ zs)
NotIn-delete q x [] zs n = n.1
NotIn-delete q x (y ∷ ys) zs n = (n.0, NotIn-delete q x ys zs n.1)

Nodup-delete : (x : ℕ) (ys zs : List ℕ) → Nodup (ys ++ x ∷ zs) → Nodup (ys ++ zs)
Nodup-delete x [] zs d = d.1
Nodup-delete x (y ∷ ys) zs d = (NotIn-delete y x ys zs d.0, Nodup-delete x ys zs d.1)

-- `CList_remove` takes an entry out of its list and leaves the others in order.
pub remove-Ring :
    (h : Heap) (p x : ℕ) (ys zs : List ℕ) → Ring h p (ys ++ x ∷ zs) → Ring (remove h x) p (ys ++ zs)
unfolding first
remove-Ring h p x ys zs r =
    let l = Linked-append h p p x ys zs r.0 in
    (
      Linked-remove h (remove h x) p p x ys zs
          (remove-Joined h (last p ys) (first zs p) x (prev-last h p x ys l.0)
            (next-first h x p zs l.1))
          r.0 r.1.0 r.1,
      Nodup-delete x (p ∷ ys) zs r.1,
    )
