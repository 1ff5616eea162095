-- ===== src/CList/Insert.antt =====
-- Linking an entry into a chain.
use esp32_components.Base.{
  ℕ, ◌≡◌, ◌≢◌, subst, append-nil, append_assoc, refl, sym, ◌∙◌, List, [], ◌∷◌, ◌++◌, arith,
}
use esp32_components.CList.{Heap, set_next, set_prev, insert_before, insert_after, append, prepend}
use esp32_components.CList.Links.{
  Linked, NotIn, Nodup, Ring, last, first, NotIn-append, last-NotIn, first-NotIn, prev-last,
  next-first, Linked-append, AgreesBut, Linked-frame,
}

-- `g` is `h` with `new` between the neighbours `l` and `t`.
pub record Between (h g : Heap) (l t new : ℕ) : Type 0 where
  pub after_l : (g l).next ≡ new
  pub after_new : (g new).next ≡ t
  pub before_t : (g t).prev ≡ new
  pub before_new : (g new).prev ≡ l
  pub others : AgreesBut h g l new t new

pub insert_before-Between :
    (h : Heap) (l t new : ℕ)
    → (h t).prev ≡ l
    → new ≢ l
    → new ≢ t
    → Between h (insert_before h t new) l t new
unfolding insert_before set_next set_prev
insert_before-Between h l t new e n n' = record {
  after_l = ground arith;
  after_new = ground arith;
  before_t = ground arith;
  before_new = ground arith;
  others = (λ q u v. ground arith, λ q u v. ground arith);
}

pub insert_after-Between :
    (h : Heap) (l t new : ℕ)
    → (h l).next ≡ t
    → new ≢ l
    → new ≢ t
    → Between h (insert_after h l new) l t new
unfolding insert_after set_next set_prev
insert_after-Between h l t new e n n' = record {
  after_l = ground arith;
  after_new = ground arith;
  before_t = ground arith;
  before_new = ground arith;
  others = (λ q u v. ground arith, λ q u v. ground arith);
}

-- A chain with a new entry at a place in it.
pub Linked-insert :
    (h g : Heap) (a b new : ℕ) (ys zs : List ℕ)
    → Between h g (last a ys) (first zs b) new
    → Linked h a (ys ++ zs) b
    → NotIn new (a ∷ ys ++ zs)
    → new ≢ b
    → NotIn b (ys ++ zs)
    → Nodup (a ∷ ys ++ zs)
    → Linked g a (ys ++ new ∷ zs) b
unfolding last first
Linked-insert h g a b new [] [] i l n nb nd d = (i.after_l, i.before_new, (i.after_new, i.before_t))
Linked-insert h g a b new [] (z ∷ zs) i l n nb nd d = (
  i.after_l,
  i.before_new,
  (
    i.after_new,
    i.before_t,
    Linked-frame h g a new z new z b zs i.others d.0 n.1 (λ e. nd.0 (sym e), d.1.0) (nb, n.1.1) l.2,
  ),
)
Linked-insert h g a b new (y ∷ ys) zs i l n nb nd d = (
  i.others.0 a (last-NotIn a y ys d.0.0 (NotIn-append a ys zs d.0.1).0) (λ e. n.0 (sym e)) ∙ l.0,
  i.others.1 y (first-NotIn y b zs (λ e. nd.0 (sym e)) (NotIn-append y ys zs d.1.0).1)
        (λ e. n.1.0 (sym e))
      ∙ l.1,
  Linked-insert h g y b new ys zs i l.2 n.1 nb nd.1 d.1,
)

NotIn-insert :
    (x new : ℕ) (ys zs : List ℕ) → x ≢ new → NotIn x (ys ++ zs) → NotIn x (ys ++ new ∷ zs)
NotIn-insert x new [] zs n h = (n, h)
NotIn-insert x new (y ∷ ys) zs n h = (h.0, NotIn-insert x new ys zs n h.1)

Nodup-insert :
    (new : ℕ) (ys zs : List ℕ) → NotIn new (ys ++ zs) → Nodup (ys ++ zs) → Nodup (ys ++ new ∷ zs)
Nodup-insert new [] zs n d = (n, d)
Nodup-insert new (y ∷ ys) zs n d =
    (NotIn-insert y new ys zs (λ e. n.0 (sym e)) d.0, Nodup-insert new ys zs n.1 d.1)

pub Ring-Between :
    (h g : Heap) (p new : ℕ) (ys zs : List ℕ)
    → Between h g (last p ys) (first zs p) new
    → Ring h p (ys ++ zs)
    → NotIn new (p ∷ ys ++ zs)
    → Ring g p (ys ++ new ∷ zs)
Ring-Between h g p new ys zs i r n =
    (Linked-insert h g p p new ys zs i r.0 n n.0 r.1.0 r.1, Nodup-insert new (p ∷ ys) zs n r.1)

-- The neighbours of a place in a ring are not the new entry.
last-ne : (new p : ℕ) (ys zs : List ℕ) → NotIn new (p ∷ ys ++ zs) → new ≢ last p ys
last-ne new p ys zs n = last-NotIn new p ys n.0 (NotIn-append new ys zs n.1).0

first-ne : (new p : ℕ) (ys zs : List ℕ) → NotIn new (p ∷ ys ++ zs) → new ≢ first zs p
first-ne new p ys zs n = first-NotIn new p zs n.0 (NotIn-append new ys zs n.1).1

-- A new entry that is put before an entry of a list comes right before it.
pub insert_before-Ring :
    (h : Heap) (p new x : ℕ) (ys zs : List ℕ)
    → Ring h p (ys ++ x ∷ zs)
    → NotIn new (p ∷ ys ++ x ∷ zs)
    → Ring (insert_before h x new) p (ys ++ new ∷ x ∷ zs)
unfolding first
insert_before-Ring h p new x ys zs r n =
    Ring-Between h (insert_before h x new) p new ys (x ∷ zs)
      (insert_before-Between h (last p ys) x new
        (prev-last h p x ys (Linked-append h p p x ys zs r.0).0) (last-ne new p ys (x ∷ zs) n)
        (first-ne new p ys (x ∷ zs) n))
      r n

last-append : (a x : ℕ) (ys : List ℕ) → last a (ys ++ x ∷ []) ≡ x
unfolding last
last-append a x [] = refl
last-append a x (y ∷ ys) = last-append y x ys

-- A new entry that is put after an entry of a list comes right after it.
pub insert_after-Ring :
    (h : Heap) (p new x : ℕ) (ys zs : List ℕ)
    → Ring h p (ys ++ x ∷ zs)
    → NotIn new (p ∷ ys ++ x ∷ zs)
    → Ring (insert_after h x new) p (ys ++ x ∷ new ∷ zs)
insert_after-Ring h p new x ys zs r n =
    let e = append_assoc ys (x ∷ []) zs in
    let n' : NotIn new (p ∷ (ys ++ x ∷ []) ++ zs) = subst (λ l. NotIn new (p ∷ l)) (sym e) n in
    let i =
      insert_after-Between h x (first zs p) new
        (next-first h x p zs (Linked-append h p p x ys zs r.0).1)
        (λ q. last-ne new p (ys ++ x ∷ []) zs n' (q ∙ sym (last-append p x ys)))
        (first-ne new p (ys ++ x ∷ []) zs n') in
    subst (λ l. Ring (insert_after h x new) p l) (append_assoc ys (x ∷ []) (new ∷ zs))
      (Ring-Between h (insert_after h x new) p new (ys ++ x ∷ []) zs
        (subst (λ q. Between h (insert_after h x new) q (first zs p) new) (sym (last-append p x ys))
          i)
        (subst (λ l. Ring h p l) (sym e) r) n')

-- `CList_append` puts a new entry last.
pub append-Ring :
    (h : Heap) (p new : ℕ) (xs : List ℕ)
    → Ring h p xs
    → NotIn new (p ∷ xs)
    → Ring (append h p new) p (xs ++ new ∷ [])
unfolding first
append-Ring h p new xs r n =
    let e = sym (append-nil xs) in
    let n' : NotIn new (p ∷ xs ++ []) = subst (λ l. NotIn new (p ∷ l)) e n in
    Ring-Between h (append h p new) p new xs []
      (insert_before-Between h (last p xs) p new (prev-last h p p xs r.0) (last-ne new p xs [] n')
        n.0)
      (subst (λ l. Ring h p l) e r) n'

-- `CList_prepend` puts a new entry first.
pub prepend-Ring :
    (h : Heap) (p new : ℕ) (xs : List ℕ)
    → Ring h p xs
    → NotIn new (p ∷ xs)
    → Ring (prepend h p new) p (new ∷ xs)
unfolding last
prepend-Ring h p new xs r n =
    Ring-Between h (prepend h p new) p new [] xs
      (insert_after-Between h p (first xs p) new (next-first h p p xs r.0) n.0
        (first-ne new p [] xs n))
      r n
