-- ===== src/CList/Links.antt =====
-- Chains of entries that are linked both ways, and rings without repetition.
use esp32_components.Base.{ℕ, ◌≡◌, ◌≢◌, ◌⊎◌, sym, ◌∙◌, List, [], ◌∷◌, ◌++◌}
use esp32_components.CList.{Heap}

-- The chain that leads from `a` over `xs` to `b`.
abbrev pub Linked : Heap → ℕ → List ℕ → ℕ → Type 0
Linked h a [] b = ((h a).next ≡ b) × ((h b).prev ≡ a)
Linked h a (x ∷ xs) b = ((h a).next ≡ x) × ((h x).prev ≡ a) × Linked h x xs b

abbrev pub NotIn : ℕ → List ℕ → Type 0
NotIn x [] = Unit {0}
NotIn x (y ∷ ys) = (x ≢ y) × NotIn x ys

abbrev pub In : ℕ → List ℕ → Type 0
In x [] = ⊥
In x (y ∷ ys) = (y ≡ x) ⊎ In x ys

abbrev pub Nodup : List ℕ → Type 0
Nodup [] = Unit {0}
Nodup (x ∷ xs) = NotIn x xs × Nodup xs

-- A list with the entries `xs`, none of them twice and none of them the list itself.
abbrev pub Ring : Heap → ℕ → List ℕ → Type 0
Ring h p xs = Linked h p xs p × Nodup (p ∷ xs)

-- The last entry of a chain, and the first.
unfoldable pub last : ℕ → List ℕ → ℕ
last a [] = a
last a (x ∷ xs) = last x xs

unfoldable pub first : List ℕ → ℕ → ℕ
first [] b = b
first (x ∷ xs) b = x

pub NotIn-append : (x : ℕ) (ys zs : List ℕ) → NotIn x (ys ++ zs) → NotIn x ys × NotIn x zs
NotIn-append x [] zs h = (_, h)
NotIn-append x (y ∷ ys) zs h = let r = NotIn-append x ys zs h.1 in ((h.0, r.0), r.1)

pub append-NotIn : (x : ℕ) (ys zs : List ℕ) → NotIn x ys → NotIn x zs → NotIn x (ys ++ zs)
append-NotIn x [] zs h k = k
append-NotIn x (y ∷ ys) zs h k = (h.0, append-NotIn x ys zs h.1 k)

-- An entry that is neither the start nor in the chain is not its last.
pub last-NotIn : (x a : ℕ) (xs : List ℕ) → x ≢ a → NotIn x xs → x ≢ last a xs
unfolding last
last-NotIn x a [] n h = n
last-NotIn x a (y ∷ ys) n h = last-NotIn x y ys h.0 h.1

pub first-NotIn : (x b : ℕ) (xs : List ℕ) → x ≢ b → NotIn x xs → x ≢ first xs b
unfolding first
first-NotIn x b [] n h = n
first-NotIn x b (y ∷ ys) n h = h.0

pub prev-last : (h : Heap) (a b : ℕ) (xs : List ℕ) → Linked h a xs b → (h b).prev ≡ last a xs
unfolding last
prev-last h a b [] l = l.1
prev-last h a b (x ∷ xs) l = prev-last h x b xs l.2

pub next-first : (h : Heap) (a b : ℕ) (xs : List ℕ) → Linked h a xs b → (h a).next ≡ first xs b
unfolding first
next-first h a b [] l = l.0
next-first h a b (x ∷ xs) l = l.0

-- A chain up to an entry and the chain on from it.
pub Linked-append :
    (h : Heap) (a b x : ℕ) (ys zs : List ℕ)
    → Linked h a (ys ++ x ∷ zs) b
    → Linked h a ys x × Linked h x zs b
Linked-append h a b x [] zs l = ((l.0, l.1), l.2)
Linked-append h a b x (y ∷ ys) zs l =
    let r = Linked-append h y b x ys zs l.2 in ((l.0, l.1, r.0), r.1)

-- `g` has the links of `h` but for what follows two entries and what comes before two.
abbrev pub AgreesBut : Heap → Heap → (n n' p p' : ℕ) → Type 0
AgreesBut h g n n' p p' =
    ((q : ℕ) → q ≢ n → q ≢ n' → (g q).next ≡ (h q).next)
    × ((q : ℕ) → q ≢ p → q ≢ p' → (g q).prev ≡ (h q).prev)

-- A chain that has none of those entries in the place that matters is still there.
pub Linked-frame :
    (h g : Heap) (n n' p p' a b : ℕ) (xs : List ℕ)
    → AgreesBut h g n n' p p'
    → NotIn n (a ∷ xs)
    → NotIn n' (a ∷ xs)
    → NotIn p (b ∷ xs)
    → NotIn p' (b ∷ xs)
    → Linked h a xs b
    → Linked g a xs b
Linked-frame h g n n' p p' a b [] s u u' v v' l = (
  s.0 a (λ e. u.0 (sym e)) (λ e. u'.0 (sym e)) ∙ l.0,
  s.1 b (λ e. v.0 (sym e)) (λ e. v'.0 (sym e)) ∙ l.1,
)
Linked-frame h g n n' p p' a b (x ∷ xs) s u u' v v' l = (
  s.0 a (λ e. u.0 (sym e)) (λ e. u'.0 (sym e)) ∙ l.0,
  s.1 x (λ e. v.1.0 (sym e)) (λ e. v'.1.0 (sym e)) ∙ l.1,
  Linked-frame h g n n' p p' x b xs s u.1 u'.1 (v.0, v.1.1) (v'.0, v'.1.1) l.2,
)
