-- ===== src/Base/Loops.antt =====
-- Counted loops over arrays of any type, and what holds of runs that return.
use Prim.Native.Nat.{ℕ, zero, suc, ◌+◌, ◌≤◌, ◌<◌}
use mathlib.Core.Path.{◌≡◌, refl, sym, ap, ◌∙◌, subst}
use mathlib.Core.Logic.{◌≢◌}
use mathlib.Core.Bool.{Bool, true, false}
use mathlib.Core.Option.{none, some}
use mathlib.Core.List.{List, [], ◌∷◌, ◌++◌, append_assoc}
use native.Mathlib.Omega.{arith}
use esp32_components.Base.Tests.{ltb, if◌then◌else◌, lt→ltb}
use esp32_components.Base.Lists.{length, get_elem?, set, replicate, length-set, length-append}
use esp32_components.Base.Access.{Outcome, returns, faults, ◌>>=◌}

-- `xs[i]` read and written.
abbrev pub fetch {ℓ} : {A : Type ℓ} → List A → ℕ → Outcome A
fetch xs i = elim (get_elem? xs i) [ none ↦ faults | some x ↦ returns x ]

abbrev pub put {ℓ} : {A : Type ℓ} → List A → ℕ → A → Outcome (List A)
put xs i v = if ltb i (length xs) then returns (set xs i v) else faults

-- `for (i = from; i < from + left; i++)` around a body that may leave by a fault.
unfoldable pub for_loop {ℓ} : {S : Type ℓ} → (left from : ℕ) → (ℕ → S → Outcome S) → S → Outcome S
for_loop zero i body s = returns s
for_loop (suc left) i body s = body i s >>= for_loop left (i + 1) body

-- The run returns, and what it returns has the property.
pub data Returns {ℓ κ} {A : Type ℓ} (P : A → Type κ) : Outcome A → Type (ℓ ⊔ κ) where
  returning : {a : A} → P a → Returns P (returns a)

pub Returns-bind {ℓ κ ι μ} :
    {A : Type ℓ} {B : Type ι} {P : A → Type κ} {Q : B → Type μ} {m : Outcome A} (f : A → Outcome B)
    → Returns P m
    → ((a : A) → P a → Returns Q (f a))
    → Returns Q (m >>= f)
Returns-bind f (returning p) k = k _ p

pub Returns-mono {ℓ κ μ} :
    {A : Type ℓ} {P : A → Type κ} {Q : A → Type μ} {m : Outcome A}
    → Returns P m
    → ((a : A) → P a → Q a)
    → Returns Q m
Returns-mono (returning p) k = returning (k _ p)

pub Returns-if {ℓ κ} :
    {A : Type ℓ} {P : A → Type κ} (b : Bool) {m n : Outcome A}
    → (b ≡ true → Returns P m)
    → (b ≡ false → Returns P n)
    → Returns P (if b then m else n)
Returns-if true h k = h refl
Returns-if false h k = k refl

-- A body that keeps a property at every index below `bound` keeps it over the loop.
pub for_loop-Returns {ℓ κ} :
    {S : Type ℓ} (P : S → Type κ) (bound : ℕ) {body : ℕ → S → Outcome S}
    → ((k : ℕ) (s : S) → k < bound → P s → Returns P (body k s))
    → (left from : ℕ) (s : S) → from + left ≤ bound
    → P s
    → Returns P (for_loop left from body s)
unfolding for_loop
for_loop-Returns P bound keep zero from s l p = returning p
for_loop-Returns P bound {body} keep (suc left) from s l p =
    Returns-bind (for_loop left (from + 1) body) (keep from s (omega arith) p)
      (λ t q. for_loop-Returns P bound keep left (from + 1) t (omega arith) q)

-- A body that takes a property of each index to that of the next, over the loop.
pub for_loop_upto-Returns {ℓ κ} :
    {S : Type ℓ} (P : ℕ → S → Type κ) (bound : ℕ) {body : ℕ → S → Outcome S}
    → ((k : ℕ) (s : S) → k < bound → P k s → Returns (P (k + 1)) (body k s))
    → (left from : ℕ) (s : S) → from + left ≡ bound
    → P from s
    → Returns (P bound) (for_loop left from body s)
unfolding for_loop
for_loop_upto-Returns P bound next zero from s l p =
    let e : from ≡ bound = omega arith in returning (subst (λ k. P k s) e p)
for_loop_upto-Returns P bound {body} next (suc left) from s l p =
    Returns-bind (for_loop left (from + 1) body) (next from s (omega arith) p)
      (λ t q. for_loop_upto-Returns P bound next left (from + 1) t (omega arith) q)

-- The value of a run that returns.
pub Returns-value {ℓ κ} :
    {A : Type ℓ} {P : A → Type κ} {m : Outcome A} → Returns P m → (a : A) × (m ≡ returns a) × P a
Returns-value (returning {a} p) = (a, refl, p)

abbrev pub All {ℓ κ} : {A : Type ℓ} → (A → Type κ) → List A → Type κ
All P [] = Unit
All P (x ∷ xs) = P x × All P xs

pub All-replicate {ℓ κ} :
    {A : Type ℓ} (P : A → Type κ) (n : ℕ) (a : A) → P a → All P (replicate n a)
All-replicate P zero a p = _
All-replicate P (suc n) a p = (p, All-replicate P n a p)

-- An array of `n` elements that all have the property.
abbrev pub Array {ℓ κ} : {A : Type ℓ} → ℕ → (A → Type κ) → List A → Type κ
Array n P xs = (length xs ≡ n) × All P xs

All-set {ℓ κ} :
    {A : Type ℓ} (P : A → Type κ) (xs : List A) (i : ℕ) (v : A)
    → All P xs
    → P v
    → All P (set xs i v)
All-set P [] i v a p = a
All-set P (x ∷ xs) zero v a p = (p, a.1)
All-set P (x ∷ xs) (suc i) v a p = (a.0, All-set P xs i v a.1 p)

pub put-Returns {ℓ κ} :
    {A : Type ℓ} (P : A → Type κ) (n : ℕ) (xs : List A) (i : ℕ) (v : A)
    → Array n P xs
    → i < n
    → P v
    → Returns (Array n P) (put xs i v)
put-Returns P n xs i v (l, a) h p =
    subst (λ b. Returns (Array n P) (if b then returns (set xs i v) else faults))
      (sym (lt→ltb i (length xs) (omega arith)))
      (returning (length-set xs i v ∙ l, All-set P xs i v a p))

get_elem?-set {ℓ} :
    {A : Type ℓ} (xs : List A) (i : ℕ) (v : A) → i < length xs → get_elem? (set xs i v) i ≡ some v
get_elem?-set [] i v h = absurd (omega arith)
get_elem?-set (x ∷ xs) zero v h = refl
get_elem?-set (x ∷ xs) (suc i) v h = get_elem?-set xs i v (omega arith)

get_elem?-set_other {ℓ} :
    {A : Type ℓ} (xs : List A) (i j : ℕ) (v : A) → j ≢ i → get_elem? (set xs i v) j ≡ get_elem? xs j
get_elem?-set_other [] i j v n = refl
get_elem?-set_other (x ∷ xs) zero zero v n = absurd (n refl)
get_elem?-set_other (x ∷ xs) zero (suc j) v n = refl
get_elem?-set_other (x ∷ xs) (suc i) zero v n = refl
get_elem?-set_other (x ∷ xs) (suc i) (suc j) v n = get_elem?-set_other xs i j v (λ e. n (ap suc e))

-- An element that is written is read back, and the others stay.
pub put_at-Returns {ℓ κ} :
    {A : Type ℓ} (P : A → Type κ) (n : ℕ) (xs : List A) (i : ℕ) (v : A)
    → Array n P xs
    → i < n
    → P v
    → Returns
        (λ ys.
          Array n P ys
          × (get_elem? ys i ≡ some v)
          × ((j : ℕ) → j ≢ i → get_elem? ys j ≡ get_elem? xs j))
        (put xs i v)
put_at-Returns P n xs i v (l, a) h p = rw (lt→ltb i (length xs) (omega arith)) (
    returning (
      (length-set xs i v ∙ l, All-set P xs i v a p),
      get_elem?-set xs i v (omega arith),
      λ j n. get_elem?-set_other xs i j v n,
    ))

pub fetch-some {ℓ} :
    {A : Type ℓ} (xs : List A) (i : ℕ) (v : A) → get_elem? xs i ≡ some v → fetch xs i ≡ returns v
fetch-some xs i v e = ap (λ o. elim o [ none ↦ faults | some x ↦ returns x ]) e

pub fetch-same {ℓ} :
    {A : Type ℓ} (xs ys : List A) (i : ℕ)
    → get_elem? ys i ≡ get_elem? xs i
    → fetch ys i ≡ fetch xs i
fetch-same xs ys i e = ap (λ o. elim o [ none ↦ faults | some x ↦ returns x ]) e

pub fetch-Returns {ℓ κ} :
    {A : Type ℓ} (P : A → Type κ) (xs : List A) (i : ℕ)
    → All P xs
    → i < length xs
    → Returns P (fetch xs i)
fetch-Returns P [] i a h = absurd (omega arith)
fetch-Returns P (x ∷ xs) zero a h = returning a.0
fetch-Returns P (x ∷ xs) (suc i) a h = fetch-Returns P xs i a.1 (omega arith)

module _ {ℓ} {A : Type ℓ} where
  -- The elements `f from`, `f (from + 1)`, …
  abbrev pub tabulate : ℕ → ℕ → (ℕ → A) → List A
  tabulate zero from f = []
  tabulate (suc left) from f = f from ∷ tabulate left (from + 1) f

  set_behind :
      (pre : List A) (x v : A) (xs : List A) → set (pre ++ x ∷ xs) (length pre) v ≡ pre ++ v ∷ xs
  set_behind [] x v xs = refl
  set_behind (y ∷ pre) x v xs = ap (λ l. y ∷ l) (set_behind pre x v xs)

  pub put_behind :
      (pre : List A) (x v : A) (xs : List A) (i : ℕ)
      → i ≡ length pre
      → put (pre ++ x ∷ xs) i v ≡ returns ((pre ++ v ∷ []) ++ xs)
  put_behind pre x v xs i e =
      ap (λ k. put (pre ++ x ∷ xs) k v) e
      ∙ ap (λ b. if b then returns (set (pre ++ x ∷ xs) (length pre) v) else faults)
          (lt→ltb (length pre) (length (pre ++ x ∷ xs)) (omega (arith, length-append pre (x ∷ xs))))
      ∙ ap (λ l. returns l) (set_behind pre x v xs ∙ sym (append_assoc pre (v ∷ []) xs))

  get_behind :
      (pre : List A) (x : A) (xs : List A) → get_elem? (pre ++ x ∷ xs) (length pre) ≡ some x
  get_behind [] x xs = refl
  get_behind (y ∷ pre) x xs = get_behind pre x xs

  pub fetch_behind :
      (pre : List A) (x : A) (xs : List A) → fetch (pre ++ x ∷ xs) (length pre) ≡ returns x
  fetch_behind pre x xs = fetch-some (pre ++ x ∷ xs) (length pre) x (get_behind pre x xs)

  fill_rest :
      (f : ℕ → A) (pre xs : List A) (left i : ℕ)
      → i ≡ length pre
      → left ≡ length xs
      → for_loop left i (λ k p. put p k (f k)) (pre ++ xs) ≡ returns (pre ++ tabulate left i f)
  unfolding for_loop
  fill_rest f pre [] zero i e l = refl
  fill_rest f pre [] (suc left) i e l = absurd (omega arith)
  fill_rest f pre (x ∷ xs) zero i e l = absurd (omega arith)
  fill_rest f pre (x ∷ xs) (suc left) i e l =
      ap (λ m. m >>= for_loop left (i + 1) (λ k p. put p k (f k))) (put_behind pre x (f i) xs i e)
      ∙ fill_rest f (pre ++ f i ∷ []) xs left (i + 1) (omega (arith, length-append pre (f i ∷ [])))
          (omega arith)
      ∙ ap (λ l. returns l) (append_assoc pre (f i ∷ []) (tabulate left (i + 1) f))

  -- A loop that writes every element of an array.
  pub for_loop-put :
      (f : ℕ → A) (xs : List A) (n : ℕ)
      → length xs ≡ n
      → for_loop n 0 (λ k p. put p k (f k)) xs ≡ returns (tabulate n 0 f)
  for_loop-put f xs n l = fill_rest f [] xs n 0 refl (sym l)
