-- ===== src/CList/Session.antt =====
-- A list under any calls, against the sequence of its entries.
use esp32_components.Base.{
  ℕ, ◌<◌, ◌≡◌, ◌≢◌, inl, inr, sym, ap, subst, ◌∙◌, List, [], ◌∷◌, ◌++◌, some, ◌==◌, if◌then◌else◌,
  length, ne→==, eq→==, ℕ_discrete,
}
use esp32_components.CList.{Heap, append, prepend, remove, init, iter}
use esp32_components.CList.Links.{NotIn, In, Ring}
use esp32_components.CList.Insert.{append-Ring, prepend-Ring}
use esp32_components.CList.Remove.{remove-Ring}
use esp32_components.CList.Iter.{iter-some, init-Ring}

pub data Op : Type 0 where
  put_first put_last take_out : ℕ → Op

-- The calls on the list at `p`.
unfoldable pub step : Heap → ℕ → Op → Heap
step h p (put_first x) = prepend h p x
step h p (put_last x) = append h p x
step h p (take_out x) = remove h x

unfoldable pub run : Heap → ℕ → List Op → Heap
run h p [] = h
run h p (op ∷ ops) = run (step h p op) p ops

unfoldable pub delete : ℕ → List ℕ → List ℕ
delete x [] = []
delete x (y ∷ ys) = if y == x then ys else y ∷ delete x ys

-- The same on sequences.
unfoldable pub expect : List ℕ → Op → List ℕ
expect xs (put_first x) = x ∷ xs
expect xs (put_last x) = xs ++ x ∷ []
expect xs (take_out x) = delete x xs

unfoldable pub expect_all : List ℕ → List Op → List ℕ
expect_all xs [] = xs
expect_all xs (op ∷ ops) = expect_all (expect xs op) ops

-- What is put in is new, what is taken out is there.
abbrev pub Allowed : ℕ → List ℕ → Op → Type 0
Allowed p xs (put_first x) = NotIn x (p ∷ xs)
Allowed p xs (put_last x) = NotIn x (p ∷ xs)
Allowed p xs (take_out x) = In x xs

abbrev pub AllAllowed : ℕ → List ℕ → List Op → Type 0
AllAllowed p xs [] = Unit {0}
AllAllowed p xs (op ∷ ops) = Allowed p xs op × AllAllowed p (expect xs op) ops

-- Taking out an entry splits the sequence around it.
data Split (x : ℕ) (xs : List ℕ) : Type 0 where
  split : (ys zs : List ℕ) → xs ≡ ys ++ x ∷ zs → delete x xs ≡ ys ++ zs → Split x xs

Split-later : (x y : ℕ) (xs : List ℕ) → y ≢ x → Split x xs → Split x (y ∷ xs)
unfolding delete
Split-later x y xs n (split ys zs e d) =
    split (y ∷ ys) zs (ap (λ l. y ∷ l) e)
      (ap (λ b. if b then xs else y ∷ delete x xs) (ne→== y x n) ∙ ap (λ l. y ∷ l) d)

delete-Split : (x : ℕ) (xs : List ℕ) → In x xs → Split x xs
unfolding delete
delete-Split x [] m = elim m [ ]
delete-Split x (y ∷ ys) m = elim (ℕ_discrete y x) [
  | yes e ↦
      split [] ys (ap (λ q. q ∷ ys) e) (ap (λ b. if b then ys else y ∷ delete x ys) (eq→== y x e))
  | no n ↦ elim m [ inl e ↦ absurd (n e) | inr k ↦ Split-later x y ys n (delete-Split x ys k) ]
]

take_out-Ring :
    (h : Heap) (p x : ℕ) (xs : List ℕ)
    → Ring h p xs
    → Split x xs
    → Ring (remove h x) p (delete x xs)
take_out-Ring h p x xs r (split ys zs e d) =
    subst (λ l. Ring (remove h x) p l) (sym d)
      (remove-Ring h p x ys zs (subst (λ l. Ring h p l) e r))

step-Ring :
    (h : Heap) (p : ℕ) (xs : List ℕ) (op : Op)
    → Ring h p xs
    → Allowed p xs op
    → Ring (step h p op) p (expect xs op)
unfolding step expect
step-Ring h p xs (put_first x) r a = prepend-Ring h p x xs r a
step-Ring h p xs (put_last x) r a = append-Ring h p x xs r a
step-Ring h p xs (take_out x) r a = take_out-Ring h p x xs r (delete-Split x xs a)

-- Any calls that put in new entries and take out entries that are there keep the list a ring, of
-- the entries that the sequence then has.
pub run-Ring :
    (ops : List Op) (h : Heap) (p : ℕ) (xs : List ℕ)
    → Ring h p xs
    → AllAllowed p xs ops
    → Ring (run h p ops) p (expect_all xs ops)
unfolding run expect_all
run-Ring [] h p xs r a = r
run-Ring (op ∷ ops) h p xs r a =
    run-Ring ops (step h p op) p (expect xs op) (step-Ring h p xs op r a.0) a.1

-- A list that is initialised, goes through calls that put in entries, each new to the list and not its
-- head, and take out entries, each of them in the list, and is then looped over gives the entries of
-- the sequence that the calls describe, in order, on any fuel above their number.
pub iter-run :
    (h : Heap) (p : ℕ) (ops : List Op) (fuel : ℕ)
    → AllAllowed p [] ops
    → length (expect_all [] ops) < fuel
    → iter fuel (run (init h p) p ops) p ≡ some (expect_all [] ops)
iter-run h p ops fuel a f =
    iter-some (run (init h p) p ops) p (expect_all [] ops) fuel
      (run-Ring ops (init h p) p [] (init-Ring h p) a) f
