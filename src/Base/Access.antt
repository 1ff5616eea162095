-- ===== src/Base/Access.antt =====
-- The runs of C code over byte buffers that have an end: a result, the error return, an access
-- outside a buffer, or the end of the model's fuel.
use Prim.Native.Nat.{ℕ, zero, suc, ◌%◌, ◌≤◌, ◌<◌}
use mathlib.Core.Path.{◌≡◌, refl, ap}
use mathlib.Core.Logic.{◌≢◌}
use mathlib.Core.Bool.{Bool, true, false}
use mathlib.Core.Option.{Option, none, some}
use mathlib.Core.List.{List, [], ◌∷◌, ◌++◌}
use native.Mathlib.Omega.{arith}
use esp32_components.Base.Tests.{ltb, if◌then◌else◌, le→ltb, lt→ltb}
use esp32_components.Base.Lists.{length, get_elem?, set, length-append, length-set}

pub data Outcome {ℓ} (A : Type ℓ) : Type ℓ where
  returns : A → Outcome A
  fails faults unfinished : Outcome A

infixl 5 ◌>>=◌
abbrev pub ◌>>=◌ {ℓ κ} : {A : Type ℓ} {B : Type κ} → Outcome A → (A → Outcome B) → Outcome B
returns a >>= f = f a
fails >>= f = fails
faults >>= f = faults
unfinished >>= f = unfinished

-- `return -1` if the test passes.
abbrev pub fail_if {ℓ} : {A : Type ℓ} → Bool → Outcome A → Outcome A
fail_if true m = fails
fail_if false m = m

-- A value stored in a `uint8_t`.
abbrev pub u8 : ℕ → ℕ
u8 n = n % 256

-- `buf[i]` read and written.
unfoldable pub load : List ℕ → ℕ → Outcome ℕ
load buf i = elim (get_elem? buf i) [ none ↦ faults | some b ↦ returns b ]

unfoldable pub store : List ℕ → ℕ → ℕ → Outcome (List ℕ)
store buf i v = if ltb i (length buf) then returns (set buf i v) else faults

pub load-zero : (x : ℕ) (xs : List ℕ) → load (x ∷ xs) zero ≡ returns x
unfolding load
load-zero x xs = refl

pub load-suc : (x : ℕ) (xs : List ℕ) (i : ℕ) → load (x ∷ xs) (suc i) ≡ load xs i
unfolding load
load-suc x xs i = refl

set_middle : (a : List ℕ) (x v : ℕ) (b : List ℕ) → set (a ++ x ∷ b) (length a) v ≡ a ++ v ∷ b
set_middle [] x v b = refl
set_middle (y ∷ a) x v b = ap (λ l. y ∷ l) (set_middle a x v b)

get_middle : (a : List ℕ) (x : ℕ) (b : List ℕ) → get_elem? (a ++ x ∷ b) (length a) ≡ some x
get_middle [] x b = refl
get_middle (y ∷ a) x b = get_middle a x b

pub store_middle :
    (a : List ℕ) (x v : ℕ) (b : List ℕ) {i : ℕ}
    → i ≡ length a
    → store (a ++ x ∷ b) i v ≡ returns (a ++ v ∷ b)
unfolding store
store_middle a x v b e = rw (
  e,
  set_middle a x v b,
  lt→ltb (length a) (length (a ++ x ∷ b)) (omega (arith, length-append a (x ∷ b))),
)

pub load_middle :
    (a : List ℕ) (x : ℕ) (b : List ℕ) {i : ℕ} → i ≡ length a → load (a ++ x ∷ b) i ≡ returns x
unfolding load
load_middle a x b e = rw (e, get_middle a x b, load)

-- A write at or behind the end is an access outside the buffer.
pub store_outside : (buf : List ℕ) (i v : ℕ) → length buf ≤ i → store buf i v ≡ faults
unfolding store
store_outside buf i v h = rw (le→ltb i (length buf) h)

-- A run ends by itself and not for want of fuel, and what it returns has the property.
pub data Ends {A : Type 0} (P : A → Type 0) : Outcome A → Type 0 where
  returned : {a : A} → P a → Ends P (returns a)
  failed_run : Ends P fails
  faulted : Ends P faults

pub Ends-bind :
    {A B : Type 0} {P : A → Type 0} {Q : B → Type 0} {m : Outcome A} (f : A → Outcome B)
    → Ends P m
    → ((a : A) → P a → Ends Q (f a))
    → Ends Q (m >>= f)
Ends-bind f (returned p) k = k _ p
Ends-bind f failed_run k = failed_run
Ends-bind f faulted k = faulted

pub Ends-fail_if :
    {A : Type 0} {P : A → Type 0} (b : Bool) {m : Outcome A}
    → (b ≡ false → Ends P m)
    → Ends P (fail_if b m)
Ends-fail_if true h = failed_run
Ends-fail_if false h = h refl

pub Ends-if :
    {A : Type 0} {P : A → Type 0} (b : Bool) {m n : Outcome A}
    → (b ≡ true → Ends P m)
    → (b ≡ false → Ends P n)
    → Ends P (if b then m else n)
Ends-if true h k = h refl
Ends-if false h k = k refl

Ends-option : (o : Option ℕ) → Ends (λ _. Unit {0}) (elim o [ none ↦ faults | some b ↦ returns b ])
Ends-option none = faulted
Ends-option (some b) = returned tt

pub load-Ends : (buf : List ℕ) (i : ℕ) → Ends (λ _. Unit {0}) (load buf i)
unfolding load
load-Ends buf i = Ends-option (get_elem? buf i)

pub store-Ends : (buf : List ℕ) (i v : ℕ) → Ends (λ out. length out ≡ length buf) (store buf i v)
unfolding store
store-Ends buf i v =
    Ends-if (ltb i (length buf)) (λ _. returned (length-set buf i v)) (λ _. faulted)

pub Ends-ne_unfinished : {A : Type 0} {P : A → Type 0} {m : Outcome A} → Ends P m → m ≢ unfinished
Ends-ne_unfinished (returned p) e = cc
Ends-ne_unfinished failed_run e = cc
Ends-ne_unfinished faulted e = cc

pub Ends-mono :
    {A : Type 0} {P Q : A → Type 0} {m : Outcome A} → Ends P m → ((a : A) → P a → Q a) → Ends Q m
Ends-mono (returned p) k = returned (k _ p)
Ends-mono failed_run k = failed_run
Ends-mono faulted k = faulted

pub store_inside : (buf : List ℕ) (i v : ℕ) → i < length buf → store buf i v ≡ returns (set buf i v)
unfolding store
store_inside buf i v h = rw (lt→ltb i (length buf) h)

-- A read behind the end is an access outside the buffer.
pub load_outside : (buf : List ℕ) (i : ℕ) → length buf ≤ i → load buf i ≡ faults
unfolding load
load_outside [] i h = refl
load_outside (x ∷ buf) zero h = absurd (omega arith)
load_outside (x ∷ buf) (suc i) h = load_outside buf i (omega arith)
