-- ===== src/LfsPartRpc/Vacancy.antt =====
-- The table of descriptors against the pool: which are free, and how many are open.
use esp32_components.Base.{
  ℕ, zero, suc, ◌+◌, ◌≤◌, ◌<◌, ◌≡◌, refl, ap, subst, ◌∙◌, arith, [], ◌∷◌, Option, none, some, ◌==◌,
  if◌then◌else◌, length, set, u8,
}
use esp32_components.LfsHelpers.{
  Pool, avail, in_use, first_avail, lookup_descriptor, put_descriptor,
}
use esp32_components.LfsPartRpc.Table.{Table, entry, lowest_free}

unfoldable pub states : Table → Pool
states [] = []
states (none ∷ t) = avail ∷ states t
states (some lfs ∷ t) = in_use ∷ states t

unfoldable pub open_count : Table → ℕ
open_count [] = 0
open_count (none ∷ t) = open_count t
open_count (some lfs ∷ t) = suc (open_count t)

pub open_count-le : (t : Table) → open_count t ≤ length t
unfolding open_count
open_count-le [] = omega arith
open_count-le (none ∷ t) = omega (arith, open_count-le t)
open_count-le (some lfs ∷ t) = omega (arith, open_count-le t)

pub length-states : (t : Table) → length (states t) ≡ length t
unfolding states
length-states [] = refl
length-states (none ∷ t) = ap suc (length-states t)
length-states (some lfs ∷ t) = ap suc (length-states t)

abbrev shift : ℕ → Option ℕ → Option ℕ
shift i none = none
shift i (some n) = some (n + i)

shift-suc :
    (i : ℕ) (o : Option ℕ)
    → shift (suc i) o ≡ shift i (elim o [ none ↦ none | some n ↦ some (suc n) ])
shift-suc i none = refl
shift-suc i (some n) = ap some (omega arith)

first_avail-states : (t : Table) (i : ℕ) → first_avail (states t) i ≡ shift i (lowest_free t)
unfolding first_avail states lowest_free
first_avail-states [] i = refl
first_avail-states (none ∷ t) i = ap some (omega arith)
first_avail-states (some lfs ∷ t) i = first_avail-states t (suc i) ∙ shift-suc i (lowest_free t)

shift_zero : (o : Option ℕ) → shift 0 o ≡ o
shift_zero none = refl
shift_zero (some n) = ap some (omega arith)

-- The search of the pool finds the lowest descriptor that is free.
pub first_avail-lowest : (t : Table) → first_avail (states t) 0 ≡ lowest_free t
first_avail-lowest t = first_avail-states t 0 ∙ shift_zero (lowest_free t)

pub states-set-some :
    (t : Table) (fd lfs : ℕ) → set (states t) fd in_use ≡ states (set t fd (some lfs))
unfolding states
states-set-some [] fd lfs = refl
states-set-some (none ∷ t) zero lfs = refl
states-set-some (some l ∷ t) zero lfs = refl
states-set-some (none ∷ t) (suc fd) lfs = ap (λ p. avail ∷ p) (states-set-some t fd lfs)
states-set-some (some l ∷ t) (suc fd) lfs = ap (λ p. in_use ∷ p) (states-set-some t fd lfs)

states-set-none : (t : Table) (fd : ℕ) → set (states t) fd avail ≡ states (set t fd none)
unfolding states
states-set-none [] fd = refl
states-set-none (none ∷ t) zero = refl
states-set-none (some l ∷ t) zero = refl
states-set-none (none ∷ t) (suc fd) = ap (λ p. avail ∷ p) (states-set-none t fd)
states-set-none (some l ∷ t) (suc fd) = ap (λ p. in_use ∷ p) (states-set-none t fd)

lookup-states :
    (t : Table) (fd : ℕ)
    → fd < length t
    → length t ≤ 256
    → lookup_descriptor (states t) (u8 fd) ≡ some fd
unfolding lookup_descriptor
lookup-states t fd h l = ground (arith, length-states t)

pub put_descriptor-states :
    (t : Table) (fd : ℕ)
    → fd < length t
    → length t ≤ 256
    → put_descriptor (states t) (u8 fd) ≡ states (set t fd none)
unfolding put_descriptor
put_descriptor-states t fd h l = rw (lookup-states t fd h l, put_descriptor) (states-set-none t fd)

-- A descriptor that is free has no entry, and taking it back leaves the table as it was.
pub record FreeAt (t : Table) (fd : ℕ) : Type 0 where
  pub inside : fd < length t
  pub vacant : entry t fd ≡ none
  pub again : (lfs : ℕ) → set (set t fd (some lfs)) fd none ≡ t

up-some :
    (o : Option ℕ) (z : ℕ)
    → elim o as (λ _. Option ℕ) [ none ↦ none | some fd ↦ some (suc fd) ] ≡ some z
    → (n : ℕ) × (o ≡ some n) × (suc n ≡ z)
up-some none z e = absurd (cc)
up-some (some n) z e = (n, refl, cc)

pub lowest_free-FreeAt : (t : Table) (fd : ℕ) → lowest_free t ≡ some fd → FreeAt t fd
unfolding lowest_free entry
lowest_free-FreeAt [] fd e = absurd (cc)
lowest_free-FreeAt (none ∷ t) fd e =
    let z : 0 ≡ fd = cc in
    subst (FreeAt (none ∷ t)) z
      (record { inside = omega arith; vacant = refl; again = λ lfs. refl })
lowest_free-FreeAt (some lfs ∷ t) fd e =
    let (n, o, z) = up-some (lowest_free t) fd e in
    let f : FreeAt t n = lowest_free-FreeAt t n o in
    subst (FreeAt (some lfs ∷ t)) z (record {
      inside = omega (arith, f.inside);
      vacant = f.vacant;
      again = λ l. ap (λ r. some lfs ∷ r) (f.again l);
    })

pub entry-set :
    (t : Table) (fd j : ℕ) (e : Option ℕ)
    → fd < length t
    → entry (set t fd e) j ≡ (if fd == j then e else entry t j)
unfolding entry
entry-set [] fd j e h = absurd (omega arith)
entry-set (x ∷ t) zero zero e h = refl
entry-set (x ∷ t) zero (suc j) e h = ground arith
entry-set (x ∷ t) (suc fd) zero e h = ground arith
entry-set (x ∷ t) (suc fd) (suc j) e h = ground (arith, entry-set t fd j e)

-- An entry that is taken or freed is counted.
pub open_count-set-some :
    (t : Table) (fd lfs : ℕ)
    → fd < length t
    → entry t fd ≡ none
    → open_count (set t fd (some lfs)) ≡ suc (open_count t)
unfolding entry open_count
open_count-set-some [] fd lfs h v = absurd (omega arith)
open_count-set-some (none ∷ t) zero lfs h v = refl
open_count-set-some (some l ∷ t) zero lfs h v = absurd (cc)
open_count-set-some (none ∷ t) (suc fd) lfs h v = open_count-set-some t fd lfs (omega arith) v
open_count-set-some (some l ∷ t) (suc fd) lfs h v =
    ap suc (open_count-set-some t fd lfs (omega arith) v)

pub open_count-set-none :
    (t : Table) (fd lfs : ℕ)
    → entry t fd ≡ some lfs
    → suc (open_count (set t fd none)) ≡ open_count t
unfolding entry open_count
open_count-set-none [] fd lfs v = absurd (cc)
open_count-set-none (none ∷ t) zero lfs v = absurd (cc)
open_count-set-none (some l ∷ t) zero lfs v = refl
open_count-set-none (none ∷ t) (suc fd) lfs v = open_count-set-none t fd lfs v
open_count-set-none (some l ∷ t) (suc fd) lfs v = ap suc (open_count-set-none t fd lfs v)

pub entry-some_lt : (t : Table) (fd lfs : ℕ) → entry t fd ≡ some lfs → fd < length t
unfolding entry
entry-some_lt [] fd lfs v = absurd (cc)
entry-some_lt (x ∷ t) zero lfs v = omega arith
entry-some_lt (x ∷ t) (suc fd) lfs v = omega (arith, entry-some_lt t fd lfs v)
