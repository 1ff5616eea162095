-- ===== src/SwTimer/Elapsed.antt =====
-- What a timer reports against the time that has passed.
use esp32_components.Base.{
  ℕ, ◌+◌, ◌-◌, ◌*◌, ◌/◌, ◌^◌, ◌≤◌, ◌<◌, ◌≡◌, refl, ap₂, Bool, List, [], ◌∷◌, arith, leb, Bool-cases,
  inl, inr,
}
use esp32_components.SwTimer.{SwTimer, running, expired, tic, toc, set_us, test}

-- A measurement that starts at a count below 2^32, about 71 minutes after the start of the clock,
-- gives the time between its two ends.
pub toc-tic :
    (swt : SwTimer) (start now : ℕ)
    → start < 2 ^ 32
    → start ≤ now
    → now < 2 ^ 64
    → toc (tic swt start).1 now ≡ now - start
unfolding tic toc
toc-tic swt start now h l b = omega arith

-- A measurement that starts later is too long by 2^32 for each time that the lower half of the clock
-- had gone round.
pub toc-tic_late :
    (swt : SwTimer) (start now : ℕ)
    → start ≤ now
    → now < 2 ^ 64
    → toc (tic swt start).1 now ≡ now - start + start / 2 ^ 32 * 2 ^ 32
unfolding tic toc
toc-tic_late swt start now l b = omega arith

-- The clock never goes back.
abbrev pub Rising : ℕ → List ℕ → Type 0
Rising last [] = last < 2 ^ 64
Rising last (now ∷ rest) = (last ≤ now) × Rising now rest

-- The answers of a timer that is tested again and again.
unfoldable pub polls : SwTimer → List ℕ → List Bool
polls t [] = []
polls t (now ∷ rest) = let (b, t') = test t now in b ∷ polls t' rest

-- Whether `us` microseconds have passed since `from`.
unfoldable pub passed : ℕ → ℕ → List ℕ → List Bool
passed from us [] = []
passed from us (now ∷ rest) = leb (from + us) now ∷ passed from us rest

-- The timer runs since `from`, or it is over and `us` have passed by `last`.
pub data Runs (from us last : ℕ) (t : SwTimer) : Type 0 where
  runs : t.state ≡ running → t.capture ≡ from → t.delay_us ≡ us → Runs from us last t
  over : t.state ≡ expired → from + us ≤ last → Runs from us last t

pub last-lt : (last : ℕ) (clock : List ℕ) → Rising last clock → last < 2 ^ 64
last-lt last [] h = h
last-lt last (now ∷ rest) (l, h) = omega (arith, last-lt now rest h)

pub test-running :
    (t : SwTimer) (from us now : ℕ)
    → t.state ≡ running
    → t.capture ≡ from
    → t.delay_us ≡ us
    → from ≤ now
    → now < 2 ^ 64
    → ((test t now).0 ≡ leb (from + us) now) × Runs from us now (test t now).1
unfolding test
test-running t from us now s c d l b = elim (Bool-cases (leb (from + us) now)) [
  | inl e ↦ (ground arith, over (ground arith) (ground arith))
  | inr e ↦ (ground arith, runs (ground arith) (ground arith) (ground arith))
]

test-over :
    (t : SwTimer) (from us now : ℕ)
    → t.state ≡ expired
    → from + us ≤ now
    → ((test t now).0 ≡ leb (from + us) now) × Runs from us now (test t now).1
unfolding test
test-over t from us now s l = (ground arith, over (ground arith) l)

polls-passed :
    (clock : List ℕ) (t : SwTimer) (from us last : ℕ)
    → Runs from us last t
    → from ≤ last
    → Rising last clock
    → polls t clock ≡ passed from us clock
unfolding polls passed
polls-passed [] t from us last r l h = refl
polls-passed (now ∷ rest) t from us last (runs s c d) l h =
    let b = last-lt now rest h.1 in
    let (answer, next) = test-running t from us now s c d (omega arith) b in
    ap₂ ◌∷◌ answer (polls-passed rest (test t now).1 from us now next (omega arith) h.1)
polls-passed (now ∷ rest) t from us last (over s e) l h =
    let (answer, next) = test-over t from us now s (omega arith) in
    ap₂ ◌∷◌ answer (polls-passed rest (test t now).1 from us now next (omega arith) h.1)

-- A timer that is set and then tested at counts of the clock that never fall and stay below 2^64 says
-- each time whether its duration has passed since it was set; once it has said so it goes on saying so.
pub polls-set_us :
    (swt : SwTimer) (us from : ℕ) (clock : List ℕ)
    → Rising from clock
    → polls (set_us swt us from) clock ≡ passed from us clock
unfolding set_us
polls-set_us swt us from clock h =
    polls-passed clock (set_us swt us from) from us from (runs refl refl refl) (omega arith) h
