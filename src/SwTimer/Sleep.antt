-- ===== src/SwTimer/Sleep.antt =====
-- `SwTimer_sleepUs`: how long it waits.
use esp32_components.Base.{
  ℕ, ◌+◌, ◌≤◌, ◌<◌, ◌≡◌, refl, List, [], ◌∷◌, ◌++◌, some, arith, false, ◌^◌,
}
use esp32_components.SwTimer.{SwTimer, running, test, set_us, sleep_loop, sleep_us}
use esp32_components.SwTimer.Elapsed.{Rising, test-running, last-lt}

-- Every count is below the limit.
abbrev pub AllBelow : ℕ → List ℕ → Type 0
AllBelow limit [] = Unit {0}
AllBelow limit (x ∷ xs) = (x < limit) × AllBelow limit xs

-- A test before the time leaves the timer as it is.
test-early :
    (t : SwTimer) (from us now : ℕ)
    → t.state ≡ running
    → t.capture ≡ from
    → t.delay_us ≡ us
    → from ≤ now
    → now < 2 ^ 64
    → now < from + us
    → test t now ≡ (false, t)
unfolding test
test-early t from us now s c d l b e = ground arith

sleep_loop-some :
    (early : List ℕ) (t : SwTimer) (from us last now : ℕ) (late : List ℕ)
    → t.state ≡ running
    → t.capture ≡ from
    → t.delay_us ≡ us
    → from ≤ last
    → Rising last (early ++ now ∷ late)
    → AllBelow (from + us) early
    → from + us ≤ now
    → sleep_loop t (early ++ now ∷ late) ≡ some late
unfolding sleep_loop
sleep_loop-some [] t from us last now late s c d l h e w =
    let b = last-lt now late h.1 in ground (arith, test-running t from us now s c d)
sleep_loop-some (x ∷ early) t from us last now late s c d l h e w =
    let b = last-lt x (early ++ now ∷ late) h.1 in
    ground (
      arith,
      test-early t from us x s c d,
      sleep_loop-some early t from us x now late s c d (omega arith) h.1 e.1 w,
    )

-- If the counts of the clock never fall and stay below 2^64, the busy wait ends at the first of them
-- at which the time has passed, and not before: the counts after that one are left.
pub sleep_us-some :
    (t : SwTimer) (us from now : ℕ) (early late : List ℕ)
    → Rising from (early ++ now ∷ late)
    → AllBelow (from + us) early
    → from + us ≤ now
    → sleep_us t us from (early ++ now ∷ late) ≡ some late
unfolding sleep_us set_us
sleep_us-some t us from now early late h e w =
    sleep_loop-some early (set_us t us from) from us from now late refl refl refl (omega arith) h e
      w
