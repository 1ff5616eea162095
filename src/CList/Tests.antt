-- ===== src/CList/Tests.antt =====
-- The theorems on lists at concrete heaps.
use esp32_components.Base.{◌≡◌, refl, List, [], ◌∷◌, some, arith, inl, inr}
use esp32_components.CList.{Heap, init, iter, flush}
use esp32_components.CList.Links.{Ring}
use esp32_components.CList.Iter.{init-Ring}
use esp32_components.CList.Flush.{flush-Ring, Flushed}
use esp32_components.CList.Session.{
  put_first, put_last, take_out, run, expect, expect_all, delete, iter-run, run-Ring, AllAllowed,
  Op,
}

abbrev blank : Heap
blank q = record { next = 0; prev = 0 }

abbrev calls : List Op
calls = put_last 1 ∷ put_first 2 ∷ put_last 3 ∷ take_out 1 ∷ put_last 1 ∷ []

calls-AllAllowed : AllAllowed 5 [] calls
unfolding expect delete
calls-AllAllowed = (
  (omega arith, _),
  (
    (omega arith, (omega arith, _)),
    (
      (omega arith, (omega arith, (omega arith, _))),
      (inr (inl refl), ((omega arith, (omega arith, (omega arith, _))), _)),
    ),
  ),
)

iter-run_example : iter 4 (run (init blank 5) 5 calls) 5 ≡ some (2 ∷ 3 ∷ 1 ∷ [])
unfolding expect_all expect delete
iter-run_example = iter-run blank 5 calls 4 calls-AllAllowed (omega arith)

abbrev two : List Op
two = put_last 1 ∷ put_last 2 ∷ []

abbrev two_heap : Heap
two_heap = run (init blank 5) 5 two

two-Ring : Ring two_heap 5 (1 ∷ 2 ∷ [])
unfolding expect_all expect
two-Ring =
    run-Ring two (init blank 5) 5 [] (init-Ring blank 5)
      ((omega arith, _), ((omega arith, (omega arith, _)), _))

flush-Ring_example :
    (g : Heap) × (flush 3 two_heap 5 ≡ some g) × Flushed two_heap g (5 ∷ 1 ∷ 2 ∷ [])
flush-Ring_example = flush-Ring two_heap 5 (1 ∷ 2 ∷ []) 3 two-Ring (omega arith)
