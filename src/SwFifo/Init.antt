-- ===== src/SwFifo/Init.antt =====
-- `SwFifo_init`: the fifo that it makes, and when it fails.
use esp32_components.Base.{
  ℕ, ◌+◌, ◌*◌, ◌^◌, ◌<◌, ◌≡◌, Bool, true, Option, none, some, List, [], arith, length, done,
  Option-cases, inl, inr, ◌≢◌, ◌↔◌, refl, ap, ◌∙◌, mul32, add32,
}
use native.Mathlib.Nat.{mod-eq_of_lt}
use esp32_components.SwFifo.{SwFifo, init}
use esp32_components.SwFifo.Inv.{IsValid, contents}

module _ (alloc : ℕ → Option (List ℕ)) (mutex : Option ℕ)
    (alloc_length : (n : ℕ) (b : List ℕ) → alloc n ≡ some b → length b ≡ n) (f : SwFifo)
    (name : List ℕ) (depth item_size : ℕ) (threadsafe : Bool) (small : depth < 2 ^ 31)
    (sized : (depth + 1) * item_size < 2 ^ 32) where
  -- The part of a good result that does not depend on where the memory comes from.
  abbrev Fresh : SwFifo → Type 0
  Fresh g =
      IsValid g
      × (contents g ≡ [])
      × (g.depth ≡ depth)
      × (g.item_size ≡ item_size)
      × (g.threadsafe ≡ threadsafe)

  -- There is a block of the right size: the caller's, or one from the allocator.
  abbrev HasMemory : Option (List ℕ) → ℕ → Type 0
  HasMemory (some b) size = size ≡ (depth + 1) * item_size
  HasMemory none size = alloc ((depth + 1) * item_size) ≢ none

  -- The product `(depth + 1) * itemSize` does not wrap.
  wanted_lem : mul32 (add32 depth 1) item_size ≡ (depth + 1) * item_size
  wanted_lem =
      let e : add32 depth 1 ≡ depth + 1 = omega arith in
      ap (λ k. mul32 k item_size) e ∙ mod-eq_of_lt sized

  -- If the depth is below 2^31 and `(depth + 1) * itemSize` below 2^32, a fifo that `SwFifo_init`
  -- reports as initialised is valid, empty, and as it was asked for: in a block of the caller whose
  -- length is the stated size, or in one of the length that the allocator was asked for.
  pub init-Fresh :
      {g : SwFifo} (mem : Option (List ℕ)) (size : ℕ)
      → ((b : List ℕ) → mem ≡ some b → length b ≡ size)
      → init alloc mutex f name depth item_size mem size threadsafe ≡ (done, g)
      → Fresh g
  unfolding init contents
  init-Fresh (some b) size block e = ground (arith, wanted_lem, block b refl)
  init-Fresh none size block e = elim (Option-cases (alloc ((depth + 1) * item_size))) [
    | inl no_room ↦ ground (arith, wanted_lem, no_room)
    | inr (b, room) ↦
        ground (arith, wanted_lem, room, alloc_length ((depth + 1) * item_size) b room)
  ]

  -- If the depth is below 2^31 and `(depth + 1) * itemSize` below 2^32, `SwFifo_init` succeeds exactly
  -- when it has memory, a block of the caller of just that size or one from the allocator, and, for a
  -- thread-safe fifo, a mutex.
  pub init-done_iff :
      (mem : Option (List ℕ)) (size : ℕ)
      → ((init alloc mutex f name depth item_size mem size threadsafe).0 ≡ done)
        ↔ (HasMemory mem size × (threadsafe ≡ true → mutex ≢ none))
  unfolding init
  init-done_iff (some b) size = (
    λ h. (ground (arith, wanted_lem), λ t. ground (arith, wanted_lem)),
    λ (h, m). ground (arith, wanted_lem, m),
  )
  init-done_iff none size = (
    λ h. (ground (arith, wanted_lem), λ t. ground (arith, wanted_lem)),
    λ (h, m). ground (arith, wanted_lem, m),
  )
