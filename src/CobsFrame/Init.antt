-- ===== src/CobsFrame/Init.antt =====
-- `Cobs_deframer_init`: the deframer that it makes.
use esp32_components.Base.{
  ℕ, ◌+◌, ◌*◌, ◌^◌, ◌<◌, ◌≡◌, ◌≢◌, refl, sym, ap, ◌∙◌, false, Option, none, some, List, [], arith,
  length, Status, done, Option-cases, inl, inr, subst,
}
use esp32_components.SwFifo.{SwFifo, init}
use esp32_components.SwFifo.Init.{init-Fresh, init-done_iff}
use esp32_components.CobsFrame.{Deframer, starting, after_alloc, deframer_init}
use esp32_components.CobsFrame.Receive.{Ready}

module _ (alloc : ℕ → Option (List ℕ)) (mutex : Option ℕ)
    (alloc_length : (n : ℕ) (b : List ℕ) → alloc n ≡ some b → length b ≡ n) (d : Deframer)
    (name : List ℕ) (depth : ℕ) (small : depth < 2 ^ 16) where
  unit : alloc ((depth + 1) * 1) ≡ alloc (depth + 1)
  unit = ap alloc (omega arith)

  made-Ready :
      (work : List ℕ) (g : SwFifo) (r : Status)
      → length work ≡ depth
      → init alloc mutex d.fifo name depth 1 none 0 false ≡ (r, g)
      → r ≡ done
      → Ready depth [] (record d { state = starting; work = work; work_size = depth; fifo = g })
  made-Ready work g r l e q =
      let (v, c, deep, bytes, t) =
        init-Fresh alloc mutex alloc_length d.fifo name depth 1 false (omega arith) (omega arith)
          none 0 (λ b n. cc) (e ∙ ap (λ r. (r, g)) q) in
      record {
        holds = record { fits = record { valid = v; bytes = bytes; deep = deep }; has = c };
        at_start = refl;
        sized = sym l;
        small = small;
      }

  -- For a depth below 2^16, when the allocator has the two blocks, of `depth` bytes and of one more, the
  -- deframer is ready to receive, with `depth` bytes of room in the fifo and in the working buffer.
  pub deframer_init-Ready :
      (alloc depth ≢ none)
      → (alloc (depth + 1) ≢ none)
      → let (r, d') = deframer_init alloc mutex d name depth in
        (r ≡ done) × Ready depth [] d' × (d'.work_size ≡ depth)
  unfolding deframer_init after_alloc
  deframer_init-Ready h k = elim (Option-cases (alloc depth)) [
    | inl e ↦ absurd (h e)
    | inr (work, e) ↦
        let q =
          (init-done_iff alloc mutex alloc_length d.fifo name depth 1 false (omega arith)
              (omega arith) none 0).1
            ((λ x. k (sym unit ∙ x)), λ f. cc) in
        subst
          (λ o.
            let (r, d') = after_alloc alloc mutex o d name depth in
            (r ≡ done) × Ready depth [] d' × (d'.work_size ≡ depth))
          (sym e)
          (
            q,
            made-Ready work (init alloc mutex d.fifo name depth 1 none 0 false).1 done
                (alloc_length depth work e)
                (ap (λ r. (r, (init alloc mutex d.fifo name depth 1 none 0 false).1)) q) refl,
            refl,
          )
  ]
