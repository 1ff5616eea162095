-- ===== src/Tcp/Send.antt =====
-- What a write to a TCP socket sends, in parts as the network takes them.
use esp32_components.Base.{
  ℕ, zero, suc, ◌+◌, ◌-◌, ◌%◌, ◌^◌, ◌<◌, ◌≤◌, ◌≡◌, sym, ap, ap₂, ◌∙◌, List, [], ◌∷◌, ◌++◌,
  append_assoc, append-nil, none, some, if◌then◌else◌, lt→ltb, le→ltb, length, take, drop, drop-all,
  drop-drop, take-append-drop, arith, returns, unfinished,
}
use esp32_components.Tcp.{Sends, write_loop, write_tcp}

-- The calls of send() take `left` bytes in the end, each of them one at least and no more than are left.
abbrev pub Accepts : Sends → ℕ → Type 0
Accepts rs zero = Unit
Accepts [] (suc left) = ⊥
Accepts (none ∷ rs) (suc left) = ⊥
Accepts (some n ∷ rs) (suc left) = (1 ≤ n) × (n ≤ suc left) × Accepts rs (suc left - n)

write_loop-end :
    (buf : List ℕ) (k to : ℕ) (taken : List ℕ) (rs : Sends)
    → k ≡ length buf
    → write_loop buf k to taken rs ≡ returns (some k, taken)
unfolding write_loop
write_loop-end buf k to taken [] e =
    ap (λ b. if b then unfinished else returns (some k, taken))
      (le→ltb k (length buf) (omega arith))
write_loop-end buf k to taken (none ∷ rs) e =
    ap (λ b. if b then returns (none, taken) else returns (some k, taken))
      (le→ltb k (length buf) (omega arith))
write_loop-end buf k to taken (some n ∷ rs) e =
    ap
      (λ b.
        if b
        then write_loop buf (k + n) ((to + 2 ^ 16 - n) % 2 ^ 16) (taken ++ take n (drop k buf)) rs
        else returns (some k, taken))
      (le→ltb k (length buf) (omega arith))

write_loop-all :
    (buf : List ℕ) (k left : ℕ) (taken : List ℕ) (rs : Sends)
    → k + left ≡ length buf
    → left < 2 ^ 16
    → Accepts rs left
    → write_loop buf k left taken rs ≡ returns (some (length buf), taken ++ drop k buf)
unfolding write_loop
write_loop-all buf k zero taken rs e l a =
    let at_end : k ≡ length buf = omega arith in
    write_loop-end buf k 0 taken rs at_end
    ∙ ap₂ (λ m l. returns (some m, l)) at_end
        (sym (append-nil taken) ∙ ap (λ l. taken ++ l) (sym (drop-all k buf (omega arith))))
write_loop-all buf k (suc left) taken [] e l a = absurd a
write_loop-all buf k (suc left) taken (none ∷ rs) e l a = absurd a
write_loop-all buf k (suc left) taken (some n ∷ rs) e l (p, q, a) =
    let fewer : (suc left + 2 ^ 16 - n) % 2 ^ 16 ≡ suc left - n = omega arith in
    let taken' = taken ++ take n (drop k buf) in
    ap
      (λ b.
        if b
        then write_loop buf (k + n) ((suc left + 2 ^ 16 - n) % 2 ^ 16) taken' rs
        else returns (some k, taken))
      (lt→ltb k (length buf) (omega arith))
    ∙ ap (λ t. write_loop buf (k + n) t taken' rs) fewer
    ∙ write_loop-all buf (k + n) (suc left - n) taken' rs (omega arith) (omega arith) a
    ∙ ap (λ l. returns (some (length buf), l))
        (append_assoc taken (take n (drop k buf)) (drop (k + n) buf)
          ∙ ap (λ l. taken ++ l)
              (ap (λ l. take n (drop k buf) ++ l) (sym (drop-drop n k buf))
                ∙ take-append-drop n (drop k buf)))

-- A write of fewer than 2^16 bytes that the network takes in any parts returns their number, and they
-- are all sent, in order and once.
pub write_tcp-all :
    (buf : List ℕ) (rs : Sends)
    → length buf < 2 ^ 16
    → Accepts rs (length buf)
    → write_tcp buf rs ≡ returns (some (length buf), buf)
unfolding write_tcp
write_tcp-all buf rs l a = write_loop-all buf 0 (length buf) [] rs (omega arith) l a
