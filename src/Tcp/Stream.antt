-- ===== src/Tcp/Stream.antt =====
-- The bytes that the echo server sends on a connection.
use esp32_components.Base.{
  ℕ, ◌+◌, ◌-◌, ◌%◌, ◌^◌, ◌<◌, ◌≡◌, ap, ◌∙◌, true, false, ◌&&◌, List, [], ◌∷◌, ◌++◌, none, some,
  if◌then◌else◌, length, length-append, arith, returns, ◌>>=◌,
}
use esp32_components.Tcp.{Sends, Round, connection, echo}
use esp32_components.Tcp.Send.{Accepts, write_tcp-all}

-- What the peer sends up to the end of its side.
abbrev pub stream : List Round → List ℕ
stream [] = []
stream ((none, rs) ∷ rounds) = []
stream ((some [], rs) ∷ rounds) = []
stream ((some (x ∷ xs), rs) ∷ rounds) = (x ∷ xs) ++ stream rounds

-- The peer ends its side without an error, and the network takes what is sent back.
abbrev pub IsDelivered : List Round → Type 0
IsDelivered [] = ⊥
IsDelivered ((none, rs) ∷ rounds) = ⊥
IsDelivered ((some [], rs) ∷ rounds) = Unit
IsDelivered ((some (x ∷ xs), rs) ∷ rounds) =
    (length (x ∷ xs) < 2 ^ 16) × Accepts rs (length (x ∷ xs)) × IsDelivered rounds

echo-all :
    (count : ℕ) (bytes : List ℕ) (rs : Sends)
    → length bytes < 2 ^ 16
    → Accepts rs (length bytes)
    → echo count bytes rs ≡ returns ((count + length bytes) % 2 ^ 32, (bytes, true))
unfolding echo
echo-all count bytes rs l a =
    ap
      (λ m. do
        (num, out) ← m
        let added = elim num as (λ o. ℕ) [ none ↦ 2 ^ 32 - 1 | some n ↦ n ]
        returns ((count + added) % 2 ^ 32, (out, true)))
      (write_tcp-all bytes rs l a)

-- On a connection that the peer ends, the echo server sends back exactly the bytes it receives, in
-- order, whatever pieces they come in and the network takes, ends the connection too, and counts the
-- bytes modulo 2^32.
pub connection-echo :
    (count : ℕ) (rounds : List Round)
    → count < 2 ^ 32
    → IsDelivered rounds
    → connection echo false count rounds
      ≡ returns ((count + length (stream rounds)) % 2 ^ 32, stream rounds)
unfolding connection
connection-echo count [] c d = absurd d
connection-echo count ((none, rs) ∷ rounds) c d = absurd d
connection-echo count ((some [], rs) ∷ rounds) c d =
    ap
      (λ m. do
        (s', (out, callback_done)) ← m
        let rest = connection echo true s' rounds
        if callback_done && true
            then returns (s', out)
            else (do (s'', more) ← rest; returns (s'', out ++ more)))
      (echo-all count [] rs (omega arith) _)
connection-echo count ((some (x ∷ xs), rs) ∷ rounds) c (l, a, d) =
    let n = length (x ∷ xs) in
    let count' = (count + n) % 2 ^ 32 in
    ap
      (λ m. do
        (s', (out, callback_done)) ← m
        let rest = connection echo false s' rounds
        if callback_done && false
            then returns (s', out)
            else (do (s'', more) ← rest; returns (s'', out ++ more)))
      (echo-all count (x ∷ xs) rs l a)
    ∙ ap (λ m. do (s'', more) ← m; returns (s'', (x ∷ xs) ++ more))
        (connection-echo count' rounds (omega arith) d)
    ∙ ap (λ k. returns (k, (x ∷ xs) ++ stream rounds))
        (omega (arith, length-append (x ∷ xs) (stream rounds)))
