-- ===== src/Tcp/Tests.antt =====
-- The theorems on TCP with a connection of two pieces.
use esp32_components.Base.{◌≡◌, false, List, [], ◌∷◌, some, arith, returns}
use esp32_components.Tcp.{Round, connection, echo}
use esp32_components.Tcp.Stream.{connection-echo}

abbrev rounds : List Round
rounds = (some (7 ∷ 8 ∷ []), some 2 ∷ []) ∷ (some (9 ∷ []), some 1 ∷ []) ∷ (some [], []) ∷ []

connection-echo_example : connection echo false 0 rounds ≡ returns (3, 7 ∷ 8 ∷ 9 ∷ [])
connection-echo_example =
    connection-echo 0 rounds (omega arith)
      (omega arith, (omega arith, omega arith, _), (omega arith, (omega arith, omega arith, _), _))
