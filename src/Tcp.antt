-- ===== src/Tcp.antt =====
-- TcpSocket/src/TcpSocket.c, TcpServer/src/TcpServer.c and TcpEcho/src/TcpEcho.c: connections whose
-- bytes are handed to a callback, which may send bytes back. What the socket calls return is given.
pub mod Send
pub mod Stream
mod Tests
use esp32_components.Base.{
  ℕ, zero, suc, ◌+◌, ◌-◌, ◌%◌, ◌^◌, Bool, true, false, ◌&&◌, List, [], ◌∷◌, ◌++◌, Option, none,
  some, ◌==◌, if◌then◌else◌, ltb, length, take, drop, Status, done, failed, Outcome, returns,
  unfinished, ◌>>=◌,
}

-- What send() returns, call by call: the number of bytes it took, `none` for an error.
abbrev pub Sends : Type 0
Sends = List (Option ℕ)

-- The loop of TcpSocket_write: what it returns, `none` for an error, and the bytes that were taken. It
-- waits if there is no result for a call of send().
unfoldable pub write_loop :
    List ℕ → (num_written to_write : ℕ) → (taken : List ℕ) → Sends → Outcome (Option ℕ × List ℕ)
write_loop buf num_written to_write taken [] =
    if ltb num_written (length buf) then unfinished else returns (some num_written, taken)
write_loop buf num_written to_write taken (none ∷ rs) =
    if ltb num_written (length buf)
    then returns (none, taken)
    else returns (some num_written, taken)
write_loop buf num_written to_write taken (some num ∷ rs) =
    let rest =
      write_loop buf (num_written + num) ((to_write + 2 ^ 16 - num) % 2 ^ 16)
        (taken ++ take num (drop num_written buf)) rs in
    if ltb num_written (length buf) then rest else returns (some num_written, taken)

unfoldable pub write_tcp : List ℕ → Sends → Outcome (Option ℕ × List ℕ)
unfolding write_loop
write_tcp buf rs = write_loop buf 0 (length buf) [] rs

-- A callback has a state of its own; it gives the bytes it sent and whether it is finished.
abbrev pub Callback : Type 0 → Type 0
Callback S = S → List ℕ → Sends → Outcome (S × (List ℕ × Bool))

-- What a round of a connection meets: what recv() gives, `none` for an error and no bytes at the end,
-- and what the calls of send() in it return.
abbrev pub Round : Type 0
Round = Option (List ℕ) × Sends

abbrev is_end : List ℕ → Bool
is_end [] = true
is_end (x ∷ xs) = false

module _ {S : Type 0} (cb : Callback S) where
  -- The rounds of a connection: the state and all bytes sent.
  unfoldable pub connection : (read_done : Bool) → S → List Round → Outcome (S × List ℕ)
  connection read_done s [] = unfinished
  connection true s ((read, rs) ∷ rounds) = do
    (s', (out, callback_done)) ← cb s [] rs
    let rest = connection true s' rounds
    if callback_done then returns (s', out) else (do (s'', more) ← rest; returns (s'', out ++ more))
  connection false s ((none, rs) ∷ rounds) = returns (s, [])
  connection false s ((some bytes, rs) ∷ rounds) = do
    (s', (out, callback_done)) ← cb s bytes rs
    let rest = connection (is_end bytes) s' rounds
    if callback_done && is_end bytes
        then returns (s', out)
        else (do (s'', more) ← rest; returns (s'', out ++ more))

  -- The connections that accept() gives, `none` for its error, which ends the task.
  unfoldable pub accept_loop : S → List (Option (List Round)) → Outcome (S × List (List ℕ))
  unfolding connection
  accept_loop s [] = unfinished
  accept_loop s (none ∷ conns) = returns (s, [])
  accept_loop s (some rounds ∷ conns) = do
    (s', out) ← connection false s rounds
    (s'', outs) ← accept_loop s' conns
    returns (s'', out ∷ outs)

  unfoldable pub tcp_server_task :
      S → (listening : Bool) → List (Option (List Round)) → Outcome (S × List (List ℕ))
  unfolding accept_loop
  tcp_server_task s listening conns = if listening then accept_loop s conns else returns (s, [])

-- TcpEcho: the state is the number of bytes sent so far, a `uint32_t`, to which a -1 is added too.
unfoldable pub echo : Callback ℕ
unfolding write_tcp
echo byte_count bytes rs = do
  (num, out) ← write_tcp bytes rs
  let added = elim num as (λ o. ℕ) [ none ↦ 2 ^ 32 - 1 | some n ↦ n ]
  returns ((byte_count + added) % 2 ^ 32, (out, true))

-- The fields that the set-up of a server fills in.
pub record TcpServer : Type 0 where
  pub port : ℕ
  pub sock : ℕ
  pub buffer : Option (List ℕ)
  pub data_len : ℕ

-- The descriptor that socket() gives, `none` for an error, and whether bind() succeeds.
unfoldable pub tcp_socket_init :
    TcpServer → (port : ℕ) → (sock : Option ℕ) → (bound : Bool) → Status × TcpServer
tcp_socket_init svr port sock bound = elim sock [
  | none ↦ (failed, record svr { port = port })
  | some s ↦ ((if bound then done else failed), record svr { port = port; sock = s })
]

unfoldable pub start_tcp_server :
    TcpServer → (port : ℕ) → (sock : Option ℕ) → (bound created : Bool) → Status × TcpServer
unfolding tcp_socket_init
start_tcp_server svr port sock bound created =
    let (ret, svr) = tcp_socket_init svr port sock bound in
    elim ret [ failed ↦ (failed, svr) | done ↦ ((if created then done else failed), svr) ]

-- `buf` is `none` for NULL, then `alloc` is what malloc() gives; `created` is whether the task can be
-- created. There is always a callback.
unfoldable pub tcp_server_init :
    TcpServer
    → (port : ℕ) → (buf alloc : Option (List ℕ)) → (buf_len : ℕ) → (sock : Option ℕ)
    → (bound created : Bool) → Status × TcpServer
unfolding start_tcp_server
tcp_server_init svr port buf alloc buf_len sock bound created =
    let buffer : Option (List ℕ) = elim buf [ none ↦ alloc | some b ↦ some b ] in
    elim buffer [
      | none ↦ (failed, record svr { buffer = none })
      | some b ↦
          start_tcp_server (record svr { buffer = some b; data_len = buf_len % 2 ^ 16 }) port sock
            bound created
    ]
