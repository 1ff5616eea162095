-- ===== src/Udp.antt =====
-- UdpSocket/src/UdpSocket.c, UdpServer/src/UdpServer.c, UdpEcho/src/UdpEcho.c and
-- UdpRpcServer/src/UdpRpcServer.c: datagrams that come in are handed to a callback, which may send
-- others. What the socket calls return is given; the datagrams that are sent are recorded.
pub mod Replies
mod Tests
use esp32_components.Base.{
  ℕ, ◌+◌, ◌%◌, ◌^◌, Bool, true, false, List, [], ◌∷◌, ◌++◌, Option, none, some, ◌==◌, if◌then◌else◌,
  ltb, length, take, replicate, Status, done, failed,
}
use esp32_components.ProtoRpc.{ProtoRpc, Nanopb, server}

-- An address is a number.
abbrev pub Datagram : Type 0
Datagram = ℕ × List ℕ

pub record UdpSocket : Type 0 where
  pub port : ℕ
  pub sock : ℕ
  pub source_addr : ℕ
  pub sent : List Datagram

-- What recvfrom() gives: a datagram, EAGAIN or another error.
pub data Received : Type 0 where
  datagram : (from : ℕ) → List ℕ → Received
  again : Received
  recv_error : Received

-- The bytes read, none of them after a timeout; `none` is a negative result.
unfoldable pub read_udp : UdpSocket → Received → Option (List ℕ) × UdpSocket
read_udp udp (datagram from bytes) = (some bytes, record udp { source_addr = from })
read_udp udp again = (some [], udp)
read_udp udp recv_error = (none, udp)

-- `result` is what sendto() returns, `none` for an error.
unfoldable pub write_udp : UdpSocket → List ℕ → (result : Option ℕ) → Option ℕ × UdpSocket
write_udp udp buffer result =
    (result, record udp { sent = udp.sent ++ (udp.source_addr, buffer) ∷ [] })

-- The descriptor that socket() gives, `none` for an error, and whether bind() succeeds.
unfoldable pub socket_init :
    UdpSocket → (port : ℕ) → (sock : Option ℕ) → (bound : Bool) → Status × UdpSocket
socket_init udp port sock bound =
    let udp : UdpSocket = record udp { port = port } in
    elim sock [
      | none ↦ (failed, udp)
      | some s ↦ ((if bound then done else failed), record udp { sock = s })
    ]

-- The `data_len` is a `uint16_t`.
pub record UdpServer : Type 0 where
  pub udpsock : UdpSocket
  pub buffer : Option (List ℕ)
  pub data_len : ℕ

unfoldable pub start_server :
    UdpServer → (port : ℕ) → (sock : Option ℕ) → (bound created : Bool) → Status × UdpServer
unfolding socket_init
start_server svr port sock bound created =
    let (ret, udp) = socket_init svr.udpsock port sock bound in
    elim ret [
      | failed ↦ (failed, record svr { udpsock = udp })
      | done ↦ ((if created then done else failed), record svr { udpsock = udp })
    ]

-- `buf` is `none` for NULL, then `alloc` is what malloc() gives; `created` is whether the task can be
-- created. There is always a callback.
unfoldable pub server_init :
    UdpServer
    → (port : ℕ) → (buf alloc : Option (List ℕ)) → (buf_len : ℕ) → (sock : Option ℕ)
    → (bound created : Bool) → Status × UdpServer
unfolding start_server
server_init svr port buf alloc buf_len sock bound created =
    let buffer : Option (List ℕ) = elim buf [ none ↦ alloc | some b ↦ some b ] in
    elim buffer [
      | none ↦ (failed, record svr { buffer = none })
      | some b ↦
          start_server (record svr { buffer = some b; data_len = buf_len % 2 ^ 16 }) port sock bound
            created
    ]

-- What comes in and what sendto() returns if something is sent on it.
abbrev pub Event : Type 0
Event = Received × Option ℕ

-- A callback has a state of its own.
abbrev pub Callback : Type 0 → Type 0
Callback S = S → UdpSocket → List ℕ → (result : Option ℕ) → S × UdpSocket

module _ {S : Type 0} (cb : Callback S) where
  -- One round of the task: the callback is called for a datagram that is not empty.
  unfoldable pub serve_one : S → UdpSocket → Event → S × UdpSocket
  unfolding read_udp
  serve_one s udp e =
      let (num_read, udp) = read_udp udp e.0 in
      elim num_read [
        | none ↦ (s, udp)
        | some data_read ↦ if ltb 0 (length data_read) then cb s udp data_read e.1 else (s, udp)
      ]

  unfoldable pub server_task : S → UdpSocket → List Event → S × UdpSocket
  unfolding serve_one
  server_task s udp [] = (s, udp)
  server_task s udp (e ∷ es) = let (s, udp) = serve_one s udp e in server_task s udp es

-- UdpEcho: the state is the number of bytes sent so far, a `uint32_t`.
unfoldable pub echo_callback : Callback ℕ
unfolding write_udp
echo_callback byte_count udp data_read result =
    let (num, udp) = write_udp udp data_read result in
    (elim num [ none ↦ byte_count | some n ↦ (byte_count + n) % 2 ^ 32 ], udp)

-- UdpRpcServer: the state is that of the RPC server and of what its handlers act on. What sendto()
-- returns is only logged.
unfoldable pub rpc_callback :
    {Body World : Type 0} → Nanopb Body → Callback (ProtoRpc Body World × World)
unfolding write_udp
rpc_callback pb (rpc, world) udp data_read result =
    let served = server pb rpc world data_read 4096 in
    let (num, udp') = write_udp udp served.reply result in
    ((served.rpc, served.world), if ltb 0 (length served.reply) then udp' else udp)
