-- ===== src/Udp/Replies.antt =====
-- The datagrams that the UDP servers send.
use esp32_components.Base.{
  ℕ, ◌≡◌, refl, sym, ap, ◌∙◌, Bool, true, false, List, [], ◌∷◌, ◌++◌, append_assoc, append-nil,
  Option, if◌then◌else◌, ltb, lt→ltb, length, arith,
}
use esp32_components.ProtoRpc.{ProtoRpc, Nanopb, server, serve_all}
use esp32_components.Udp.{
  Datagram, UdpSocket, datagram, again, recv_error, Event, Callback, read_udp, write_udp, serve_one,
  server_task, rpc_callback,
}

-- The datagrams among the events that are not empty.
unfoldable pub requests : List Event → List Datagram
requests [] = []
requests (e ∷ es) =
    let rest = requests es in
    elim e.0 [
      | datagram from bytes ↦ elim bytes [ [] ↦ rest | x ∷ xs ↦ (from, x ∷ xs) ∷ rest ]
      | again ↦ rest
      | recv_error ↦ rest
    ]

abbrev pub payloads : List Datagram → List (List ℕ)
payloads [] = []
payloads (q ∷ qs) = q.1 ∷ payloads qs

-- The replies to requests, each to the sender of its request; an empty one is not sent.
unfoldable pub addressed : List Datagram → List (List ℕ) → List Datagram
addressed [] rs = []
addressed (q ∷ qs) [] = []
addressed (q ∷ qs) ([] ∷ rs) = addressed qs rs
addressed (q ∷ qs) ((x ∷ xs) ∷ rs) = (q.0, x ∷ xs) ∷ addressed qs rs

not_empty : (x : ℕ) (xs : List ℕ) → ltb 0 (length (x ∷ xs)) ≡ true
not_empty x xs = lt→ltb 0 (length (x ∷ xs)) (omega arith)

-- A datagram that is not empty goes to the callback, with its source on the socket.
serve_one-request :
    {S : Type 0} (cb : Callback S) (s : S) (udp : UdpSocket) (from x : ℕ) (xs : List ℕ)
    (result : Option ℕ)
    → serve_one cb s udp (datagram from (x ∷ xs), result)
      ≡ cb s (record udp { source_addr = from }) (x ∷ xs) result
unfolding serve_one read_udp
serve_one-request cb s udp from x xs result =
    let udp' : UdpSocket = record udp { source_addr = from } in
    ap (λ b. if b then cb s udp' (x ∷ xs) result else (s, udp')) (not_empty x xs)

sent_if : List Datagram → (from : ℕ) → List ℕ → List Datagram
sent_if sent from r = if ltb 0 (length r) then sent ++ (from, r) ∷ [] else sent

sent_if-addressed :
    (sent : List Datagram) (q : Datagram) (qs : List Datagram) (r : List ℕ) (rs : List (List ℕ))
    → sent_if sent q.0 r ++ addressed qs rs ≡ sent ++ addressed (q ∷ qs) (r ∷ rs)
unfolding sent_if addressed
sent_if-addressed sent q qs [] rs = refl
sent_if-addressed sent q qs (x ∷ xs) rs =
    ap (λ b. (if b then sent ++ (q.0, x ∷ xs) ∷ [] else sent) ++ addressed qs rs) (not_empty x xs)
    ∙ append_assoc sent ((q.0, x ∷ xs) ∷ []) (addressed qs rs)

if-sent :
    (b : Bool) (udp udp' : UdpSocket)
    → (if b then udp else udp').sent ≡ (if b then udp.sent else udp'.sent)
if-sent true udp udp' = refl
if-sent false udp udp' = refl

-- Over any events, timeouts and errors among them, the task of the UDP server of remote calls sends
-- exactly the replies that the RPC server gives to the requests in their order, each to the sender of
-- its request, and nothing for an empty reply.
pub server_task-addressed :
    {Body World : Type 0} (pb : Nanopb Body) (rpc : ProtoRpc Body World) (w : World)
    (udp : UdpSocket) (es : List Event)
    → (server_task (rpc_callback pb) (rpc, w) udp es).1.sent
      ≡ udp.sent ++ addressed (requests es) (serve_all pb rpc w (payloads (requests es)) 4096)
unfolding server_task serve_one read_udp requests addressed serve_all rpc_callback write_udp sent_if
server_task-addressed pb rpc w udp [] = sym (append-nil udp.sent)
server_task-addressed pb rpc w udp ((again, result) ∷ es) = server_task-addressed pb rpc w udp es
server_task-addressed pb rpc w udp ((recv_error, result) ∷ es) =
    server_task-addressed pb rpc w udp es
server_task-addressed pb rpc w udp ((datagram from [], result) ∷ es) =
    server_task-addressed pb rpc w (record udp { source_addr = from }) es
server_task-addressed pb rpc w udp ((datagram from (x ∷ xs), result) ∷ es) =
    let udp' : UdpSocket = record udp { source_addr = from } in
    let served = server pb rpc w (x ∷ xs) 4096 in
    let after : UdpSocket =
      if ltb 0 (length served.reply)
      then record udp' { sent = udp.sent ++ (from, served.reply) ∷ [] }
      else udp' in
    let rest = serve_all pb served.rpc served.world (payloads (requests es)) 4096 in
    ap (λ r. (server_task (rpc_callback pb) r.0 r.1 es).1.sent)
      (serve_one-request (rpc_callback pb) (rpc, w) udp from x xs result)
    ∙ server_task-addressed pb served.rpc served.world after es
    ∙ ap (λ l. l ++ addressed (requests es) rest)
        (if-sent (ltb 0 (length served.reply))
          (record udp' { sent = udp.sent ++ (from, served.reply) ∷ [] }) udp')
    ∙ sent_if-addressed udp.sent (from, x ∷ xs) (requests es) served.reply rest
