-- ===== src/Udp/Tests.antt =====
-- The server of remote calls over UDP with messages of one byte, the sequence number.
use esp32_components.Base.{ℕ, ◌≡◌, Bool, true, false, List, [], ◌∷◌, ◌++◌, none, some}
use esp32_components.ProtoRpc.{Frame, Nanopb, ProtoRpc, rpc_success, serve_all}
use esp32_components.Udp.{UdpSocket, Event, datagram, again, recv_error, server_task, rpc_callback}
use esp32_components.Udp.Replies.{requests, payloads, addressed, server_task-addressed}

abbrev with_seqn : ℕ → Frame Unit
with_seqn n = record {
  has_header = false;
  header = record { seqn = n; no_reply = false; status = rpc_success };
  which_callset = 1;
  callset = _;
}

abbrev first_byte : List ℕ → Bool × Frame Unit
first_byte [] = (false, with_seqn 0)
first_byte (x ∷ xs) = (true, with_seqn x)

abbrev pb : Nanopb Unit
pb = record {
  pb_encode = λ max f. some (f.header.seqn ∷ []);
  pb_decode = λ msg target. first_byte msg;
}

abbrev rpc : ProtoRpc Unit Unit
rpc = record {
  call_frame = with_seqn 0;
  reply_frame = with_seqn 0;
  resolvers = record { tag = 1; resolver = λ f. some (λ x. x) } ∷ [];
}

abbrev socket : UdpSocket
socket = record { port = 13001; sock = 3; source_addr = 0; sent = [] }

-- Two senders, with a timeout and an error in between.
abbrev events : List Event
events =
    (datagram 10 (5 ∷ []), some 1)
    ∷ (again, none)
    ∷ (recv_error, none)
    ∷ (datagram 20 (6 ∷ []), some 1)
    ∷ []

server_task-addressed_example :
    (server_task (rpc_callback pb) (rpc, _) socket events).1.sent
    ≡ [] ++ addressed (requests events) (serve_all pb rpc _ (payloads (requests events)) 4096)
server_task-addressed_example = server_task-addressed pb rpc _ socket events
