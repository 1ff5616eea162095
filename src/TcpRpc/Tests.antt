-- ===== src/TcpRpc/Tests.antt =====
-- A call of two bytes over TCP, of which the first is the sequence number.
use esp32_components.Base.{
  ℕ, ◌≡◌, refl, Bool, true, false, List, [], ◌∷◌, replicate, none, some, returns, arith,
}
use esp32_components.SwFifo.Inv.{contents}
use esp32_components.Cobs.Spec.{stuff}
use esp32_components.Cobs.Clean.{zero_after_full}
use esp32_components.CobsFrame.{Deframer, starting}
use esp32_components.CobsFrame.Receive.{Ready}
use esp32_components.CobsFrame.RoundTrip.{framed}
use esp32_components.ProtoRpc.{Frame, Nanopb, ProtoRpc, rpc_success, server, pack, callset_lookup}
use esp32_components.TcpRpc.{TcpRpcServer, tcp_rpc_callback}
use esp32_components.TcpRpc.RoundTrip.{tcp_rpc_callback-framed}

abbrev fresh : Deframer
fresh = record {
  state = starting;
  work = replicate 16 0;
  work_size = 16;
  fifo = record {
    name = [];
    depth = 16;
    item_size = 1;
    wr_idx = 0;
    rd_idx = 0;
    threadsafe = false;
    lock = none;
    mem = replicate 17 0;
    held = 0;
  };
  count = 0;
}

fresh-Ready : Ready 16 [] fresh
unfolding contents
fresh-Ready = record {
  holds = record {
    fits = record {
      valid = record {
        storage = refl;
        small = omega arith;
        sized = omega arith;
        wr_in = omega arith;
        rd_in = omega arith;
      };
      bytes = refl;
      deep = refl;
    };
    has = refl;
  };
  at_start = refl;
  sized = refl;
  small = omega arith;
}

abbrev with_seqn : ℕ → Frame Unit
with_seqn n = record {
  has_header = false;
  header = record { seqn = n; no_reply = false; status = rpc_success };
  which_callset = 0;
  callset = _;
}

abbrev first_byte : List ℕ → Bool × Frame Unit
first_byte [] = (false, with_seqn 0)
first_byte (x ∷ xs) = (true, with_seqn x)

abbrev pb : Nanopb Unit
pb = record {
  pb_encode = λ max f. some (f.header.seqn ∷ []);
  pb_decode = λ msg target. first_byte msg;
}

abbrev rpc : ProtoRpc Unit Unit
rpc = record {
  call_frame = with_seqn 0;
  reply_frame = with_seqn 0;
  resolvers = record { tag = 0; resolver = λ f. some (λ x. x) } ∷ [];
}

abbrev svr : TcpRpcServer Unit Unit
svr = record {
  rpc = rpc;
  world = _;
  deframer = fresh;
  rcv_msg = replicate 8 0;
  tx_buf = replicate 8 0;
}

abbrev msg : List ℕ
msg = 9 ∷ 1 ∷ []

tcp_rpc_callback-framed_example :
    let served = server pb rpc _ msg 4096 in
    (svr' : TcpRpcServer Unit Unit) × (tcp_rpc_callback pb svr (framed msg) (some 4 ∷ [])
      ≡ returns (svr', (framed served.reply, true)))
    × Ready 16 [] svr'.deframer
    × (svr'.rpc ≡ served.rpc)
    × (svr'.world ≡ served.world)
unfolding stuff zero_after_full framed server pack callset_lookup
tcp_rpc_callback-framed_example =
    tcp_rpc_callback-framed pb svr (some 4 ∷ []) msg refl (omega arith) (omega arith) (omega arith)
      fresh-Ready (omega arith) (omega arith) (omega arith) (omega arith) (omega arith)
      (omega arith, omega arith, _)
