-- ===== src/TcpRpc.antt =====
-- TcpRpcServer/src/TcpRpcServer.c: remote calls over TCP. What is read goes through the deframer, the
-- server and the framer back to the connection.
pub mod RoundTrip
mod Tests
use esp32_components.Base.{
  ℕ, Bool, true, List, [], ◌∷◌, none, some, ◌==◌, if◌then◌else◌, take, Outcome, returns, fails,
  faults, unfinished, ◌>>=◌,
}
use esp32_components.CobsFrame.{Deframer, Reply, deframer, framer, frame, nothing}
use esp32_components.ProtoRpc.{ProtoRpc, Nanopb, server}
use esp32_components.Tcp.{Callback, Sends, write_tcp}

-- The server with the static buffers of received and sent messages. Of a buffer only what a call writes
-- is read, so what an error leaves in it is not kept.
pub record TcpRpcServer (Body World : Type 0) : Type 0 where
  pub rpc : ProtoRpc Body World
  pub world : World
  pub deframer : Deframer
  pub rcv_msg : List ℕ
  pub tx_buf : List ℕ

module _ {Body World : Type 0} (pb : Nanopb Body) where
  -- A reply is framed and written; an error of the framer ends the call.
  unfoldable pub send_framed :
      TcpRpcServer Body World
      → Sends
      → Outcome (ℕ × List ℕ)
      → Outcome (TcpRpcServer Body World × (List ℕ × Bool))
  send_framed svr rs fails = returns (svr, ([], true))
  send_framed svr rs faults = faults
  send_framed svr rs unfinished = unfinished
  send_framed svr rs (returns (framed_size, enc)) = do
    (num_sent, out) ← write_tcp (take framed_size enc) rs
    returns (record svr { tx_buf = enc }, (out, true))

  unfoldable pub send_reply :
      TcpRpcServer Body World → Sends → List ℕ → Outcome (TcpRpcServer Body World × (List ℕ × Bool))
  unfolding send_framed
  send_reply svr rs [] = returns (svr, ([], true))
  send_reply svr rs (x ∷ xs) = send_framed svr rs (framer (x ∷ xs) svr.tx_buf 4096)

  -- A message of `num` bytes at the start of the buffer.
  unfoldable pub serve_message :
      TcpRpcServer Body World
      → Sends
      → (num : ℕ) → List ℕ
      → Outcome (TcpRpcServer Body World × (List ℕ × Bool))
  unfolding send_reply
  serve_message svr rs num rcv_msg =
      let served = server pb svr.rpc svr.world (take num rcv_msg) 4096 in
      if num == 0
      then returns (svr, ([], true))
      else send_reply (record svr { rpc = served.rpc; world = served.world; rcv_msg = rcv_msg }) rs
          served.reply

  unfoldable pub after_deframe :
      TcpRpcServer Body World → Sends → Reply → Outcome (TcpRpcServer Body World × (List ℕ × Bool))
  unfolding serve_message
  after_deframe svr rs nothing = returns (svr, ([], true))
  after_deframe svr rs (frame num rcv_msg) = serve_message svr rs num rcv_msg

  unfoldable pub tcp_rpc_callback : Callback (TcpRpcServer Body World)
  unfolding after_deframe
  tcp_rpc_callback svr [] rs = returns (svr, ([], true))
  tcp_rpc_callback svr (x ∷ xs) rs = do
    (reply, d) ← deframer svr.deframer (x ∷ xs) svr.rcv_msg 4096
    after_deframe (record svr { deframer = d }) rs reply
