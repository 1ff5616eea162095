-- ===== src/TcpRpc/RoundTrip.antt =====
-- A framed call and its framed reply.
use esp32_components.Base.{
  ℕ, ◌+◌, ◌<◌, ◌≤◌, ◌≡◌, refl, sym, ap, ◌∙◌, Bool, true, false, List, [], ◌∷◌, ◌++◌, length, take,
  take-append, drop, arith, ne→==, if◌then◌else◌, Outcome, returns, ◌>>=◌,
}
use esp32_components.Cobs.Spec.{stuffed}
use esp32_components.Cobs.Clean.{zero_after_full}
use esp32_components.CobsFrame.Receive.{Ready}
use esp32_components.CobsFrame.RoundTrip.{framed, length-framed, framer-framed, deframer-framed}
use esp32_components.ProtoRpc.{Nanopb, Served, server}
use esp32_components.Tcp.{Sends, write_tcp}
use esp32_components.Tcp.Send.{Accepts, write_tcp-all}
use esp32_components.TcpRpc.{
  TcpRpcServer, send_framed, send_reply, serve_message, after_deframe, tcp_rpc_callback,
}

module _ {Body World : Type 0} (pb : Nanopb Body) where
  -- The answer is sent, and the state but for the buffer of what is sent is as given.
  abbrev pub SentBy :
      TcpRpcServer Body World
      → List ℕ
      → Outcome (TcpRpcServer Body World × (List ℕ × Bool))
      → Type 0
  SentBy svr out m = (tx : List ℕ) × (m ≡ returns (record svr { tx_buf = tx }, (out, true)))

  send_reply-SentBy :
      (svr : TcpRpcServer Body World) (rs : Sends) (reply : List ℕ)
      → 1 ≤ length reply
      → length (stuffed reply) + 2 ≤ length svr.tx_buf
      → length (stuffed reply) + 2 < 4096
      → Accepts rs (length (framed reply))
      → SentBy svr (framed reply) (send_reply pb svr rs reply)
  unfolding send_reply send_framed
  send_reply-SentBy svr rs [] h r m a = absurd (omega arith)
  send_reply-SentBy svr rs (x ∷ xs) h r m a =
      let reply = x ∷ xs in
      let n = length (stuffed reply) + 2 in
      let rest = drop n svr.tx_buf in
      let front : take n (framed reply ++ rest) ≡ framed reply =
        ap (λ k. take k (framed reply ++ rest)) (sym (length-framed reply))
        ∙ take-append (framed reply) rest in
      (
        framed reply ++ rest,
        ap (send_framed pb svr rs) (framer-framed reply svr.tx_buf 4096 r m)
            ∙ ap
                (λ l. write_tcp l rs >>= λ w.
                  returns (record svr { tx_buf = framed reply ++ rest }, (w.1, true)))
                front
            ∙ ap
                (λ m.
                  m >>= λ w. returns (record svr { tx_buf = framed reply ++ rest }, (w.1, true)))
                (write_tcp-all (framed reply) rs (omega (arith, length-framed reply)) a),
      )

  serve_message-send_reply :
      (svr : TcpRpcServer Body World) (rs : Sends) (msg rest : List ℕ)
      → 1 ≤ length msg
      → let served = server pb svr.rpc svr.world msg 4096 in
        serve_message pb svr rs (length msg) (msg ++ rest)
        ≡ send_reply pb
            (record svr { rpc = served.rpc; world = served.world; rcv_msg = msg ++ rest })
            rs
            served.reply
  unfolding serve_message
  serve_message-send_reply svr rs msg rest h =
      let out = λ (s : Served Body World).
        send_reply pb (record svr { rpc = s.rpc; world = s.world; rcv_msg = msg ++ rest }) rs
          s.reply in
      ap
        (λ b.
          if b
          then returns (svr, ([], true))
          else out (server pb svr.rpc svr.world (take (length msg) (msg ++ rest)) 4096))
        (ne→== (length msg) 0 (omega arith))
      ∙ ap (λ m. out (server pb svr.rpc svr.world m 4096)) (take-append msg rest)

  -- A call that is read in one piece as a frame, with a ready deframer and buffers with the room, is
  -- given to the RPC server; if that has a reply and the network takes the frame of it, that frame is
  -- what is sent. The deframer is then ready again. In the call, no zero byte follows a full run of 254
  -- nonzero ones.
  pub tcp_rpc_callback-framed :
      {cap : ℕ} (svr : TcpRpcServer Body World) (rs : Sends) (msg : List ℕ)
      → zero_after_full 0 msg ≡ false
      → 1 ≤ length msg
      → length msg ≤ length svr.rcv_msg
      → length msg ≤ 4096
      → Ready cap [] svr.deframer
      → length (stuffed msg) + 2 ≤ cap
      → length (stuffed msg) < svr.deframer.work_size
      → let served = server pb svr.rpc svr.world msg 4096 in
        1 ≤ length served.reply
        → length (stuffed served.reply) + 2 ≤ length svr.tx_buf
        → length (stuffed served.reply) + 2 < 4096
        → Accepts rs (length (framed served.reply))
        → (svr' : TcpRpcServer Body World) × (tcp_rpc_callback pb svr (framed msg) rs
            ≡ returns (svr', (framed served.reply, true)))
          × Ready cap [] svr'.deframer
          × (svr'.rpc ≡ served.rpc)
          × (svr'.world ≡ served.world)
  unfolding tcp_rpc_callback after_deframe framed
  tcp_rpc_callback-framed svr rs msg clean h r m ready c w h' r' m' a =
      let served = server pb svr.rpc svr.world msg 4096 in
      let rest = drop (length msg) svr.rcv_msg in
      let (d, e, ready') = deframer-framed msg clean svr.rcv_msg 4096 r m svr.deframer ready c w in
      let begun : TcpRpcServer Body World = record svr {
        rpc = served.rpc;
        world = served.world;
        deframer = d;
        rcv_msg = msg ++ rest;
      } in
      let (tx, f) = send_reply-SentBy begun rs served.reply h' r' m' a in
      (
        record begun { tx_buf = tx },
        ap (λ o. o >>= λ p. after_deframe pb (record svr { deframer = p.1 }) rs p.0) e
            ∙ serve_message-send_reply (record svr { deframer = d }) rs msg rest h
            ∙ f,
        ready',
        refl,
        refl,
      )
