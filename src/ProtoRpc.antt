-- ===== src/ProtoRpc.antt =====
-- ProtoRpc/src/ProtoRpc.c and PbGeneric/src/PbGeneric.c: the server of remote procedure calls. A frame
-- is the structure that nanopb unpacks a message into. The callsets of an application are the type
-- `Body`, what its handlers act on the type `World`.
pub mod Session
mod Tests
use esp32_components.Base.{
  ℕ, ◌+◌, ◌*◌, ◌/◌, Bool, true, false, List, [], ◌∷◌, Option, none, some, ◌==◌, if◌then◌else◌, u8,
}

pub data StatusEnum : Type 0 where
  rpc_success rpc_bad_resolver_lookup rpc_bad_handler_lookup rpc_handler_error : StatusEnum

pub record Header : Type 0 where
  pub seqn : ℕ
  pub no_reply : Bool
  pub status : StatusEnum

-- `which_callset` is a `pb_size_t` of several bytes, the lowest first.
pub record Frame (Body : Type 0) : Type 0 where
  pub has_header : Bool
  pub header : Header
  pub which_callset : ℕ
  pub callset : Body

module _ (Body World : Type 0) where
  -- The callsets of both frames and the status, which the handler may change.
  pub record Exchange : Type 0 where
    pub call : Body
    pub reply : Body
    pub status : StatusEnum
    pub world : World

  abbrev pub Handler : Type 0
  Handler = Exchange → Exchange

  abbrev pub Resolver : Type 0
  Resolver = Frame Body → Option Handler

  pub record ResolverEntry : Type 0 where
    pub tag : ℕ
    pub resolver : Resolver

  pub record ProtoRpc : Type 0 where
    pub call_frame : Frame Body
    pub reply_frame : Frame Body
    pub resolvers : List ResolverEntry

  pub record HandlerEntry : Type 0 where
    pub tag : ℕ
    pub handler : Handler

-- `none` is NULL.
unfoldable pub callset_lookup :
    {Body World : Type 0} → ℕ → List (ResolverEntry Body World) → Option (Resolver Body World)
callset_lookup which_callset [] = none
callset_lookup which_callset (entry ∷ entries) =
    let rest = callset_lookup which_callset entries in
    if entry.tag == which_callset then some entry.resolver else rest

-- The same loop over the handlers of a callset, in each resolver.
unfoldable pub handler_lookup :
    {Body World : Type 0} → ℕ → List (HandlerEntry Body World) → Option (Handler Body World)
handler_lookup which_msg [] = none
handler_lookup which_msg (entry ∷ entries) =
    let rest = handler_lookup which_msg entries in
    if entry.tag == which_msg then some entry.handler else rest

-- nanopb: the bytes of a frame, `none` if it cannot be encoded into that many, and the frame that a
-- message is unpacked into, with whether it could be.
pub record Nanopb (Body : Type 0) : Type 0 where
  pub pb_encode : (max : ℕ) → Frame Body → Option (List ℕ)
  pub pb_decode : List ℕ → Frame Body → Bool × Frame Body

unfoldable pub pack : {Body : Type 0} → Nanopb Body → ℕ → Frame Body → List ℕ
pack pb max src = elim (pb.pb_encode max src) [ none ↦ [] | some bytes ↦ bytes ]

abbrev pub unpack : {Body : Type 0} → Nanopb Body → List ℕ → Frame Body → Bool × Frame Body
unpack pb buf target = pb.pb_decode buf target

-- What a call of the server leaves, and the message to reply with, empty for none.
pub record Served (Body World : Type 0) : Type 0 where
  pub rpc : ProtoRpc Body World
  pub world : World
  pub reply : List ℕ

-- The tag goes into one byte.
unfoldable pub set_tag : (tag new : ℕ) → ℕ
set_tag tag new = tag / 256 * 256 + u8 new

module _ {Body World : Type 0} (pb : Nanopb Body) where
  unfoldable pub fail_reply :
      ProtoRpc Body World → World → (max : ℕ) → StatusEnum → Served Body World
  fail_reply rpc world max status =
      let header : Header = record rpc.reply_frame.header {
        seqn = rpc.call_frame.header.seqn;
        status = status;
      } in
      let frame : Frame Body = record rpc.reply_frame { header = header } in
      record { rpc = record rpc { reply_frame = frame }; world = world; reply = pack pb max frame }

  unfoldable pub run_handler :
      ProtoRpc Body World → World → (max which_callset : ℕ) → Handler Body World → Served Body World
  unfolding set_tag
  run_handler rpc world max which_callset handler =
      let done = handler (record {
        call = rpc.call_frame.callset;
        reply = rpc.reply_frame.callset;
        status = rpc.reply_frame.header.status;
        world = world;
      }) in
      let call : Frame Body = record rpc.call_frame { callset = done.call } in
      let header : Header = record rpc.reply_frame.header { status = done.status } in
      let silent : Frame Body = record rpc.reply_frame { header = header; callset = done.reply } in
      let frame : Frame Body = record silent {
        has_header = true;
        header = record header { seqn = call.header.seqn };
        which_callset = set_tag silent.which_callset which_callset;
      } in
      if call.header.no_reply
      then record {
        rpc = record rpc { call_frame = call; reply_frame = silent };
        world = done.world;
        reply = [];
      }
      else record {
        rpc = record rpc { call_frame = call; reply_frame = frame };
        world = done.world;
        reply = pack pb max frame;
      }

  unfoldable pub resolve :
      ProtoRpc Body World
      → World
      → (max which_callset : ℕ) → Resolver Body World
      → Served Body World
  unfolding fail_reply run_handler
  resolve rpc world max which_callset resolver = elim (resolver rpc.call_frame) [
    | none ↦ fail_reply rpc world max rpc_bad_handler_lookup
    | some handler ↦ run_handler rpc world max which_callset handler
  ]

  -- A call that is unpacked. Of its tag one byte is read.
  unfoldable pub dispatch_call : ProtoRpc Body World → World → (max : ℕ) → Served Body World
  unfolding resolve fail_reply
  dispatch_call rpc world max =
      let which_callset = u8 rpc.call_frame.which_callset in
      elim (callset_lookup which_callset rpc.resolvers) [
        | none ↦ fail_reply rpc world max rpc_bad_resolver_lookup
        | some resolver ↦ resolve rpc world max which_callset resolver
      ]

  unfoldable pub server : ProtoRpc Body World → World → List ℕ → (max : ℕ) → Served Body World
  unfolding dispatch_call
  server rpc world rcvd_buf max =
      let (ok, call) = unpack pb rcvd_buf rpc.call_frame in
      let rpc : ProtoRpc Body World = record rpc { call_frame = call } in
      if ok then dispatch_call rpc world max else record { rpc = rpc; world = world; reply = [] }

  -- Messages that come one after the other, and their replies.
  unfoldable pub serve_all : ProtoRpc Body World → World → List (List ℕ) → (max : ℕ) → List (List ℕ)
  unfolding server
  serve_all rpc world [] max = []
  serve_all rpc world (msg ∷ msgs) max =
      let served = server rpc world msg max in
      served.reply ∷ serve_all served.rpc served.world msgs max
