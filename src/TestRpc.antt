-- ===== src/TestRpc.antt =====
-- TestRpc/src/TestRpc.c: the handlers of a callset for tests. The messages of the callset are the
-- fields of one record, of which the tag says which count; the union that they share is not modelled.
-- An `int32_t` is a number below 2^32, and its addition wraps.
pub mod Calls
use esp32_components.Base.{ℕ, ◌+◌, ◌%◌, ◌^◌, List, [], ◌∷◌, Option, add32}
use esp32_components.ProtoRpc.{
  Frame, Exchange, Handler, HandlerEntry, handler_lookup, StatusEnum, rpc_success,
  rpc_handler_error,
}

pub record TestCallset : Type 0 where
  pub which_msg : ℕ
  pub a : ℕ
  pub b : ℕ
  pub sum : ℕ

abbrev pub add_call_tag : ℕ
add_call_tag = 1

abbrev pub add_reply_tag : ℕ
add_reply_tag = 2

abbrev pub setstruct_call_tag : ℕ
setstruct_call_tag = 3

abbrev pub setstruct_reply_tag : ℕ
setstruct_reply_tag = 4

abbrev pub handlererror_call_tag : ℕ
handlererror_call_tag = 5

abbrev pub handlererror_reply_tag : ℕ
handlererror_reply_tag = 6

module _ (World : Type 0) where
  unfoldable pub add : Handler TestCallset World
  add x = record x {
    reply = record x.reply { which_msg = add_reply_tag; sum = add32 x.call.a x.call.b };
    status = rpc_success;
  }

  unfoldable pub handler_error : Handler TestCallset World
  handler_error x = record x {
    reply = record x.reply { which_msg = handlererror_reply_tag };
    status = rpc_handler_error;
  }

  -- What it is called with is only printed.
  unfoldable pub setstruct : Handler TestCallset World
  setstruct x = record x {
    reply = record x.reply { which_msg = setstruct_reply_tag };
    status = rpc_success;
  }

  unfoldable pub handlers : List (HandlerEntry TestCallset World)
  unfolding add setstruct handler_error
  handlers =
      record { tag = add_call_tag; handler = add }
      ∷ record { tag = setstruct_call_tag; handler = setstruct }
      ∷ record { tag = handlererror_call_tag; handler = handler_error }
      ∷ []

  unfoldable pub resolver : Frame TestCallset → Option (Handler TestCallset World)
  unfolding handlers handler_lookup
  resolver call_frame = handler_lookup call_frame.callset.which_msg handlers
