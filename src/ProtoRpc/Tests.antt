-- ===== src/ProtoRpc/Tests.antt =====
-- The theorems on the server with the test callset and messages of three numbers: the sequence number,
-- the tag of the callset and the tag of the message. The addends are always 20 and 22.
use esp32_components.Base.{ℕ, ◌≡◌, refl, Bool, true, false, List, [], ◌∷◌, some}
use esp32_components.ProtoRpc.{
  Frame, Nanopb, ProtoRpc, pack, serve_all, rpc_success, callset_lookup,
}
use esp32_components.ProtoRpc.Session.{Session, serve_all-Session}
use esp32_components.TestRpc.{TestCallset, resolver, add, handlers}
use esp32_components.ProtoRpc.{handler_lookup}

abbrev zeros : TestCallset
zeros = record { which_msg = 0; a = 0; b = 0; sum = 0 }

abbrev blank : Frame TestCallset
blank = record {
  has_header = false;
  header = record { seqn = 0; no_reply = false; status = rpc_success };
  which_callset = 0;
  callset = zeros;
}

abbrev decoded : ℕ → ℕ → ℕ → Frame TestCallset
decoded seqn callset msg = record {
  has_header = true;
  header = record { seqn = seqn; no_reply = false; status = rpc_success };
  which_callset = callset;
  callset = record { which_msg = msg; a = 20; b = 22; sum = 0 };
}

abbrev three_numbers : List ℕ → Bool × Frame TestCallset
three_numbers (seqn ∷ callset ∷ msg ∷ []) = (true, decoded seqn callset msg)
three_numbers _ = (false, blank)

-- A reply is the sequence number, the tags and the sum.
abbrev pb : Nanopb TestCallset
pb = record {
  pb_encode =
      λ max f. some (f.header.seqn ∷ f.which_callset ∷ f.callset.which_msg ∷ f.callset.sum ∷ []);
  pb_decode = λ msg target. three_numbers msg;
}

abbrev rpc : ProtoRpc TestCallset Unit
rpc = record {
  call_frame = blank;
  reply_frame = blank;
  resolvers = record { tag = 2; resolver = resolver Unit } ∷ [];
}

abbrev messages : List (List ℕ)
messages = (6 ∷ 9 ∷ 1 ∷ []) ∷ (7 ∷ 2 ∷ 1 ∷ []) ∷ (8 ∷ []) ∷ []

-- There is no callset 9, and the last message cannot be unpacked.
messages_replies :
    serve_all pb rpc _ messages 4096 ≡ (6 ∷ 0 ∷ 0 ∷ 0 ∷ []) ∷ (7 ∷ 2 ∷ 2 ∷ 42 ∷ []) ∷ [] ∷ []
unfolding serve_all resolver handlers handler_lookup callset_lookup pack add
messages_replies = refl

serve_all-Session_example :
    Session pb 4096 rpc.resolvers blank false messages (serve_all pb rpc _ messages 4096)
serve_all-Session_example = serve_all-Session pb 4096 (λ m f g. refl) blank rpc _ messages
