-- ===== src/ProtoRpc/Session.antt =====
-- Sessions of calls: what each message gets, told from what is in the message and in the tables.
use esp32_components.Base.{
  ℕ, ◌≡◌, ◌≢◌, refl, subst, Bool, true, false, List, [], ◌∷◌, Option, none, some, u8, if◌then◌else◌,
  arith, ℕ_discrete, ne→==, eq→==,
}
use esp32_components.ProtoRpc.{
  StatusEnum, Exchange, Frame, Handler, Resolver, ResolverEntry, ProtoRpc, Nanopb, Served,
  callset_lookup, pack, unpack, fail_reply, set_tag, run_handler, resolve, dispatch_call, server,
  serve_all, rpc_success, rpc_bad_resolver_lookup, rpc_bad_handler_lookup,
}

-- The first entry with a tag, `none` if there is none.
pub data First {Body World : Type 0} (tag : ℕ)
    : List (ResolverEntry Body World) → Option (Resolver Body World) → Type 0 where
  nowhere : First tag [] none
  here :
      (entry : ResolverEntry Body World) (entries : List (ResolverEntry Body World))
      → entry.tag ≡ tag
      → First tag (entry ∷ entries) (some entry.resolver)
  later :
      (entry : ResolverEntry Body World) (entries : List (ResolverEntry Body World))
      {found : Option (Resolver Body World)}
      → entry.tag ≢ tag
      → First tag entries found
      → First tag (entry ∷ entries) found

callset_lookup-First :
    {Body World : Type 0} (tag : ℕ) (entries : List (ResolverEntry Body World))
    → First tag entries (callset_lookup tag entries)
unfolding callset_lookup
callset_lookup-First tag [] = nowhere
callset_lookup-First tag (entry ∷ entries) = elim (ℕ_discrete entry.tag tag) [
  | yes e ↦ rw (eq→== entry.tag tag e) (here entry entries e)
  | no n ↦ rw (ne→== entry.tag tag n) (later entry entries n (callset_lookup-First tag entries))
]

-- What holds in both cases of an option or a test holds of its value.
by_option :
    {A B : Type 0} (P : B → Type 0) (o : Option A) {n : B} {f : A → B}
    → (o ≡ none → P n)
    → ((a : A) → o ≡ some a → P (f a))
    → P (elim o [ none ↦ n | some a ↦ f a ])
by_option P none p q = p refl
by_option P (some a) p q = q a refl

by_test :
    {A : Type 0} (P : A → Type 0) (b : Bool) {s t : A}
    → (b ≡ true → P s)
    → (b ≡ false → P t)
    → P (if b then s else t)
by_test P true p q = p refl
by_test P false p q = q refl

module _ {Body World : Type 0} (pb : Nanopb Body) (max : ℕ) where
  -- The tables have a resolver for the callset of a call, and that a handler for the message.
  pub record Handles (tables : List (ResolverEntry Body World)) (call : Frame Body)
      (handler : Handler Body World) : Type 0 where
    resolver : Resolver Body World
    found : First (u8 call.which_callset) tables (some resolver)
    resolved : resolver call ≡ some handler

  -- There is no such resolver, or it knows no handler.
  pub data Unknown (tables : List (ResolverEntry Body World)) (call : Frame Body) : Type 0 where
    no_resolver : First (u8 call.which_callset) tables none → Unknown tables call
    no_handler :
        (resolver : Resolver Body World)
        → First (u8 call.which_callset) tables (some resolver)
        → resolver call ≡ none
        → Unknown tables call

  -- What a message gets. The flag says whether the reply frame is marked as having a header, without
  -- which the header is not encoded: `before` the message and `after` it.
  pub data Replied (tables : List (ResolverEntry Body World)) (unpacked : Bool × Frame Body)
      (before after : Bool) (reply : List ℕ) : Type 0 where
    unreadable :
        unpacked.0 ≡ false
        → reply ≡ []
        → after ≡ before
        → Replied tables unpacked before after reply
    refused :
        (frame : Frame Body)
        → unpacked.0 ≡ true
        → Unknown tables unpacked.1
        → reply ≡ pack pb max frame
        → frame.has_header ≡ before
        → frame.header.seqn ≡ unpacked.1.header.seqn
        → frame.header.status ≢ rpc_success
        → after ≡ before
        → Replied tables unpacked before after reply
    silent :
        (handler : Handler Body World)
        → unpacked.0 ≡ true
        → Handles tables unpacked.1 handler
        → unpacked.1.header.no_reply ≡ true
        → reply ≡ []
        → after ≡ before
        → Replied tables unpacked before after reply
    answered :
        (handler : Handler Body World) (given : Exchange Body World) (frame : Frame Body)
        → unpacked.0 ≡ true
        → Handles tables unpacked.1 handler
        → unpacked.1.header.no_reply ≡ false
        → reply ≡ pack pb max frame
        → frame.has_header ≡ true
        → frame.header.seqn ≡ unpacked.1.header.seqn
        → u8 frame.which_callset ≡ u8 unpacked.1.which_callset
        → given.call ≡ unpacked.1.callset
        → frame.header.status ≡ (handler given).status
        → frame.callset ≡ (handler given).reply
        → after ≡ true
        → Replied tables unpacked before after reply

  -- One reply for each message, in order, the flag being passed on.
  abbrev pub Session :
      List (ResolverEntry Body World) → Frame Body → Bool → List (List ℕ) → List (List ℕ) → Type 0
  Session tables blank before [] [] = Unit
  Session tables blank before [] (r ∷ rs) = ⊥
  Session tables blank before (m ∷ ms) [] = ⊥
  Session tables blank before (m ∷ ms) (r ∷ rs) =
      (after : Bool) × Replied tables (unpack pb m blank) before after r
      × Session tables blank after ms rs

  abbrev Step : ProtoRpc Body World → Bool → Served Body World → Type 0
  Step rpc ok s =
      Replied rpc.resolvers (ok, rpc.call_frame) rpc.reply_frame.has_header
        s.rpc.reply_frame.has_header s.reply
      × (s.rpc.resolvers ≡ rpc.resolvers)

  module _ (rpc : ProtoRpc Body World) (w : World) (ok : Bool) (k : ok ≡ true) where
    fail_reply-Step :
        (status : StatusEnum)
        → status ≢ rpc_success
        → Unknown rpc.resolvers rpc.call_frame
        → Step rpc ok (fail_reply pb rpc w max status)
    unfolding fail_reply
    fail_reply-Step status n h =
        let s = fail_reply pb rpc w max status in
        (refused s.rpc.reply_frame k h refl refl refl n refl, refl)

    run_handler-Step :
        (handler : Handler Body World)
        → Handles rpc.resolvers rpc.call_frame handler
        → Step rpc ok (run_handler pb rpc w max (u8 rpc.call_frame.which_callset) handler)
    unfolding run_handler set_tag
    run_handler-Step handler h =
        let given : Exchange Body World = record {
          call = rpc.call_frame.callset;
          reply = rpc.reply_frame.callset;
          status = rpc.reply_frame.header.status;
          world = w;
        } in
        by_test (Step rpc ok) rpc.call_frame.header.no_reply
          (λ quiet. (silent handler k h quiet refl refl, refl))
          (λ loud. (
            answered handler given _ k h loud refl refl refl (omega arith) refl refl refl refl,
            refl,
          ))

    resolve-Step :
        (resolver : Resolver Body World)
        → First (u8 rpc.call_frame.which_callset) rpc.resolvers (some resolver)
        → Step rpc ok (resolve pb rpc w max (u8 rpc.call_frame.which_callset) resolver)
    unfolding resolve
    resolve-Step resolver found =
        by_option (Step rpc ok) (resolver rpc.call_frame)
          (λ e. fail_reply-Step rpc_bad_handler_lookup (λ e. cc) (no_handler resolver found e))
          (λ handler e.
            run_handler-Step handler (record { resolver = resolver; found = found; resolved = e }))

    dispatch_call-Step : Step rpc ok (dispatch_call pb rpc w max)
    unfolding dispatch_call
    dispatch_call-Step =
        let tag = u8 rpc.call_frame.which_callset in
        let first = callset_lookup-First tag rpc.resolvers in
        by_option (Step rpc ok) (callset_lookup tag rpc.resolvers)
          (λ e.
            fail_reply-Step rpc_bad_resolver_lookup (λ e. cc)
              (no_resolver (subst (First tag rpc.resolvers) e first)))
          (λ resolver e. resolve-Step resolver (subst (First tag rpc.resolvers) e first))

  server-Step :
      (rpc : ProtoRpc Body World) (w : World) (msg : List ℕ)
      → let (ok, call) = unpack pb msg rpc.call_frame in
        Step (record rpc { call_frame = call }) ok (server pb rpc w msg max)
  unfolding server
  server-Step rpc w msg =
      let (ok, call) = unpack pb msg rpc.call_frame in
      by_test (Step (record rpc { call_frame = call }) ok) ok
        (dispatch_call-Step (record rpc { call_frame = call }) w ok)
        (λ e. (unreadable e refl refl, refl))

  -- If what nanopb unpacks does not depend on the frame that it is unpacked into, then whatever the
  -- tables and the handlers are, each message of a session gets one reply, in order. A message that
  -- cannot be unpacked gets an empty one. A call whose callset or message the tables do not know gets
  -- the packed frame of an error, also if it wants no reply, with the header only if the reply frame
  -- had one before. A call with a handler gets none if it wants none, and else a packed frame with the
  -- header, which all later frames then have, the low byte of its callset's tag, and the status and
  -- callset that its handler made. All packed frames have the sequence number of their message.
  pub serve_all-Session :
      (fresh : (m : List ℕ) (f g : Frame Body) → unpack pb m f ≡ unpack pb m g) (blank : Frame Body)
      (rpc : ProtoRpc Body World) (w : World) (msgs : List (List ℕ))
      → Session rpc.resolvers blank rpc.reply_frame.has_header msgs (serve_all pb rpc w msgs max)
  unfolding serve_all
  serve_all-Session fresh blank rpc w [] = _
  serve_all-Session fresh blank rpc w (m ∷ ms) =
      let served = server pb rpc w m max in
      let after = served.rpc.reply_frame.has_header in
      let (replied, same) = server-Step rpc w m in
      (
        after,
        subst (λ u. Replied rpc.resolvers u rpc.reply_frame.has_header after served.reply)
            (fresh m rpc.call_frame blank) replied,
        subst
            (λ tables. Session tables blank after ms (serve_all pb served.rpc served.world ms max))
            same (serve_all-Session fresh blank served.rpc served.world ms),
      )
