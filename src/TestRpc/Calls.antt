-- ===== src/TestRpc/Calls.antt =====
-- The calls of the test callset.
use esp32_components.Base.{
  ◌+◌, ◌≡◌, ◌≢◌, ap, sym, ◌∙◌, Bool, Option, none, some, ◌⊎◌, inl, inr, ◌==◌, if◌then◌else◌, eq→==,
  ne→==, arith, ℕ_discrete,
}
use esp32_components.ProtoRpc.{Frame, Exchange, Handler, handler_lookup}
use esp32_components.TestRpc.{
  TestCallset, resolver, add, setstruct, handler_error, handlers, add_call_tag, setstruct_call_tag,
  handlererror_call_tag,
}

module _ {World : Type 0} where
  -- The reply of a handler, which follows its call in the numbering of the messages.
  abbrev pub Replies : TestCallset → Handler TestCallset World → Type 0
  Replies call handler =
      (x : Exchange TestCallset World) → (handler x).reply.which_msg ≡ call.which_msg + 1

  -- Every message of the callset that is a call has a handler, which replies with the message that
  -- belongs to the call; no other message has one.
  pub resolver-Replies :
      (frame : Frame TestCallset)
      → let tag = frame.callset.which_msg in
        ((handler : Handler TestCallset World) × (resolver World frame ≡ some handler)
          × Replies frame.callset handler)
        ⊎ ((resolver World frame ≡ none)
            × (tag ≢ add_call_tag)
            × (tag ≢ setstruct_call_tag)
            × (tag ≢ handlererror_call_tag))
  unfolding resolver handler_lookup handlers add setstruct handler_error
  resolver-Replies frame =
      let tag = frame.callset.which_msg in
      let third : Option (Handler TestCallset World) =
        if handlererror_call_tag == tag then some (handler_error World) else none in
      let second : Option (Handler TestCallset World) =
        if setstruct_call_tag == tag then some (setstruct World) else third in
      let pass =
        λ (h : Handler TestCallset World) (o : Option (Handler TestCallset World)) (b : Bool).
          if b then some h else o in
      elim (ℕ_discrete add_call_tag tag) [
        | yes e ↦
            inl
              (add World, ap (pass (add World) second) (eq→== add_call_tag tag e), λ x. omega arith)
        | no n ↦
            let not_add = ap (pass (add World) second) (ne→== add_call_tag tag n) in
            elim (ℕ_discrete setstruct_call_tag tag) [
              | yes e ↦ inl (
                setstruct World,
                not_add ∙ ap (pass (setstruct World) third) (eq→== setstruct_call_tag tag e),
                λ x. omega arith,
              )
              | no n' ↦
                  let not_set =
                    not_add ∙ ap (pass (setstruct World) third) (ne→== setstruct_call_tag tag n') in
                  elim (ℕ_discrete handlererror_call_tag tag) [
                    | yes e ↦ inl (
                      handler_error World,
                      not_set
                          ∙ ap (pass (handler_error World) none)
                              (eq→== handlererror_call_tag tag e),
                      λ x. omega arith,
                    )
                    | no m ↦ inr (
                      not_set
                          ∙ ap (pass (handler_error World) none)
                              (ne→== handlererror_call_tag tag m),
                      (λ e. n (sym e)),
                      (λ e. n' (sym e)),
                      (λ e. m (sym e)),
                    )
                  ]
            ]
      ]
