-- ===== src/RequestStream/Answers.antt =====
-- The responder of a request/stream sends at most one frame that ends its stream.
use rsocket.Prelude.{
  ◌≤◌, ◌≡◌, refl, sym, ap, ◌∙◌, Bool, true, false, not, ◌||◌, Option, none, some, List, [], ◌∷◌,
  ◌++◌, arith, if_both, ℕ,
}
use rsocket.Frames.{
  Frame, PayloadFrame, ExtFrame, RequestManyFrame, as_payload, as_ext, as_request_n, RequestNFrame,
}
use rsocket.Frames.Flags
use rsocket.Reassembler.{Payload, reassemble}
use rsocket.Streams.{disconnected, registered_after}
use rsocket.Prelude.Number.{Number, pos, lt}
use rsocket.Streams.Sending.{Outcome}
use rsocket.Streams.Endings.{
  complaint-ending, cancel_receiver-ending, registered_after-cancel_receiver,
}
use rsocket.Streams.Sending.{cancel_receiver, complaint}
use rsocket.Streams.Runs.{
  Answers-quiet, Starts, bit_most, Answers-append, guarded-Answers, listed-Answers, total,
  sent_ending, total-append, registered_after-disconnected, registered_after-append, run,
  run-Answers,
}
use rsocket.RequestStream.Responder.{
  Responder, signalled_all, refuse, call_handler, construct_rest, construct, handle_early,
  handle_late, respond, close_responder, ResponderCall, to_respond, to_signal, to_close,
  responder_call,
}
use rsocket.RequestStream.Signals.{
  done_of, Answered, on_error-Answers, signalled-Answers, signalled_all-Answers, settled-Answers,
}

refuse-Answers :
    (message : List ℕ) (frame : Frame) (s : Responder)
    → s.done ≡ false
    → Answered s true (refuse message frame s)
unfolding refuse
refuse-Answers message frame s live =
    let told = complaint frame s.stream_id message in
    let cancels = cancel_receiver s.has_receiver in
    rw live (
      omega (
        arith,
        complaint-ending frame s.stream_id message,
        cancel_receiver-ending s.has_receiver,
        total-append sent_ending cancels (told ++ (disconnected ∷ [])),
        total-append sent_ending told (disconnected ∷ []),
      ),
      registered_after-append cancels (told ++ (disconnected ∷ [])) true
          ∙ registered_after-disconnected told _,
    )

module _ (handler : Payload → Option Number → Outcome) where
  call_handler-Answers :
      (content : Payload) (n : Option Number) (s : Responder) (b : Bool)
      → b ≡ not s.done
      → Answered s b (call_handler handler content n s)
  unfolding call_handler
  call_handler-Answers content n s b h =
      let signals = (handler content n).signals in
      let (events, s') = signalled_all signals s in
      let first = signalled_all-Answers signals s b h in
      let all =
        Answers-append s.done b events s'.done _ _ first
          (settled-Answers (handler content n).thrown s' _ first.1) in
      (omega (arith, all.0), all.1)

  handle_early-Answers :
      (f : Option PayloadFrame) (frame : Frame) (s : Responder)
      → s.done ≡ false
      → Answered s true (handle_early handler f frame s)
  unfolding handle_early
  handle_early-Answers none frame s live = refuse-Answers _ frame s live
  handle_early-Answers (some f) frame s live =
      let (content, holder) = reassemble s.holder f.body f.metadata in
      let listed : true ≡ not s.done = sym (ap not live) in
      if_both (Answered s true) (Flags.has_follows f.flags) (Answers-quiet s.done true listed) (
        call_handler-Answers content s.initial_request_n (record s { holder = holder }) true listed)

  handle_late-Answers :
      (n : Option RequestNFrame) (e : Option ExtFrame) (frame : Frame) (s : Responder)
      → s.done ≡ false
      → Answered s true (handle_late handler n e frame s)
  unfolding handle_late
  handle_late-Answers (some f) e frame s live =
      if_both (Answered s true) (lt f.request_n (pos 1)) (refuse-Answers _ frame s live)
        (omega arith, sym (ap not live))
  handle_late-Answers none (some f) frame s live = (omega arith, sym (ap not live))
  handle_late-Answers none none frame s live = refuse-Answers _ frame s live

  pub respond-Answers :
      (frame : Frame) (s : Responder) → s.done ≡ false → Answered s true (respond handler frame s)
  unfolding respond
  respond-Answers frame s live =
      if_both (Answered s true) (not s.has_receiver || s.holder.has_fragments)
        (handle_early-Answers (as_payload frame) frame s live)
        (handle_late-Answers (as_request_n frame) (as_ext frame) frame s live)

  pub call_of-Answers :
      (call : ResponderCall) (s : Responder) (b : Bool)
      → b ≡ not s.done
      → Answered s b (responder_call handler call s b)
  unfolding close_responder
  call_of-Answers (to_respond frame) s b h =
      listed-Answers done_of s (respond handler frame s) b h (respond-Answers frame s)
  call_of-Answers (to_signal signal) s b h = signalled-Answers signal s b h
  call_of-Answers to_close s b h = guarded-Answers done_of s _ b h (λ listed live. (
    omega (arith, cancel_receiver-ending s.has_receiver),
    registered_after-cancel_receiver s.has_receiver b ∙ listed ∙ sym (ap not live),
  ))

  construct_rest-Answers :
      (frame : RequestManyFrame) (s : Responder)
      → s.done ≡ false
      → Answered s true (construct_rest handler frame s)
  unfolding construct_rest
  construct_rest-Answers frame s live =
      let content : Payload = record { body = frame.body; metadata = frame.metadata } in
      let listed : true ≡ not s.done = sym (ap not live) in
      if_both (Answered s true) (lt frame.request_n (pos 1)) (on_error-Answers _ s true listed) (
        if_both (Answered s true) (Flags.has_follows frame.flags) (Answers-quiet s.done true listed)
          (call_handler-Answers content _ s true listed))

  pub construct-Starts :
      (frame : RequestManyFrame) (size : ℕ)
      → Starts (construct handler frame size).0 (construct handler frame size).1.done
  unfolding construct
  construct-Starts frame size =
      let started =
        construct_rest-Answers frame
          (record {
            stream_id = frame.stream_id;
            fragment_size = size;
            initial_request_n = none;
            done = false;
            holder = record { has_fragments = false; body = none; metadata = none };
            has_receiver = false;
          })
          refl in
      (omega (arith, started.0), started.1)

-- Whatever the handler does, and whatever frames, signals and closes a responder of a request/stream
-- gets after its request: it sends at most one frame that ends its stream, an ERROR or a PAYLOAD with COMPLETE, and
-- the registry has it exactly as long as it is not done.
pub stream_respond_once :
    (handler : Payload → Option Number → Outcome) (frame : RequestManyFrame) (size : ℕ)
    (calls : List ResponderCall)
    → let (events, s) = construct handler frame size in
      let (more, s', listed) =
        run (responder_call handler) calls s (registered_after events false) in
      (total sent_ending (events ++ more) ≤ 1) × (listed ≡ not s'.done)
stream_respond_once handler frame size calls =
    let (events, s) = construct handler frame size in
    let (first, listed) = construct-Starts handler frame size in
    let (answers, after) =
      run-Answers (responder_call handler) done_of (call_of-Answers handler) calls s
        (registered_after events false) listed in
    let more = (run (responder_call handler) calls s (registered_after events false)).0 in
    (
      omega (
        arith,
        first,
        answers.0,
        bit_most (run (responder_call handler) calls s (registered_after events false)).1.done,
        total-append sent_ending events more,
      ),
      sym after ∙ answers.1,
    )
