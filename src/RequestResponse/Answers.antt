-- ===== src/RequestResponse/Answers.antt =====
-- The responder of a request/response sends at most one frame that ends its stream.
use rsocket.Prelude.{
  ◌≤◌, ◌≡◌, refl, sym, ap, ◌∙◌, Bool, true, false, not, ◌||◌, Option, none, some, List, [], ◌∷◌,
  ◌++◌, map, arith, if_both, ℕ,
}
use rsocket.Frames.{Frame, PayloadFrame, ExtFrame, RequestFrame, as_payload, as_ext}
use rsocket.Frames.Flags
use rsocket.Reassembler.{Payload, reassemble}
use rsocket.Streams.{Event, sent, disconnected, registered_after, Failure}
use rsocket.Streams.Sending.{Signal, next, complete, fail, extend, Outcome, response_frames}
use rsocket.Streams.Endings.{
  response_frames-ending, complaint-ending, cancel_receiver-ending,
  registered_after-cancel_receiver,
}
use rsocket.Streams.Sending.{cancel_receiver, complaint}
use rsocket.Streams.Runs.{
  Answers, Answers-quiet, Starts, bit_most, Answers-append, guarded-Answers, listed-Answers, total,
  sent_ending, total-append, registered_after-disconnected, registered_after-append, run,
  run-Answers,
}
use rsocket.RequestResponse.Responder.{
  Responder, on_error, on_next, on_complete, extend_stream, signalled, signalled_all, settled,
  refuse, call_handler, construct, handle_early, handle_late, respond, close_responder,
  ResponderCall, to_respond, to_signal, to_close, responder_call,
}

abbrev pub done_of : Responder → Bool
done_of s = s.done

-- What `call` leads to from `s`, if the registry has the stream or has not.
abbrev pub Answered : Responder → Bool → List Event × Responder → Type 0
Answered s b (events, s') = Answers s.done b events s'.done

on_error-Answers :
    (f : Failure) (s : Responder) (b : Bool) → b ≡ not s.done → Answered s b (on_error f s)
unfolding on_error
on_error-Answers f s b h = guarded-Answers done_of s _ b h (λ listed live. (omega arith, refl))

pub signalled-Answers :
    (signal : Signal) (s : Responder) (b : Bool)
    → b ≡ not s.done
    → Answered s b (signalled signal s)
unfolding on_next on_complete extend_stream
signalled-Answers (next content is_completion) s b h =
    let frames = response_frames s.stream_id s.fragment_size content true in
    guarded-Answers done_of s _ b h (λ listed live. (
      omega (
        arith,
        response_frames-ending s.stream_id s.fragment_size content true,
        total-append sent_ending (map sent frames) (disconnected ∷ []),
      ),
      registered_after-disconnected (map sent frames) b,
    ))
signalled-Answers complete s b h =
    guarded-Answers done_of s _ b h (λ listed live. (ground arith, refl))
signalled-Answers (fail f) s b h = on_error-Answers f s b h
signalled-Answers (extend t c i) s b h =
    guarded-Answers done_of s _ b h (λ listed live. rw live (omega arith, listed))

signalled_all-Answers :
    (signals : List Signal) (s : Responder) (b : Bool)
    → b ≡ not s.done
    → Answered s b (signalled_all signals s)
signalled_all-Answers [] s b h = Answers-quiet s.done b h
signalled_all-Answers (signal ∷ signals) s b h =
    let first = signalled-Answers signal s b h in
    let (events, s') = signalled signal s in
    Answers-append s.done b events s'.done _ _ first (signalled_all-Answers signals s' _ first.1)

settled-Answers :
    (thrown : Option Failure) (s : Responder) (b : Bool)
    → b ≡ not s.done
    → Answered s b (settled thrown s)
settled-Answers none s b h = Answers-quiet s.done b h
settled-Answers (some f) s b h = on_error-Answers f s b h

refuse-Answers :
    (message : List ℕ) (frame : Frame) (s : Responder)
    → s.done ≡ false
    → Answered s true (refuse message frame s)
unfolding refuse
refuse-Answers message frame s live =
    let told = complaint frame s.stream_id message in
    let cancels = cancel_receiver s.has_receiver in
    rw live (
      omega (
        arith,
        complaint-ending frame s.stream_id message,
        cancel_receiver-ending s.has_receiver,
        total-append sent_ending cancels (told ++ (disconnected ∷ [])),
        total-append sent_ending told (disconnected ∷ []),
      ),
      registered_after-append cancels (told ++ (disconnected ∷ [])) true
          ∙ registered_after-disconnected told _,
    )

module _ (handler : Payload → Outcome) where
  call_handler-Answers :
      (content : Payload) (s : Responder) (b : Bool)
      → b ≡ not s.done
      → Answered s b (call_handler handler content s)
  unfolding call_handler
  call_handler-Answers content s b h =
      let signals = (handler content).signals in
      let (events, s') = signalled_all signals s in
      let first = signalled_all-Answers signals s b h in
      let all =
        Answers-append s.done b events s'.done _ _ first
          (settled-Answers (handler content).thrown s' _ first.1) in
      (omega (arith, all.0), all.1)

  handle_early-Answers :
      (f : Option PayloadFrame) (frame : Frame) (s : Responder)
      → s.done ≡ false
      → Answered s true (handle_early handler f frame s)
  unfolding handle_early
  handle_early-Answers none frame s live = refuse-Answers _ frame s live
  handle_early-Answers (some f) frame s live =
      let (content, holder) = reassemble s.holder f.body f.metadata in
      let listed : true ≡ not s.done = sym (ap not live) in
      if_both (Answered s true) (Flags.has_follows f.flags) (Answers-quiet s.done true listed)
        (call_handler-Answers content (record s { holder = holder }) true listed)

  handle_late-Answers :
      (f : Option ExtFrame) (frame : Frame) (s : Responder)
      → s.done ≡ false
      → Answered s true (handle_late handler f frame s)
  unfolding handle_late
  handle_late-Answers none frame s live = refuse-Answers _ frame s live
  handle_late-Answers (some f) frame s live = (omega arith, sym (ap not live))

  pub respond-Answers :
      (frame : Frame) (s : Responder) → s.done ≡ false → Answered s true (respond handler frame s)
  unfolding respond
  respond-Answers frame s live =
      if_both (Answered s true) (not s.has_receiver || s.holder.has_fragments)
        (handle_early-Answers (as_payload frame) frame s live)
        (handle_late-Answers (as_ext frame) frame s live)

  call_of-Answers :
      (call : ResponderCall) (s : Responder) (b : Bool)
      → b ≡ not s.done
      → Answered s b (responder_call handler call s b)
  unfolding close_responder
  call_of-Answers (to_respond frame) s b h =
      listed-Answers done_of s (respond handler frame s) b h (respond-Answers frame s)
  call_of-Answers (to_signal signal) s b h = signalled-Answers signal s b h
  call_of-Answers to_close s b h = guarded-Answers done_of s _ b h (λ listed live. (
    omega (arith, cancel_receiver-ending s.has_receiver),
    registered_after-cancel_receiver s.has_receiver b ∙ listed ∙ sym (ap not live),
  ))

  pub construct-Starts :
      (frame : RequestFrame) (size : ℕ)
      → Starts (construct handler frame size).0 (construct handler frame size).1.done
  unfolding construct
  construct-Starts frame size =
      let s : Responder = record {
        stream_id = frame.stream_id;
        fragment_size = size;
        done = false;
        holder = record { has_fragments = false; body = none; metadata = none };
        has_receiver = false;
      } in
      let content : Payload = record { body = frame.body; metadata = frame.metadata } in
      let called = call_handler-Answers content s true refl in
      if_both (λ (made : List Event × Responder). Starts made.0 made.1.done)
        (Flags.has_follows frame.flags) (omega arith, refl) (omega (arith, called.0), called.1)

-- Whatever the handler does, and whatever frames, signals and closes a responder gets after its
-- request: it sends at most one frame that ends its stream, an ERROR or a PAYLOAD with COMPLETE, and
-- the registry has it exactly as long as it is not done.
pub respond_once :
    (handler : Payload → Outcome) (frame : RequestFrame) (size : ℕ) (calls : List ResponderCall)
    → let (events, s) = construct handler frame size in
      let (more, s', listed) =
        run (responder_call handler) calls s (registered_after events false) in
      (total sent_ending (events ++ more) ≤ 1) × (listed ≡ not s'.done)
respond_once handler frame size calls =
    let (events, s) = construct handler frame size in
    let (first, listed) = construct-Starts handler frame size in
    let (answers, after) =
      run-Answers (responder_call handler) done_of (call_of-Answers handler) calls s
        (registered_after events false) listed in
    let more = (run (responder_call handler) calls s (registered_after events false)).0 in
    (
      omega (
        arith,
        first,
        answers.0,
        bit_most (run (responder_call handler) calls s (registered_after events false)).1.done,
        total-append sent_ending events more,
      ),
      sym after ∙ answers.1,
    )
