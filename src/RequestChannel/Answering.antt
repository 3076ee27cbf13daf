-- ===== src/RequestChannel/Answering.antt =====
-- The registry of the multiplexer has the responder of a channel until both its directions are done.
use rsocket.Prelude.{
  ℕ, ◌≡◌, refl, sym, ap, ◌∙◌, Bool, true, false, not, ◌&&◌, ◌||◌, Option, none, some, List, [], ◌∷◌,
  if_both,
}
use rsocket.Prelude.Number.{Number, pos, lt}
use rsocket.Frames.{
  Frame, PayloadFrame, CancelFrame, RequestNFrame, ErrorFrame, ExtFrame, RequestManyFrame,
  as_payload, as_cancel, as_request_n, as_error, as_ext,
}
use rsocket.Frames.Flags
use rsocket.Reassembler.{Payload}
use rsocket.Streams.{StreamError, failed, registered_after, response_of, remote, rsocket_failure}
use rsocket.Streams.Messages.{codes}
use rsocket.Streams.Sending.{canceled}
use rsocket.Streams.Runs.{run, listed→live, registered_after-append}
use rsocket.RequestChannel.Stays.{and_false}
use rsocket.RequestChannel.Responder.{
  Outcome, Responder, both_done, disconnect_if, signalled_all, settled,
}
use rsocket.RequestChannel.Serving.{
  invalid_initial, handle_end, call_handler, construct_rest, construct, handle_early,
  handle_payload, respond_by, respond, ResponderCall, to_respond, to_signal, responder_call,
}
use rsocket.RequestChannel.Signals.{
  Lists, fail-Lists, signalled-Lists, signalled_all-Lists, settled-Lists, parting-quiet,
}
use rsocket.RequestChannel.Directions.{
  refuse-Lists, on, handle_request_n-Lists, handle_ext-Lists, left_off, handle_late-Lists,
}

handle_end-Lists : (e : StreamError) (s : Responder) (b : Bool) → Lists b (handle_end e s)
unfolding handle_end
handle_end-Lists e s b = parting-quiet s.has_receiver s.inbound_done s.outbound_done e

module _ (handler : Payload → Option Number → Bool → Outcome) where
  call_handler-Lists :
      (content : Payload) (n : Option Number) (is_last : Bool) (s : Responder) (b : Bool)
      → b ≡ not (both_done s)
      → Lists b (call_handler handler content n is_last s)
  unfolding call_handler
  call_handler-Lists content n is_last s b h =
      let signals = (handler content n is_last).signals in
      let thrown = (handler content n is_last).thrown in
      let (events, s') = signalled_all signals s in
      registered_after-append events (settled thrown s').0 b
      ∙ settled-Lists thrown s' (registered_after events b) (signalled_all-Lists signals s b h)

  handle_early-Lists :
      (f : PayloadFrame) (s : Responder)
      → both_done s ≡ false
      → Lists true (handle_early handler f s)
  unfolding handle_early
  handle_early-Lists f s live =
      let (content, holder) = response_of s.holder f.body f.metadata in
      let is_last = s.is_complete || Flags.has_complete f.flags in
      let left = disconnect_if (is_last && s.outbound_done) in
      let s' = record s { inbound_done = s.inbound_done || is_last; holder = holder } in
      let called = call_handler handler content s.initial_request_n is_last s' in
      registered_after-append left called.0 true
      ∙ call_handler-Lists content s.initial_request_n is_last s' (registered_after left true)
          (left_off s live is_last)

  handle_payload-Lists :
      (f : PayloadFrame) (s : Responder)
      → both_done s ≡ false
      → Lists true (handle_payload handler f s)
  unfolding handle_payload
  handle_payload-Lists f s live = if_both (Lists true) (Flags.has_follows f.flags) (on s live) (
      if_both (Lists true) s.has_receiver (handle_late-Lists s live f)
        (handle_early-Lists f s live))

  pub respond-Lists :
      (frame : Frame) (s : Responder) → both_done s ≡ false → Lists true (respond handler frame s)
  unfolding respond
  respond-Lists frame s live =
      by (as_payload frame) (as_request_n frame) (as_error frame) (as_cancel frame) (as_ext frame)
    where
      by :
          (p : Option PayloadFrame) (n : Option RequestNFrame) (e : Option ErrorFrame)
          (c : Option CancelFrame) (x : Option ExtFrame)
          → Lists true (respond_by handler p n e c x frame s)
      by (some f) n e c x = handle_payload-Lists f s live
      by none (some f) e c x = handle_request_n-Lists s live f
      by none none (some f) c x = handle_end-Lists (remote f.code f.message) s true
      by none none none (some f) x =
          handle_end-Lists (failed (rsocket_failure canceled (codes "Cancelled"))) s true
      by none none none none (some f) = handle_ext-Lists s live f
      by none none none none none = refuse-Lists _ s true

  call-Lists :
      (call : ResponderCall) (s : Responder) (b : Bool)
      → b ≡ not (both_done s)
      → Lists b (responder_call handler call s b)
  call-Lists (to_respond frame) s true h = respond-Lists frame s (listed→live (both_done s) h)
  call-Lists (to_respond frame) s false h = h
  call-Lists (to_signal signal) s b h = signalled-Lists s b h signal

  run-Lists :
      (calls : List ResponderCall) (s : Responder) (b : Bool)
      → b ≡ not (both_done s)
      → let (events, s', b') = run (responder_call handler) calls s b in b' ≡ not (both_done s')
  run-Lists [] s b h = h
  run-Lists (call ∷ calls) s b h =
      let (events, s') = responder_call handler call s b in
      run-Lists calls s' (registered_after events b) (call-Lists call s b h)

  construct_rest-Lists :
      (frame : RequestManyFrame) (s : Responder)
      → s.inbound_done ≡ false
      → s.outbound_done ≡ false
      → Lists true (construct_rest handler frame s)
  unfolding construct_rest
  construct_rest-Lists frame s fresh going =
      let is_last = Flags.has_complete frame.flags in
      let content : Payload = record { body = frame.body; metadata = frame.metadata } in
      let s' = record s { inbound_done = is_last } in
      let open_half : (i : Bool) → true ≡ not (i && s.outbound_done) =
        λ i. sym (ap (λ o. not (i && o)) going ∙ ap not (and_false i)) in
      if_both (Lists true) (lt frame.request_n (pos 1))
        (fail-Lists s true (open_half s.inbound_done) (invalid_initial frame.request_n))
        (if_both (Lists true) (Flags.has_follows frame.flags) (open_half s.inbound_done)
          (call_handler-Lists content (some frame.request_n) is_last s' true (open_half is_last)))

  pub construct-Lists :
      (frame : RequestManyFrame) (size : ℕ) → Lists false (construct handler frame size)
  unfolding construct
  construct-Lists frame size = construct_rest-Lists frame _ refl refl

-- Whatever the handler does, and whatever frames and signals the responder of a channel gets: the
-- registry of the multiplexer has it exactly as long as one of its two directions is not done.
pub run-both_done :
    (handler : Payload → Option Number → Bool → Outcome) (frame : RequestManyFrame) (size : ℕ)
    (calls : List ResponderCall)
    → let (events, s) = construct handler frame size in
      let (more, s', listed) =
        run (responder_call handler) calls s (registered_after events false) in
      listed ≡ not (both_done s')
run-both_done handler frame size calls =
    let (events, s) = construct handler frame size in
    run-Lists handler calls s (registered_after events false) (construct-Lists handler frame size)
