-- ===== src/RequestChannel/Closed.antt =====
-- The requester of a channel stays done once both its directions are.
use rsocket.Prelude.{
  ℕ, ◌≡◌, refl, ap, Bool, true, false, not, ◌&&◌, ◌||◌, Option, none, some, List, [], ◌∷◌, if_both,
  if_cases, if◌then◌else◌,
}
use rsocket.Prelude.Number.{Number}
use rsocket.Frames.{
  Frame, PayloadFrame, CancelFrame, RequestNFrame, ErrorFrame, ExtFrame, as_payload, as_cancel,
  as_request_n, as_error, as_ext,
}
use rsocket.Frames.Flags
use rsocket.Streams.{StreamError, Event, registered_after}
use rsocket.Streams.Runs.{run}
use rsocket.RequestChannel.{
  Requester, both_done, close, unexpected, handle_last, handle_payload, handle_cancel,
  handle_request_n, handle_by, handle, handle_ready, handle_reject, request_more, cancelled,
  cancel_stream, next_payload, completed, complete_stream, fail_stream, send_extension,
}
use rsocket.RequestChannel.Calls.{
  Call, ready_call, reject_call, frame_call, request_call, cancel_call, next_call, complete_call,
  fail_call, extension_call, close_call, ready_once, reject_waiting, call_of,
}

abbrev pub IsDone : Requester → Type 0
IsDone s = (s.inbound_done ≡ true) × (s.outbound_done ≡ true)

abbrev Leaves : List Event × Requester → Type 0
Leaves (events, s') = IsDone s'

both : (i o : Bool) → (i && o) ≡ true → (i ≡ true) × (o ≡ true)
both true o h = (refl, h)
both false o h = absurd cc

pub close-IsDone : (e : Option StreamError) (s : Requester) → IsDone (close e s).1
unfolding close
close-IsDone e s =
    if_cases Leaves (both_done s) (λ done. both s.inbound_done s.outbound_done done)
      (λ going. (refl, refl))

module _ (s : Requester) (done : IsDone s) where
  shut_in : (call : List Event × Requester) → Leaves (if s.inbound_done then ([], s) else call)
  shut_in call = if_cases Leaves s.inbound_done (λ over. done) (λ going. absurd cc)

  shut_out : (call : List Event × Requester) → Leaves (if s.outbound_done then ([], s) else call)
  shut_out call = if_cases Leaves s.outbound_done (λ over. done) (λ going. absurd cc)

  payload-IsDone : (f : PayloadFrame) → Leaves (handle_payload f s)
  unfolding handle_payload handle_last
  payload-IsDone f =
      let still : (s.inbound_done || Flags.has_complete f.flags) ≡ true =
        ap (λ i. i || Flags.has_complete f.flags) done.0 in
      let complete = Flags.has_complete f.flags in
      if_both Leaves (complete || not (Flags.has_follows f.flags))
        (if_both Leaves (complete && not (Flags.has_next f.flags)) (still, done.1) (still, done.1))
        done

  handle-IsDone : (frame : Frame) → Leaves (handle frame s)
  unfolding handle handle_cancel handle_request_n unexpected
  handle-IsDone frame =
      by (as_payload frame) (as_cancel frame) (as_request_n frame) (as_error frame) (as_ext frame)
    where
      by :
          (p : Option PayloadFrame) (c : Option CancelFrame) (n : Option RequestNFrame)
          (e : Option ErrorFrame) (x : Option ExtFrame)
          → Leaves (handle_by p c n e x frame s)
      by (some f) c n e x = payload-IsDone f
      by none (some f) n e x = shut_out _
      by none none (some f) e x = shut_out _
      by none none none (some f) x = (refl, refl)
      by none none none none (some f) = done
      by none none none none none = close-IsDone _ s

  ready-IsDone : (o : Option Number) (id : Number) → Leaves (ready_once o id s)
  unfolding handle_ready
  ready-IsDone none id = shut_out _
  ready-IsDone (some known) id = done

  reject-IsDone : (o : Option Number) (e : ℕ) → Leaves (reject_waiting o e s)
  unfolding handle_reject
  reject-IsDone none e = shut_in _
  reject-IsDone (some known) e = done

  cancelled-IsDone : (o : Option Number) → Leaves (cancelled o s)
  cancelled-IsDone none = (refl, refl)
  cancelled-IsDone (some id) = (refl, refl)

  completed-IsDone : (o : Option Number) → Leaves (completed o s)
  completed-IsDone none = done
  completed-IsDone (some id) = shut_out _

  call-IsDone : (call : Call) (b : Bool) → Leaves (call_of call s b)
  unfolding request_more cancel_stream next_payload complete_stream fail_stream send_extension
  call-IsDone (ready_call id) b = ready-IsDone s.stream_id id
  call-IsDone (reject_call e) b = reject-IsDone s.stream_id e
  call-IsDone (frame_call frame) b = if_both Leaves b (handle-IsDone frame) done
  call-IsDone (request_call n) b = shut_in _
  call-IsDone cancel_call b = if_both Leaves (both_done s) done (cancelled-IsDone s.stream_id)
  call-IsDone (next_call content is_complete) b = shut_out _
  call-IsDone complete_call b = completed-IsDone s.stream_id
  call-IsDone (fail_call e) b = shut_out _
  call-IsDone (extension_call t c i) b = shut_out _
  call-IsDone (close_call e) b = if_both Leaves b (close-IsDone e s) done

pub run-IsDone :
    (calls : List Call) (s : Requester) (b : Bool)
    → IsDone s
    → let (events, s', b') = run call_of calls s b in IsDone s'
run-IsDone [] s b done = done
run-IsDone (call ∷ calls) s b done =
    let (events, s') = call_of call s b in
    run-IsDone calls s' (registered_after events b) (call-IsDone s done call b)
