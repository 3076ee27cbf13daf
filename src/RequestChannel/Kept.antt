-- ===== src/RequestChannel/Kept.antt =====
-- What a call does to a requester of a channel that has its id, and to its entry in the registry.
use rsocket.Prelude.{
  ◌≡◌, refl, sym, subst, ap, ◌∙◌, Bool, true, false, not, ◌&&◌, Option, some, List, [], ◌∷◌, map,
  if◌then◌else◌, if_cases,
}
use rsocket.Prelude.Number.{Number}
use rsocket.Bytes.{Bytes}
use rsocket.Frames.{Frame}
use rsocket.Reassembler.{Payload}
use rsocket.Streams.{
  extension_of, Failure, Event, sent, disconnected, on_error, registered_after, failed,
}
use rsocket.Streams.Sending.{response_frames}
use rsocket.Streams.Runs.{registered_after-append, registered_after-sent}
use rsocket.RequestChannel.{
  Requester, both_done, disconnect_if, cancel_unless, parting_frame, handle, requested_more,
  request_more, cancelled, cancel_stream, sent_payload, next_payload, completed, complete_stream,
  failing, fail_stream, extended, send_extension,
}
use rsocket.RequestChannel.Calls.{
  Call, ready_call, reject_call, frame_call, request_call, cancel_call, next_call, complete_call,
  fail_call, extension_call, close_call, closes, ready_once, reject_waiting, call_of,
}
use rsocket.RequestChannel.Stays.{
  Stays, handle-Stays, and_false, registered_after-disconnect_if, unlisted,
}

false_of_not : (d : Bool) → true ≡ not d → d ≡ false
false_of_not false h = refl
false_of_not true h = absurd cc

ended_both : (c i : Bool) → (if c && i then false else true) ≡ not (i && c)
ended_both true true = refl
ended_both true false = refl
ended_both false true = refl
ended_both false false = refl

failed_quiet :
    (i : Bool) (e : Failure)
    → registered_after (if i then [] else on_error (failed e) ∷ []) false ≡ false
failed_quiet true e = refl
failed_quiet false e = refl

-- Calls of a stream that has its id
module _ (id : Number) (s : Requester) (known : s.stream_id ≡ some id) (b : Bool)
    (listed : b ≡ not (both_done s)) where
  abbrev Kept : List Event × Requester → Type 0
  Kept call = Stays id s known b call

  guarded-Kept :
      (d : Bool) (call : List Event × Requester)
      → (d ≡ false → Kept call)
      → Kept (if d then ([], s) else call)
  guarded-Kept d call going = if_cases Kept d (λ done. (known, listed)) going

  -- Before the outbound direction is done
  listed_outbound : s.outbound_done ≡ false → b ≡ true
  listed_outbound going =
      listed ∙ ap (λ o. not (s.inbound_done && o)) going ∙ ap not (and_false s.inbound_done)

  frame-Kept : (frame : Frame) → Kept (if b then handle frame s else ([], s))
  frame-Kept frame =
      if_cases Kept b
        (λ on.
          let live : both_done s ≡ false = false_of_not (both_done s) (sym on ∙ listed) in
          subst (λ c. Stays id s known c (handle frame s)) (sym on)
            (handle-Stays id s known frame live))
        (λ off. (known, listed))

  request-Kept : (n : Number) → Kept (request_more n s)
  unfolding request_more
  request-Kept n =
      guarded-Kept s.inbound_done _
        (λ going. subst (λ o. Kept (requested_more o n s)) (sym known) (known, listed))

  cancel-Kept : Kept (cancel_stream s)
  unfolding cancel_stream
  cancel-Kept = guarded-Kept (both_done s) _ (λ going.
      subst (λ o. Kept (cancelled o s)) (sym known)
        (
          known,
          registered_after-append (cancel_unless s.outbound_done)
              (sent (parting_frame s.inbound_done id) ∷ disconnected ∷ []) b,
        ))

  next-Kept : (content : Payload) (is_complete : Bool) → Kept (next_payload content is_complete s)
  unfolding next_payload
  next-Kept content is_complete = guarded-Kept s.outbound_done _ (λ going.
      subst (λ o. Kept (sent_payload o content is_complete s)) (sym known)
        (
          known,
          registered_after-append (disconnect_if (is_complete && s.inbound_done))
                (map sent (response_frames id s.fragment_size content is_complete)) b
              ∙ registered_after-sent (response_frames id s.fragment_size content is_complete) _
              ∙ registered_after-disconnect_if (is_complete && s.inbound_done) b
              ∙ ap (λ c. if is_complete && s.inbound_done then false else c) (listed_outbound going)
              ∙ ended_both is_complete s.inbound_done,
        ))

  complete-Kept : Kept (complete_stream s)
  unfolding complete_stream
  complete-Kept =
      subst (λ o. Kept (completed o s)) (sym known)
        (guarded-Kept s.outbound_done _ (λ going. (
          known,
          registered_after-disconnect_if s.inbound_done b
              ∙ ap (λ c. if s.inbound_done then false else c) (listed_outbound going)
              ∙ unlisted s.inbound_done,
        )))

  fail-Kept : (e : Failure) → Kept (fail_stream e s)
  unfolding fail_stream
  fail-Kept e = guarded-Kept s.outbound_done _ (λ going.
      subst (λ o. Kept (failing o e s)) (sym known) (known, failed_quiet s.inbound_done e))

  extension-Kept : (t : Number) (c : Option Bytes) (i : Bool) → Kept (send_extension t c i s)
  unfolding send_extension
  extension-Kept t c i =
      let e = extension_of t c i in
      guarded-Kept s.outbound_done _
        (λ going. subst (λ o. Kept (extended o e s)) (sym known) (known, listed))

  pub call-Kept : (call : Call) → closes call ≡ false → Kept (call_of call s b)
  call-Kept (ready_call i) other = subst (λ o. Kept (ready_once o i s)) (sym known) (known, listed)
  call-Kept (reject_call e) other =
      subst (λ o. Kept (reject_waiting o e s)) (sym known) (known, listed)
  call-Kept (frame_call frame) other = frame-Kept frame
  call-Kept (request_call n) other = request-Kept n
  call-Kept cancel_call other = cancel-Kept
  call-Kept (next_call content is_complete) other = next-Kept content is_complete
  call-Kept complete_call other = complete-Kept
  call-Kept (fail_call e) other = fail-Kept e
  call-Kept (extension_call t c i) other = extension-Kept t c i
  call-Kept (close_call e) other = absurd cc
