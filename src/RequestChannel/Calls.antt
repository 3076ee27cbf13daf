-- ===== src/RequestChannel/Calls.antt =====
-- The calls that the requester of a channel gets, and its entry in the registry of the multiplexer.
use rsocket.Prelude.{
  ◌≡◌, ◌⊎◌, Bool, true, false, not, Option, none, some, List, [], ◌∷◌, ◌||◌, ℕ, if◌then◌else◌,
}
use rsocket.Prelude.Number.{Number}
use rsocket.Bytes.{Bytes}
use rsocket.Frames.{Frame}
use rsocket.Reassembler.{Payload}
use rsocket.Streams.{Failure, StreamError, Event}
use rsocket.RequestChannel.{
  Requester, both_done, handle_ready, handle_reject, handle, request_more, cancel_stream, close,
  next_payload, complete_stream, fail_stream, send_extension,
}

-- A frame whose stream is not registered is dropped, and the multiplexer closes only the streams that
-- are registered. A stream gets its id once, and only one that has none is rejected: the multiplexer and
-- the lease handler call one of the two, once.
pub data Call : Type 0 where
  ready_call : Number → Call
  reject_call : ℕ → Call
  frame_call : Frame → Call
  request_call : Number → Call
  cancel_call : Call
  next_call : Payload → Bool → Call
  complete_call : Call
  fail_call : Failure → Call
  extension_call : Number → Option Bytes → Bool → Call
  close_call : Option StreamError → Call

abbrev pub ready_once : Option Number → Number → Requester → List Event × Requester
ready_once none id s = handle_ready id s
ready_once (some known) id s = ([], s)

abbrev pub reject_waiting : Option Number → ℕ → Requester → List Event × Requester
reject_waiting none e s = handle_reject e s
reject_waiting (some known) e s = ([], s)

abbrev pub call_of : Call → Requester → Bool → List Event × Requester
call_of (ready_call id) s registered = ready_once s.stream_id id s
call_of (reject_call e) s registered = reject_waiting s.stream_id e s
call_of (frame_call frame) s registered = if registered then handle frame s else ([], s)
call_of (request_call n) s registered = request_more n s
call_of cancel_call s registered = cancel_stream s
call_of (next_call content is_complete) s registered = next_payload content is_complete s
call_of complete_call s registered = complete_stream s
call_of (fail_call e) s registered = fail_stream e s
call_of (extension_call t c i) s registered = send_extension t c i s
call_of (close_call e) s registered = if registered then close e s else ([], s)

abbrev pub closes : Call → Bool
closes (close_call e) = true
closes _ = false

-- Whether `close` is among the calls
abbrev pub any_closes : List Call → Bool
any_closes [] = false
any_closes (call ∷ calls) = closes call || any_closes calls

-- The registry has a stream from its id on until both its directions are done. A stream that has no
-- id yet is not done inbound unless it is done outbound.
abbrev pub IsListed : Option Number → Requester → Bool → Type 0
IsListed none s registered =
    (registered ≡ false) × ((s.inbound_done ≡ false) ⊎ (s.outbound_done ≡ true))
IsListed (some id) s registered = registered ≡ not (both_done s)
