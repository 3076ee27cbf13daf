-- ===== src/RequestStream/Calls.antt =====
-- The calls that a request/stream requester gets, and its entry in the registry of the multiplexer.
use rsocket.Prelude.{ℕ, ◌≡◌, ◌⊎◌, Bool, false, Option, some, List, [], if◌then◌else◌}
use rsocket.Prelude.Number.{Number}
use rsocket.Bytes.{Bytes}
use rsocket.Frames.{Frame}
use rsocket.Streams.{Event}
use rsocket.RequestStream.{
  Requester, handle_ready, handle_reject, handle, request_more, cancel_stream, send_extension,
}

-- A frame whose stream is not registered is dropped. Only a stream that is not registered is rejected:
-- a lease handler rejects those that wait, and the multiplexer those that it does not take.
pub data Call : Type 0 where
  ready_call : Number → Call
  frame_call : Frame → Call
  request_call : Number → Call
  extension_call : Number → Option Bytes → Bool → Call
  reject_call : ℕ → Call
  cancel_call : Call

abbrev pub call_of : Call → Requester → Bool → List Event × Requester
call_of (ready_call id) s registered = handle_ready id s
call_of (frame_call frame) s registered = if registered then handle frame s else ([], s)
call_of (request_call n) s registered = request_more n s
call_of (extension_call t c i) s registered = send_extension t c i s
call_of (reject_call e) s registered = if registered then ([], s) else handle_reject e s
call_of cancel_call s registered = cancel_stream s

-- A stream that is registered has its id and is not done.
abbrev pub IsOpen : Requester → Bool → Type 0
IsOpen s registered =
    (registered ≡ false) ⊎ ((s.done ≡ false) × (id : Number) × (s.stream_id ≡ some id))
