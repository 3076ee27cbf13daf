-- ===== src/RequestResponse/Calls.antt =====
-- The calls that a request/response stream gets, and its place in the registry of the multiplexer.
use rsocket.Streams.{Event, registered_after}
use rsocket.Prelude.{ℕ, ◌≡◌, ◌⊎◌, Bool, false, Option, some, List, [], ◌∷◌, ◌++◌, if◌then◌else◌}
use rsocket.Prelude.Number.{Number}
use rsocket.Bytes.{Bytes}
use rsocket.Frames.{Frame}
use rsocket.RequestResponse.{
  Requester, handle_ready, handle_reject, handle, cancel_stream, send_extension,
}

-- The stream, and whether the registry of the multiplexer has it.
pub record World : Type 0 where
  pub stream : Requester
  pub registered : Bool

-- The calls that reach a stream. A frame whose stream is not registered is dropped. Only a stream that
-- is not registered is rejected: a lease handler rejects those that wait, and the multiplexer those that
-- it does not take.
pub data Call : Type 0 where
  ready_call : Number → Call
  reject_call : ℕ → Call
  frame_call : Frame → Call
  cancel_call : Call
  extension_call : Number → Option Bytes → Bool → Call

abbrev pub call_of : Call → World → List Event × Requester
call_of (ready_call id) w = handle_ready id w.stream
call_of (reject_call e) w = if w.registered then ([], w.stream) else handle_reject e w.stream
call_of (frame_call frame) w = if w.registered then handle frame w.stream else ([], w.stream)
call_of cancel_call w = cancel_stream w.stream
call_of (extension_call t c i) w = send_extension t c i w.stream

abbrev pub step : Call → World → List Event × World
step call w =
    let (events, s) = call_of call w in
    (events, record { stream = s; registered = registered_after events w.registered })

abbrev pub run : List Call → World → List Event × World
run [] w = ([], w)
run (call ∷ calls) w =
    let (events, w') = step call w in let (more, w'') = run calls w' in (events ++ more, w'')

-- A stream that is registered has its id and is not done.
abbrev pub IsOpen : Requester → Bool → Type 0
IsOpen s registered =
    (registered ≡ false) ⊎ ((s.done ≡ false) × (id : Number) × (s.stream_id ≡ some id))

abbrev pub done_count : Requester → ℕ
done_count s = if s.done then 1 else 0

-- Calls other than `cancel`
abbrev pub NoCancel : List Call → Type 0
NoCancel [] = Unit
NoCancel (cancel_call ∷ calls) = ⊥
NoCancel (ready_call id ∷ calls) = NoCancel calls
NoCancel (reject_call e ∷ calls) = NoCancel calls
NoCancel (frame_call frame ∷ calls) = NoCancel calls
NoCancel (extension_call t c i ∷ calls) = NoCancel calls
