-- ===== src/RequestFnf.antt =====
-- packages/rsocket-core/src/RequestFnFStream.ts: both ends of fire-and-forget.
pub mod Outcome
pub mod Delivery
pub mod Serving
pub mod Tests
use rsocket.Prelude.Generator.{yields}
use rsocket.Prelude.{
  ℕ, Bool, true, false, ◌||◌, ◌==◌, Option, none, some, List, [], ◌∷◌, ◌++◌, map, if◌then◌else◌,
}
use rsocket.Prelude.Number.{Number}
use rsocket.Frames.{
  Frame, PayloadFrame, RequestFrame, ErrorFrame, request_fnf, as_payload, as_error, type_of,
}
use rsocket.Frames.Flags
use rsocket.Frames.FrameTypes
use rsocket.Reassembler as Reassembler
use rsocket.Reassembler.{Payload, FragmentsHolder, reassemble}
use rsocket.Fragmenter.{is_fragmentable, fragment, fnf_kind, metadata_flag}
use rsocket.Streams.{
  StreamError, given, remote, canceled_by, Event, sent, connected, disconnected, on_complete,
  on_error, lease_cancelled, handler_called, receiver_cancelled, terminal_of,
}
use rsocket.Streams.Messages.{codes, unexpected_type}
use rsocket.Streams.Sending.{complaint}

-- `RequestFnFRequesterStream`
pub record Requester : Type 0 where
  pub request : Payload
  pub fragment_size : ℕ
  pub done : Bool
  pub stream_id : Option Number

unfoldable pub request_frames : Number → Requester → List Frame
request_frames id s =
    if is_fragmentable s.request s.fragment_size FrameTypes.request_fnf
    then yields (fragment id s.request s.fragment_size fnf_kind false)
    else request_fnf (record {
      flags = metadata_flag s.request.metadata;
      body = s.request.body;
      metadata = s.request.metadata;
      stream_id = id;
    })
      ∷ []

unfoldable pub handle_ready : Number → Requester → List Event × Requester
handle_ready id s = if s.done then ([], s) else (
  map sent (request_frames id s) ++ (on_complete ∷ []),
  record s { stream_id = some id; done = true },
)

unfoldable pub handle_reject : ℕ → Requester → List Event × Requester
handle_reject e s = if s.done then ([], s) else (on_error (given e) ∷ [], record s { done = true })

unfoldable pub cancel_stream : Requester → List Event × Requester
cancel_stream s = if s.done then ([], s) else (lease_cancelled ∷ [], record s { done = true })

-- It leaves the stream as done as it was.
unfoldable pub close : Option StreamError → Requester → List Event × Requester
close e s = if s.done then ([], s) else (terminal_of e ∷ [], s)

abbrev close_reason : Option ErrorFrame → StreamError
close_reason none = canceled_by (codes "Received invalid frame")
close_reason (some f) = remote f.code f.message

unfoldable pub handle : Frame → Requester → List Event × Requester
unfolding close
handle frame s = close (some (close_reason (as_error frame))) s

-- `RequestFnfResponderStream`; of `cancellable`, only that there is one.
pub record Responder : Type 0 where
  pub stream_id : Number
  pub done : Bool
  pub holder : FragmentsHolder
  pub has_cancellable : Bool

-- The end of the responder's `handle`
unfoldable pub refuse : List ℕ → Frame → Responder → List Event × Responder
refuse message frame s = (
  complaint frame s.stream_id message ++ (disconnected ∷ []),
  record s { done = true; holder = Reassembler.cancel s.holder },
)

-- Whether the handler of the application throws, which is ignored
module _ (throws : Payload → Bool) where
  abbrev pub call_handler : Payload → Responder → List Event × Responder
  call_handler content s = (
    handler_called content none ∷ [],
    record s { has_cancellable = if throws content then s.has_cancellable else true },
  )

  -- The constructor
  unfoldable pub construct : RequestFrame → List Event × Responder
  construct frame =
      let s : Responder = record {
        stream_id = frame.stream_id;
        done = false;
        holder = record { has_fragments = false; body = none; metadata = none };
        has_cancellable = false;
      } in
      if Flags.has_follows frame.flags
      then (
        connected ∷ [],
        record s { holder = Reassembler.add s.holder frame.body frame.metadata },
      )
      else call_handler (record { body = frame.body; metadata = frame.metadata }) s

  abbrev pub respond_to : Option PayloadFrame → Frame → Responder → List Event × Responder
  respond_to none frame s = refuse (unexpected_type (type_of frame)) frame s
  respond_to (some f) frame s =
      let (content, holder) = reassemble s.holder f.body f.metadata in
      let (events, s') = call_handler content (record s { holder = holder }) in
      if Flags.has_follows f.flags
      then ([], record s { holder = Reassembler.add s.holder f.body f.metadata })
      else (disconnected ∷ events, s')

  -- The responder's `handle`
  unfoldable pub respond : Frame → Responder → List Event × Responder
  respond frame s = respond_to (as_payload frame) frame s

unfoldable pub close_responder : Responder → List Event × Responder
close_responder s = if s.done then ([], s) else (
  if s.has_cancellable then receiver_cancelled ∷ [] else [],
  record s { done = true; holder = Reassembler.cancel s.holder },
)
