-- ===== src/RequestStream.antt =====
-- `RequestStreamRequesterStream` of packages/rsocket-core/src/RequestStreamStream.ts.
pub mod Responder
pub mod Calls
pub mod Terminal
pub mod Sends
pub mod Credit
pub mod Counts
pub mod Signals
pub mod Answers
pub mod Low
pub mod Positive
pub mod Serving
pub mod Delivery
pub mod Tests
use rsocket.Prelude.{
  ℕ, Bool, true, false, not, ◌||◌, Option, none, some, List, [], ◌∷◌, ◌++◌, map, if◌then◌else◌,
}
use rsocket.Prelude.Number.{Number, add}
use rsocket.Prelude.Generator.{yields}
use rsocket.Bytes.{Bytes}
use rsocket.Frames.{
  Frame, PayloadFrame, ExtFrame, RequestNFrame, RequestManyFrame, request_stream, request_n,
  ErrorFrame, as_payload, as_error, as_ext, type_of,
}
use rsocket.Frames.Flags
use rsocket.Frames.FrameTypes
use rsocket.Reassembler as Reassembler
use rsocket.Reassembler.{Payload, FragmentsHolder}
use rsocket.Fragmenter.{is_fragmentable, fragment_with_request_n, stream_kind, metadata_flag}
use rsocket.Streams.{
  extension_of, StreamError, given, remote, canceled_by, Event, sent, connected, disconnected,
  on_next, on_complete, on_error, on_extension, lease_cancelled, Extension, extension_frames,
  terminal_of, cancel_frame, response_of,
}
use rsocket.Streams.Messages.{unexpected_type, during_reassembly}

pub record Requester : Type 0 where
  pub request : Payload
  pub fragment_size : ℕ
  pub initial_request_n : Number
  pub done : Bool
  pub extension : Option Extension
  pub holder : FragmentsHolder
  pub stream_id : Option Number

unfoldable pub request_frames : Number → Requester → List Frame
request_frames id s =
    if is_fragmentable s.request s.fragment_size FrameTypes.request_stream
    then yields
        (fragment_with_request_n id s.request s.fragment_size stream_kind s.initial_request_n false)
    else request_stream (record {
      flags = metadata_flag s.request.metadata;
      body = s.request.body;
      metadata = s.request.metadata;
      request_n = s.initial_request_n;
      stream_id = id;
    })
      ∷ []

unfoldable pub handle_ready : Number → Requester → List Event × Requester
handle_ready id s = if s.done then ([], s) else (
  connected ∷ map sent (request_frames id s ++ extension_frames id s.extension),
  record s { stream_id = some id },
)

unfoldable pub handle_reject : ℕ → Requester → List Event × Requester
handle_reject e s = if s.done then ([], s) else (on_error (given e) ∷ [], record s { done = true })

unfoldable pub close : Option StreamError → Requester → List Event × Requester
close e s =
    if s.done
    then ([], s)
    else (terminal_of e ∷ [], record s { done = true; holder = Reassembler.cancel s.holder })

-- The end of `handle`, behind its `switch`
unfoldable pub unexpected : List ℕ → Requester → List Event × Requester
unexpected message s =
    let (events, s') = close (some (canceled_by message)) s in
    (events ++ (cancel_frame s.stream_id ++ (disconnected ∷ [])), s')

-- A PAYLOAD that says COMPLETE, or that no other one follows
unfoldable pub handle_last : PayloadFrame → Requester → List Event × Requester
handle_last f s =
    let (content, holder) = response_of s.holder f.body f.metadata in
    if Flags.has_complete f.flags
    then (if Flags.has_next f.flags
        then (disconnected ∷ on_next content true ∷ [], record s { done = true; holder = holder })
        else (disconnected ∷ on_complete ∷ [], record s { done = true }))
    else (on_next content false ∷ [], record s { holder = holder })

-- The `switch` of `handle`
abbrev pub handle_by :
    Option PayloadFrame
    → Option ErrorFrame
    → Option ExtFrame
    → Frame
    → Requester
    → List Event × Requester
handle_by (some f) e x frame s =
    if Flags.has_complete f.flags || not (Flags.has_follows f.flags)
    then handle_last f s
    else ([], record s { holder = Reassembler.add s.holder f.body f.metadata })
handle_by none (some f) x frame s = (
  disconnected ∷ on_error (remote f.code f.message) ∷ [],
  record s { done = true; holder = Reassembler.cancel s.holder },
)
handle_by none none (some f) frame s =
    if s.holder.has_fragments
    then unexpected (during_reassembly (type_of frame)) s
    else (on_extension f.extended_type f.extended_content (Flags.has_ignore f.flags) ∷ [], s)
handle_by none none none frame s = unexpected (unexpected_type (type_of frame)) s

unfoldable pub handle : Frame → Requester → List Event × Requester
handle frame s = handle_by (as_payload frame) (as_error frame) (as_ext frame) frame s

-- `request(n)`
abbrev pub requested_more : Option Number → Number → Requester → List Event × Requester
requested_more none n s = ([], record s { initial_request_n = add s.initial_request_n n })
requested_more (some id) n s =
    (sent (request_n (record { flags = Flags.no_flags; request_n = n; stream_id = id })) ∷ [], s)

unfoldable pub request_more : Number → Requester → List Event × Requester
request_more n s = if s.done then ([], s) else requested_more s.stream_id n s

-- `cancel()`
abbrev pub cancelled : Option Number → Requester → List Event × Requester
cancelled none s = (lease_cancelled ∷ [], record s { done = true })
cancelled (some id) s = (
  cancel_frame (some id) ++ (disconnected ∷ []),
  record s { done = true; holder = Reassembler.cancel s.holder },
)

unfoldable pub cancel_stream : Requester → List Event × Requester
cancel_stream s = if s.done then ([], s) else cancelled s.stream_id s

-- `onExtension(...)` of the caller
abbrev pub extended : Option Number → Extension → Requester → List Event × Requester
extended none e s = ([], record s { extension = some e })
extended (some id) e s = (map sent (extension_frames id (some e)), s)

unfoldable pub send_extension : Number → Option Bytes → Bool → Requester → List Event × Requester
send_extension extended_type content can_be_ignored s =
    let e = extension_of extended_type content can_be_ignored in
    if s.done then ([], s) else extended s.stream_id e s
