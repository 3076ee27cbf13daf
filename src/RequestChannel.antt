-- ===== src/RequestChannel.antt =====
-- `RequestChannelRequesterStream` of packages/rsocket-core/src/RequestChannelStream.ts. A channel has
-- two directions: inbound, to this end, and outbound, from it.
pub mod Responder
pub mod Serving
pub mod Delivery
pub mod Inbound
pub mod Calls
pub mod Closed
pub mod Stays
pub mod Kept
pub mod Listed
pub mod Signals
pub mod Directions
pub mod Answering
pub mod Tests
use rsocket.Prelude.{
  ℕ, Bool, true, false, not, ◌&&◌, ◌||◌, Option, none, some, List, [], ◌∷◌, ◌++◌, map, bit_or,
  if◌then◌else◌,
}
use rsocket.Prelude.Number.{Number, pos, add, lt}
use rsocket.Prelude.Generator.{yields}
use rsocket.Bytes.{Bytes}
use rsocket.Frames.{
  Frame, CancelFrame, PayloadFrame, ErrorFrame, ExtFrame, RequestNFrame, RequestManyFrame, cancel,
  request_channel, request_n, as_payload, as_cancel, as_request_n, as_error, as_ext, type_of,
}
use rsocket.Frames.Flags
use rsocket.Frames.FrameTypes
use rsocket.Reassembler as Reassembler
use rsocket.Reassembler.{Payload, FragmentsHolder}
use rsocket.Fragmenter.{is_fragmentable, fragment_with_request_n, channel_kind, metadata_flag}
use rsocket.Streams.{
  extension_of, Failure, StreamError, given, remote, canceled_by, failed, Event, sent, connected,
  disconnected, on_next, on_complete, on_error, on_extension, lease_cancelled, requested,
  receiver_cancelled, type_error, Extension, extension_frames, terminal_of, cancel_frame,
  response_of,
}
use rsocket.Streams.Messages.{codes, unexpected_type, during_reassembly, invalid_request_n}
use rsocket.Streams.Sending.{
  code_of, message_of, canceled, error_frame, complete_frame, response_frames,
}

pub record Requester : Type 0 where
  pub request : Payload
  pub fragment_size : ℕ
  pub initial_request_n : Number
  pub is_complete : Bool
  pub inbound_done : Bool
  pub outbound_done : Bool
  pub extension : Option Extension
  pub holder : FragmentsHolder
  pub stream_id : Option Number

abbrev pub both_done : Requester → Bool
both_done s = s.inbound_done && s.outbound_done

-- `this.stream.disconnect(this)` under a test
abbrev pub disconnect_if : Bool → List Event
disconnect_if test = if test then disconnected ∷ [] else []

abbrev pub cancel_unless : Bool → List Event
cancel_unless outbound_done = if outbound_done then [] else receiver_cancelled ∷ []

unfoldable pub request_frames : Number → Requester → List Frame
request_frames id s =
    if is_fragmentable s.request s.fragment_size FrameTypes.request_channel
    then yields (
        fragment_with_request_n id s.request s.fragment_size channel_kind s.initial_request_n
          s.is_complete)
    else request_channel (record {
      flags =
          bit_or (metadata_flag s.request.metadata)
            (if s.is_complete then Flags.complete else Flags.no_flags);
      body = s.request.body;
      metadata = s.request.metadata;
      request_n = s.initial_request_n;
      stream_id = id;
    })
      ∷ []

unfoldable pub handle_ready : Number → Requester → List Event × Requester
handle_ready id s = if s.outbound_done then ([], s) else (
  connected ∷ map sent (request_frames id s ++ extension_frames id s.extension),
  record s { stream_id = some id; outbound_done = s.is_complete },
)

unfoldable pub handle_reject : ℕ → Requester → List Event × Requester
handle_reject e s =
    if s.inbound_done
    then ([], s)
    else (on_error (given e) ∷ [], record s { inbound_done = true; outbound_done = true })

abbrev pub terminal_unless : Bool → Option StreamError → List Event
terminal_unless inbound_done e = if inbound_done then [] else terminal_of e ∷ []

unfoldable pub close : Option StreamError → Requester → List Event × Requester
close e s = if both_done s then ([], s) else (
  cancel_unless s.outbound_done ++ terminal_unless s.inbound_done e,
  record s { inbound_done = true; outbound_done = true; holder = Reassembler.cancel s.holder },
)

-- The end of `handle`, behind its `switch`
unfoldable pub unexpected : List ℕ → Requester → List Event × Requester
unexpected message s =
    let (events, s') = close (some (canceled_by message)) s in
    (events ++ (cancel_frame s.stream_id ++ (disconnected ∷ [])), s')

-- A PAYLOAD that says COMPLETE, or that no other one follows
unfoldable pub handle_last : PayloadFrame → Requester → List Event × Requester
handle_last f s =
    let complete = Flags.has_complete f.flags in
    let (content, holder) = response_of s.holder f.body f.metadata in
    let left = disconnect_if (complete && s.outbound_done) in
    let s' = record s { inbound_done = s.inbound_done || complete } in
    if complete && not (Flags.has_next f.flags)
    then (left ++ (on_complete ∷ []), s')
    else (left ++ (on_next content complete ∷ []), record s' { holder = holder })

unfoldable pub handle_payload : PayloadFrame → Requester → List Event × Requester
handle_payload f s =
    if Flags.has_complete f.flags || not (Flags.has_follows f.flags)
    then handle_last f s
    else ([], record s { holder = Reassembler.add s.holder f.body f.metadata })

unfoldable pub handle_cancel : Requester → List Event × Requester
handle_cancel s = if s.outbound_done then ([], s) else (
  disconnect_if s.inbound_done ++ (receiver_cancelled ∷ []),
  record s { outbound_done = true },
)

unfoldable pub handle_request_n : RequestNFrame → Requester → List Event × Requester
handle_request_n f s =
    if s.outbound_done
    then ([], s)
    else (if s.holder.has_fragments
        then unexpected (during_reassembly FrameTypes.request_n) s
        else (if lt f.request_n (pos 1)
            then unexpected (invalid_request_n f.request_n) s
            else (requested f.request_n ∷ [], s)))

-- The `switch` of `handle`
abbrev pub handle_by :
    Option PayloadFrame
    → Option CancelFrame
    → Option RequestNFrame
    → Option ErrorFrame
    → Option ExtFrame
    → Frame
    → Requester
    → List Event × Requester
handle_by (some f) c n e x frame s = handle_payload f s
handle_by none (some f) n e x frame s = handle_cancel s
handle_by none none (some f) e x frame s = handle_request_n f s
handle_by none none none (some f) x frame s = (
  disconnected ∷ (cancel_unless s.outbound_done ++ (on_error (remote f.code f.message) ∷ [])),
  record s { inbound_done = true; outbound_done = true; holder = Reassembler.cancel s.holder },
)
handle_by none none none none (some f) frame s =
    (on_extension f.extended_type f.extended_content (Flags.has_ignore f.flags) ∷ [], s)
handle_by none none none none none frame s = unexpected (unexpected_type (type_of frame)) s

unfoldable pub handle : Frame → Requester → List Event × Requester
handle frame s =
    handle_by (as_payload frame) (as_cancel frame) (as_request_n frame) (as_error frame)
      (as_ext frame) frame s

-- `request(n)`
abbrev pub requested_more : Option Number → Number → Requester → List Event × Requester
requested_more none n s = ([], record s { initial_request_n = add s.initial_request_n n })
requested_more (some id) n s =
    (sent (request_n (record { flags = Flags.no_flags; request_n = n; stream_id = id })) ∷ [], s)

unfoldable pub request_more : Number → Requester → List Event × Requester
request_more n s = if s.inbound_done then ([], s) else requested_more s.stream_id n s

-- `cancel()`
abbrev pub parting_frame : Bool → Number → Frame
parting_frame inbound_done id =
    if inbound_done
    then error_frame id canceled (codes "Cancelled")
    else cancel (record { flags = Flags.no_flags; stream_id = id })

abbrev pub cancelled : Option Number → Requester → List Event × Requester
cancelled none s = (
  cancel_unless s.outbound_done ++ (lease_cancelled ∷ []),
  record s { inbound_done = true; outbound_done = true },
)
cancelled (some id) s = (
  cancel_unless s.outbound_done ++ (sent (parting_frame s.inbound_done id) ∷ disconnected ∷ []),
  record s { inbound_done = true; outbound_done = true; holder = Reassembler.cancel s.holder },
)

unfoldable pub cancel_stream : Requester → List Event × Requester
cancel_stream s = if both_done s then ([], s) else cancelled s.stream_id s

-- `onNext(...)`. Before the stream has its id, `this.stream` is not set.
abbrev pub sent_payload : Option Number → Payload → Bool → Requester → List Event × Requester
sent_payload none content is_complete s =
    (type_error ∷ [], record s { outbound_done = is_complete })
sent_payload (some id) content is_complete s = (
  disconnect_if (is_complete && s.inbound_done)
      ++ map sent (response_frames id s.fragment_size content is_complete),
  record s { outbound_done = is_complete },
)

unfoldable pub next_payload : Payload → Bool → Requester → List Event × Requester
next_payload content is_complete s =
    if s.outbound_done then ([], s) else sent_payload s.stream_id content is_complete s

-- `onComplete()`
abbrev pub completed : Option Number → Requester → List Event × Requester
completed none s = ([], record s { is_complete = true })
completed (some id) s = if s.outbound_done then ([], s) else (
  sent (complete_frame id) ∷ disconnect_if s.inbound_done,
  record s { outbound_done = true },
)

unfoldable pub complete_stream : Requester → List Event × Requester
complete_stream s = completed s.stream_id s

-- `onError(...)`
abbrev pub failing : Option Number → Failure → Requester → List Event × Requester
failing none e s = (type_error ∷ [], record s { inbound_done = true; outbound_done = true })
failing (some id) e s = (
  sent (error_frame id (code_of e) (message_of e))
      ∷ disconnected
      ∷ (if s.inbound_done then [] else on_error (failed e) ∷ []),
  record s { inbound_done = true; outbound_done = true },
)

unfoldable pub fail_stream : Failure → Requester → List Event × Requester
fail_stream e s = if s.outbound_done then ([], s) else failing s.stream_id e s

-- `onExtension(...)` of the caller
abbrev pub extended : Option Number → Extension → Requester → List Event × Requester
extended none e s = ([], record s { extension = some e })
extended (some id) e s = (map sent (extension_frames id (some e)), s)

unfoldable pub send_extension : Number → Option Bytes → Bool → Requester → List Event × Requester
send_extension extended_type content can_be_ignored s =
    let e = extension_of extended_type content can_be_ignored in
    if s.outbound_done then ([], s) else extended s.stream_id e s
