-- ===== src/RequestResponse.antt =====
-- `RequestResponseRequesterStream` of packages/rsocket-core/src/RequestResponseStream.ts, with the
-- stream's entry in the registry of the multiplexer (`connect`, `disconnect`, and the look-up of
-- `handle` in ClientServerMultiplexerDemultiplexer.ts). The calls that leave the stream are events.
pub mod Calls
pub mod Ends
pub mod Terminal
pub mod Fragments
pub mod Responder
pub mod Answers
pub mod Serving
pub mod Exchange
pub mod Tests
use rsocket.Streams.{
  extension_of, StreamError, given, remote, unexpected_frame, Event, sent, connected, disconnected,
  on_next, on_complete, on_error, on_extension, lease_cancelled, Extension, extension_frames,
  terminal_of, cancel_frame, response_of, is_terminal, terminals, registered_after,
}
use rsocket.Prelude.{
  ℕ, Bool, true, false, not, ◌||◌, Option, none, some, List, [], ◌∷◌, ◌++◌, map, if◌then◌else◌,
}
use rsocket.Prelude.Number.{Number}
use rsocket.Prelude.Generator.{Generator, yield, return, out_of_fuel, yields}
use rsocket.Bytes.{Bytes}
use rsocket.Frames.{
  Frame, RequestFrame, ExtFrame, CancelFrame, payload, error, ext, cancel, request_response,
}
use rsocket.Frames.Flags
use rsocket.Frames.FrameTypes
use rsocket.Reassembler as Reassembler
use rsocket.Reassembler.{Payload, FragmentsHolder, reassemble}
use rsocket.Fragmenter.{is_fragmentable, fragment, response_kind, metadata_flag}

pub record Requester : Type 0 where
  pub request : Payload
  pub fragment_size : ℕ
  pub done : Bool
  pub extension : Option Extension
  pub holder : FragmentsHolder
  pub stream_id : Option Number

unfoldable pub request_frames : Number → Requester → List Frame
request_frames id s =
    if is_fragmentable s.request s.fragment_size FrameTypes.request_response
    then yields (fragment id s.request s.fragment_size response_kind false)
    else request_response (record {
      flags = metadata_flag s.request.metadata;
      body = s.request.body;
      metadata = s.request.metadata;
      stream_id = id;
    })
      ∷ []

-- The result that `handleReady` returns is `not s.done`.
unfoldable pub handle_ready : Number → Requester → List Event × Requester
unfolding request_frames
handle_ready id s = if s.done then ([], s) else (
  connected ∷ map sent (request_frames id s ++ extension_frames id s.extension),
  record s { stream_id = some id },
)

unfoldable pub handle_reject : ℕ → Requester → List Event × Requester
handle_reject e s = if s.done then ([], s) else (on_error (given e) ∷ [], record s { done = true })

unfoldable pub close : Option StreamError → Requester → List Event × Requester
close e s =
    if s.done
    then ([], s)
    else (terminal_of e ∷ [], record s { done = true; holder = Reassembler.cancel s.holder })

-- The end of `handle`, behind its `switch`
unfoldable pub unexpected : Requester → List Event × Requester
unexpected s =
    let (events, s') = close (some unexpected_frame) s in
    (events ++ (cancel_frame s.stream_id ++ (disconnected ∷ [])), s')

unfoldable pub handle : Frame → Requester → List Event × Requester
handle (payload f) s =
    let (content, holder) = response_of s.holder f.body f.metadata in
    if Flags.has_complete f.flags || not (Flags.has_follows f.flags)
    then (if Flags.has_next f.flags
        then (disconnected ∷ on_next content true ∷ [], record s { done = true; holder = holder })
        else (disconnected ∷ on_complete ∷ [], record s { done = true }))
    else ([], record s { holder = Reassembler.add s.holder f.body f.metadata })
handle (error f) s = (
  disconnected ∷ on_error (remote f.code f.message) ∷ [],
  record s { done = true; holder = Reassembler.cancel s.holder },
)
handle (ext f) s =
    if s.holder.has_fragments
    then unexpected s
    else (on_extension f.extended_type f.extended_content (Flags.has_ignore f.flags) ∷ [], s)
handle _ s = unexpected s

-- `cancel()`
abbrev pub cancelled : Option Number → Requester → List Event × Requester
cancelled none s = (lease_cancelled ∷ [], record s { done = true })
cancelled (some id) s = (
  cancel_frame (some id) ++ (disconnected ∷ []),
  record s { done = true; holder = Reassembler.cancel s.holder },
)

unfoldable pub cancel_stream : Requester → List Event × Requester
cancel_stream s = if s.done then ([], s) else cancelled s.stream_id s

-- `onExtension(...)` of the caller
abbrev pub extended : Option Number → Extension → Requester → List Event × Requester
extended none e s = ([], record s { extension = some e })
extended (some id) e s = (map sent (extension_frames id (some e)), s)

unfoldable pub send_extension : Number → Option Bytes → Bool → Requester → List Event × Requester
send_extension extended_type content can_be_ignored s =
    let e = extension_of extended_type content can_be_ignored in
    if s.done then ([], s) else extended s.stream_id e s
