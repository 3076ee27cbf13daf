-- ===== src/Streams.antt =====
-- What the four kinds of streams share: the calls that leave a stream, as events, and frames that each
-- kind makes in the same way. It is code of RequestResponseStream.ts, which RequestFnFStream.ts,
-- RequestStreamStream.ts and RequestChannelStream.ts of packages/rsocket-core/src repeat.
pub mod Runs
pub mod Endings
pub mod Messages
pub mod Sending
pub mod Orderly
pub mod Serving
pub mod Items
use rsocket.Prelude.{ℕ, ◌+◌, Bool, true, false, Option, none, some, List, [], ◌∷◌, if◌then◌else◌}
use rsocket.Prelude.Number.{Number}
use rsocket.Bytes.{Bytes}
use rsocket.Frames.{Frame, ext, cancel}
use rsocket.Frames.Flags
use rsocket.Reassembler.{Payload, FragmentsHolder, reassemble}

-- An `Error`, and whether it is an `RSocketError`, which has a code.
pub data Failure : Type 0 where
  rsocket_failure : Number → List ℕ → Failure
  other_failure : List ℕ → Failure

-- The errors that reach a receiver: one of the caller's, by its number, `RSocketError(frame.code,
-- frame.message)`, CANCELED with "Unexpected frame type", CANCELED with another message, and an error as it is.
pub data StreamError : Type 0 where
  given : ℕ → StreamError
  remote : Number → List ℕ → StreamError
  unexpected_frame : StreamError
  canceled_by : List ℕ → StreamError
  failed : Failure → StreamError

-- The calls that leave a stream: frames that are sent, `connect` and `disconnect` of the stream, the
-- signals to a receiver, `cancelRequest` of the lease manager, the responder's handler with a request
-- count where it has one, and `request` and `cancel` of what that handler returned. A channel's handler is told too whether the
-- payload is the last one; a call of a stream that is not set yet throws a `TypeError`.
pub data Event : Type 0 where
  sent : Frame → Event
  connected : Event
  disconnected : Event
  on_next : Payload → Bool → Event
  on_complete : Event
  on_error : StreamError → Event
  on_extension : Number → Option Bytes → Bool → Event
  lease_cancelled : Event
  handler_called : Payload → Option Number → Event
  requested : Number → Event
  receiver_cancelled : Event
  channel_called : Payload → Option Number → Bool → Event
  type_error : Event

-- An extension that waits for the stream's id.
pub record Extension : Type 0 where
  pub extended_type : Number
  pub extended_content : Option Bytes
  pub flags : ℕ

abbrev pub extension_of : Number → Option Bytes → Bool → Extension
extension_of extended_type content can_be_ignored = record {
  extended_type = extended_type;
  extended_content = content;
  flags = if can_be_ignored then Flags.ignore else Flags.no_flags;
}

abbrev pub extension_frames : Number → Option Extension → List Frame
extension_frames id none = []
extension_frames id (some e) =
    ext (record {
      flags = e.flags;
      stream_id = id;
      extended_type = e.extended_type;
      extended_content = e.extended_content;
    })
    ∷ []

abbrev pub terminal_of : Option StreamError → Event
terminal_of none = on_complete
terminal_of (some e) = on_error e

abbrev pub cancel_frame : Option Number → List Event
cancel_frame none = []
cancel_frame (some id) = sent (cancel (record { flags = Flags.no_flags; stream_id = id })) ∷ []

abbrev pub response_of : FragmentsHolder → Option Bytes → Option Bytes → Payload × FragmentsHolder
response_of holder body metadata =
    if holder.has_fragments
    then reassemble holder body metadata
    else (record { body = body; metadata = metadata }, holder)

-- How often the receiver's signals that end it are called: `onNext(_, true)`, `onComplete` and
-- `onError`.
abbrev pub is_terminal : Event → Bool
is_terminal (on_next content last) = last
is_terminal on_complete = true
is_terminal (on_error e) = true
is_terminal _ = false

abbrev pub terminals : List Event → ℕ
terminals [] = 0
terminals (event ∷ events) = (if is_terminal event then 1 else 0) + terminals events

abbrev pub registered_after : List Event → Bool → Bool
registered_after [] b = b
registered_after (connected ∷ events) b = registered_after events true
registered_after (disconnected ∷ events) b = registered_after events false
registered_after (_ ∷ events) b = registered_after events b

-- The frames that are sent
abbrev pub frames_of : List Event → List Frame
frames_of [] = []
frames_of (sent frame ∷ events) = frame ∷ frames_of events
frames_of (_ ∷ events) = frames_of events
