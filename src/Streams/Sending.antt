-- ===== src/Streams/Sending.antt =====
-- What an application does with the sender that its handler gets, and the frames that this makes.
use rsocket.Prelude.Generator.{yields}
use rsocket.Prelude.{◌==◌, ◌||◌, ℕ, Bool, Option, none, List, [], ◌∷◌, bit_or, if◌then◌else◌}
use rsocket.Prelude.Number.{Number, pos}
use rsocket.Bytes.{Bytes}
use rsocket.Frames.{type_of, Frame, payload, error, ext}
use rsocket.Frames.Flags
use rsocket.Frames.FrameTypes
use rsocket.Reassembler.{Payload}
use rsocket.Streams.{Failure, rsocket_failure, other_failure, Event, sent, receiver_cancelled}
use rsocket.Fragmenter.{is_fragmentable, fragment, payload_kind, metadata_flag}

-- Two of the enum `ErrorCodes` of Errors.ts
abbrev pub application_error : Number
application_error = pos 0x201

abbrev pub canceled : Number
canceled = pos 0x203

abbrev pub code_of : Failure → Number
code_of (rsocket_failure code message) = code
code_of (other_failure message) = application_error

abbrev pub message_of : Failure → List ℕ
message_of (rsocket_failure code message) = message
message_of (other_failure message) = message

-- `onNext`, `onComplete`, `onError` and `onExtension` of a sender
pub data Signal : Type 0 where
  next : Payload → Bool → Signal
  complete : Signal
  fail : Failure → Signal
  extend : Number → Option Bytes → Bool → Signal

-- What a handler does before it returns: the signals that it gives the sender, and the error that it
-- throws, if it throws.
pub record Outcome : Type 0 where
  pub signals : List Signal
  pub thrown : Option Failure

abbrev pub error_frame : Number → Number → List ℕ → Frame
error_frame id code message =
    error (record { flags = Flags.no_flags; code = code; message = message; stream_id = id })

abbrev pub complete_frame : Number → Frame
complete_frame id =
    payload (record { flags = Flags.complete; body = none; metadata = none; stream_id = id })

abbrev pub ext_frame : Number → Number → Option Bytes → Bool → Frame
ext_frame id extended_type content can_be_ignored = ext (record {
  flags = if can_be_ignored then Flags.ignore else Flags.no_flags;
  stream_id = id;
  extended_type = extended_type;
  extended_content = content;
})

-- The frames of `onNext`
unfoldable pub response_frames : Number → ℕ → Payload → Bool → List Frame
response_frames id fragment_size content is_completion =
    if is_fragmentable content fragment_size FrameTypes.payload
    then yields (fragment id content fragment_size payload_kind is_completion)
    else payload (record {
      flags =
          bit_or (bit_or Flags.next (if is_completion then Flags.complete else Flags.no_flags))
            (metadata_flag content.metadata);
      body = content.body;
      metadata = content.metadata;
      stream_id = id;
    })
      ∷ []

abbrev pub cancel_receiver : Bool → List Event
cancel_receiver has_receiver = if has_receiver then receiver_cancelled ∷ [] else []

-- The error that tells the peer what was wrong with a frame
abbrev pub complaint : Frame → Number → List ℕ → List Event
complaint frame id message =
    if type_of frame == FrameTypes.cancel || type_of frame == FrameTypes.error
    then []
    else sent (error_frame id canceled message) ∷ []
