-- ===== src/Codecs/RoundTrip.antt =====
-- What a frame must meet to be read back, and the frame that is then read: a part with no bytes
-- comes back as none, and so does metadata that the flag does not announce.
pub mod Fixed
pub mod Payloads
pub mod Tokens
pub mod All
use rsocket.Prelude.{ℕ, ◌+◌, ◌^◌, ◌<◌, ◌≡◌, [], Option, some, none, length, Bool, if◌then◌else◌}
use rsocket.Prelude.Number.{Number}
use rsocket.Bytes.{Bytes}
use rsocket.Bytes.ReadBack.{IsUint, IsInt32}
use rsocket.Frames.Flags
use rsocket.Frames.{
  Frame, cancel, error, keepalive, lease, payload, metadata_push, request_channel, request_fnf,
  request_n, request_response, request_stream, resume, resume_ok, setup, ext, unsupported,
}
use rsocket.Codecs.Common.{TextCodec, size}
use rsocket.Codecs.Wire.{or_empty, resume_enabled}
use rsocket.Codecs.ReadBack.{present}

abbrev pub present_part : Option Bytes → Option Bytes
present_part b = present (or_empty b)

abbrev pub flagged_part : ℕ → Option Bytes → Option Bytes
flagged_part flags m = if Flags.has_metadata flags then present_part m else none

abbrev pub as_read : Frame → Frame
as_read (cancel f) = cancel f
as_read (error f) = error f
as_read (keepalive f) = keepalive (record f { body = present_part f.body })
as_read (lease f) = lease (record f { metadata = present_part f.metadata })
as_read (payload f) =
    payload (record f { body = present_part f.body; metadata = flagged_part f.flags f.metadata })
as_read (metadata_push f) = metadata_push (record f { metadata = present_part f.metadata })
as_read (request_channel f) =
    request_channel
      (record f { body = present_part f.body; metadata = flagged_part f.flags f.metadata })
as_read (request_fnf f) =
    request_fnf
      (record f { body = present_part f.body; metadata = flagged_part f.flags f.metadata })
as_read (request_n f) = request_n f
as_read (request_response f) =
    request_response
      (record f { body = present_part f.body; metadata = flagged_part f.flags f.metadata })
as_read (request_stream f) =
    request_stream
      (record f { body = present_part f.body; metadata = flagged_part f.flags f.metadata })
as_read (resume f) = resume f
as_read (resume_ok f) = resume_ok f
as_read (setup f) = setup (record f {
  body = present_part f.body;
  metadata = flagged_part f.flags f.metadata;
  resume_token = if resume_enabled f.flags then some (or_empty f.resume_token) else none;
})
as_read (ext f) = ext (record f { extended_content = present_part f.extended_content })
as_read (unsupported f) = unsupported f

-- The ranges of a frame's fields, and that the platform decodes the text of an ERROR frame to what
-- it encoded.
module _ (text : TextCodec) where
  abbrev pub IsReadable : Frame → Type 0
  IsReadable (cancel f) = (f.flags < 2 ^ 10) × IsInt32 f.stream_id
  IsReadable (error f) =
      (f.flags < 2 ^ 10)
      × IsInt32 f.stream_id
      × IsInt32 f.code
      × (text.decode (text.encode f.message) ≡ f.message)
      × (text.decode [] ≡ [])
  IsReadable (keepalive f) = (f.flags < 2 ^ 10) × IsUint 53 f.last_received_position
  IsReadable (lease f) = (f.flags < 2 ^ 10) × IsUint 32 f.ttl × IsUint 32 f.request_count
  IsReadable (payload f) = (f.flags < 2 ^ 10) × IsInt32 f.stream_id × (size f.metadata < 2 ^ 24)
  IsReadable (metadata_push f) = f.flags < 2 ^ 10
  IsReadable (request_channel f) =
      (f.flags < 2 ^ 10) × IsInt32 f.stream_id × IsInt32 f.request_n × (size f.metadata < 2 ^ 24)
  IsReadable (request_fnf f) = (f.flags < 2 ^ 10) × IsInt32 f.stream_id × (size f.metadata < 2 ^ 24)
  IsReadable (request_n f) = (f.flags < 2 ^ 10) × IsInt32 f.stream_id × IsInt32 f.request_n
  IsReadable (request_response f) =
      (f.flags < 2 ^ 10) × IsInt32 f.stream_id × (size f.metadata < 2 ^ 24)
  IsReadable (request_stream f) =
      (f.flags < 2 ^ 10) × IsInt32 f.stream_id × IsInt32 f.request_n × (size f.metadata < 2 ^ 24)
  IsReadable (resume f) =
      (f.flags < 2 ^ 10)
      × IsUint 16 f.major_version
      × IsUint 16 f.minor_version
      × (length f.resume_token < 2 ^ 15)
      × IsUint 53 f.server_position
      × IsUint 53 f.client_position
  IsReadable (resume_ok f) = (f.flags < 2 ^ 10) × IsUint 53 f.client_position
  IsReadable (setup f) =
      (f.flags < 2 ^ 10)
      × IsUint 16 f.major_version
      × IsUint 16 f.minor_version
      × IsInt32 f.keep_alive
      × IsInt32 f.lifetime
      × (size f.resume_token < 2 ^ 15)
      × (length f.metadata_mime_type < 256)
      × (length f.data_mime_type < 256)
      × (size f.metadata < 2 ^ 24)
  IsReadable (ext f) = (f.flags < 2 ^ 10) × IsInt32 f.stream_id × IsInt32 f.extended_type
  IsReadable (unsupported f) = ⊥
