-- ===== src/Codecs/Wire.antt =====
-- The wire format of each frame, as the plain join of its fields.
use rsocket.Prelude.{
  ℕ, ◌+◌, ◌*◌, ◌%◌, ◌^◌, List, [], ◌∷◌, ◌++◌, Option, none, some, length, not, ◌==◌, Bool, bit_and,
  if◌then◌else◌,
}
use rsocket.Prelude.Number.{Number, pos, to_u32}
use rsocket.Bytes.{Bytes}
use rsocket.Bytes.Filled.{be16, be24, be32, be64}
use rsocket.Frames.Flags
use rsocket.Frames.FrameTypes
use rsocket.Frames.{
  Frame, SetupFrame, cancel, error, keepalive, lease, payload, metadata_push, request_channel,
  request_fnf, request_n, request_response, request_stream, resume, resume_ok, setup, ext,
  unsupported,
}
use rsocket.Codecs.Common.{TextCodec, size}

abbrev pub or_empty : Option Bytes → Bytes
or_empty none = []
or_empty (some b) = b

-- The stream id and the word of type and flags.
abbrev pub header : ℕ → ℕ → Number → Bytes
header type flags stream_id =
    be32 (to_u32 stream_id) ++ be16 (to_u32 (pos (type * 2 ^ 10 + flags % 2 ^ 10)))

-- The metadata behind its length in 24 bits, if the flag is set.
abbrev pub metadata_bytes : Bool → Option Bytes → Bytes
metadata_bytes flagged m = if flagged then be24 (to_u32 (pos (size m))) ++ or_empty m else []

abbrev pub payload_bytes : ℕ → Option Bytes → Option Bytes → Bytes
payload_bytes flags m body = metadata_bytes (Flags.has_metadata flags) m ++ or_empty body

abbrev pub resume_enabled : ℕ → Bool
resume_enabled flags = not (bit_and flags Flags.resume_enable == 0)

abbrev pub token_bytes : Bool → Option Bytes → Bytes
token_bytes enabled t = if enabled then be16 (to_u32 (pos (size t))) ++ or_empty t else []

abbrev pub mime_bytes : List ℕ → Bytes
mime_bytes s = (to_u32 (pos (length s)) % 256) ∷ s

abbrev pub setup_bytes : SetupFrame → Bytes
setup_bytes f =
    header FrameTypes.setup f.flags (pos 0)
    ++ (be16 (to_u32 f.major_version)
        ++ (be16 (to_u32 f.minor_version)
            ++ (be32 (to_u32 f.keep_alive)
                ++ (be32 (to_u32 f.lifetime)
                    ++ (token_bytes (resume_enabled f.flags) f.resume_token
                        ++ (mime_bytes f.metadata_mime_type
                            ++ (mime_bytes f.data_mime_type
                                ++ payload_bytes f.flags f.metadata f.body)))))))

-- The bytes of a frame; a reserved frame has none.
abbrev pub wire : TextCodec → Frame → Bytes
wire text (setup f) = setup_bytes f
wire text (payload f) =
    header FrameTypes.payload f.flags f.stream_id ++ payload_bytes f.flags f.metadata f.body
wire text (error f) =
    header FrameTypes.error f.flags f.stream_id ++ (be32 (to_u32 f.code) ++ text.encode f.message)
wire text (keepalive f) =
    header FrameTypes.keepalive f.flags (pos 0)
    ++ (be64 f.last_received_position ++ or_empty f.body)
wire text (request_fnf f) =
    header FrameTypes.request_fnf f.flags f.stream_id ++ payload_bytes f.flags f.metadata f.body
wire text (request_response f) =
    header FrameTypes.request_response f.flags f.stream_id
    ++ payload_bytes f.flags f.metadata f.body
wire text (request_stream f) =
    header FrameTypes.request_stream f.flags f.stream_id
    ++ (be32 (to_u32 f.request_n) ++ payload_bytes f.flags f.metadata f.body)
wire text (request_channel f) =
    header FrameTypes.request_channel f.flags f.stream_id
    ++ (be32 (to_u32 f.request_n) ++ payload_bytes f.flags f.metadata f.body)
wire text (metadata_push f) = header FrameTypes.metadata_push f.flags (pos 0) ++ or_empty f.metadata
wire text (request_n f) =
    header FrameTypes.request_n f.flags f.stream_id ++ be32 (to_u32 f.request_n)
wire text (resume f) =
    header FrameTypes.resume f.flags (pos 0)
    ++ (be16 (to_u32 f.major_version)
        ++ (be16 (to_u32 f.minor_version)
            ++ (be16 (to_u32 (pos (length f.resume_token)))
                ++ (f.resume_token ++ (be64 f.server_position ++ be64 f.client_position)))))
wire text (resume_ok f) = header FrameTypes.resume_ok f.flags (pos 0) ++ be64 f.client_position
wire text (cancel f) = header FrameTypes.cancel f.flags f.stream_id
wire text (lease f) =
    header FrameTypes.lease f.flags (pos 0)
    ++ (be32 (to_u32 f.ttl) ++ (be32 (to_u32 f.request_count) ++ or_empty f.metadata))
wire text (ext f) =
    header FrameTypes.ext f.flags f.stream_id
    ++ (be32 (to_u32 f.extended_type) ++ or_empty f.extended_content)
wire text (unsupported f) = []
