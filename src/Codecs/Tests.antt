-- ===== src/Codecs/Tests.antt =====
-- The theorems on Codecs.ts at concrete frames, and frames followed byte by byte.
use rsocket.Prelude.{◌≡◌, ◌≢◌, ◌++◌, refl, some, none, [], ◌∷◌, arith}
use rsocket.Prelude.Number.{pos}
use rsocket.Prelude.Result.{ok, err, range_error, ◌>>=◌}
use rsocket.Bytes.{Bytes, copy, alloc, write_int32, write_uint32, write_uint16, write_uint24}
use rsocket.Frames.Flags
use rsocket.Frames.{PayloadFrame, SetupFrame, payload, setup}
use rsocket.Codecs.Common.{TextCodec, write_header, write_payload, get_payload_length}
use rsocket.Codecs.Serialize.{serialize_frame, serialize_payload_frame, serialize_setup_frame}
use rsocket.Codecs.Size.{size_of_frame}
use rsocket.Codecs.Deserialize.{deserialize_frame}
use rsocket.Codecs.Wire.{wire}
use rsocket.Codecs.Layout.All.{serialize_frame-wire}
use rsocket.Codecs.Layout.SizeOf.{size_of_frame-serialize_frame}
use rsocket.Codecs.Layout.Overrun.{serialize_setup_frame_overrun}
use rsocket.Codecs.RoundTrip.{as_read}
use rsocket.Codecs.RoundTrip.All.{deserialize_frame-serialize_frame}
use rsocket.Codecs.Stream.{deserialize_frames, send_all, out_of_fuel}
use rsocket.Codecs.Stream.Ends.{deserialize_frames_ends}
use rsocket.Codecs.Stream.RoundTrip.{delivered, deserialize_frames-send_all}

-- A text codec that is right on ASCII.
abbrev ascii : TextCodec
ascii = record { encode = λ s. s; decode = λ b. b }

-- NEXT and METADATA, with two bytes of metadata and one of data.
abbrev small : PayloadFrame
small = record {
  flags = 0x120;
  body = some (7 ∷ []);
  metadata = some (1 ∷ 2 ∷ []);
  stream_id = pos 5;
}

abbrev small_bytes : Bytes
small_bytes = 0 ∷ 0 ∷ 0 ∷ 5 ∷ 0x29 ∷ 0x20 ∷ 0 ∷ 0 ∷ 2 ∷ 1 ∷ 2 ∷ 7 ∷ []

wire-small : wire ascii (payload small) ≡ small_bytes
unfolding Flags.has_metadata
wire-small = refl

serialize_frame-small : serialize_frame ascii (payload small) ≡ ok small_bytes
unfolding serialize_frame serialize_payload_frame write_header write_payload get_payload_length copy
    alloc write_int32 write_uint32 write_uint16 write_uint24 Flags.has_metadata
serialize_frame-small = refl

-- A SETUP frame with RESUME_ENABLE and METADATA.
abbrev resumable : SetupFrame
resumable = record {
  flags = 0x180;
  data_mime_type = b't' ∷ b'/' ∷ b'a' ∷ [];
  body = none;
  keep_alive = pos 60000;
  lifetime = pos 300000;
  metadata = some (9 ∷ []);
  metadata_mime_type = b't' ∷ b'/' ∷ b'b' ∷ [];
  resume_token = some (1 ∷ 2 ∷ 3 ∷ []);
  major_version = pos 1;
  minor_version = pos 0;
}

serialize_frame-wire_example :
    serialize_frame ascii (setup resumable) ≡ ok (wire ascii (setup resumable))
serialize_frame-wire_example = serialize_frame-wire ascii (setup resumable) (omega arith)

deserialize_frame-serialize_frame_example :
    (serialize_frame ascii (setup resumable) >>= deserialize_frame ascii)
    ≡ ok (as_read (setup resumable))
deserialize_frame-serialize_frame_example =
    deserialize_frame-serialize_frame ascii (setup resumable) (omega arith) (omega arith)

size_of_frame-serialize_frame_example : size_of_frame ascii (payload small) ≡ ok 12
unfolding Flags.has_metadata
size_of_frame-serialize_frame_example =
    size_of_frame-serialize_frame ascii (payload small)
      (serialize_frame-wire ascii (payload small) tt)

-- The same frame with its token left out and data in it.
abbrev tokenless : SetupFrame
tokenless = record resumable { resume_token = none; body = some (1 ∷ []) }

serialize_setup_frame_overrun_example : serialize_setup_frame tokenless ≡ err range_error
serialize_setup_frame_overrun_example =
    serialize_setup_frame_overrun tokenless (1 ∷ []) refl refl refl

-- Two frames, and the first two bytes of a third one's length.
deserialize_frames-send_all_example :
    (send_all ascii (setup resumable ∷ setup resumable ∷ []) >>= λ b.
    ok (deserialize_frames ascii (b ++ (0 ∷ 0 ∷ []))))
    ≡ ok (delivered ascii 0 (setup resumable ∷ setup resumable ∷ []))
unfolding Flags.has_metadata
deserialize_frames-send_all_example =
    deserialize_frames-send_all ascii (setup resumable ∷ setup resumable ∷ []) (0 ∷ 0 ∷ [])
      (omega arith) (omega arith)

deserialize_frames_ends_example : (deserialize_frames ascii (0 ∷ 0 ∷ 1 ∷ 9 ∷ [])).1 ≢ out_of_fuel
deserialize_frames_ends_example = deserialize_frames_ends ascii (0 ∷ 0 ∷ 1 ∷ 9 ∷ [])
