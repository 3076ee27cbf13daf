-- ===== src/Frames.antt =====
-- packages/rsocket-core/src/Frames.ts: the frames of the protocol. A field `data` of the source is
-- called `body` here, `null` and `undefined` are both `none`, and a text is the list of its code
-- units. The connection frames whose type fixes `streamId: 0` have no field for it.
pub mod Flags
pub mod FrameTypes
use rsocket.Prelude.{ℕ, Bool, List, Option, none, some, ◌&&◌, leb}
use rsocket.Prelude.Number.{Number, pos, eq}
use rsocket.Bytes.{Bytes}

pub record CancelFrame : Type 0 where
  pub flags : ℕ
  pub stream_id : Number

pub record ErrorFrame : Type 0 where
  pub flags : ℕ
  pub code : Number
  pub message : List ℕ
  pub stream_id : Number

pub record KeepAliveFrame : Type 0 where
  pub flags : ℕ
  pub body : Option Bytes
  pub last_received_position : Number

pub record LeaseFrame : Type 0 where
  pub flags : ℕ
  pub ttl : Number
  pub request_count : Number
  pub metadata : Option Bytes

pub record PayloadFrame : Type 0 where
  pub flags : ℕ
  pub body : Option Bytes
  pub metadata : Option Bytes
  pub stream_id : Number

pub record MetadataPushFrame : Type 0 where
  pub flags : ℕ
  pub metadata : Option Bytes

-- REQUEST_FNF and REQUEST_RESPONSE, which have the same shape and differ in their type only.
pub record RequestFrame : Type 0 where
  pub flags : ℕ
  pub body : Option Bytes
  pub metadata : Option Bytes
  pub stream_id : Number

-- REQUEST_STREAM and REQUEST_CHANNEL, which have the same shape and differ in their type only.
pub record RequestManyFrame : Type 0 where
  pub flags : ℕ
  pub body : Option Bytes
  pub metadata : Option Bytes
  pub request_n : Number
  pub stream_id : Number

pub record RequestNFrame : Type 0 where
  pub flags : ℕ
  pub request_n : Number
  pub stream_id : Number

pub record ResumeFrame : Type 0 where
  pub flags : ℕ
  pub client_position : Number
  pub major_version : Number
  pub minor_version : Number
  pub resume_token : Bytes
  pub server_position : Number

pub record ResumeOkFrame : Type 0 where
  pub flags : ℕ
  pub client_position : Number

pub record SetupFrame : Type 0 where
  pub flags : ℕ
  pub data_mime_type : List ℕ
  pub body : Option Bytes
  pub keep_alive : Number
  pub lifetime : Number
  pub metadata : Option Bytes
  pub metadata_mime_type : List ℕ
  pub resume_token : Option Bytes
  pub major_version : Number
  pub minor_version : Number

pub record ExtFrame : Type 0 where
  pub flags : ℕ
  pub stream_id : Number
  pub extended_type : Number
  pub extended_content : Option Bytes

pub record UnsupportedFrame : Type 0 where
  pub flags : ℕ

-- The union `Frame`.
pub data Frame : Type 0 where
  cancel : CancelFrame → Frame
  error : ErrorFrame → Frame
  keepalive : KeepAliveFrame → Frame
  lease : LeaseFrame → Frame
  payload : PayloadFrame → Frame
  metadata_push : MetadataPushFrame → Frame
  request_channel : RequestManyFrame → Frame
  request_fnf : RequestFrame → Frame
  request_n : RequestNFrame → Frame
  request_response : RequestFrame → Frame
  request_stream : RequestManyFrame → Frame
  resume : ResumeFrame → Frame
  resume_ok : ResumeOkFrame → Frame
  setup : SetupFrame → Frame
  ext : ExtFrame → Frame
  unsupported : UnsupportedFrame → Frame

-- `frame.type`
unfoldable pub type_of : Frame → ℕ
type_of (cancel f) = FrameTypes.cancel
type_of (error f) = FrameTypes.error
type_of (keepalive f) = FrameTypes.keepalive
type_of (lease f) = FrameTypes.lease
type_of (payload f) = FrameTypes.payload
type_of (metadata_push f) = FrameTypes.metadata_push
type_of (request_channel f) = FrameTypes.request_channel
type_of (request_fnf f) = FrameTypes.request_fnf
type_of (request_n f) = FrameTypes.request_n
type_of (request_response f) = FrameTypes.request_response
type_of (request_stream f) = FrameTypes.request_stream
type_of (resume f) = FrameTypes.resume
type_of (resume_ok f) = FrameTypes.resume_ok
type_of (setup f) = FrameTypes.setup
type_of (ext f) = FrameTypes.ext
type_of (unsupported f) = FrameTypes.reserved

-- `frame.streamId`
unfoldable pub stream_id_of : Frame → Number
stream_id_of (cancel f) = f.stream_id
stream_id_of (error f) = f.stream_id
stream_id_of (payload f) = f.stream_id
stream_id_of (request_channel f) = f.stream_id
stream_id_of (request_fnf f) = f.stream_id
stream_id_of (request_n f) = f.stream_id
stream_id_of (request_response f) = f.stream_id
stream_id_of (request_stream f) = f.stream_id
stream_id_of (ext f) = f.stream_id
stream_id_of _ = pos 0

unfoldable pub is_connection : Frame → Bool
is_connection frame = eq (stream_id_of frame) (pos 0)

unfoldable pub is_request : Frame → Bool
is_request frame =
    leb FrameTypes.request_response (type_of frame)
    && leb (type_of frame) FrameTypes.request_channel

-- The tests of `frame.type` that narrow a frame to one type
abbrev pub as_payload : Frame → Option PayloadFrame
as_payload (payload f) = some f
as_payload _ = none

abbrev pub as_ext : Frame → Option ExtFrame
as_ext (ext f) = some f
as_ext _ = none

abbrev pub as_request_n : Frame → Option RequestNFrame
as_request_n (request_n f) = some f
as_request_n _ = none

abbrev pub as_error : Frame → Option ErrorFrame
as_error (error f) = some f
as_error _ = none

abbrev pub as_cancel : Frame → Option CancelFrame
as_cancel (cancel f) = some f
as_cancel _ = none
