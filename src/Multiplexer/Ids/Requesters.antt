-- ===== src/Multiplexer/Ids/Requesters.antt =====
-- A requester that has its id keeps it.
use rsocket.Prelude.{◌≡◌, refl, Option, none, some, arith, Bool}
use rsocket.Prelude.Number.{Number}
use rsocket.Frames.{
  Frame, PayloadFrame, ErrorFrame, ExtFrame, CancelFrame, RequestNFrame, payload, error, ext,
  as_payload, as_error, as_ext, as_cancel, as_request_n,
}
use rsocket.Reassembler.{Payload}
use rsocket.Streams.{Failure, StreamError, Extension, extension_of}
use rsocket.RequestResponse as RequestResponse
use rsocket.RequestFnf as RequestFnf
use rsocket.RequestStream as RequestStream
use rsocket.RequestChannel as RequestChannel
use rsocket.RequestChannel.Responder.{Signal, next, complete, fail, extend, ask, stop}
use rsocket.Multiplexer.Inputs.{use_response, use_fnf, use_stream, use_channel}

module _ (s : RequestResponse.Requester) where
  pub response_close-id :
      (e : Option StreamError) → (RequestResponse.close e s).1.stream_id ≡ s.stream_id
  unfolding RequestResponse.close
  response_close-id e = ground arith

  pub response_handle-id :
      (frame : Frame) → (RequestResponse.handle frame s).1.stream_id ≡ s.stream_id
  unfolding RequestResponse.handle RequestResponse.unexpected RequestResponse.close
  response_handle-id (payload f) = ground arith
  response_handle-id (error f) = refl
  response_handle-id (ext f) = ground arith
  response_handle-id _ = ground arith

  response_cancelled-id :
      (o : Option Number) → (RequestResponse.cancelled o s).1.stream_id ≡ s.stream_id
  response_cancelled-id none = refl
  response_cancelled-id (some id) = refl

  response_extended-id :
      (o : Option Number) (e : Extension)
      → (RequestResponse.extended o e s).1.stream_id ≡ s.stream_id
  response_extended-id none e = refl
  response_extended-id (some id) e = refl

  pub use_response-id : (signal : Signal) → (use_response signal s).1.stream_id ≡ s.stream_id
  unfolding RequestResponse.cancel_stream RequestResponse.send_extension
  use_response-id stop = ground (arith, response_cancelled-id s.stream_id)
  use_response-id (extend t c i) =
      ground (arith, response_extended-id s.stream_id (extension_of t c i))
  use_response-id _ = refl

module _ (s : RequestFnf.Requester) where
  pub fnf_close-id : (e : Option StreamError) → (RequestFnf.close e s).1.stream_id ≡ s.stream_id
  unfolding RequestFnf.close
  fnf_close-id e = ground arith

  pub fnf_handle-id : (frame : Frame) → (RequestFnf.handle frame s).1.stream_id ≡ s.stream_id
  unfolding RequestFnf.handle RequestFnf.close
  fnf_handle-id frame = ground arith

  pub use_fnf-id : (signal : Signal) → (use_fnf signal s).1.stream_id ≡ s.stream_id
  unfolding RequestFnf.cancel_stream
  use_fnf-id stop = ground arith
  use_fnf-id _ = refl

module _ (s : RequestStream.Requester) where
  pub stream_close-id :
      (e : Option StreamError) → (RequestStream.close e s).1.stream_id ≡ s.stream_id
  unfolding RequestStream.close
  stream_close-id e = ground arith

  pub stream_handle-id : (frame : Frame) → (RequestStream.handle frame s).1.stream_id ≡ s.stream_id
  unfolding RequestStream.handle RequestStream.handle_last RequestStream.unexpected
      RequestStream.close
  stream_handle-id frame = by (as_payload frame) (as_error frame) (as_ext frame)
    where
      by :
          (p : Option PayloadFrame) (e : Option ErrorFrame) (x : Option ExtFrame)
          → (RequestStream.handle_by p e x frame s).1.stream_id ≡ s.stream_id
      by (some f) e x = ground arith
      by none (some f) x = refl
      by none none (some f) = ground arith
      by none none none = ground arith

  stream_cancelled-id :
      (o : Option Number) → (RequestStream.cancelled o s).1.stream_id ≡ s.stream_id
  stream_cancelled-id none = refl
  stream_cancelled-id (some id) = refl

  stream_extended-id :
      (o : Option Number) (e : Extension) → (RequestStream.extended o e s).1.stream_id ≡ s.stream_id
  stream_extended-id none e = refl
  stream_extended-id (some id) e = refl

  stream_requested-id :
      (o : Option Number) (n : Number)
      → (RequestStream.requested_more o n s).1.stream_id ≡ s.stream_id
  stream_requested-id none n = refl
  stream_requested-id (some id) n = refl

  pub use_stream-id : (signal : Signal) → (use_stream signal s).1.stream_id ≡ s.stream_id
  unfolding RequestStream.cancel_stream RequestStream.send_extension RequestStream.request_more
  use_stream-id stop = ground (arith, stream_cancelled-id s.stream_id)
  use_stream-id (extend t c i) = ground (arith, stream_extended-id s.stream_id (extension_of t c i))
  use_stream-id (ask n) = ground (arith, stream_requested-id s.stream_id n)
  use_stream-id _ = refl

module _ (s : RequestChannel.Requester) where
  pub channel_close-id :
      (e : Option StreamError) → (RequestChannel.close e s).1.stream_id ≡ s.stream_id
  unfolding RequestChannel.close
  channel_close-id e = ground arith

  pub channel_handle-id :
      (frame : Frame) → (RequestChannel.handle frame s).1.stream_id ≡ s.stream_id
  unfolding RequestChannel.handle RequestChannel.handle_payload RequestChannel.handle_last
      RequestChannel.handle_cancel RequestChannel.handle_request_n RequestChannel.unexpected
      RequestChannel.close
  channel_handle-id frame =
      by (as_payload frame) (as_cancel frame) (as_request_n frame) (as_error frame) (as_ext frame)
    where
      by :
          (p : Option PayloadFrame) (c : Option CancelFrame) (n : Option RequestNFrame)
          (e : Option ErrorFrame) (x : Option ExtFrame)
          → (RequestChannel.handle_by p c n e x frame s).1.stream_id ≡ s.stream_id
      by (some f) c n e x = ground arith
      by none (some f) n e x = ground arith
      by none none (some f) e x = ground arith
      by none none none (some f) x = refl
      by none none none none (some f) = refl
      by none none none none none = ground arith

  channel_cancelled-id :
      (o : Option Number) → (RequestChannel.cancelled o s).1.stream_id ≡ s.stream_id
  channel_cancelled-id none = refl
  channel_cancelled-id (some id) = refl

  channel_extended-id :
      (o : Option Number) (e : Extension)
      → (RequestChannel.extended o e s).1.stream_id ≡ s.stream_id
  channel_extended-id none e = refl
  channel_extended-id (some id) e = refl

  channel_requested-id :
      (o : Option Number) (n : Number)
      → (RequestChannel.requested_more o n s).1.stream_id ≡ s.stream_id
  channel_requested-id none n = refl
  channel_requested-id (some id) n = refl

  channel_sent-id :
      (o : Option Number) (content : Payload) (last : Bool)
      → (RequestChannel.sent_payload o content last s).1.stream_id ≡ s.stream_id
  channel_sent-id none content last = refl
  channel_sent-id (some id) content last = refl

  channel_completed-id :
      (o : Option Number) → (RequestChannel.completed o s).1.stream_id ≡ s.stream_id
  channel_completed-id none = refl
  channel_completed-id (some id) = ground arith

  channel_failing-id :
      (o : Option Number) (e : Failure) → (RequestChannel.failing o e s).1.stream_id ≡ s.stream_id
  channel_failing-id none e = refl
  channel_failing-id (some id) e = refl

  pub use_channel-id : (signal : Signal) → (use_channel signal s).1.stream_id ≡ s.stream_id
  unfolding RequestChannel.cancel_stream RequestChannel.send_extension RequestChannel.request_more
      RequestChannel.next_payload RequestChannel.complete_stream RequestChannel.fail_stream
  use_channel-id (next content last) = ground (arith, channel_sent-id s.stream_id content last)
  use_channel-id complete = channel_completed-id s.stream_id
  use_channel-id (fail e) = ground (arith, channel_failing-id s.stream_id e)
  use_channel-id stop = ground (arith, channel_cancelled-id s.stream_id)
  use_channel-id (extend t c i) =
      ground (arith, channel_extended-id s.stream_id (extension_of t c i))
  use_channel-id (ask n) = ground (arith, channel_requested-id s.stream_id n)
