-- ===== src/Multiplexer/Inputs.antt =====
-- What happens to a multiplexer: frames arrive, streams are opened, the application uses the streams
-- that are registered, the connection closes.
use rsocket.Prelude.{ℕ, true, Option, none, some, List, [], ◌∷◌, ◌++◌, map}
use rsocket.Prelude.Number.{Number}
use rsocket.Frames.{Frame}
use rsocket.Deferred.{new_deferred}
use rsocket.Streams.{Event, registered_after}
use rsocket.Streams.Sending as Sending
use rsocket.RequestResponse as RequestResponse
use rsocket.RequestResponse.Responder as ResponseResponder
use rsocket.RequestFnf as RequestFnf
use rsocket.RequestStream as RequestStream
use rsocket.RequestStream.Responder as StreamResponder
use rsocket.RequestChannel as RequestChannel
use rsocket.RequestChannel.Responder as ChannelResponder
use rsocket.RequestChannel.Responder.{Signal, next, complete, fail, extend, ask, stop}
use rsocket.Multiplexer.Handlers.{
  StreamHandler, response_requester, fnf_requester, stream_requester, channel_requester,
  response_responder, fnf_responder, stream_responder, channel_responder, Opening, on_stream,
  RSocket,
}
use rsocket.Multiplexer.{
  Multiplexer, Output, of_stream, lookup, settle, handle, create_request_stream, close,
}

-- A requester of a request/response can be cancelled and takes extensions.
abbrev pub use_response :
    Signal → RequestResponse.Requester → List Event × RequestResponse.Requester
use_response stop s = RequestResponse.cancel_stream s
use_response (extend t c i) s = RequestResponse.send_extension t c i s
use_response _ s = ([], s)

abbrev pub use_fnf : Signal → RequestFnf.Requester → List Event × RequestFnf.Requester
use_fnf stop s = RequestFnf.cancel_stream s
use_fnf _ s = ([], s)

abbrev pub use_stream : Signal → RequestStream.Requester → List Event × RequestStream.Requester
use_stream stop s = RequestStream.cancel_stream s
use_stream (extend t c i) s = RequestStream.send_extension t c i s
use_stream (ask n) s = RequestStream.request_more n s
use_stream _ s = ([], s)

abbrev pub use_channel : Signal → RequestChannel.Requester → List Event × RequestChannel.Requester
use_channel (next content last) s = RequestChannel.next_payload content last s
use_channel complete s = RequestChannel.complete_stream s
use_channel (fail e) s = RequestChannel.fail_stream e s
use_channel (extend t c i) s = RequestChannel.send_extension t c i s
use_channel (ask n) s = RequestChannel.request_more n s
use_channel stop s = RequestChannel.cancel_stream s

-- The signals that a sender without `request` and `cancel` has
abbrev pub sending : Signal → Option Sending.Signal
sending (next content last) = some (Sending.next content last)
sending complete = some Sending.complete
sending (fail e) = some (Sending.fail e)
sending (extend t c i) = some (Sending.extend t c i)
sending (ask n) = none
sending stop = none

abbrev pub answer_response :
    Option Sending.Signal → ResponseResponder.Responder → List Event × ResponseResponder.Responder
answer_response none s = ([], s)
answer_response (some signal) s = ResponseResponder.signalled signal s

abbrev pub answer_stream :
    Option Sending.Signal → StreamResponder.Responder → List Event × StreamResponder.Responder
answer_stream none s = ([], s)
answer_stream (some signal) s = StreamResponder.signalled signal s

abbrev pub use_of : Signal → StreamHandler → List Event × StreamHandler
use_of signal (response_requester s) = on_stream response_requester (use_response signal s)
use_of signal (fnf_requester s) = on_stream fnf_requester (use_fnf signal s)
use_of signal (stream_requester s) = on_stream stream_requester (use_stream signal s)
use_of signal (channel_requester s) = on_stream channel_requester (use_channel signal s)
use_of signal (response_responder handler s) =
    on_stream (response_responder handler) (answer_response (sending signal) s)
use_of signal (fnf_responder throws s) = ([], fnf_responder throws s)
use_of signal (stream_responder handler s) =
    on_stream (stream_responder handler) (answer_stream (sending signal) s)
use_of signal (channel_responder handler s) =
    on_stream (channel_responder handler) (ChannelResponder.signalled signal s)

abbrev pub used : Option StreamHandler → Number → Signal → Multiplexer → List Output × Multiplexer
used none id signal m = ([], m)
used (some h) id signal m =
    let (events, h') = use_of signal h in
    (
      map of_stream events,
      record m { registry = settle id (registered_after events true) h' m.registry },
    )

pub data Input : Type 0 where
  receive : Frame → Input
  start_stream : ℕ → Opening → Input
  use_stream_of : Number → Signal → Input
  shut : Option (ℕ × List ℕ) → Input

module _ (rsocket : RSocket) (fragment_size : ℕ) where
  abbrev pub step : Input → Multiplexer → List Output × Multiplexer
  step (receive frame) m = handle rsocket fragment_size frame m
  step (start_stream already_closed o) m = create_request_stream already_closed o m
  step (use_stream_of id signal) m = used (lookup id m.registry) id signal m
  step (shut e) m = close e m

  abbrev pub run : List Input → Multiplexer → List Output × Multiplexer
  run [] m = ([], m)
  run (input ∷ inputs) m =
      let (outputs, m') = step input m in let (more, m'') = run inputs m' in (outputs ++ more, m'')

-- The seed of the supplier of stream ids
abbrev pub new_multiplexer : Number → Multiplexer
new_multiplexer seed = record { registry = []; deferred = new_deferred; current_id = seed }
