-- ===== src/Session/Inputs.antt =====
-- What happens to a session of packages/rsocket-core/src/ClientServerMultiplexerDemultiplexer.ts: frames
-- are sent and arrive, streams are opened and used, connections break and are resumed, and the session
-- ends: its timer runs out, its reconnector fails, or the application closes it.
use rsocket.Prelude.{ℕ, Bool, Option, List, [], ◌∷◌, ◌++◌}
use rsocket.Prelude.Number.{Number}
use rsocket.Prelude.Result.{Error}
use rsocket.Frames.{Frame}
use rsocket.Codecs.Common.{TextCodec}
use rsocket.Resume.{FrameStore}
use rsocket.RequestChannel.Responder.{Signal}
use rsocket.Multiplexer.{Multiplexer, Output, lookup, create_request_stream}
use rsocket.Multiplexer.Handlers.{Opening, RSocket}
use rsocket.Multiplexer.Inputs.{used, new_multiplexer}
use rsocket.Session.{
  Session, SessionOutput, watching, Resumption, close, handle_connection_close, send, carry, handle,
  resume,
}

-- The constructor, with the seed of the supplier of stream ids
abbrev pub new_session : Number → FrameStore → Bool → List SessionOutput × Session
new_session seed frame_store has_session_store = (
  watching ∷ [],
  record {
    multiplexer = new_multiplexer seed;
    frame_store = frame_store;
    has_session_store = has_session_store;
  },
)

pub data Input : Type 0 where
  to_send : Frame → Input
  arriving : Frame → Input
  start_stream : ℕ → Opening → Input
  use_stream_of : Number → Signal → Input
  disconnecting : Input
  resuming : Resumption → Input
  ending : Option (ℕ × List ℕ) → Input

module _ (text : TextCodec) (described : Error → Number × List ℕ) (numbered : Number → List ℕ → ℕ)
    (rsocket : RSocket) (fragment_size : ℕ) where
  -- What the multiplexer does, where the frames of its streams go through `send`
  abbrev pub passed : List Output × Multiplexer → Session → List SessionOutput × Session
  passed (outputs, m) s = carry text described numbered outputs (record s { multiplexer = m })

  abbrev pub step : Input → Session → List SessionOutput × Session
  step (to_send frame) s = send text described numbered frame s
  step (arriving frame) s = handle text described numbered rsocket fragment_size frame s
  step (start_stream already_closed o) s =
      passed (create_request_stream already_closed o s.multiplexer) s
  step (use_stream_of id signal) s =
      passed (used (lookup id s.multiplexer.registry) id signal s.multiplexer) s
  step disconnecting s = handle_connection_close s
  step (resuming frame) s = resume text described numbered frame s
  step (ending e) s = close e s

  abbrev pub run : List Input → Session → List SessionOutput × Session
  run [] s = ([], s)
  run (input ∷ inputs) s =
      let (outputs, s') = step input s in let (more, s'') = run inputs s' in (outputs ++ more, s'')
