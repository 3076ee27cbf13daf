-- ===== src/Session/Awaiting.antt =====
-- `ResumeOkAwaitingResumableClientServerInputMultiplexerDemultiplexer` of
-- packages/rsocket-core/src/ClientServerMultiplexerDemultiplexer.ts: a session on a new connection
-- whose first frame has to be RESUME_OK. Closing that connection is an output, behind which the session
-- is closed.
use rsocket.Prelude.{ℕ, Bool, true, false, List, ◌∷◌, ◌++◌, map, if◌then◌else◌}
use rsocket.Prelude.Number.{Number, pos}
use rsocket.Prelude.Result.{Error}
use rsocket.Frames.{Frame, resume_ok, type_of}
use rsocket.Codecs.Common.{TextCodec}
use rsocket.Streams.Messages.{codes, text_of}
use rsocket.Multiplexer.Handlers.{RSocket}
use rsocket.Session.{
  Session, SessionOutput, to_outbound, error_on_connection, by_resume_ok, closing, handle, resume,
}

pub data AwaitingOutput : Type 0 where
  of_session : SessionOutput → AwaitingOutput
  connection_closing : AwaitingOutput

pub record Awaiting : Type 0 where
  pub is_resumed : Bool
  pub session : Session

-- `ErrorCodes.CONNECTION_ERROR`
abbrev connection_error_code : Number
connection_error_code = pos 0x101

unfoldable pub incomplete : ℕ → List ℕ
incomplete t =
    codes "Incomplete RESUME handshake. Unexpected frame " ++ (text_of (pos t) ++ codes " received")

module _ (text : TextCodec) (described : Error → Number × List ℕ)
    (numbered : Number → List ℕ → ℕ) where
  -- The first frame
  abbrev pub handle_first : Frame → Session → List AwaitingOutput × Awaiting
  handle_first (resume_ok f) s =
      let (outputs, s') = resume text described numbered (by_resume_ok f) s in
      (map of_session outputs, record { is_resumed = true; session = s' })
  handle_first frame s =
      let message = incomplete (type_of frame) in
      let told = error_on_connection connection_error_code message in
      let (outputs, s') = closing text described numbered connection_error_code message s in
      (
        of_session (to_outbound told) ∷ connection_closing ∷ map of_session outputs,
        record { is_resumed = false; session = s' },
      )

  unfoldable pub handle_awaiting : RSocket → ℕ → Frame → Awaiting → List AwaitingOutput × Awaiting
  handle_awaiting rsocket fragment_size frame a =
      let first = handle_first frame a.session in
      let (outputs, s) = handle text described numbered rsocket fragment_size frame a.session in
      if a.is_resumed
      then (map of_session outputs, record { is_resumed = true; session = s })
      else first
