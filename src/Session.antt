-- ===== src/Session.antt =====
-- packages/rsocket-core/src/ClientServerMultiplexerDemultiplexer.ts:
-- `ResumableClientServerInputMultiplexerDemultiplexer`, a multiplexer that survives its connection.
-- Timers, the handler of connection frames and the reconnector are outputs.
pub mod Positioned
pub mod Receiving
pub mod Resuming
pub mod Awaiting
pub mod Inputs
pub mod Kept
pub mod Tests
use rsocket.Prelude.{
  ℕ, Bool, true, false, Option, none, some, List, [], ◌∷◌, ◌++◌, map, if◌then◌else◌,
}
use rsocket.Prelude.Number.{Number, pos, lt}
use rsocket.Prelude.Result.{Error, Result, ok, err}
use rsocket.Frames.{
  Frame, ResumeFrame, ResumeOkFrame, keepalive, error, ext, resume_ok, is_connection,
}
use rsocket.Frames.Flags
use rsocket.Codecs.Common.{TextCodec}
use rsocket.Resume.{FrameStore, store, record_received, drop_to, drain}
use rsocket.Streams as Streams
use rsocket.Streams.Messages.{codes}
use rsocket.Multiplexer.Handlers.{RSocket}
use rsocket.Multiplexer as Multiplexer
use rsocket.Multiplexer.{Multiplexer, Output, of_stream}

-- What leaves a session. `watching` is `closeable.onClose` of a new connection, `session_deleted` the
-- `delete` on the store of sessions.
pub data SessionOutput : Type 0 where
  to_outbound : Frame → SessionOutput
  of_multiplexer : Output → SessionOutput
  session_deleted : SessionOutput
  threw : Error → SessionOutput
  timer_set : SessionOutput
  timer_cleared : SessionOutput
  paused : SessionOutput
  resumed : SessionOutput
  watching : SessionOutput
  reconnecting : SessionOutput

-- A session has a store of sessions, as a server's has, or a reconnector.
pub record Session : Type 0 where
  pub multiplexer : Multiplexer
  pub frame_store : FrameStore
  pub has_session_store : Bool

-- The frame that `resume` takes
pub data Resumption : Type 0 where
  by_resume : ResumeFrame → Resumption
  by_resume_ok : ResumeOkFrame → Resumption

-- `ErrorCodes.REJECTED_RESUME`
abbrev rejected_resume : Number
rejected_resume = pos 0x4

abbrev pub error_on_connection : Number → List ℕ → Frame
error_on_connection code message =
    error (record { flags = Flags.no_flags; stream_id = pos 0; code = code; message = message })

abbrev deleted_if : Bool → List SessionOutput
deleted_if test = if test then session_deleted ∷ [] else []

-- The two ends of the `switch` of `resume`: the frames that are kept are sent, and the connection goes
-- on.
unfoldable pub going_on : Session → List SessionOutput × Session
going_on s = (map to_outbound (drain s.frame_store) ++ (watching ∷ resumed ∷ []), s)

unfoldable pub handle_connection_close : Session → List SessionOutput × Session
handle_connection_close s =
    (paused ∷ (if s.has_session_store then timer_set else reconnecting) ∷ [], s)

-- `close` of the class above; no stream sends a frame when it is closed. The timer of a session and a
-- reconnector that fails call it.
unfoldable pub close : Option (ℕ × List ℕ) → Session → List SessionOutput × Session
close e s =
    let (outputs, m) = Multiplexer.close e s.multiplexer in
    (map of_multiplexer outputs, record s { multiplexer = m })

-- `described` gives code and message of an error that was thrown, and `numbered` the number of
-- `new RSocketError(code, message)`.
module _ (text : TextCodec) (described : Error → Number × List ℕ)
    (numbered : Number → List ℕ → ℕ) where
  -- `close` with an `RSocketError`
  abbrev pub closing : Number → List ℕ → Session → List SessionOutput × Session
  closing code message s = close (some (numbered code message, codes "Error: " ++ message)) s

  abbrev pub refused : Number × List ℕ → Session → List SessionOutput × Session
  refused (code, message) s =
      let (outputs, s') = closing code message s in
      (to_outbound (error_on_connection code message) ∷ outputs, s')

  abbrev pub stored : Result FrameStore → Frame → Session → List SessionOutput × Session
  stored (err e) frame s = (threw e ∷ [], s)
  stored (ok kept) frame s = (to_outbound frame ∷ [], record s { frame_store = kept })

  abbrev pub send_connection : Frame → Session → List SessionOutput × Session
  send_connection (keepalive f) s = (
    to_outbound (keepalive (record f { last_received_position = s.frame_store.last_received }))
        ∷ [],
    s,
  )
  send_connection (error f) s =
      let (outputs, s') = closing f.code f.message s in
      (to_outbound (error f) ∷ (deleted_if s.has_session_store ++ outputs), s')
  send_connection frame s = (to_outbound frame ∷ [], s)

  -- The store has no position for EXT.
  abbrev pub send_stream : Frame → Session → List SessionOutput × Session
  send_stream (ext f) s = (to_outbound (ext f) ∷ [], s)
  send_stream frame s = stored (store text s.frame_store frame) frame s

  unfoldable pub send : Frame → Session → List SessionOutput × Session
  send frame s =
      let connection = send_connection frame s in
      let stream = send_stream frame s in if is_connection frame then connection else stream

  -- The frames that streams send go through `send`.
  abbrev pub carry : List Output → Session → List SessionOutput × Session
  carry [] s = ([], s)
  carry (of_stream (Streams.sent frame) ∷ outputs) s =
      let (first, s') = send frame s in let (rest, s'') = carry outputs s' in (first ++ rest, s'')
  carry (output ∷ outputs) s =
      let (rest, s') = carry outputs s in (of_multiplexer output ∷ rest, s')

  module _ (rsocket : RSocket) (fragment_size : ℕ) where
    -- `super.handle`
    abbrev pub handed : Frame → Session → List SessionOutput × Session
    handed frame s =
        let (outputs, m) = Multiplexer.handle rsocket fragment_size frame s.multiplexer in
        carry outputs (record s { multiplexer = m })

    abbrev pub acknowledged : Result (Unit {0}) → Session → List SessionOutput × Session
    acknowledged (ok u) s = ([], s)
    acknowledged (err e) s = refused (described e) s

    abbrev pub handle_connection : Frame → Session → List SessionOutput × Session
    handle_connection (keepalive f) s =
        let (result, kept) = drop_to text s.frame_store f.last_received_position in
        let (first, s') = acknowledged result (record s { frame_store = kept }) in
        let (rest, s'') = handed (keepalive f) s' in (first ++ rest, s'')
    handle_connection (error f) s =
        let (first, s') = handed (error f) s in
        let (rest, s'') = closing f.code f.message s' in
        (first ++ (deleted_if s.has_session_store ++ rest), s'')
    handle_connection frame s = handed frame s

    abbrev pub recorded : Result FrameStore → Frame → Session → List SessionOutput × Session
    recorded (err e) frame s = (threw e ∷ [], s)
    recorded (ok kept) frame s = handed frame (record s { frame_store = kept })

    abbrev pub handle_stream : Frame → Session → List SessionOutput × Session
    handle_stream (ext f) s = handed (ext f) s
    handle_stream frame s = recorded (record_received text s.frame_store frame) frame s

    unfoldable pub handle : Frame → Session → List SessionOutput × Session
    handle frame s =
        let connection = handle_connection frame s in
        let stream = handle_stream frame s in if is_connection frame then connection else stream

  -- RESUME, whose positions the store can serve or not
  abbrev pub answered : Result (Unit {0}) → Session → List SessionOutput × Session
  answered (err e) s = refused (described e) s
  answered (ok u) s =
      let (outputs, s') = going_on s in
      let frame =
        resume_ok
          (record { flags = Flags.no_flags; client_position = s.frame_store.last_received }) in
      (to_outbound frame ∷ outputs, s')

  -- RESUME_OK goes on in either case.
  abbrev pub confirmed : Result (Unit {0}) → Session → List SessionOutput × Session
  confirmed (ok u) s = going_on s
  confirmed (err e) s =
      let (first, s') = refused (described e) s in
      let (rest, s'') = going_on s' in (first ++ rest, s'')

  unfoldable pub resume : Resumption → Session → List SessionOutput × Session
  resume (by_resume f) s =
      let (result, kept) = drop_to text s.frame_store f.server_position in
      let (outputs, s') = answered result (record s { frame_store = kept }) in
      let message =
        codes
          "Impossible to resume since first available client frame position is greater than last received server frame position" in
      let (told, closed) = refused (rejected_resume, message) s in
      if lt s.frame_store.last_received f.client_position
      then (timer_cleared ∷ told, closed)
      else (timer_cleared ∷ outputs, s')
  resume (by_resume_ok f) s =
      let (result, kept) = drop_to text s.frame_store f.client_position in
      confirmed result (record s { frame_store = kept })
