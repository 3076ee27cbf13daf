-- ===== src/Session/Tests.antt =====
-- The theorems on resumable sessions at concrete sessions.
use rsocket.Prelude.{none, ℕ, ◌≡◌, refl, true, List, [], ◌∷◌, arith}
use rsocket.Prelude.Number.{Number, pos}
use rsocket.Prelude.Result.{Error, ok}
use rsocket.Frames.{
  Frame, ResumeFrame, cancel, ext, resume_ok, keepalive, is_connection, is_request, stream_id_of,
  type_of,
}
use rsocket.Frames.Flags
use rsocket.Codecs.Common.{TextCodec}
use rsocket.Codecs.Size.{size_of_frame, size_of_cancel_frame}
use rsocket.Resume.{new_store, record_received, store, drop_to, drop_loop}
use rsocket.Resume.Positions.{IsStore, no_bytes, more_bytes}
use rsocket.Multiplexer.Inputs.{new_multiplexer}
use rsocket.Multiplexer as Multiplexer
use rsocket.Multiplexer.Handlers.{RSocket}
use rsocket.Session.{
  send, handle, handle_connection_close, Session, to_outbound, timer_cleared, watching, resumed,
  by_resume, resume,
}
use rsocket.Session.Inputs.{Input, to_send, arriving, disconnecting, run, new_session}
use rsocket.Session.Kept.{run-IsStore}
use rsocket.Session.Resuming.{send_all, resume-send_all}

abbrev ascii : TextCodec
ascii = record { encode = λ s. s; decode = λ b. b }

abbrev described : Error → Number × List ℕ
described e = (pos 0x101, [])

abbrev numbered : Number → List ℕ → ℕ
numbered code message = 0

abbrev stop : ℕ → Frame
stop id = cancel (record { flags = 0; stream_id = pos id })

size_of_frame-stop : (id : ℕ) → size_of_frame ascii (stop id) ≡ ok 6
unfolding size_of_frame size_of_cancel_frame
size_of_frame-stop id = refl

abbrev quiet : RSocket
quiet = record {
  fire_and_forget = none;
  request_response = none;
  request_stream = none;
  request_channel = none;
}

-- A server that has sent and received 4 bytes and keeps no frame, and its client
abbrev session : Session
session = record {
  multiplexer = new_multiplexer (pos 0);
  frame_store = record {
    stored_frames = [];
    last_received = pos 4;
    first_available = pos 4;
    last_sent = pos 4;
  };
  has_session_store = true;
}

-- EXT, which has no position
abbrev extension : Frame
extension =
    ext (record { flags = 0; stream_id = pos 1; extended_type = pos 1; extended_content = none })

-- The client has the first frame of six bytes and EXT.
abbrev asking : ResumeFrame
asking = record {
  flags = 0;
  client_position = pos 4;
  major_version = pos 1;
  minor_version = pos 0;
  resume_token = 7 ∷ [];
  server_position = pos 10;
}

resume-send_all_example :
    let s' = (send_all ascii described numbered (stop 1 ∷ extension ∷ stop 3 ∷ []) session).1 in
    let kept = record s'.frame_store { stored_frames = stop 3 ∷ []; first_available = pos 10 } in
    resume ascii described numbered (by_resume asking) s' ≡ (
      timer_cleared
          ∷ to_outbound (resume_ok (record { flags = Flags.no_flags; client_position = pos 4 }))
          ∷ to_outbound (stop 3)
          ∷ watching
          ∷ resumed
          ∷ [],
      record s' { frame_store = kept },
    )
unfolding is_connection stream_id_of handle record_received size_of_frame size_of_cancel_frame
    Multiplexer.handle type_of is_request
resume-send_all_example =
    resume-send_all ascii described numbered quiet 0 session session (stop 1 ∷ extension ∷ [])
      (stop 3 ∷ []) 6 6 4 asking refl refl refl
      (more_bytes (size_of_frame-stop 1) (omega arith) no_bytes)
      (more_bytes (size_of_frame-stop 3) (omega arith) no_bytes) refl refl

-- Two frames are sent, the peer has the first of them, and the connection breaks.
abbrev inputs : List Input
inputs =
    to_send (stop 1)
    ∷ to_send (stop 3)
    ∷ arriving (keepalive (record { flags = 0; body = none; last_received_position = pos 6 }))
    ∷ disconnecting
    ∷ []

run-IsStore_example :
    let (made, s) = new_session (pos 0) new_store true in
    IsStore ascii (run ascii described numbered quiet 0 inputs s).1.frame_store
unfolding send handle Multiplexer.handle store drop_to drop_loop size_of_frame size_of_cancel_frame
    handle_connection_close is_connection stream_id_of type_of
run-IsStore_example = run-IsStore ascii described numbered quiet 0 (pos 0) true inputs refl
