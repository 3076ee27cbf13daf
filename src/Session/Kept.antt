-- ===== src/Session/Kept.antt =====
-- A session keeps its frames: as long as it is not closed, they lie between the two positions.
use rsocket.Prelude.{
  ℕ, ◌≡◌, refl, ◌∙◌, Bool, true, false, ◌⊎◌, inl, inr, Option, List, [], ◌∷◌, if_both,
}
use rsocket.Prelude.Number.{Number, lt}
use rsocket.Prelude.Result.{Error, Result, ok, err}
use rsocket.Frames.{Frame, keepalive, error, ext, is_connection}
use rsocket.Codecs.Common.{TextCodec}
use rsocket.Resume.{FrameStore, new_store, store, record_received, drop_to}
use rsocket.Resume.Positions.{IsStore, no_bytes}
use rsocket.Resume.Stores.{store-IsStore, record_received-IsStore, drop_to-keeps}
use rsocket.Streams as Streams
use rsocket.Multiplexer as Multiplexer
use rsocket.Multiplexer.{Multiplexer, Output, of_stream, lookup, create_request_stream}
use rsocket.Multiplexer.Handlers.{Opening, RSocket}
use rsocket.Multiplexer.Inputs.{used}
use rsocket.Multiplexer.Live.{handle-Kept, used-Kept, close-done}
use rsocket.Session.{
  Session, SessionOutput, Resumption, by_resume, by_resume_ok, close, going_on,
  handle_connection_close, send, send_connection, send_stream, stored, carry, handed, acknowledged,
  handle_connection, handle_stream, recorded, handle, answered, confirmed, resume,
}
use rsocket.Session.Inputs.{
  Input, to_send, arriving, start_stream, use_stream_of, disconnecting, resuming, ending, step, run,
  new_session, passed,
}

create-done :
    (already_closed : ℕ) (o : Opening) (m : Multiplexer)
    → (create_request_stream already_closed o m).1.deferred.done ≡ m.deferred.done
unfolding create_request_stream
create-done already_closed o m =
    if_both (λ (r : List Output × Multiplexer). r.1.deferred.done ≡ m.deferred.done) m.deferred.done
      refl refl

module _ (text : TextCodec) (described : Error → Number × List ℕ)
    (numbered : Number → List ℕ → ℕ) where
  -- It is closed, or its frames lie between the positions of its store.
  abbrev pub Keeps : Session → Type 0
  Keeps s = (s.multiplexer.deferred.done ≡ true) ⊎ IsStore text s.frame_store

  close-Keeps : (e : Option (ℕ × List ℕ)) (s : Session) → Keeps (close e s).1
  unfolding close
  close-Keeps e s = inl (close-done e s.multiplexer)

  send_connection-Keeps :
      (frame : Frame) (s : Session)
      → Keeps s
      → Keeps (send_connection text described numbered frame s).1
  send_connection-Keeps (error f) s keeps = close-Keeps _ s
  send_connection-Keeps _ s keeps = keeps

  stored-Keeps :
      (made : Result FrameStore) (frame : Frame) (s : Session)
      → store text s.frame_store frame ≡ made
      → Keeps s
      → Keeps (stored text described numbered made frame s).1
  stored-Keeps (err e) frame s same keeps = keeps
  stored-Keeps (ok kept) frame s same (inl over) = inl over
  stored-Keeps (ok kept) frame s same (inr i) =
      inr (store-IsStore text s.frame_store kept frame i same)

  send_stream-Keeps :
      (frame : Frame) (s : Session)
      → Keeps s
      → Keeps (send_stream text described numbered frame s).1
  send_stream-Keeps (ext f) s keeps = keeps
  send_stream-Keeps _ s keeps = stored-Keeps _ _ s refl keeps

  send-Keeps :
      (frame : Frame) (s : Session) → Keeps s → Keeps (send text described numbered frame s).1
  unfolding send
  send-Keeps frame s keeps =
      if_both (λ (r : List SessionOutput × Session). Keeps r.1) (is_connection frame)
        (send_connection-Keeps frame s keeps) (send_stream-Keeps frame s keeps)

  carry-Keeps :
      (outputs : List Output) (s : Session)
      → Keeps s
      → Keeps (carry text described numbered outputs s).1
  carry-Keeps [] s keeps = keeps
  carry-Keeps (of_stream (Streams.sent frame) ∷ outputs) s keeps =
      carry-Keeps outputs _ (send-Keeps frame s keeps)
  carry-Keeps (_ ∷ outputs) s keeps = carry-Keeps outputs s keeps

  dropped-Keeps :
      (s : Session) (position : Number) (kept : FrameStore)
      → drop_to text s.frame_store position ≡ (ok tt, kept)
      → Keeps s
      → Keeps (record s { frame_store = kept })
  dropped-Keeps s position kept same (inl over) = inl over
  dropped-Keeps s position kept same (inr i) =
      inr (drop_to-keeps text s.frame_store kept position i same)

  answered-Keeps :
      (s : Session) (position : Number) (result : Result (Unit {0})) (kept : FrameStore)
      → drop_to text s.frame_store position ≡ (result, kept)
      → Keeps s
      → Keeps (answered text described numbered result (record s { frame_store = kept })).1
  unfolding going_on
  answered-Keeps s position (err e) kept same keeps = close-Keeps _ _
  answered-Keeps s position (ok u) kept same keeps = dropped-Keeps s position kept same keeps

  confirmed-Keeps :
      (s : Session) (position : Number) (result : Result (Unit {0})) (kept : FrameStore)
      → drop_to text s.frame_store position ≡ (result, kept)
      → Keeps s
      → Keeps (confirmed text described numbered result (record s { frame_store = kept })).1
  unfolding going_on
  confirmed-Keeps s position (err e) kept same keeps = close-Keeps _ _
  confirmed-Keeps s position (ok u) kept same keeps = dropped-Keeps s position kept same keeps

  resume-Keeps :
      (frame : Resumption) (s : Session)
      → Keeps s
      → Keeps (resume text described numbered frame s).1
  unfolding resume
  resume-Keeps (by_resume f) s keeps =
      if_both (λ (r : List SessionOutput × Session). Keeps r.1)
        (lt s.frame_store.last_received f.client_position) (close-Keeps _ s)
        (answered-Keeps s f.server_position _ _ refl keeps)
  resume-Keeps (by_resume_ok f) s keeps = confirmed-Keeps s f.client_position _ _ refl keeps

  module _ (rsocket : RSocket) (fragment_size : ℕ) where
    -- What the multiplexer does closes nothing, and its frames go through `send`.
    passed-Keeps :
        (made : List Output × Multiplexer) (s : Session)
        → made.1.deferred.done ≡ s.multiplexer.deferred.done
        → Keeps s
        → Keeps (passed text described numbered rsocket fragment_size made s).1
    passed-Keeps (outputs, m) s same (inl over) =
        carry-Keeps outputs (record s { multiplexer = m }) (inl (same ∙ over))
    passed-Keeps (outputs, m) s same (inr kept) =
        carry-Keeps outputs (record s { multiplexer = m }) (inr kept)

    handed-Keeps :
        (frame : Frame) (s : Session)
        → Keeps s
        → Keeps (handed text described numbered rsocket fragment_size frame s).1
    handed-Keeps frame s keeps =
        passed-Keeps (Multiplexer.handle rsocket fragment_size frame s.multiplexer) s
          (handle-Kept rsocket fragment_size frame s.multiplexer).0 keeps

    recorded-Keeps :
        (made : Result FrameStore) (frame : Frame) (s : Session)
        → record_received text s.frame_store frame ≡ made
        → Keeps s
        → Keeps (recorded text described numbered rsocket fragment_size made frame s).1
    recorded-Keeps (err e) frame s same keeps = keeps
    recorded-Keeps (ok kept) frame s same (inl over) = handed-Keeps frame _ (inl over)
    recorded-Keeps (ok kept) frame s same (inr i) =
        handed-Keeps frame _ (inr (record_received-IsStore text s.frame_store kept frame i same))

    acknowledged-Keeps :
        (s : Session) (position : Number) (result : Result (Unit {0})) (kept : FrameStore)
        → drop_to text s.frame_store position ≡ (result, kept)
        → Keeps s
        → Keeps
            (acknowledged text described numbered rsocket fragment_size result
              (record s { frame_store = kept })).1
    acknowledged-Keeps s position (err e) kept same keeps = close-Keeps _ _
    acknowledged-Keeps s position (ok u) kept same keeps = dropped-Keeps s position kept same keeps

    handle_connection-Keeps :
        (frame : Frame) (s : Session)
        → Keeps s
        → Keeps (handle_connection text described numbered rsocket fragment_size frame s).1
    handle_connection-Keeps (keepalive f) s keeps =
        handed-Keeps (keepalive f) _ (acknowledged-Keeps s f.last_received_position _ _ refl keeps)
    handle_connection-Keeps (error f) s keeps = close-Keeps _ _
    handle_connection-Keeps _ s keeps = handed-Keeps _ s keeps

    handle_stream-Keeps :
        (frame : Frame) (s : Session)
        → Keeps s
        → Keeps (handle_stream text described numbered rsocket fragment_size frame s).1
    handle_stream-Keeps (ext f) s keeps = handed-Keeps (ext f) s keeps
    handle_stream-Keeps _ s keeps = recorded-Keeps _ _ s refl keeps

    handle-Keeps :
        (frame : Frame) (s : Session)
        → Keeps s
        → Keeps (handle text described numbered rsocket fragment_size frame s).1
    unfolding handle
    handle-Keeps frame s keeps =
        if_both (λ (r : List SessionOutput × Session). Keeps r.1) (is_connection frame)
          (handle_connection-Keeps frame s keeps) (handle_stream-Keeps frame s keeps)

    step-Keeps :
        (input : Input) (s : Session)
        → Keeps s
        → Keeps (step text described numbered rsocket fragment_size input s).1
    unfolding handle_connection_close
    step-Keeps (to_send frame) s keeps = send-Keeps frame s keeps
    step-Keeps (arriving frame) s keeps = handle-Keeps frame s keeps
    step-Keeps (start_stream already_closed o) s keeps =
        passed-Keeps (create_request_stream already_closed o s.multiplexer) s
          (create-done already_closed o s.multiplexer) keeps
    step-Keeps (use_stream_of id signal) s keeps =
        let m = s.multiplexer in
        passed-Keeps (used (lookup id m.registry) id signal m) s
          (used-Kept (lookup id m.registry) id signal m refl).0 keeps
    step-Keeps disconnecting s keeps = keeps
    step-Keeps (resuming frame) s keeps = resume-Keeps frame s keeps
    step-Keeps (ending e) s keeps = close-Keeps e s

    run-Keeps :
        (inputs : List Input) (s : Session)
        → Keeps s
        → Keeps (run text described numbered rsocket fragment_size inputs s).1
    run-Keeps [] s keeps = keeps
    run-Keeps (input ∷ inputs) s keeps = run-Keeps inputs _ (step-Keeps input s keeps)

-- Whatever a new session sends and receives, whatever is done with its streams, and however often its
-- connection breaks and is resumed: as long as it is not closed, the frames that its store keeps lie
-- between the first available position and the last one that was sent.
pub run-IsStore :
    (text : TextCodec) (described : Error → Number × List ℕ) (numbered : Number → List ℕ → ℕ)
    (rsocket : RSocket) (fragment_size : ℕ) (seed : Number) (has_session_store : Bool)
    (inputs : List Input)
    → let (made, s) = new_session seed new_store has_session_store in
      let (outputs, s') = run text described numbered rsocket fragment_size inputs s in
      s'.multiplexer.deferred.done ≡ false → IsStore text s'.frame_store
run-IsStore text described numbered rsocket fragment_size seed has_session_store inputs live =
    let (made, s) = new_session seed new_store has_session_store in
    let empty : IsStore text new_store = record {
      first = 0;
      bytes = 0;
      first_available = refl;
      stored = no_bytes;
      last_sent = refl;
    } in
    elim (run-Keeps text described numbered rsocket fragment_size inputs s (inr empty)) [
      | inl over ↦ absurd cc
      | inr kept ↦ kept
    ]
