-- ===== src/Session/Receiving.antt =====
-- What a session has received: the position counts the bytes of the frames that have one.
use rsocket.Prelude.{
  ℕ, ◌+◌, ◌≡◌, refl, subst, ap, ◌∙◌, true, false, ◌||◌, List, [], ◌∷◌, ◌++◌, arith, if_both,
  if_cases,
}
use rsocket.Prelude.Number.{Number, pos, add, sub}
use rsocket.Prelude.Result.{Error, Result, ok, err, ◌>>=◌}
use rsocket.Frames.{Frame, keepalive, error, ext, is_connection}
use rsocket.Codecs.Common.{TextCodec}
use rsocket.Codecs.Size.{size_of_frame}
use rsocket.Resume.{FrameStore, store, record_received, drop_loop, after_drop, drop_to}
use rsocket.Resume.Positions.{HasBytes, no_bytes, more_bytes}
use rsocket.Streams as Streams
use rsocket.Multiplexer as Multiplexer
use rsocket.Multiplexer.{Output, of_stream}
use rsocket.Multiplexer.Handlers.{RSocket}
use rsocket.Session.{
  Session, SessionOutput, close, send, send_stream, stored, carry, handed, acknowledged,
  handle_connection, recorded, handle_stream, handle,
}
use rsocket.Session.Positioned.{is_ext, unpositioned, positioned, neither, send_connection-same}

abbrev Received : Number → List SessionOutput × Session → Type 0
Received n (outputs, s) = s.frame_store.last_received ≡ n

module _ (text : TextCodec) (described : Error → Number × List ℕ)
    (numbered : Number → List ℕ → ℕ) where
  stored-Received :
      (r : Result ℕ) (frame : Frame) (s : Session)
      → Received s.frame_store.last_received (
          stored text described numbered
            (r >>= (λ size. ok (record s.frame_store {
              last_sent = add s.frame_store.last_sent (pos size);
              stored_frames = s.frame_store.stored_frames ++ (frame ∷ []);
            })))
            frame
            s)
  stored-Received (ok size) frame s = refl
  stored-Received (err e) frame s = refl

  send_stream-Received :
      (frame : Frame) (s : Session)
      → Received s.frame_store.last_received (send_stream text described numbered frame s)
  unfolding store
  send_stream-Received (ext f) s = refl
  send_stream-Received frame s = stored-Received (size_of_frame text frame) frame s

  send-Received :
      (frame : Frame) (s : Session)
      → Received s.frame_store.last_received (send text described numbered frame s)
  unfolding send
  send-Received frame s =
      if_both (Received s.frame_store.last_received) (is_connection frame)
        (ap (λ t. t.last_received) (send_connection-same text described numbered frame s))
        (send_stream-Received frame s)

  carry-Received :
      (outputs : List Output) (s : Session)
      → Received s.frame_store.last_received (carry text described numbered outputs s)
  carry-Received [] s = refl
  carry-Received (of_stream (Streams.sent frame) ∷ outputs) s =
      carry-Received outputs _ ∙ send-Received frame s
  carry-Received (_ ∷ outputs) s = carry-Received outputs s

  after_drop-received :
      (s : FrameStore) (position : Number) (r : Result Number × List Frame)
      → (after_drop text s position r).1.last_received ≡ s.last_received
  after_drop-received s position (err e, frames) = refl
  after_drop-received s position (ok bytes, frames) = ground arith

  module _ (rsocket : RSocket) (fragment_size : ℕ) where
    handed-Received :
        (frame : Frame) (s : Session)
        → Received s.frame_store.last_received
            (handed text described numbered rsocket fragment_size frame s)
    handed-Received frame s =
        carry-Received (Multiplexer.handle rsocket fragment_size frame s.multiplexer).0 _

    acknowledged-Received :
        (r : Result (Unit {0})) (s : Session)
        → Received s.frame_store.last_received
            (acknowledged text described numbered rsocket fragment_size r s)
    unfolding close
    acknowledged-Received (ok u) s = refl
    acknowledged-Received (err e) s = refl

    handle_connection-Received :
        (frame : Frame) (s : Session)
        → Received s.frame_store.last_received
            (handle_connection text described numbered rsocket fragment_size frame s)
    unfolding close drop_to
    handle_connection-Received (keepalive f) s =
        let looped =
          drop_loop text s.frame_store.stored_frames
            (sub f.last_received_position s.frame_store.first_available) in
        let (result, kept) = after_drop text s.frame_store f.last_received_position looped in
        let dropped = record s { frame_store = kept } in
        handed-Received (keepalive f)
          (acknowledged text described numbered rsocket fragment_size result dropped).1
        ∙ acknowledged-Received result dropped
        ∙ after_drop-received s.frame_store f.last_received_position looped
    handle_connection-Received (error f) s = handed-Received (error f) s
    handle_connection-Received frame s = handed-Received frame s

    recorded-Received :
        (frame : Frame) (s : Session) (size : ℕ)
        → size_of_frame text frame ≡ ok size
        → Received (add s.frame_store.last_received (pos size)) (
            recorded text described numbered rsocket fragment_size
              (record_received text s.frame_store frame)
              frame
              s)
    unfolding record_received
    recorded-Received frame s size known = rw known (handed-Received frame _)

    handle_stream-Received :
        (frame : Frame) (s : Session) (size : ℕ)
        → is_ext frame ≡ false
        → size_of_frame text frame ≡ ok size
        → Received
            (add s.frame_store.last_received (pos size))
            (handle_stream text described numbered rsocket fragment_size frame s)
    handle_stream-Received (ext f) s size other known = absurd cc
    handle_stream-Received frame s size other known = recorded-Received frame s size known

    handle_ext-Received :
        (frame : Frame) (s : Session)
        → is_ext frame ≡ true
        → Received s.frame_store.last_received
            (handle_stream text described numbered rsocket fragment_size frame s)
    handle_ext-Received (ext f) s e = handed-Received (ext f) s
    handle_ext-Received _ s e = absurd cc

    unpositioned-Received :
        (frame : Frame) (s : Session)
        → unpositioned frame ≡ true
        → Received s.frame_store.last_received
            (handle text described numbered rsocket fragment_size frame s)
    unfolding handle
    unpositioned-Received frame s out =
        if_cases (Received s.frame_store.last_received) (is_connection frame)
          (λ on. handle_connection-Received frame s)
          (λ off. handle_ext-Received frame s (subst (λ c. (c || is_ext frame) ≡ true) off out))

    positioned-Received :
        (frame : Frame) (s : Session) (size : ℕ)
        → unpositioned frame ≡ false
        → size_of_frame text frame ≡ ok size
        → Received
            (add s.frame_store.last_received (pos size))
            (handle text described numbered rsocket fragment_size frame s)
    unfolding handle
    positioned-Received frame s size counted known =
        let (stream, other) = neither (is_connection frame) (is_ext frame) counted in
        if_cases (Received (add s.frame_store.last_received (pos size))) (is_connection frame)
          (λ on. absurd cc) (λ off. handle_stream-Received frame s size other known)

    -- The frames reach a session one after the other.
    abbrev pub receive_all : List Frame → Session → List SessionOutput × Session
    receive_all [] s = ([], s)
    receive_all (frame ∷ frames) s =
        let (outputs, s') = handle text described numbered rsocket fragment_size frame s in
        let (more, s'') = receive_all frames s' in (outputs ++ more, s'')

    front :
        {frame : Frame} {frames : List Frame} {bytes : ℕ}
        → HasBytes text (frame ∷ frames) bytes
        → (size : ℕ) × (m : ℕ) × (size_of_frame text frame ≡ ok size)
          × HasBytes text frames m
          × (bytes ≡ size + m)
    front (more_bytes {size = size} {bytes = m} known h rest) = (size, m, known, rest, refl)

    pub receive_all-Received :
        (frames : List Frame) (s : Session) (first bytes : ℕ)
        → s.frame_store.last_received ≡ pos first
        → HasBytes text (positioned frames) bytes
        → Received (pos (first + bytes)) (receive_all frames s)
    receive_all-Received [] s first bytes at no_bytes =
        let r : pos first ≡ pos (first + 0) = ap pos (omega arith) in at ∙ r
    receive_all-Received (frame ∷ frames) s first bytes at known =
        let s' = (handle text described numbered rsocket fragment_size frame s).1 in
        if_cases
          (λ counts.
            HasBytes text counts bytes
            → (receive_all frames s').1.frame_store.last_received ≡ pos (first + bytes))
          (unpositioned frame)
          (λ out sizes.
            receive_all-Received frames s' first bytes (unpositioned-Received frame s out ∙ at)
              sizes)
          (λ counted sizes.
            let (size, m, one, others, sum) = front sizes in
            let moved : add s.frame_store.last_received (pos size) ≡ pos (first + size) =
              ap (λ n. add n (pos size)) at in
            let end : pos (first + size + m) ≡ pos (first + bytes) = ap pos (omega arith) in
            receive_all-Received frames s' (first + size) m
              (positioned-Received frame s size counted one ∙ moved) others
            ∙ end)
          known
