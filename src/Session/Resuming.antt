-- ===== src/Session/Resuming.antt =====
-- What a session sends when it is resumed, behind any frames that it has sent.
use rsocket.Prelude.{
  ℕ, ◌+◌, ◌≡◌, refl, sym, subst, ap, ◌∙◌, true, false, ◌||◌, List, [], ◌∷◌, ◌++◌, map, append_assoc,
  append-nil, if_cases,
}
use rsocket.Prelude.Number.{Number, pos, add, lt}
use rsocket.Prelude.Result.{Error, ok}
use rsocket.Frames.{Frame, ResumeFrame, ext, resume_ok, is_connection}
use rsocket.Frames.Flags
use rsocket.Codecs.Common.{TextCodec}
use rsocket.Codecs.Size.{size_of_frame}
use rsocket.Resume.{FrameStore, store, drop_to, drain}
use rsocket.Resume.Positions.{HasBytes, more_bytes, HasBytes-append, drop_to-front}
use rsocket.Session.Receiving.{receive_all, receive_all-Received}
use rsocket.Multiplexer.Handlers.{RSocket}
use rsocket.Session.Positioned.{
  is_ext, unpositioned, positioned, positioned-append, neither, send_connection-same,
}
use rsocket.Session.{
  Session, SessionOutput, to_outbound, timer_cleared, resumed, watching, by_resume, going_on,
  resume, send, send_stream, stored,
}

-- RESUME with the position behind the first of the frames that are kept
resume-front :
    (text : TextCodec) (described : Error → Number × List ℕ) (numbered : Number → List ℕ → ℕ)
    (s : Session) (xs ys : List Frame) (bytes first : ℕ) (f : ResumeFrame)
    → s.frame_store.first_available ≡ pos first
    → s.frame_store.stored_frames ≡ xs ++ ys
    → HasBytes text xs bytes
    → f.server_position ≡ pos (first + bytes)
    → lt s.frame_store.last_received f.client_position ≡ false
    → let kept = record s.frame_store { stored_frames = ys; first_available = f.server_position } in
      let ok_frame =
        resume_ok
          (record { flags = Flags.no_flags; client_position = s.frame_store.last_received }) in
      resume text described numbered (by_resume f) s ≡ (
        timer_cleared ∷ to_outbound ok_frame ∷ (map to_outbound ys ++ (watching ∷ resumed ∷ [])),
        record s { frame_store = kept },
      )
unfolding resume going_on drain
resume-front text described numbered s xs ys bytes first f from split sizes position fits =
    let dropped : drop_to text s.frame_store f.server_position ≡ (
      ok tt,
      record s.frame_store { stored_frames = ys; first_available = f.server_position },
    ) =
      ap (drop_to text s.frame_store) position
      ∙ drop_to-front text s.frame_store xs ys bytes first from split sizes
      ∙ ap (λ n. (ok tt, record s.frame_store { stored_frames = ys; first_available = n }))
          (sym position) in
    rw (fits, dropped) refl

module _ (text : TextCodec) (described : Error → Number × List ℕ)
    (numbered : Number → List ℕ → ℕ) where
  -- The frames are sent one after the other.
  abbrev pub send_all : List Frame → Session → List SessionOutput × Session
  send_all [] s = ([], s)
  send_all (frame ∷ frames) s =
      let (outputs, s') = send text described numbered frame s in
      let (more, s'') = send_all frames s' in (outputs ++ more, s'')

  send_stream-same :
      (frame : Frame) (s : Session)
      → is_ext frame ≡ true
      → (send_stream text described numbered frame s).1.frame_store ≡ s.frame_store
  send_stream-same (ext f) s e = refl
  send_stream-same _ s e = absurd cc

  send_stream-stored :
      (frame : Frame) (s : Session) (kept : FrameStore)
      → is_ext frame ≡ false
      → store text s.frame_store frame ≡ ok kept
      → (send_stream text described numbered frame s).1.frame_store ≡ kept
  send_stream-stored (ext f) s kept e known = absurd cc
  send_stream-stored frame s kept e known =
      ap (λ r. (stored text described numbered r frame s).1.frame_store) known

  abbrev Leaves : FrameStore → List SessionOutput × Session → Type 0
  Leaves kept (outputs, s') = s'.frame_store ≡ kept

  send-same :
      (frame : Frame) (s : Session)
      → unpositioned frame ≡ true
      → Leaves s.frame_store (send text described numbered frame s)
  unfolding send
  send-same frame s out =
      if_cases (Leaves s.frame_store) (is_connection frame)
        (λ on. send_connection-same text described numbered frame s)
        (λ off. send_stream-same frame s (subst (λ c. (c || is_ext frame) ≡ true) off out))

  send-stored :
      (frame : Frame) (s : Session) (kept : FrameStore)
      → unpositioned frame ≡ false
      → store text s.frame_store frame ≡ ok kept
      → Leaves kept (send text described numbered frame s)
  unfolding send
  send-stored frame s kept counted known =
      let (stream, other) = neither (is_connection frame) (is_ext frame) counted in
      if_cases (Leaves kept) (is_connection frame) (λ on. absurd cc)
        (λ off. send_stream-stored frame s kept other known)

  -- What a session that has sent frames keeps
  abbrev Sends : FrameStore → List Frame → FrameStore → Type 0
  Sends s frames s' =
      (s'.stored_frames ≡ s.stored_frames ++ frames)
      × (s'.first_available ≡ s.first_available)
      × (s'.last_received ≡ s.last_received)

  front :
      {frame : Frame} {frames : List Frame} {bytes : ℕ}
      → HasBytes text (frame ∷ frames) bytes
      → (size : ℕ) × (m : ℕ) × (size_of_frame text frame ≡ ok size) × HasBytes text frames m
  front (more_bytes {size = size} {bytes = m} known h rest) = (size, m, known, rest)

  store-size :
      (s : FrameStore) (frame : Frame) (size : ℕ)
      → size_of_frame text frame ≡ ok size
      → store text s frame
        ≡ ok (record s {
          last_sent = add s.last_sent (pos size);
          stored_frames = s.stored_frames ++ (frame ∷ []);
        })
  unfolding store
  store-size s frame size known = rw known refl

  send_all-Sends :
      (frames : List Frame) (s : Session) (bytes : ℕ)
      → HasBytes text (positioned frames) bytes
      → Sends s.frame_store (positioned frames) (send_all frames s).1.frame_store
  send_all-Sends [] s bytes known = (sym (append-nil s.frame_store.stored_frames), refl, refl)
  send_all-Sends (frame ∷ frames) s bytes known =
      let s' = (send text described numbered frame s).1 in
      let last = (send_all frames s').1.frame_store in
      if_cases (λ kept. HasBytes text kept bytes → Sends s.frame_store kept last)
        (unpositioned frame)
        (λ out sizes.
          subst (λ t. Sends t (positioned frames) last) (send-same frame s out)
            (send_all-Sends frames s' bytes sizes))
        (λ counted sizes.
          let (size, m, first, others) = front sizes in
          let kept = record s.frame_store {
            last_sent = add s.frame_store.last_sent (pos size);
            stored_frames = s.frame_store.stored_frames ++ (frame ∷ []);
          } in
          let same = send-stored frame s kept counted (store-size s.frame_store frame size first) in
          let (stored, available, received) =
            subst (λ t. Sends t (positioned frames) last) same
              (send_all-Sends frames s' m others) in
          (
            stored ∙ append_assoc s.frame_store.stored_frames (frame ∷ []) (positioned frames),
            available,
            received,
          ))
        known

-- A session that keeps no frame sends any frames, `before` and then `after`. The session at the
-- other end, which has received as far as the first one has sent, receives `before`; then the
-- connection breaks, and the other end asks to resume with the position that it has reached, and
-- with a position of its own that the first session has reached. The frames that have a position
-- (all but EXT and the frames of the connection) have some bytes each. Then the first session
-- answers RESUME_OK with its own position, sends those of `after` that have a position again, in
-- order and nothing else, and goes on; these are what it keeps.
pub resume-send_all :
    (text : TextCodec) (described : Error → Number × List ℕ) (numbered : Number → List ℕ → ℕ)
    (rsocket : RSocket) (fragment_size : ℕ) (s peer : Session) (before after : List Frame)
    (bytes more first : ℕ) (f : ResumeFrame)
    → s.frame_store.stored_frames ≡ []
    → s.frame_store.first_available ≡ pos first
    → peer.frame_store.last_received ≡ pos first
    → HasBytes text (positioned before) bytes
    → HasBytes text (positioned after) more
    → f.server_position
      ≡ (receive_all text described numbered rsocket fragment_size before
          peer).1.frame_store.last_received
    → lt s.frame_store.last_received f.client_position ≡ false
    → let s' = (send_all text described numbered (before ++ after) s).1 in
      let kept = record s'.frame_store {
        stored_frames = positioned after;
        first_available = f.server_position;
      } in
      let ok_frame =
        resume_ok
          (record { flags = Flags.no_flags; client_position = s.frame_store.last_received }) in
      resume text described numbered (by_resume f) s' ≡ (
        timer_cleared
            ∷ to_outbound ok_frame
            ∷ (map to_outbound (positioned after) ++ (watching ∷ resumed ∷ [])),
        record s' { frame_store = kept },
      )
resume-send_all text described numbered rsocket fragment_size s peer before after bytes more first f
      none from at sizes others asked fits =
    let split = positioned-append before after in
    let s' = (send_all text described numbered (before ++ after) s).1 in
    let (stored, available, received) =
      send_all-Sends text described numbered (before ++ after) s (bytes + more) (
        subst (λ l. HasBytes text l (bytes + more)) (sym split)
          (HasBytes-append text sizes others)) in
    let whole : s'.frame_store.stored_frames ≡ positioned before ++ positioned after =
      stored ∙ ap (λ l. l ++ positioned (before ++ after)) none ∙ split in
    let position : f.server_position ≡ pos (first + bytes) =
      asked
      ∙ receive_all-Received text described numbered rsocket fragment_size before peer first bytes
          at sizes in
    subst
      (λ n.
        lt n f.client_position ≡ false
        → resume text described numbered (by_resume f) s' ≡ (
          timer_cleared
              ∷ to_outbound (resume_ok (record { flags = Flags.no_flags; client_position = n }))
              ∷ (map to_outbound (positioned after) ++ (watching ∷ resumed ∷ [])),
          record s' {
            frame_store = record s'.frame_store {
              stored_frames = positioned after;
              first_available = f.server_position;
            };
          },
        ))
      received
      (resume-front text described numbered s' (positioned before) (positioned after) bytes first f
        (available ∙ from) whole sizes position)
      fits
