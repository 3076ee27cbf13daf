-- ===== src/Session/Positioned.antt =====
-- The frames that have a position in a session: all but EXT and the frames of the connection.
use rsocket.Prelude.{
  ℕ, ◌≡◌, refl, ap, Bool, true, false, ◌||◌, List, [], ◌∷◌, ◌++◌, if◌then◌else◌, if_cases,
}
use rsocket.Prelude.Number.{Number}
use rsocket.Prelude.Result.{Error}
use rsocket.Frames.{Frame, keepalive, error, ext, is_connection}
use rsocket.Codecs.Common.{TextCodec}
use rsocket.Session.{Session, close, send_connection}

abbrev pub is_ext : Frame → Bool
is_ext (ext f) = true
is_ext _ = false

-- A frame of the connection and EXT have no position.
abbrev pub unpositioned : Frame → Bool
unpositioned frame = is_connection frame || is_ext frame

-- Those of the frames that have a position
abbrev pub positioned : List Frame → List Frame
positioned [] = []
positioned (frame ∷ frames) =
    let rest = positioned frames in if unpositioned frame then rest else frame ∷ rest

pub positioned-append :
    (xs ys : List Frame) → positioned (xs ++ ys) ≡ positioned xs ++ positioned ys
positioned-append [] ys = refl
positioned-append (x ∷ xs) ys =
    if_cases
      (λ front.
        (if unpositioned x then positioned (xs ++ ys) else x ∷ positioned (xs ++ ys))
        ≡ front ++ positioned ys)
      (unpositioned x) (λ out. rw out (positioned-append xs ys))
      (λ kept. rw kept (ap (λ r. x ∷ r) (positioned-append xs ys)))

pub neither : (c x : Bool) → (c || x) ≡ false → (c ≡ false) × (x ≡ false)
neither true x h = absurd cc
neither false x h = (refl, h)

-- `send` of a frame of the connection does not touch the store.
module _ (text : TextCodec) (described : Error → Number × List ℕ)
    (numbered : Number → List ℕ → ℕ) where
  pub send_connection-same :
      (frame : Frame) (s : Session)
      → (send_connection text described numbered frame s).1.frame_store ≡ s.frame_store
  unfolding close
  send_connection-same (keepalive f) s = refl
  send_connection-same (error f) s = refl
  send_connection-same _ s = refl
