-- ===== src/Codecs/Layout/Setup.antt =====
-- The layout of a SETUP frame: the room that `sizeOfSetupFrame` counts for the resume token is the
-- room that the writer takes only if the flag says that a token is there.
use rsocket.Prelude.{
  ℕ, ◌+◌, ◌%◌, ◌≤◌, ◌<◌, ◌≡◌, refl, ap, ◌∙◌, Bool, true, false, List, [], ◌∷◌, ◌++◌, Option, none,
  some, append-nil, append_assoc, length, length-append, arith, All,
}
use rsocket.Prelude.Number.{pos, to_u32}
use rsocket.Prelude.Result.{ok}
use rsocket.Bytes.{Bytes, IsByte}
use rsocket.Bytes.Filled.{
  Filled, be16, be32, write_uint8-Filled, write_uint16-Filled, write_uint32-Filled,
  write_ascii-Filled,
}
use rsocket.Frames.{SetupFrame}
use rsocket.Frames.FrameTypes
use rsocket.Codecs.Common.{size}
use rsocket.Codecs.Serialize.{
  token_room, setup_size, write_token, write_mime_type, serialize_setup_frame,
}
use rsocket.Codecs.Wire.{
  header, payload_bytes, resume_enabled, token_bytes, mime_bytes, setup_bytes,
}
use rsocket.Codecs.Layout.{copy_present-Filled, write_header-Filled, write_payload-Filled}

-- RESUME_ENABLE is set exactly where a token is given, and that is not empty.
abbrev pub TokenMatches : Bool → ℕ → Type 0
TokenMatches true n = 0 < n
TokenMatches false n = n ≡ 0

write_token-Filled :
    {n : ℕ} {p b : Bytes} {o : ℕ} (enabled : Bool) (t : Option Bytes)
    → TokenMatches enabled (size t)
    → Filled n p b o
    → length p + token_room (size t) ≤ n
    → (b' : Bytes) × (o' : ℕ) × (write_token enabled t b o ≡ ok (b', o'))
      × Filled n (p ++ token_bytes enabled t) b' o'
      × (length (token_bytes enabled t) ≡ token_room (size t))
unfolding write_token
write_token-Filled {b = b} {o} false t m f h = (b, o, refl, rw append-nil f, ground arith)
write_token-Filled {p = p} true none m f h = absurd (omega arith)
write_token-Filled {p = p} true (some []) m f h = absurd (omega arith)
write_token-Filled {p = p} true (some (x ∷ t)) m f h =
    let f1 = write_uint16-Filled (pos (length (x ∷ t))) f (ground arith) in
    let l = length-append p (be16 (to_u32 (pos (length (x ∷ t))))) in
    let (b', o', e, g) = copy_present-Filled (some (x ∷ t)) f1 (ground (arith, l)) in
    (b', o', e, rw append_assoc at g, ground arith)

write_mime_type-Filled :
    {n : ℕ} {p b : Bytes} {o : ℕ} (s : List ℕ)
    → All IsByte s
    → Filled n p b o
    → length p + 1 + length s ≤ n
    → let (b', o') = write_mime_type s b o in Filled n (p ++ mime_bytes s) b' o'
unfolding write_mime_type
write_mime_type-Filled {p = p} s a f h =
    let f1 = write_uint8-Filled (pos (length s)) f (omega arith) in
    let l = length-append p (to_u32 (pos (length s)) % 256 ∷ []) in
    rw append_assoc at (write_ascii-Filled s a f1 (omega (arith, l)))

-- What stands before the token.
abbrev setup_start : SetupFrame → Bytes
setup_start f =
    header FrameTypes.setup f.flags (pos 0)
    ++ (be16 (to_u32 f.major_version)
        ++ (be16 (to_u32 f.minor_version)
            ++ (be32 (to_u32 f.keep_alive) ++ be32 (to_u32 f.lifetime))))

pub serialize_setup_frame-setup_bytes :
    (f : SetupFrame)
    → TokenMatches (resume_enabled f.flags) (size f.resume_token)
    → All IsByte f.metadata_mime_type
    → All IsByte f.data_mime_type
    → serialize_setup_frame f ≡ ok (setup_bytes f)
unfolding serialize_setup_frame
serialize_setup_frame-setup_bytes f m am ad =
    let n = setup_size f in
    let f1 = write_header-Filled {n = n} FrameTypes.setup f.flags (pos 0) (omega arith) in
    let f2 = write_uint16-Filled f.major_version f1 (omega arith) in
    let f3 = write_uint16-Filled f.minor_version f2 (omega arith) in
    let f4 = write_uint32-Filled f.keep_alive f3 (omega arith) in
    let f5 = write_uint32-Filled f.lifetime f4 (omega arith) in
    let token = token_bytes (resume_enabled f.flags) f.resume_token in
    let (b6, o6, e, f6, room) =
      write_token-Filled (resume_enabled f.flags) f.resume_token m f5 (omega arith) in
    let meta = mime_bytes f.metadata_mime_type in
    let mime = mime_bytes f.data_mime_type in
    let l2 = length-append token meta in
    let l3 = length-append (token ++ meta) mime in
    let f7 = write_mime_type-Filled f.metadata_mime_type am f6 (omega arith) in
    let f8 = write_mime_type-Filled f.data_mime_type ad f7 (omega (arith, l2)) in
    let tail = payload_bytes f.flags f.metadata f.body in
    rw e (
      write_payload-Filled f.flags f.metadata f.body f8 (omega (arith, l2, l3))
      ∙ ap (λ r. ok (setup_start f ++ r))
          (append_assoc (token ++ meta) mime tail ∙ append_assoc token meta (mime ++ tail)))
