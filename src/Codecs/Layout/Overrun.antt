-- ===== src/Codecs/Layout/Overrun.antt =====
-- A SETUP frame that sets RESUME_ENABLE with no token, or an empty one: the writer takes two bytes
-- for the token's length that the buffer has no room for.
use rsocket.Prelude.{
  ℕ, ◌+◌, ◌<◌, ◌≡◌, refl, ap, ◌∙◌, Bool, true, false, Option, none, some, arith, length, List, [],
  ◌∷◌, ◌⊎◌, inl, inr, if◌then◌else◌,
}
use rsocket.Prelude.Number.{pos}
use rsocket.Prelude.Result.{Result, ok, err, range_error, ◌>>=◌}
use rsocket.Bytes.{Bytes, write_uint16, write_uint24, write_uint32, write_uint8, write_int32}
use rsocket.Bytes.Lengths.{
  length-write_uint16, length-write_uint24, offset-write_uint8, offset-write_uint16,
  offset-write_uint24, offset-write_ascii, copy-ok, copy-err, copy-cases,
}
use rsocket.Frames.Flags
use rsocket.Frames.{SetupFrame}
use rsocket.Codecs.Common.{
  size, copy_present, write_header, write_metadata, write_payload, get_payload_length,
}
use rsocket.Codecs.Serialize.{
  token_room, write_token, write_mime_type, serialize_setup_frame, setup_size,
}
use rsocket.Codecs.Wire.{resume_enabled}
use rsocket.Codecs.Layout.Sizes.{length-write_mime_type, setup_prefix, length-setup_prefix}

-- Data that does not fit makes `writePayload` throw.
data_overruns :
    (flagged : Bool) (m : Option Bytes) (x b : Bytes) (o : ℕ)
    → length b < o + (length x + (if flagged then 3 + size m else 0))
    → (write_metadata flagged m b o >>= λ r. copy_present (some x) r.0 r.1 >>= λ s. ok s.0)
      ≡ err range_error
unfolding write_metadata
data_overruns false none x b o h = rw (copy-err x b o (omega arith))
data_overruns false (some m) x b o h = rw (copy-err x b o (omega arith))
data_overruns true none x b o h =
    let (b', o') = write_uint24 b (pos 0) o in
    let l = length-write_uint24 b (pos 0) o in
    rw (copy-err x b' o' (omega (arith, l, offset-write_uint24 b (pos 0) o)))
data_overruns true (some m) x b o h =
    let (b', o') = write_uint24 b (pos (length m)) o in
    let l = length-write_uint24 b (pos (length m)) o in
    let at = offset-write_uint24 b (pos (length m)) o in
    elim (copy-cases m b' o') [
      | inl e ↦ rw e
      | inr (r, e) ↦ rw e (rw (copy-err x r.0 r.1 (omega (arith, l, copy-ok m b' o' e))))
    ]

write_payload-err :
    (flags : ℕ) (m : Option Bytes) (x b : Bytes) (o : ℕ)
    → length b < o + get_payload_length flags m (some x)
    → write_payload flags m (some x) b o ≡ err range_error
unfolding write_payload get_payload_length
write_payload-err flags m x b o h = data_overruns (Flags.has_metadata flags) m x b o (omega arith)

offset-write_mime_type :
    (s : List ℕ) (b : Bytes) (o : ℕ) → (write_mime_type s b o).1 ≡ o + 1 + length s
unfolding write_mime_type
offset-write_mime_type s b o =
    let (b', o') = write_uint8 b (pos (length s)) o in
    omega (arith, offset-write_ascii s b' o', offset-write_uint8 b (pos (length s)) o)

offset-setup_prefix : (f : SetupFrame) → (setup_prefix f).1 ≡ 18
unfolding setup_prefix write_header write_int32 write_uint32 write_uint16
offset-setup_prefix f = refl

-- The length field of a token with no bytes.
write_token_empty :
    (t : Option Bytes) (b : Bytes) (o : ℕ)
    → size t ≡ 0
    → (r : Bytes × ℕ) × ((write_token true t b o ≡ err range_error)
        ⊎ ((write_token true t b o ≡ ok r) × (length r.0 ≡ length b) × (r.1 ≡ o + 2)))
unfolding write_token
write_token_empty none b o e =
    let r = write_uint16 b (pos 0) o in
    (r, inr (refl, length-write_uint16 b (pos 0) o, offset-write_uint16 b (pos 0) o))
write_token_empty (some []) b o e =
    let (b', o') = write_uint16 b (pos 0) o in
    elim (copy-cases [] b' o') [
      | inl thrown ↦ ((b', o'), inl thrown)
      | inr (r, done) ↦
          let k = copy-ok [] b' o' done in
          (
            r,
            inr (
              done,
              k.0 ∙ length-write_uint16 b (pos 0) o,
              omega (arith, k, offset-write_uint16 b (pos 0) o),
            ),
          )
    ]
write_token_empty (some (x ∷ t)) b o e = absurd (omega arith)

-- `serializeSetupFrame` from the token on.
setup_tail : SetupFrame → Bytes × ℕ → Result Bytes
setup_tail f c = do
  (b5, o5) ← write_token (resume_enabled f.flags) f.resume_token c.0 c.1
  let (b6, o6) = write_mime_type f.metadata_mime_type b5 o5
  let (b7, o7) = write_mime_type f.data_mime_type b6 o6
  write_payload f.flags f.metadata f.body b7 o7

setup_tail_overrun :
    (f : SetupFrame) (x : Bytes) (c : Bytes × ℕ)
    → c.1 ≡ 18
    → length c.0 ≡ setup_size f
    → resume_enabled f.flags ≡ true
    → size f.resume_token ≡ 0
    → f.body ≡ some x
    → setup_tail f c ≡ err range_error
unfolding setup_tail
setup_tail_overrun f x (b4, o4) start room enabled empty has_body =
    let (r, cases) = write_token_empty f.resume_token b4 o4 empty in
    let meta = f.metadata_mime_type in
    let mime = f.data_mime_type in
    let (b6, o6) = write_mime_type meta r.0 r.1 in
    let (b7, o7) = write_mime_type mime b6 o6 in
    let l6 = length-write_mime_type meta r.0 r.1 in
    let at6 = offset-write_mime_type meta r.0 r.1 in
    let l7 = length-write_mime_type mime b6 o6 in
    let at7 = offset-write_mime_type mime b6 o6 in
    let size_x = ap (λ (t : Option Bytes). get_payload_length f.flags f.metadata t) has_body in
    let no_room = ap token_room empty in
    rw enabled (elim cases [
      | inl thrown ↦ rw thrown
      | inr (done, l, at) ↦
          rw (done, has_body) (write_payload-err f.flags f.metadata x b7 o7 (omega arith))
    ])

-- `serializeSetupFrame` throws a RangeError on every frame that has data and sets RESUME_ENABLE
-- with no token, or with an empty one.
pub serialize_setup_frame_overrun :
    (f : SetupFrame) (x : Bytes)
    → resume_enabled f.flags ≡ true
    → size f.resume_token ≡ 0
    → f.body ≡ some x
    → serialize_setup_frame f ≡ err range_error
unfolding serialize_setup_frame setup_prefix setup_tail
serialize_setup_frame_overrun f x =
    setup_tail_overrun f x (setup_prefix f) (offset-setup_prefix f) (length-setup_prefix f)
