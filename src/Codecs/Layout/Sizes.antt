-- ===== src/Codecs/Layout/Sizes.antt =====
-- `sizeOfFrame` tells the length of what `serializeFrame` returns, and when SETUP overruns it.
use rsocket.Prelude.{
  ℕ, ◌≡◌, sym, ap, ◌∙◌, Bool, true, false, Option, none, some, length, length-replicate, List,
}
use rsocket.Prelude.Number.{Number, pos}
use rsocket.Prelude.Result.{ok, first_step, ok-injective}
use rsocket.Bytes.{Bytes, alloc, write_uint16, write_uint24, write_uint32, write_uint8, write_int32}
use rsocket.Bytes.Lengths.{
  length-write_uint8, length-write_uint16, length-write_uint24, length-write_uint32,
  length-write_int32, length-write_ascii, copy-ok,
}
use rsocket.Frames.Flags
use rsocket.Frames.FrameTypes
use rsocket.Frames.{SetupFrame}
use rsocket.Codecs.Common.{size, copy_present, write_header, write_metadata, write_payload}
use rsocket.Codecs.Serialize.{write_token, write_mime_type, serialize_setup_frame, setup_size}
use rsocket.Codecs.Wire.{resume_enabled}

length-write_header :
    (type flags : ℕ) (id : Number) (b : Bytes) → length (write_header type flags id b).0 ≡ length b
unfolding write_header
length-write_header type flags id b =
    length-write_uint16 (write_int32 b id 0).0 _ (write_int32 b id 0).1 ∙ length-write_int32 b id 0

copy_present-ok :
    (s : Option Bytes) (b : Bytes) (o : ℕ) {r : Bytes × ℕ}
    → copy_present s b o ≡ ok r
    → length r.0 ≡ length b
copy_present-ok none b o e = ap (λ (r : Bytes × ℕ). length r.0) (sym (ok-injective e))
copy_present-ok (some s) b o e = (copy-ok s b o e).0

write_metadata-ok :
    (flagged : Bool) (m : Option Bytes) (b : Bytes) (o : ℕ) {r : Bytes × ℕ}
    → write_metadata flagged m b o ≡ ok r
    → length r.0 ≡ length b
unfolding write_metadata
write_metadata-ok false none b o e = ap (λ (r : Bytes × ℕ). length r.0) (sym (ok-injective e))
write_metadata-ok false (some m) b o e = ap (λ (r : Bytes × ℕ). length r.0) (sym (ok-injective e))
write_metadata-ok true none b o e =
    ap (λ (r : Bytes × ℕ). length r.0) (sym (ok-injective e)) ∙ length-write_uint24 b (pos 0) o
write_metadata-ok true (some m) b o e =
    let (b', o') = write_uint24 b (pos (length m)) o in
    (copy-ok m b' o' e).0 ∙ length-write_uint24 b (pos (length m)) o

write_payload-ok :
    (flags : ℕ) (m body : Option Bytes) (b : Bytes) (o : ℕ) {b' : Bytes}
    → write_payload flags m body b o ≡ ok b'
    → length b' ≡ length b
unfolding write_payload
write_payload-ok flags m body b o e =
    let (r, e1, e2) = first_step (write_metadata (Flags.has_metadata flags) m b o) _ e in
    let (r', e3, e4) = first_step (copy_present body r.0 r.1) _ e2 in
    ap length (sym (ok-injective e4))
    ∙ copy_present-ok body r.0 r.1 e3
    ∙ write_metadata-ok (Flags.has_metadata flags) m b o e1

write_token-ok :
    (enabled : Bool) (t : Option Bytes) (b : Bytes) (o : ℕ) {r : Bytes × ℕ}
    → write_token enabled t b o ≡ ok r
    → length r.0 ≡ length b
unfolding write_token
write_token-ok false t b o e = ap (λ (r : Bytes × ℕ). length r.0) (sym (ok-injective e))
write_token-ok true t b o e =
    let (b', o') = write_uint16 b (pos (size t)) o in
    copy_present-ok t b' o' e ∙ length-write_uint16 b (pos (size t)) o

pub length-write_mime_type :
    (s : List ℕ) (b : Bytes) (o : ℕ) → length (write_mime_type s b o).0 ≡ length b
unfolding write_mime_type
length-write_mime_type s b o =
    let (b', o') = write_uint8 b (pos (length s)) o in
    length-write_ascii s b' o' ∙ length-write_uint8 b (pos (length s)) o

-- The buffer of `serializeSetupFrame` before the token.
unfoldable pub setup_prefix : SetupFrame → Bytes × ℕ
setup_prefix f =
    let (b, o) = write_header FrameTypes.setup f.flags (pos 0) (alloc (setup_size f)) in
    let (b1, o1) = write_uint16 b f.major_version o in
    let (b2, o2) = write_uint16 b1 f.minor_version o1 in
    let (b3, o3) = write_uint32 b2 f.keep_alive o2 in write_uint32 b3 f.lifetime o3

pub length-setup_prefix : (f : SetupFrame) → length (setup_prefix f).0 ≡ setup_size f
unfolding setup_prefix alloc
length-setup_prefix f =
    simp (length-write_uint32, length-write_uint16, length-write_header, length-replicate)

-- A SETUP frame takes the room that `sizeOfSetupFrame` tells, whatever its fields are.
pub length-serialize_setup_frame :
    (f : SetupFrame) {b : Bytes} → serialize_setup_frame f ≡ ok b → length b ≡ setup_size f
unfolding serialize_setup_frame setup_prefix
length-serialize_setup_frame f e =
    let (b4, o4) = setup_prefix f in
    let (r, e1, e2) = first_step (write_token (resume_enabled f.flags) f.resume_token b4 o4) _ e in
    let (b6, o6) = write_mime_type f.metadata_mime_type r.0 r.1 in
    let (b7, o7) = write_mime_type f.data_mime_type b6 o6 in
    write_payload-ok f.flags f.metadata f.body b7 o7 e2
    ∙ length-write_mime_type f.data_mime_type b6 o6
    ∙ length-write_mime_type f.metadata_mime_type r.0 r.1
    ∙ write_token-ok (resume_enabled f.flags) f.resume_token b4 o4 e1
    ∙ length-setup_prefix f
