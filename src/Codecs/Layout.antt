-- ===== src/Codecs/Layout.antt =====
-- `serializeFrame` fills its buffer exactly: what it returns is the wire format.
pub mod Setup
pub mod Frames
pub mod All
pub mod Sizes
pub mod SizeOf
pub mod Overrun
use rsocket.Prelude.{
  ℕ, ◌+◌, ◌≤◌, ◌≡◌, refl, ap, ◌∙◌, Bool, true, false, ◌++◌, Option, none, some, append-nil,
  append_assoc, length, length-append, arith, if◌then◌else◌,
}
use rsocket.Prelude.Number.{Number, pos, to_u32}
use rsocket.Prelude.Result.{ok, ◌>>=◌}
use rsocket.Bytes.{Bytes, alloc}
use rsocket.Bytes.Filled.{
  Filled, alloc-Filled, Filled-full, be24, write_uint16-Filled, write_uint24-Filled,
  write_int32-Filled, copy-Filled,
}
use rsocket.Frames.Flags
use rsocket.Codecs.Common.{
  size, copy_present, write_header, write_metadata, write_payload, get_payload_length,
}
use rsocket.Codecs.Wire.{or_empty, header, metadata_bytes, payload_bytes}

pub length-or_empty : (s : Option Bytes) → length (or_empty s) ≡ size s
length-or_empty none = refl
length-or_empty (some b) = refl

pub write_header-Filled :
    {n : ℕ} (type flags : ℕ) (id : Number)
    → 6 ≤ n
    → let (b, o) = write_header type flags id (alloc n) in Filled n (header type flags id) b o
unfolding write_header
write_header-Filled type flags id h =
    write_uint16-Filled _ (write_int32-Filled id (alloc-Filled _) (omega arith)) (omega arith)

pub copy_present-Filled :
    {n : ℕ} {p b : Bytes} {o : ℕ} (s : Option Bytes)
    → Filled n p b o
    → length p + size s ≤ n
    → (b' : Bytes) × (o' : ℕ) × (copy_present s b o ≡ ok (b', o'))
      × Filled n (p ++ or_empty s) b' o'
copy_present-Filled {p = p} {b} {o} none f h = (b, o, refl, rw append-nil f)
copy_present-Filled (some s) f h = copy-Filled s f h

-- A last field that ends the buffer.
pub finish :
    {n : ℕ} {p b : Bytes} {o : ℕ} (s : Option Bytes)
    → Filled n p b o
    → length p + size s ≡ n
    → (copy_present s b o >>= λ r. ok r.0) ≡ ok (p ++ or_empty s)
finish {p = p} s f h =
    let (b', o', e, g) = copy_present-Filled s f (omega arith) in
    rw e (ap ok (Filled-full g (omega (arith, length-append p (or_empty s), length-or_empty s))))

write_metadata-Filled :
    {n : ℕ} {p b : Bytes} {o : ℕ} (flagged : Bool) (m : Option Bytes)
    → Filled n p b o
    → length p + (if flagged then 3 + size m else 0) ≤ n
    → (b' : Bytes) × (o' : ℕ) × (write_metadata flagged m b o ≡ ok (b', o'))
      × Filled n (p ++ metadata_bytes flagged m) b' o'
unfolding write_metadata
write_metadata-Filled {b = b} {o} false none f h = (b, o, refl, rw append-nil f)
write_metadata-Filled {b = b} {o} false (some m) f h = (b, o, refl, rw append-nil f)
write_metadata-Filled true none f h = (_, _, refl, write_uint24-Filled (pos 0) f h)
write_metadata-Filled {p = p} true (some m) f h =
    let f1 = write_uint24-Filled (pos (length m)) f (omega arith) in
    let l = length-append p (be24 (to_u32 (pos (length m)))) in
    let (b', o', e, g) = copy-Filled m f1 (omega (arith, l)) in (b', o', e, rw append_assoc at g)

length-metadata_bytes :
    (flagged : Bool) (m : Option Bytes)
    → length (metadata_bytes flagged m) ≡ (if flagged then 3 + size m else 0)
length-metadata_bytes false m = refl
length-metadata_bytes true m = omega (arith, length-or_empty m)

pub length-payload_bytes :
    (flags : ℕ) (m body : Option Bytes)
    → length (payload_bytes flags m body) ≡ get_payload_length flags m body
unfolding get_payload_length
length-payload_bytes flags m body = omega (
  arith,
  length-append (metadata_bytes (Flags.has_metadata flags) m) (or_empty body),
  length-metadata_bytes (Flags.has_metadata flags) m,
  length-or_empty body,
)

-- The payload ends the buffer.
pub write_payload-Filled :
    {n : ℕ} {p b : Bytes} {o : ℕ} (flags : ℕ) (m body : Option Bytes)
    → Filled n p b o
    → length p + get_payload_length flags m body ≡ n
    → write_payload flags m body b o ≡ ok (p ++ payload_bytes flags m body)
unfolding write_payload get_payload_length
write_payload-Filled {p = p} flags m body f h =
    let flagged = Flags.has_metadata flags in
    let (b', o', e, g) = write_metadata-Filled flagged m f (omega arith) in
    let l = length-append p (metadata_bytes flagged m) in
    rw e (
      finish body g (omega (arith, l, length-metadata_bytes flagged m))
      ∙ ap ok (append_assoc p (metadata_bytes flagged m) (or_empty body)))
