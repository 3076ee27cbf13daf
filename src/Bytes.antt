-- ===== src/Bytes.antt =====
-- packages/rsocket-core/src/Bytes.ts: big-endian reads and writes over a `Uint8Array`.
-- A buffer is the list of its bytes, all below 256, so that `|` of shifted bytes is their sum. A
-- read past the end is JavaScript's `undefined`, which bit operations take for 0. A write returns
-- the new buffer with the offset of the next byte; an indexed write past the end is dropped, and
-- `Uint8Array.prototype.set` past the end throws.
pub mod Filled
pub mod Lengths
pub mod ReadBack
use rsocket.Prelude.{
  ℕ, zero, suc, ◌+◌, ◌-◌, ◌*◌, ◌/◌, ◌%◌, ◌^◌, ◌<◌, min, Option, none, some, List, [], ◌∷◌, ◌++◌,
  length, get_elem?, set, take, drop, replicate, leb, if◌then◌else◌,
}
use rsocket.Prelude.Number.{
  Number, nan, pos, negsuc, add, sub, to_u32, high_half, low_half, signed16, signed32,
}
use rsocket.Prelude.Result.{Result, ok, err, range_error}

abbrev pub Bytes : Type 0
Bytes = List ℕ

abbrev pub IsByte : ℕ → Type 0
IsByte b = b < 256

-- `buffer[offset]`; an index that is no natural number has no element.
abbrev pub byte_at : Bytes → Number → Option ℕ
byte_at buffer nan = none
byte_at buffer (pos i) = get_elem? buffer i
byte_at buffer (negsuc i) = none

-- an operand of a bit operation: `undefined` is 0
abbrev pub bits : Option ℕ → ℕ
bits none = 0
bits (some b) = b

-- an operand of `*` and `+`: `undefined` is NaN
abbrev pub as_number : Option ℕ → Number
as_number none = nan
as_number (some b) = pos b

-- The byte `k` places past an offset, in a bit operation.
abbrev pub bits_at : Bytes → Number → ℕ → ℕ
bits_at buffer offset k = bits (byte_at buffer (add offset (pos k)))

unfoldable pub read_uint8 : Bytes → Number → Number
read_uint8 buffer offset = as_number (byte_at buffer offset)

unfoldable pub read_uint16 : Bytes → Number → ℕ
read_uint16 buffer offset = bits_at buffer offset 0 * 256 + bits_at buffer offset 1

unfoldable pub read_int16 : Bytes → Number → Number
read_int16 buffer offset = signed16 (bits_at buffer offset 0 * 256 + bits_at buffer offset 1)

unfoldable pub read_uint24 : Bytes → Number → ℕ
read_uint24 buffer offset =
    bits_at buffer offset 0 * 2 ^ 16 + bits_at buffer offset 1 * 256 + bits_at buffer offset 2

abbrev pub times : ℕ → Number → Number
times k nan = nan
times k (pos n) = pos (n * k)
times k (negsuc n) = negsuc ((n + 1) * k - 1)

-- The high byte is multiplied, so a missing one makes the value NaN; the others are shifted.
unfoldable pub read_uint32 : Bytes → Number → Number
read_uint32 buffer offset = add (times (2 ^ 24) (as_number (byte_at buffer (add offset (pos 0))))) (
    pos
      (bits_at buffer offset 1 * 2 ^ 16 + bits_at buffer offset 2 * 256 + bits_at buffer offset 3))

unfoldable pub read_int32 : Bytes → Number → Number
read_int32 buffer offset = signed32 (
    bits_at buffer offset 0 * 2 ^ 24
    + bits_at buffer offset 1 * 2 ^ 16
    + bits_at buffer offset 2 * 256
    + bits_at buffer offset 3)

unfoldable pub read_uint64 : Bytes → Number → Number
read_uint64 buffer offset =
    add (times (2 ^ 32) (read_uint32 buffer offset)) (read_uint32 buffer (add offset (pos 4)))

unfoldable pub write_uint8 : Bytes → Number → ℕ → Bytes × ℕ
write_uint8 buffer value offset = (set buffer offset (to_u32 value % 256), offset + 1)

unfoldable pub write_uint16 : Bytes → Number → ℕ → Bytes × ℕ
write_uint16 buffer value offset =
    let b1 = set buffer offset (to_u32 value / 256 % 256) in
    (set b1 (offset + 1) (to_u32 value % 256), offset + 2)

unfoldable pub write_uint24 : Bytes → Number → ℕ → Bytes × ℕ
write_uint24 buffer value offset =
    let b1 = set buffer offset (to_u32 value / 2 ^ 16 % 256) in
    let b2 = set b1 (offset + 1) (to_u32 value / 256 % 256) in
    (set b2 (offset + 2) (to_u32 value % 256), offset + 3)

unfoldable pub write_uint32 : Bytes → Number → ℕ → Bytes × ℕ
write_uint32 buffer value offset =
    let b1 = set buffer offset (to_u32 value / 2 ^ 24 % 256) in
    let b2 = set b1 (offset + 1) (to_u32 value / 2 ^ 16 % 256) in
    let b3 = set b2 (offset + 2) (to_u32 value / 256 % 256) in
    (set b3 (offset + 3) (to_u32 value % 256), offset + 4)

unfoldable pub write_int32 : Bytes → Number → ℕ → Bytes × ℕ
write_int32 buffer value offset = write_uint32 buffer value offset

unfoldable pub write_uint64 : Bytes → Number → ℕ → Bytes × ℕ
write_uint64 buffer value offset =
    let (b, o) = write_uint32 buffer (high_half value) offset in write_uint32 b (low_half value) o

unfoldable pub alloc : ℕ → Bytes
alloc size = replicate size 0

-- `target.set(source, offset)`
abbrev pub overwrite : Bytes → Bytes → ℕ → Bytes
overwrite target source offset =
    take offset target ++ (source ++ drop (offset + length source) target)

unfoldable pub copy : Bytes → Bytes → ℕ → Result (Bytes × ℕ)
copy source target offset =
    if leb (offset + length source) (length target)
    then ok (overwrite target source offset, offset + length source)
    else err range_error

-- The loop of `writeAscii`; a string is the list of its UTF-16 code units.
unfoldable pub write_ascii : Bytes → List ℕ → ℕ → Bytes × ℕ
write_ascii target [] offset = (target, offset)
write_ascii target (c ∷ value) offset = write_ascii (set target offset (c % 256)) value (offset + 1)

abbrev total_length : List Bytes → ℕ
total_length [] = 0
total_length (chunk ∷ chunks) = length chunk + total_length chunks

-- The second loop of `concat`; the target is long enough, so `set` does not throw.
fill : Bytes → ℕ → List Bytes → Bytes
fill result offset [] = result
fill result offset (chunk ∷ chunks) =
    fill (overwrite result chunk offset) (offset + length chunk) chunks

unfoldable pub concat : List Bytes → Bytes
unfolding fill alloc
concat chunks = fill (alloc (total_length chunks)) 0 chunks

-- A bound of `subarray` and `slice`: from the end where negative, 0 where NaN, cut to the length.
abbrev pub relative : ℕ → Number → ℕ
relative n nan = 0
relative n (pos i) = min i n
relative n (negsuc i) = n - (i + 1)

-- `buffer.subarray(start, end)`, and `slice`, which copies the same bytes
unfoldable pub subarray : Bytes → Number → Number → Bytes
subarray buffer start end =
    let n = length buffer in
    take (relative n end - relative n start) (drop (relative n start) buffer)

-- The loop of `readAscii`: a character for each index, NUL where the buffer has no byte.
pub ascii_from : Bytes → Number → ℕ → List ℕ
ascii_from buffer offset zero = []
ascii_from buffer offset (suc n) =
    bits (byte_at buffer offset) ∷ ascii_from buffer (add offset (pos 1)) n

-- how often `for (let i = start; i < end; i++)` runs
abbrev pub rounds : Number → ℕ
rounds nan = 0
rounds (pos n) = n
rounds (negsuc n) = 0

unfoldable pub read_ascii : Bytes → Number → Number → List ℕ
unfolding ascii_from
read_ascii buffer start end = ascii_from buffer start (rounds (sub end start))
