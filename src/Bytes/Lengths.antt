-- ===== src/Bytes/Lengths.antt =====
-- A write keeps the length of its buffer, and moves the offset by what it writes.
use rsocket.Prelude.{
  ℕ, ◌+◌, ◌≤◌, ◌<◌, ◌%◌, ◌≡◌, refl, ◌∙◌, List, [], ◌∷◌, ◌++◌, arith, length, set, take, drop, leb,
  Bool-cases, ◌⊎◌, inl, inr, length-set, length-append, length-take, length-drop,
}
use rsocket.Prelude.Number.{Number, high_half, low_half}
use rsocket.Prelude.Result.{ok, err, range_error}
use rsocket.Bytes.{
  Bytes, write_uint8, write_uint16, write_uint24, write_uint32, write_int32, write_uint64, copy,
  overwrite, write_ascii,
}

module _ (b : Bytes) (v : Number) (o : ℕ) where
  pub length-write_uint8 : length (write_uint8 b v o).0 ≡ length b
  unfolding write_uint8
  length-write_uint8 = length-set b o _

  pub length-write_uint16 : length (write_uint16 b v o).0 ≡ length b
  unfolding write_uint16
  length-write_uint16 = simp length-set

  pub length-write_uint24 : length (write_uint24 b v o).0 ≡ length b
  unfolding write_uint24
  length-write_uint24 = simp length-set

  pub length-write_uint32 : length (write_uint32 b v o).0 ≡ length b
  unfolding write_uint32
  length-write_uint32 = simp length-set

pub offset-write_uint8 : (b : Bytes) (v : Number) (o : ℕ) → (write_uint8 b v o).1 ≡ o + 1
unfolding write_uint8
offset-write_uint8 b v o = refl

pub offset-write_uint16 : (b : Bytes) (v : Number) (o : ℕ) → (write_uint16 b v o).1 ≡ o + 2
unfolding write_uint16
offset-write_uint16 b v o = refl

pub offset-write_uint24 : (b : Bytes) (v : Number) (o : ℕ) → (write_uint24 b v o).1 ≡ o + 3
unfolding write_uint24
offset-write_uint24 b v o = refl

pub length-write_int32 : (b : Bytes) (v : Number) (o : ℕ) → length (write_int32 b v o).0 ≡ length b
unfolding write_int32
length-write_int32 = length-write_uint32

pub length-write_uint64 :
    (b : Bytes) (v : Number) (o : ℕ) → length (write_uint64 b v o).0 ≡ length b
unfolding write_uint64
length-write_uint64 b v o =
    let (b', o') = write_uint32 b (high_half v) o in
    length-write_uint32 b' (low_half v) o' ∙ length-write_uint32 b (high_half v) o

pub length-write_ascii : (s : List ℕ) (b : Bytes) (o : ℕ) → length (write_ascii b s o).0 ≡ length b
unfolding write_ascii
length-write_ascii [] b o = refl
length-write_ascii (c ∷ s) b o =
    length-write_ascii s (set b o (c % 256)) (o + 1) ∙ length-set b o (c % 256)

pub offset-write_ascii : (s : List ℕ) (b : Bytes) (o : ℕ) → (write_ascii b s o).1 ≡ o + length s
unfolding write_ascii
offset-write_ascii [] b o = omega arith
offset-write_ascii (c ∷ s) b o = omega (arith, offset-write_ascii s (set b o (c % 256)) (o + 1))

-- A copy that does not throw fits.
pub copy-ok :
    (s b : Bytes) (o : ℕ) {r : Bytes × ℕ}
    → copy s b o ≡ ok r
    → (length r.0 ≡ length b) × (r.1 ≡ o + length s) × (o + length s ≤ length b)
unfolding copy
copy-ok s b o {r} e = elim (Bool-cases (leb (o + length s) (length b))) [
  | inl fits ↦ ground (
    arith,
    length-append (take o b) (s ++ drop (o + length s) b),
    length-append s (drop (o + length s) b),
    length-take o b,
    length-drop (o + length s) b,
  )
  | inr not ↦ ground arith
]

pub copy-err : (s b : Bytes) (o : ℕ) → length b < o + length s → copy s b o ≡ err range_error
unfolding copy
copy-err s b o h = ground arith

pub copy-cases :
    (s b : Bytes) (o : ℕ) → (copy s b o ≡ err range_error) ⊎ ((r : Bytes × ℕ) × (copy s b o ≡ ok r))
unfolding copy
copy-cases s b o = elim (Bool-cases (leb (o + length s) (length b))) [
  | inl fits ↦ inr ((overwrite b s o, o + length s), rw fits)
  | inr not ↦ inl (rw not)
]
