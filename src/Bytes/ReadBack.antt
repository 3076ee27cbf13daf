-- ===== src/Bytes/ReadBack.antt =====
-- What a read finds behind a prefix: the number or the bytes that a write left there.
use rsocket.Prelude.{
  ℕ, zero, suc, ◌+◌, ◌-◌, ◌*◌, ◌/◌, ◌%◌, ◌^◌, ◌<◌, min, ◌≡◌, refl, sym, ap, ap₂, ◌∙◌, [], ◌∷◌, ◌++◌,
  arith, length, get_elem?, take, drop, length-append, take-append, drop-append, append_assoc,
  append-nil,
}
use rsocket.Prelude.Number.{Number, nan, pos, negsuc, sub, to_u32, signed32}
use rsocket.Bytes.{
  Bytes, bits, as_number, read_uint8, read_uint16, read_int16, read_uint24, read_uint32, read_int32,
  read_uint64, read_ascii, ascii_from, subarray, rounds,
}
use rsocket.Bytes.Filled.{be16, be24, be32, be64}

-- A number that the reader of a field gives back.
abbrev pub IsUint : ℕ → Number → Type 0
IsUint w nan = ⊥
IsUint w (pos n) = n < 2 ^ w
IsUint w (negsuc n) = ⊥

abbrev pub IsInt32 : Number → Type 0
IsInt32 nan = ⊥
IsInt32 (pos n) = n < 2 ^ 31
IsInt32 (negsuc n) = n < 2 ^ 31

at-append : (p q : Bytes) (i k : ℕ) → i ≡ length p → get_elem? (p ++ q) (i + k) ≡ get_elem? q k
at-append [] q i k e = let s : i + k ≡ k = omega arith in ap (get_elem? q) s
at-append (x ∷ p) q i k e =
    let s : i + k ≡ suc (length p + k) = omega arith in rw s (at-append p q (length p) k refl)

to_u32-lt : (v : Number) → to_u32 v < 2 ^ 32
to_u32-lt nan = omega arith
to_u32-lt (pos n) = omega arith
to_u32-lt (negsuc n) = omega arith

signed32-to_u32 : (v : Number) → IsInt32 v → signed32 (to_u32 v) ≡ v
signed32-to_u32 nan h = absurd h
signed32-to_u32 (pos n) h = ground arith
signed32-to_u32 (negsuc n) h = ground arith

-- The bytes of a word add up to it.
word16 : (w : ℕ) → w < 2 ^ 16 → w / 256 % 256 * 256 + w % 256 ≡ w
word16 w h = omega arith

word24 : (w : ℕ) → w < 2 ^ 24 → w / 2 ^ 16 % 256 * 2 ^ 16 + w / 256 % 256 * 256 + w % 256 ≡ w
word24 w h = omega arith

word32 :
    (w : ℕ)
    → w < 2 ^ 32
    → w / 2 ^ 24 % 256 * 2 ^ 24 + w / 2 ^ 16 % 256 * 2 ^ 16 + w / 256 % 256 * 256 + w % 256 ≡ w
word32 w h = omega arith

module _ (p q : Bytes) (i : ℕ) (e : i ≡ length p) where
  pub read_uint8-at : (x : ℕ) → read_uint8 (p ++ (x ∷ q)) (pos i) ≡ pos x
  unfolding read_uint8
  read_uint8-at x =
      let s : i ≡ i + 0 = omega arith in
      ap as_number (ap (get_elem? (p ++ (x ∷ q))) s ∙ at-append p (x ∷ q) i 0 e)

  pub read_uint16-at : (v : ℕ) → v < 2 ^ 16 → read_uint16 (p ++ (be16 v ++ q)) (pos i) ≡ v
  unfolding read_uint16
  read_uint16-at v h =
      let r = be16 v ++ q in rw (at-append p r i 0 e, at-append p r i 1 e) (word16 v h)

  -- The reader is signed: only lengths below 2 ^ 15 come back.
  pub read_int16-at : (v : ℕ) → v < 2 ^ 15 → read_int16 (p ++ (be16 v ++ q)) (pos i) ≡ pos v
  unfolding read_int16
  read_int16-at v h =
      let r = be16 v ++ q in
      rw (at-append p r i 0 e, at-append p r i 1 e, word16 v (omega arith)) (ground arith)

  pub read_uint24-at : (v : ℕ) → v < 2 ^ 24 → read_uint24 (p ++ (be24 v ++ q)) (pos i) ≡ v
  unfolding read_uint24
  read_uint24-at v h =
      let r = be24 v ++ q in
      rw (at-append p r i 0 e, at-append p r i 1 e, at-append p r i 2 e) (word24 v h)

  pub read_int32-at :
      (v : Number) → IsInt32 v → read_int32 (p ++ (be32 (to_u32 v) ++ q)) (pos i) ≡ v
  unfolding read_int32
  read_int32-at v h =
      let r = be32 (to_u32 v) ++ q in
      rw (at-append p r i 0 e, at-append p r i 1 e, at-append p r i 2 e, at-append p r i 3 e)
        (ap signed32 (word32 (to_u32 v) (to_u32-lt v)) ∙ signed32-to_u32 v h)

  pub read_uint32-at : (w : ℕ) → w < 2 ^ 32 → read_uint32 (p ++ (be32 w ++ q)) (pos i) ≡ pos w
  unfolding read_uint32
  read_uint32-at w h =
      let r = be32 w ++ q in
      rw (at-append p r i 0 e, at-append p r i 1 e, at-append p r i 2 e, at-append p r i 3 e)
        (ap pos (omega arith))

-- A length is read at its offset, whatever stands before it.
pub read_uint24-append :
    (p t : Bytes) (i : ℕ) → i ≡ length p → read_uint24 (p ++ t) (pos i) ≡ read_uint24 t (pos 0)
unfolding read_uint24
read_uint24-append p t i e = rw (at-append p t i 0 e, at-append p t i 1 e, at-append p t i 2 e) refl

pub read_uint64-at :
    (p q : Bytes) (i : ℕ)
    → i ≡ length p
    → (v : Number) → IsUint 53 v
    → read_uint64 (p ++ (be64 v ++ q)) (pos i) ≡ v
unfolding read_uint64
read_uint64-at p q i e nan h = absurd h
read_uint64-at p q i e (pos n) h =
    let hi = n / 2 ^ 32 % 2 ^ 32 in
    let lo = n % 2 ^ 32 % 2 ^ 32 in
    let high = read_uint32-at p (be32 lo ++ q) i e hi (omega arith) in
    let l = length-append p (be32 hi) in
    let low =
      ap (λ (t : Bytes). read_uint32 t (pos (i + 4)))
        (sym (append_assoc p (be32 hi) (be32 lo ++ q)))
      ∙ read_uint32-at (p ++ be32 hi) q (i + 4) (omega arith) lo (omega arith) in
    rw (high, low) (ap pos (omega arith))
read_uint64-at p q i e (negsuc n) h = absurd h

-- Fields of 32 and 16 bits.
pub read_uint32-field :
    (p q : Bytes) (i : ℕ)
    → i ≡ length p
    → (v : Number) → IsUint 32 v
    → read_uint32 (p ++ (be32 (to_u32 v) ++ q)) (pos i) ≡ v
read_uint32-field p q i e nan h = absurd h
read_uint32-field p q i e (pos n) h =
    read_uint32-at p q i e (n % 2 ^ 32) (omega arith) ∙ ap pos (omega arith)
read_uint32-field p q i e (negsuc n) h = absurd h

pub read_uint16-field :
    (p q : Bytes) (i : ℕ)
    → i ≡ length p
    → (v : Number) → IsUint 16 v
    → pos (read_uint16 (p ++ (be16 (to_u32 v) ++ q)) (pos i)) ≡ v
read_uint16-field p q i e nan h = absurd h
read_uint16-field p q i e (pos n) h =
    ap pos (read_uint16-at p q i e (n % 2 ^ 32) (omega arith) ∙ omega arith)
read_uint16-field p q i e (negsuc n) h = absurd h

-- A range of bytes behind a prefix.
pub subarray-middle :
    (p q r : Bytes) (i j : ℕ)
    → i ≡ length p
    → j ≡ i + length q
    → subarray (p ++ (q ++ r)) (pos i) (pos j) ≡ q
unfolding subarray
subarray-middle p q r i j e e' =
    let all = p ++ (q ++ r) in
    let l1 = length-append p (q ++ r) in
    let l2 = length-append q r in
    let d : min i (length all) ≡ length p = omega arith in
    let t : min j (length all) - min i (length all) ≡ length q = omega arith in
    ap (λ (k : ℕ). take k (drop (min i (length all)) all)) t
    ∙ ap (take (length q)) (drop-append (min i (length all)) p (q ++ r) d)
    ∙ take-append (length q) q r refl

pub subarray_end :
    (p q : Bytes) (i : ℕ) → i ≡ length p → subarray (p ++ q) (pos i) (pos (length (p ++ q))) ≡ q
subarray_end p q i e =
    let all : q ≡ q ++ [] = sym (append-nil q) in
    ap (λ (t : Bytes). subarray (p ++ t) (pos i) (pos (length (p ++ q)))) all
    ∙ subarray-middle p q [] i (length (p ++ q)) e (omega (arith, length-append p q))

ascii_from-append :
    (p s q : Bytes) (i n : ℕ)
    → i ≡ length p
    → n ≡ length s
    → ascii_from (p ++ (s ++ q)) (pos i) n ≡ s
unfolding ascii_from
ascii_from-append p [] q i zero e l = refl
ascii_from-append p [] q i (suc n) e l = absurd (omega arith)
ascii_from-append p (x ∷ s) q i zero e l = absurd (omega arith)
ascii_from-append p (x ∷ s) q i (suc n) e l =
    let here : i ≡ i + 0 = omega arith in
    let first = ap (get_elem? (p ++ (x ∷ (s ++ q)))) here ∙ at-append p (x ∷ (s ++ q)) i 0 e in
    let shift = sym (append_assoc p (x ∷ []) (s ++ q)) in
    let l1 = length-append p (x ∷ []) in
    ap₂ ◌∷◌ (ap bits first) (
      ap (λ (t : Bytes). ascii_from t (pos (i + 1)) n) shift
      ∙ ascii_from-append (p ++ (x ∷ [])) s q (i + 1) n (omega arith) (omega arith))

pub read_ascii-at :
    (p s q : Bytes) (i j : ℕ)
    → i ≡ length p
    → j ≡ i + length s
    → read_ascii (p ++ (s ++ q)) (pos i) (pos j) ≡ s
unfolding read_ascii
read_ascii-at p s q i j e l =
    let n : rounds (sub (pos j) (pos i)) ≡ length s = ground arith in
    rw n (ascii_from-append p s q i (length s) e refl)
