-- ===== src/Codecs/ReadBack.antt =====
-- What the readers of a frame's parts find in its wire format.
use rsocket.Prelude.{
  ℕ, suc, ◌+◌, ◌*◌, ◌/◌, ◌%◌, ◌^◌, ◌<◌, ◌≡◌, refl, sym, ap, ◌∙◌, Bool, true, false, [], ◌∷◌, ◌++◌,
  Option, none, some, arith, length, length-append, append_assoc, append-nil, if◌then◌else◌, ltb,
}
use rsocket.Prelude.Number.{Number, pos, to_u32}
use rsocket.Bytes.{Bytes, read_uint24, read_int16, read_ascii, subarray}
use rsocket.Bytes.Filled.{be16, be24, be32}
use rsocket.Bytes.ReadBack.{
  IsInt32, read_uint8-at, read_uint16-at, read_int16-at, read_uint24-at, read_int32-at,
  subarray-middle, subarray_end, read_ascii-at,
}
use rsocket.Frames.Flags
use rsocket.Codecs.Common.{TextCodec, size, rest_of, read_metadata, read_payload}
use rsocket.Codecs.Deserialize.{read_token, read_mime_type, dispatch, deserialize_frame}
use rsocket.Codecs.Wire.{or_empty, header, metadata_bytes, payload_bytes, token_bytes, mime_bytes}

-- A payload part with no bytes is read back as none.
abbrev pub present : Bytes → Option Bytes
present [] = none
present (x ∷ b) = some (x ∷ b)

pub rest_of-append : (p q : Bytes) (i : ℕ) → i ≡ length p → rest_of (p ++ q) (pos i) ≡ present q
rest_of-append p [] i e = rw append-nil (ground arith)
rest_of-append p (x ∷ q) i e =
    let l = length-append p (x ∷ q) in
    let more : ltb i (length (p ++ (x ∷ q))) ≡ true = ground arith in
    rw more (ap some (subarray_end p (x ∷ q) i e))

-- Bytes behind their length in 24 bits.
pub sized_bytes :
    (p q b : Bytes) (i : ℕ)
    → i ≡ length p
    → length b < 2 ^ 24
    → let buffer = p ++ (be24 (to_u32 (pos (length b))) ++ (b ++ q)) in
      (read_uint24 buffer (pos i) ≡ length b)
      × (subarray buffer (pos (i + 3)) (pos (i + 3 + length b)) ≡ b)
sized_bytes p q b i e h =
    let w = to_u32 (pos (length b)) in
    let w_lem : w ≡ length b = omega arith in
    let l = length-append p (be24 w) in
    let buffer = p ++ (be24 w ++ (b ++ q)) in
    (
      read_uint24-at p (b ++ q) i e w (omega arith) ∙ w_lem,
      ap (λ (t : Bytes). subarray t (pos (i + 3)) (pos (i + 3 + length b)))
            (sym (append_assoc p (be24 w) (b ++ q)))
          ∙ subarray-middle (p ++ be24 w) b q (i + 3) (i + 3 + length b) (omega arith) refl,
    )

read_metadata-at :
    (p q : Bytes) (i : ℕ) (flagged : Bool) (m : Option Bytes)
    → i ≡ length p
    → size m < 2 ^ 24
    → read_metadata flagged (p ++ (metadata_bytes flagged m ++ q)) (pos i) ≡ (
      if flagged then present (or_empty m) else none,
      pos (i + length (metadata_bytes flagged m)),
    )
unfolding read_metadata
read_metadata-at p q i false m e h =
    let s : i ≡ i + 0 = omega arith in ap (λ (k : ℕ). (none, pos k)) s
read_metadata-at p q i true none e h = rw (sized_bytes p q [] i e (omega arith)).0
read_metadata-at p q i true (some []) e h = rw (sized_bytes p q [] i e (omega arith)).0
read_metadata-at p q i true (some (x ∷ b)) e h =
    let (n, found) = sized_bytes p q (x ∷ b) i e h in
    let more : ltb 0 (suc (length b)) ≡ true = ground arith in
    let s : i + 3 + suc (length b) ≡ i + suc (suc (suc (suc (length b)))) = omega arith in
    rw (n, found) (rw more (ap (λ (k : ℕ). (some (x ∷ b), pos k)) s))

-- `readPayload` on what `writePayload` wrote at the end of a buffer.
pub read_payload-at :
    (p : Bytes) (i flags : ℕ) (m body : Option Bytes)
    → i ≡ length p
    → size m < 2 ^ 24
    → read_payload flags (p ++ payload_bytes flags m body) (pos i)
      ≡ (if Flags.has_metadata flags then present (or_empty m) else none, present (or_empty body))
unfolding read_payload
read_payload-at p i flags m body e h =
    let flagged = Flags.has_metadata flags in
    let mb = metadata_bytes flagged m in
    let l = length-append p mb in
    let found = read_metadata-at p (or_empty body) i flagged m e h in
    let rest =
      ap (λ (t : Bytes). rest_of t (pos (i + length mb))) (sym (append_assoc p mb (or_empty body)))
      ∙ rest_of-append (p ++ mb) (or_empty body) (i + length mb) (omega arith) in
    ap (λ r. (r.0, rest_of (p ++ (mb ++ or_empty body)) r.1)) found
    ∙ ap (λ r. (if flagged then present (or_empty m) else none, r)) rest

pub read_mime_type-at :
    (p s q : Bytes) (i : ℕ)
    → i ≡ length p
    → length s < 256
    → read_mime_type (p ++ (mime_bytes s ++ q)) (pos i) ≡ (s, pos (i + length (mime_bytes s)))
unfolding read_mime_type
read_mime_type-at p s q i e h =
    let w = to_u32 (pos (length s)) % 256 in
    let w_lem : w ≡ length s = omega arith in
    let l = length-append p (w ∷ []) in
    let n = read_uint8-at p (s ++ q) i e w ∙ ap pos w_lem in
    let chars =
      ap (λ (t : Bytes). read_ascii t (pos (i + 1)) (pos (i + 1 + length s)))
        (sym (append_assoc p (w ∷ []) (s ++ q)))
      ∙ read_ascii-at (p ++ (w ∷ [])) s q (i + 1) (i + 1 + length s) (omega arith) refl in
    let k : i + 1 + length s ≡ i + suc (length s) = omega arith in
    rw n (rw chars (ap (λ (j : ℕ). (s, pos j)) k))

-- Bytes behind their length in 16 bits, which the reader takes for a signed number.
pub sized_token :
    (p q b : Bytes) (i : ℕ)
    → i ≡ length p
    → length b < 2 ^ 15
    → let buffer = p ++ (be16 (to_u32 (pos (length b))) ++ (b ++ q)) in
      (read_int16 buffer (pos i) ≡ pos (length b))
      × (subarray buffer (pos (i + 2)) (pos (i + 2 + length b)) ≡ b)
sized_token p q b i e h =
    let w = to_u32 (pos (length b)) in
    let w_lem : w ≡ length b = omega arith in
    let l = length-append p (be16 w) in
    (
      read_int16-at p (b ++ q) i e w (omega arith) ∙ ap pos w_lem,
      ap (λ (t : Bytes). subarray t (pos (i + 2)) (pos (i + 2 + length b)))
            (sym (append_assoc p (be16 w) (b ++ q)))
          ∙ subarray-middle (p ++ be16 w) b q (i + 2) (i + 2 + length b) (omega arith) refl,
    )

pub read_token-at :
    (p q : Bytes) (i : ℕ) (enabled : Bool) (t : Option Bytes)
    → i ≡ length p
    → size t < 2 ^ 15
    → read_token enabled (p ++ (token_bytes enabled t ++ q)) (pos i)
      ≡ (if enabled then some (or_empty t) else none, pos (i + length (token_bytes enabled t)))
unfolding read_token
read_token-at p q i false t e h = let s : i ≡ i + 0 = omega arith in ap (λ (k : ℕ). (none, pos k)) s
read_token-at p q i true none e h =
    let (n, found) = sized_token p q [] i e (omega arith) in
    let s : i + 2 + 0 ≡ i + 2 = omega arith in rw (n, found) (ap (λ (k : ℕ). (some [], pos k)) s)
read_token-at p q i true (some b) e h =
    let (n, found) = sized_token p q b i e h in
    let s : i + 2 + length b ≡ i + suc (suc (length b)) = omega arith in
    rw (n, found) (ap (λ (k : ℕ). (some b, pos k)) s)

-- The three parts of a header.
pub deserialize_frame-header :
    (text : TextCodec) (type flags : ℕ) (id : Number) (rest : Bytes)
    → type < 64
    → flags < 2 ^ 10
    → IsInt32 id
    → deserialize_frame text (header type flags id ++ rest)
      ≡ dispatch text type (header type flags id ++ rest) id flags
unfolding deserialize_frame
deserialize_frame-header text type flags id rest ht hf hi =
    let w = to_u32 (pos (type * 2 ^ 10 + flags % 2 ^ 10)) in
    let word = read_uint16-at (be32 (to_u32 id)) rest 4 refl w (omega arith) in
    let stream = read_int32-at [] (be16 w ++ rest) 0 refl id hi in
    let high : w / 2 ^ 10 ≡ type = omega arith in
    let low : w % 2 ^ 10 ≡ flags = omega arith in rw (word, stream) (rw (high, low))
