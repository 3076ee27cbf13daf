-- ===== src/Fragmenter/Flagged.antt =====
-- The flags of the frames that carry a payload which is no request.
use rsocket.Prelude.{
  ℕ, zero, suc, ◌≡◌, refl, sym, subst, Bool, true, false, ◌&&◌, ◌||◌, Option, none, some, [], ◌∷◌,
  bit_or, length, ◌==◌, if◌then◌else◌, Bool-cases, ◌⊎◌, inl, inr,
}
use rsocket.Prelude.Number.{Number, pos, add, sub, lt, eq, min_number}
use rsocket.Prelude.Generator.{Generator, ◌>>=◌, bind_assoc, Every}
use rsocket.Bytes.{Bytes, subarray}
use rsocket.Frames.{Frame, PayloadFrame, payload}
use rsocket.Frames.Flags
use rsocket.Reassembler.{Payload}
use rsocket.Fragmenter.{
  payload_kind, fragment, fragments, metadata_loop, data_loop, metadata_part, metadata_flag,
  byte_length,
}

-- NEXT is set, and COMPLETE not together with FOLLOWS.
abbrev pub IsFlagged : ℕ → Type 0
IsFlagged flags =
    (Flags.has_next flags ≡ true)
    × ((Flags.has_follows flags ≡ false) ⊎ (Flags.has_complete flags ≡ false))

-- A PAYLOAD that meets `Q`
abbrev pub OfPayload : (PayloadFrame → Type 0) → Frame → Type 0
OfPayload Q (payload f) = Q f
OfPayload Q _ = ⊥

abbrev pub IsFragment : Frame → Type 0
IsFragment = OfPayload (λ f. IsFlagged f.flags)

abbrev pub AllFlagged {ℓ} : {A : Type ℓ} → Generator Frame A → Type 0
AllFlagged g = Every IsFragment g

metadata-IsFlagged :
    (last : Bool)
    → IsFlagged
        (bit_or (bit_or Flags.next Flags.metadata) (if last then Flags.complete else Flags.follows))
unfolding Flags.has_next Flags.has_follows Flags.has_complete
metadata-IsFlagged true = (refl, inl refl)
metadata-IsFlagged false = (refl, inr refl)

last-IsFlagged :
    (end : Bool) (m : Option Bytes)
    → IsFlagged (
        bit_or
          (bit_or (if end then Flags.complete else Flags.no_flags) Flags.next)
          (metadata_flag m))
unfolding Flags.has_next Flags.has_follows Flags.has_complete
last-IsFlagged true none = (refl, inl refl)
last-IsFlagged true (some m) = (refl, inl refl)
last-IsFlagged false none = (refl, inl refl)
last-IsFlagged false (some m) = (refl, inl refl)

more-IsFlagged :
    (m : Option Bytes) → IsFlagged (bit_or (bit_or Flags.follows Flags.next) (metadata_flag m))
unfolding Flags.has_next Flags.has_follows Flags.has_complete
more-IsFlagged none = (refl, inr refl)
more-IsFlagged (some m) = (refl, inr refl)

module _ (id : Number) (size : ℕ) (is_complete : Bool) where
  pub data_loop-AllFlagged :
      (fuel : ℕ) (b : Bytes) (p r : Number) (m : Option Bytes)
      → AllFlagged (data_loop id size is_complete fuel b p r m)
  unfolding data_loop
  data_loop-AllFlagged zero b p r m = tt
  data_loop-AllFlagged (suc fuel) b p r m =
      let n = pos (length b) in
      let next = min_number n (add p r) in
      let rest = data_loop-AllFlagged fuel b next (pos size) none in
      elim (Bool-cases (lt p n)) [
        | inr stop ↦ rw stop tt
        | inl go ↦ elim (Bool-cases (eq next n)) [
          | inl last ↦ rw (go, last) (last-IsFlagged is_complete m, rest)
          | inr more ↦ rw (go, more) (more-IsFlagged m, rest)
        ]
      ]

  pub metadata_loop-AllFlagged :
      (source : Bytes) (data_length : ℕ) (k : Number × Option Bytes → Generator Frame (Unit {0}))
      → ((r : Number) (m : Option Bytes) → AllFlagged (k (r, m)))
      → (fuel : ℕ) (p r : Number) (m : Option Bytes)
      → AllFlagged (metadata_loop id size is_complete fuel source data_length p r m >>= k)
  unfolding metadata_loop
  metadata_loop-AllFlagged source data_length k rest zero p r m = tt
  metadata_loop-AllFlagged source data_length k rest (suc fuel) p r m =
      let n = pos (length source) in
      let room = sub r (pos 3) in
      let next = min_number n (add p room) in
      let part = subarray source p next in
      let left = sub room (pos (length part)) in
      let sent = eq left (pos 0) || data_length == 0 in
      let more = metadata_loop-AllFlagged source data_length k rest fuel next in
      elim (Bool-cases (lt p n)) [
        | inr stop ↦ rw stop (rest r m)
        | inl go ↦ elim (Bool-cases sent) [
          | inl out ↦
              rw (go, out)
                (
                  metadata-IsFlagged (eq next n && is_complete && data_length == 0),
                  more (pos size) none,
                )
          | inr kept ↦ rw (go, kept) (more left (some part))
        ]
      ]

parts-AllFlagged :
    (id : Number) (body metadata : Option Bytes) (size : ℕ) (is_complete : Bool)
    → AllFlagged
        (fragment id (record { body = body; metadata = metadata }) size payload_kind is_complete)
unfolding fragment fragments metadata_part
parts-AllFlagged id body none size is_complete = data_loop-AllFlagged id size is_complete _ _ _ _ _
parts-AllFlagged id body (some []) size is_complete =
    data_loop-AllFlagged id size is_complete _ _ _ _ _
parts-AllFlagged id body (some (x ∷ xs)) size is_complete =
    let source = x ∷ xs in
    let n = byte_length body in
    let loop =
      metadata_loop id size is_complete (suc (length source)) source n (pos 0) (pos size) none in
    subst AllFlagged (sym (bind_assoc loop _ _)) (
      metadata_loop-AllFlagged id size is_complete source n _
        (λ r m. data_loop-AllFlagged id size is_complete _ _ _ _ _) (suc (length source)) (pos 0)
        (pos size) none)

-- Every frame that `fragment` makes of a payload that is no request is a PAYLOAD with NEXT, and none
-- has COMPLETE together with FOLLOWS.
pub fragment-AllFlagged :
    (id : Number) (content : Payload) (size : ℕ) (is_complete : Bool)
    → AllFlagged (fragment id content size payload_kind is_complete)
fragment-AllFlagged id content size is_complete =
    parts-AllFlagged id content.body content.metadata size is_complete
