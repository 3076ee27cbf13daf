-- ===== src/Fragmenter/Unfinished.antt =====
-- A payload that has metadata only, and does not complete: every frame announces another.
use rsocket.Prelude.{
  ℕ, zero, suc, ◌+◌, ◌-◌, ◌≤◌, ◌<◌, min, ◌≡◌, refl, Bool, true, false, ◌&&◌, Option, none, some, [],
  ◌∷◌, arith, length, ltb, ◌==◌, bit_or, inl, inr, at_most-cases, or_true, subst, sym,
}
use rsocket.Prelude.Number.{Number, pos, add, min_number, sub-pos}
use rsocket.Prelude.Generator.{Generator, yield, return, out_of_fuel, ◌>>=◌, bind_assoc}
use rsocket.Bytes.{Bytes, subarray}
use rsocket.Frames.{Frame}
use rsocket.Frames.Flags
use rsocket.Fragmenter.{
  Kind, payload_kind, fnf_kind, response_kind, request_frame, fragment, fragments, metadata_loop,
  data_loop, first_data, metadata_part, metadata_flag,
}
use rsocket.Fragmenter.Receive.{part_of}
use rsocket.Fragmenter.Loops.{next-min, length-part}
use rsocket.Fragmenter.First.{first_metadata-full, first_metadata-kept}

-- Every frame says FOLLOWS, and the generator ends.
abbrev pub AllFollow {ℓ} : {A : Type ℓ} → Generator Frame A → Type 0
AllFollow (yield frame g) = (Flags.has_follows (part_of frame).flags ≡ true) × AllFollow g
AllFollow (return a) = Unit
AllFollow out_of_fuel = ⊥

not_complete : (a : Bool) → (a && false && true) ≡ false
not_complete true = refl
not_complete false = refl

metadata_loop-AllFollow :
    (id : Number) (size : ℕ) (source : Bytes)
    → 3 < size
    → (k : Number × Option Bytes → Generator Frame (Unit {0}))
    → ((r : ℕ) (m : Option Bytes) → AllFollow (k (pos r, m)))
    → (fuel p r : ℕ) (m : Option Bytes) → (p < length source → 3 < r)
    → p ≤ length source
    → length source < fuel + p
    → AllFollow (metadata_loop id size false fuel source 0 (pos p) (pos r) m >>= k)
unfolding metadata_loop Flags.has_follows
metadata_loop-AllFollow id size source hs k rest zero p r m roomy h hf = absurd (omega arith)
metadata_loop-AllFollow id size source hs k rest (suc fuel) p r m roomy h hf =
    let n = length source in
    let q = min n (p + (r - 3)) in
    elim (at_most-cases n p) [
      | inl end ↦ let past : ltb p n ≡ false = ground arith in rw past (rest r m)
      | inr more ↦
          let hr = roomy more in
          let before : ltb p n ≡ true = ground arith in
          rw
            (
              before,
              sub-pos r 3 (omega arith),
              next-min n p (r - 3),
              length-part source p q (omega arith) (omega arith),
              sub-pos (r - 3) (q - p) (omega arith),
              or_true ((r - 3 - (q - p)) == 0),
              not_complete (q == n),
            )
            (
              refl,
              metadata_loop-AllFollow id size source hs k rest fuel q size none (λ less. hs)
                  (omega arith) (omega arith),
            )
    ]

-- Without data the loop for data sends nothing.
data_loop-none :
    (id : Number) (size k : ℕ) (r : Number) (m : Option Bytes)
    → AllFollow (data_loop id size false 1 [] (min_number (pos 0) (add (pos 0) (pos k))) r m)
unfolding data_loop
data_loop-none id size k r m =
    let start : min 0 (0 + k) ≡ 0 = omega arith in rw (next-min 0 0 k, start) tt

data_loop-empty :
    (id : Number) (size r : ℕ) (m : Option Bytes)
    → AllFollow (data_loop id size false 1 [] (pos 0) (pos r) m)
unfolding data_loop
data_loop-empty id size r m = tt

flag-follows :
    (m : Option Bytes) → Flags.has_follows (bit_or Flags.follows (metadata_flag m)) ≡ true
unfolding Flags.has_follows
flag-follows none = refl
flag-follows (some m) = refl

payload-AllFollow :
    (id : Number) (x : ℕ) (xs : Bytes) (size : ℕ) (first : ℕ → Option Bytes → Option Bytes → Frame)
    → 3 < size
    → AllFollow
        (fragments id size false first 0 false (record { body = none; metadata = some (x ∷ xs) }))
unfolding fragments metadata_part data_loop
payload-AllFollow id x xs size first h =
    let source = x ∷ xs in
    subst AllFollow
      (sym (
        bind_assoc
          (metadata_loop id size false (suc (length source)) source 0 (pos 0) (pos size) none) _ _))
      (metadata_loop-AllFollow id size source h _ (λ r m. tt) (suc (length source)) 0 size none
        (λ less. h) (omega arith) (omega arith))

request-AllFollow :
    (id : Number) (x : ℕ) (xs : Bytes) (size : ℕ) (first : ℕ → Option Bytes → Option Bytes → Frame)
    → ((flags : ℕ) (body metadata : Option Bytes)
        → part_of (first flags body metadata)
          ≡ record { flags = flags; body = body; metadata = metadata })
    → 3 < size
    → AllFollow
        (fragments id size false first 0 true (record { body = none; metadata = some (x ∷ xs) }))
unfolding fragments metadata_part first_data
request-AllFollow id x xs size first parts h =
    let source = x ∷ xs in
    let n = length source in
    let room = size - 3 in
    let loop : ℕ → ℕ → Option Bytes → Generator Frame (Number × Option Bytes) =
      λ p r m. metadata_loop id size false (suc n) source 0 (pos p) (pos r) m in
    elim (at_most-cases room n) [
      | inl full ↦
          rw
            (
              first_metadata-full id size false first 0 parts h source full,
              parts (bit_or Flags.follows Flags.metadata) none
                  (some (subarray source (pos 0) (pos room))),
            )
            (
              flag-follows (some []),
              subst AllFollow (sym (bind_assoc (loop room size none) _ _)) (
                  metadata_loop-AllFollow id size source h _ (λ r m. data_loop-empty id size r m)
                    (suc n) room size none (λ less. h) full (omega arith)),
            )
      | inr kept ↦ rw (first_metadata-kept id size false first 0 parts h source kept) (
          subst AllFollow (sym (bind_assoc (loop n (room - n) (some source)) _ _)) (
            metadata_loop-AllFollow id size source h _
              (λ r m. (
                rw (parts (bit_or Flags.follows (metadata_flag m)) none m) (flag-follows m),
                rw (sub-pos r 0 (omega arith)) (data_loop-none id size (r - 0) (pos size) none),
              ))
              (suc n) n (room - n) (some source) (λ less. absurd (omega arith)) (omega arith)
              (omega arith)))
    ]

-- Where metadata comes without data and does not complete its stream, and a frame holds more than
-- the length of metadata, every frame of `fragment` says that another one follows.
pub fragment-AllFollow :
    (id : Number) (x : ℕ) (xs : Bytes) (size : ℕ) (kind : Kind)
    → 3 < size
    → AllFollow (fragment id (record { body = none; metadata = some (x ∷ xs) }) size kind false)
unfolding fragment
fragment-AllFollow id x xs size payload_kind h =
    payload-AllFollow id x xs size (request_frame payload_kind id) h
fragment-AllFollow id x xs size fnf_kind h =
    request-AllFollow id x xs size (request_frame fnf_kind id) (λ flags body metadata. refl) h
fragment-AllFollow id x xs size response_kind h =
    request-AllFollow id x xs size (request_frame response_kind id) (λ flags body metadata. refl) h
