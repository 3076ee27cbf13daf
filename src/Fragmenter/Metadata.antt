-- ===== src/Fragmenter/Metadata.antt =====
-- What the metadata loop of Fragmenter.ts sends, and what it hands over to the data.
use rsocket.Prelude.{
  ℕ, zero, suc, ◌+◌, ◌-◌, ◌≤◌, ◌<◌, min, ◌≡◌, refl, ap, ◌∙◌, Bool, true, false, Option, none, some,
  arith, length, drop, ltb, ◌==◌, bit_or, ◌&&◌, inl, inr, at_most-cases,
}
use rsocket.Prelude.Number.{Number, pos, sub-pos}
use rsocket.Prelude.Generator.{Generator, yield, return, ◌>>=◌}
use rsocket.Bytes.{Bytes, subarray}
use rsocket.Frames.{Frame}
use rsocket.Frames.Flags
use rsocket.Reassembler.Shape.{
  Shape, holder_of, extend, complete, complete-metadata, complete-metadata_parts,
}
use rsocket.Fragmenter.{metadata_loop, payload_frame}
use rsocket.Fragmenter.Receive.{receive, receive-more}
use rsocket.Fragmenter.Loops.{next-min, length-part, part-drop, part-end}

no_last : (a b : Bool) → (a && b && false) ≡ false
no_last true true = refl
no_last true false = refl
no_last false b = refl

-- `g` sends metadata: with the shape, the room and the pending metadata that it leaves, data makes
-- the payload that it makes on `s` with the metadata `m`.
pub record Delivers (s : Shape) (m : Bytes) (g : Generator Frame (Number × Option Bytes))
    : Type 0 where
  pub shape : Shape
  pub room : ℕ
  pub pending : Option Bytes
  pub roomy : 0 < room
  pub same : (b : Bytes) → complete shape (some b) pending ≡ complete s (some b) (some m)
  pub runs :
      (k : Number × Option Bytes → Generator Frame (Unit {0}))
      → receive (holder_of s) (g >>= k) ≡ receive (holder_of shape) (k (pos room, pending))

module _ (id : Number) (size : ℕ) (is_complete : Bool) (source : Bytes) (data_length : ℕ)
    (has_data : 0 < data_length) where
  abbrev loop : ℕ → Number → Number → Option Bytes → Generator Frame (Number × Option Bytes)
  loop fuel position remaining m =
      metadata_loop id size is_complete fuel source data_length position remaining m

  pub metadata_loop-done :
      (fuel : ℕ) (remaining : Number) (m : Option Bytes)
      → 0 < fuel
      → loop fuel (pos (length source)) remaining m ≡ return (remaining, m)
  unfolding metadata_loop
  metadata_loop-done zero remaining m h = absurd (omega arith)
  metadata_loop-done (suc fuel) remaining m h =
      let end : ltb (length source) (length source) ≡ false = ground arith in rw end refl

  metadata-follows :
      Flags.has_follows (bit_or (bit_or Flags.next Flags.metadata) Flags.follows) ≡ true
  unfolding Flags.has_follows
  metadata-follows = refl

  abbrev more_metadata : Bytes → Frame
  more_metadata part =
      payload_frame id size is_complete (bit_or (bit_or Flags.next Flags.metadata) Flags.follows)
        none (some part)

  metadata_loop-sent :
      (fuel p r : ℕ) (m : Option Bytes)
      → 3 < r
      → p + (r - 3) ≤ length source
      → let q = p + (r - 3) in
        loop (suc fuel) (pos p) (pos r) m
        ≡ yield
            (more_metadata (subarray source (pos p) (pos q)))
            (loop fuel (pos q) (pos size) none)
  unfolding metadata_loop
  metadata_loop-sent fuel p r m h inside =
      let n = length source in
      let q = p + (r - 3) in
      let before : ltb p n ≡ true = ground arith in
      let cut : min n q ≡ q = omega arith in
      let part = length-part source p q (omega arith) inside in
      let left : r - 3 - (q - p) ≡ 0 = omega arith in
      let none_left : data_length == 0 ≡ false = ground arith in
      rw
        (
          before,
          sub-pos r 3 (omega arith),
          next-min n p (r - 3),
          cut,
          part,
          sub-pos (r - 3) (q - p) (omega arith),
          left,
          none_left,
        )
        (rw (no_last (q == n) is_complete) refl)

  metadata_loop-kept :
      (fuel p r : ℕ) (m : Option Bytes)
      → p < length source
      → length source < p + (r - 3)
      → loop (suc fuel) (pos p) (pos r) m
        ≡ loop fuel
            (pos (length source))
            (pos (r - 3 - (length source - p)))
            (some (subarray source (pos p) (pos (length source))))
  unfolding metadata_loop
  metadata_loop-kept fuel p r m h beyond =
      let n = length source in
      let q = p + (r - 3) in
      let before : ltb p n ≡ true = ground arith in
      let cut : min n q ≡ n = omega arith in
      let part = length-part source p n (omega arith) (omega arith) in
      let left : (r - 3 - (n - p)) == 0 ≡ false = ground arith in
      let none_left : data_length == 0 ≡ false = ground arith in
      rw
        (
          before,
          sub-pos r 3 (omega arith),
          next-min n p (r - 3),
          cut,
          part,
          sub-pos (r - 3) (n - p) (omega arith),
          left,
          none_left,
        )
        refl

  module _ (fuel p r : ℕ) (m : Option Bytes) (s : Shape) (hr : 3 < r) where
    abbrev first_part : Bytes
    first_part = subarray source (pos p) (pos (p + (r - 3)))

    -- A frame that is sent and leaves metadata.
    sent-Delivers :
        p + (r - 3) ≤ length source
        → Delivers
            (extend s none (some first_part))
            (drop (p + (r - 3)) source)
            (loop fuel (pos (p + (r - 3))) (pos size) none)
        → Delivers s (drop p source) (loop (suc fuel) (pos p) (pos r) m)
    sent-Delivers inside rest =
        let q = p + (r - 3) in
        record {
          shape = rest.shape;
          room = rest.room;
          pending = rest.pending;
          roomy = rest.roomy;
          same = λ b.
              rest.same b
              ∙ complete-metadata_parts s first_part (drop q source) b
              ∙ ap (λ t. complete s (some b) (some t)) (part-drop source p q (omega arith) inside);
          runs = λ k.
              ap (λ g. receive (holder_of s) (g >>= k)) (metadata_loop-sent fuel p r m hr inside)
              ∙ receive-more s _ _ metadata-follows
              ∙ rest.runs k;
        }

    -- The frame that is sent with the last of the metadata.
    last-Delivers :
        0 < size
        → 0 < fuel
        → p + (r - 3) ≡ length source
        → Delivers s (drop p source) (loop (suc fuel) (pos p) (pos r) m)
    last-Delivers roomy more whole = record {
      shape = extend s none (some first_part);
      room = size;
      pending = none;
      roomy = roomy;
      same = λ b.
          complete-metadata s first_part b
          ∙ ap (λ k. complete s (some b) (some (subarray source (pos p) (pos k)))) whole
          ∙ ap (λ t. complete s (some b) (some t)) (part-end source p (omega arith));
      runs = λ k.
          ap (λ g. receive (holder_of s) (g >>= k)) (metadata_loop-sent fuel p r m hr (omega arith))
          ∙ receive-more s _ _ metadata-follows
          ∙ ap (λ g. receive (holder_of (extend s none (some first_part))) (g >>= k))
              (ap (λ i. loop fuel (pos i) (pos size) none) whole
                ∙ metadata_loop-done fuel (pos size) none more);
    }

    -- Metadata that leaves room for data.
    kept-Delivers :
        p < length source
        → length source < p + (r - 3)
        → 0 < fuel
        → Delivers s (drop p source) (loop (suc fuel) (pos p) (pos r) m)
    kept-Delivers h beyond more =
        let n = length source in
        record {
          shape = s;
          room = r - 3 - (n - p);
          pending = some (drop p source);
          roomy = omega arith;
          same = λ b. refl;
          runs = λ k.
              ap (λ g. receive (holder_of s) (g >>= k))
                (metadata_loop-kept fuel p r m h beyond
                  ∙ metadata_loop-done fuel (pos (r - 3 - (n - p)))
                      (some (subarray source (pos p) (pos n))) more
                  ∙ ap (λ t. return (pos (r - 3 - (n - p)), some t))
                      (part-end source p (omega arith)));
        }

  -- From `p` on with room for `r` bytes, three of them for the length.
  pub metadata_loop-Delivers :
      (fuel p r : ℕ) (m : Option Bytes) (s : Shape)
      → 3 < size
      → 3 < r
      → p < length source
      → length source ≤ fuel + p
      → Delivers s (drop p source) (loop (suc fuel) (pos p) (pos r) m)
  metadata_loop-Delivers zero p r m s hs hr h hf = absurd (omega arith)
  metadata_loop-Delivers (suc fuel) p r m s hs hr h hf =
      let n = length source in
      let q = p + (r - 3) in
      elim (at_most-cases q n) [
        | inl inside ↦ elim (at_most-cases n q) [
          | inl whole ↦
              last-Delivers (suc fuel) p r m s hr (omega arith) (omega arith) (omega arith)
          | inr less ↦ sent-Delivers (suc fuel) p r m s hr inside (
              metadata_loop-Delivers fuel q size none
                (extend s none (some (subarray source (pos p) (pos q)))) hs hs less (omega arith))
        ]
        | inr beyond ↦ kept-Delivers (suc fuel) p r m s hr h beyond (omega arith)
      ]
