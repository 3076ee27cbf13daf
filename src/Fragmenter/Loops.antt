-- ===== src/Fragmenter/Loops.antt =====
-- What the loops of Fragmenter.ts send, as the other end receives it.
use rsocket.Prelude.{
  ℕ, zero, suc, ◌+◌, ◌-◌, ◌≤◌, ◌<◌, min, ◌≡◌, refl, sym, ap, ◌∙◌, Bool, true, false, Option, none,
  some, ◌++◌, arith, length, take, drop, ltb, bit_or, ◌==◌, if◌then◌else◌, Bool-cases, inl, inr,
  length-take, length-drop, take-append-drop, drop_all, drop-add, append-nil,
}
use rsocket.Prelude.Number.{Number, pos, add, min_number}
use rsocket.Prelude.Generator.{return}
use rsocket.Bytes.{Bytes, subarray}
use rsocket.Frames.Flags
use rsocket.Reassembler.Shape.{Shape, holder_of, extend, complete, complete-body}
use rsocket.Fragmenter.{data_loop, metadata_flag}
use rsocket.Fragmenter.Receive.{receive, receive-more, receive-last}

-- A cut at `q` between `p` and the end.
pub next-min : (n p r : ℕ) → min_number (pos n) (add (pos p) (pos r)) ≡ pos (min n (p + r))
next-min n p r = ground arith

pub length-part :
    (b : Bytes) (p q : ℕ) → p ≤ q → q ≤ length b → length (subarray b (pos p) (pos q)) ≡ q - p
unfolding subarray
length-part b p q h h' =
    let d = drop (min p (length b)) b in
    omega
      (arith, length-take (min q (length b) - min p (length b)) d, length-drop (min p (length b)) b)

pub part-drop :
    (b : Bytes) (p q : ℕ) → p ≤ q → q ≤ length b → subarray b (pos p) (pos q) ++ drop q b ≡ drop p b
unfolding subarray
part-drop b p q h h' =
    let whole : min p (length b) ≡ p = omega arith in
    let more : min q (length b) - min p (length b) ≡ q - p = omega arith in
    let split : p + (q - p) ≡ q = omega arith in
    rw (more, whole)
      (ap (λ t. take (q - p) (drop p b) ++ t)
          (ap (λ k. drop k b) (sym split) ∙ drop-add p (q - p) b)
        ∙ take-append-drop (q - p) (drop p b))

pub part-end : (b : Bytes) (p : ℕ) → p ≤ length b → subarray b (pos p) (pos (length b)) ≡ drop p b
part-end b p h =
    sym (append-nil (subarray b (pos p) (pos (length b))))
    ∙ ap (λ t. subarray b (pos p) (pos (length b)) ++ t) (sym (drop_all (length b) b (omega arith)))
    ∙ part-drop b p (length b) h (omega arith)

follows-flags :
    (m : Option Bytes)
    → Flags.has_follows (bit_or (bit_or Flags.follows Flags.next) (metadata_flag m)) ≡ true
unfolding Flags.has_follows
follows-flags none = refl
follows-flags (some m) = refl

last-flags :
    (end : Bool) (m : Option Bytes)
    → Flags.has_follows (
        bit_or
          (bit_or (if end then Flags.complete else Flags.no_flags) Flags.next)
          (metadata_flag m))
      ≡ false
unfolding Flags.has_follows
last-flags true none = refl
last-flags true (some m) = refl
last-flags false none = refl
last-flags false (some m) = refl

module _ (id : Number) (size : ℕ) (positive : 0 < size) (is_complete : Bool) where
  data_loop-done :
      (fuel : ℕ) (b : Bytes) (r : Number) (m : Option Bytes)
      → 0 < fuel
      → data_loop id size is_complete fuel b (pos (length b)) r m ≡ return tt
  unfolding data_loop
  data_loop-done zero b r m h = absurd (omega arith)
  data_loop-done (suc fuel) b r m h =
      let end : ltb (length b) (length b) ≡ false = ground arith in rw end refl

  -- From `p` on with room for `r` bytes, the frames make a payload with the rest of the data.
  pub data_loop-receive :
      (fuel : ℕ) (b : Bytes) (p r : ℕ) (s : Shape) (m : Option Bytes)
      → p < length b
      → 0 < r
      → length b < fuel + p
      → receive (holder_of s) (data_loop id size is_complete fuel b (pos p) (pos r) m)
        ≡ some (complete s (some (drop p b)) m)
  unfolding data_loop
  data_loop-receive zero b p r s m h hr hf = absurd (omega arith)
  data_loop-receive (suc fuel) b p r s m h hr hf =
      let n = length b in
      let q = min n (p + r) in
      let inside : ltb p n ≡ true = ground arith in
      elim (Bool-cases (q == n)) [
        | inl e ↦
            let q_n : q ≡ n = ground arith in
            rw (next-min n p r, inside, e)
              (receive-last s _ _ tt (last-flags is_complete m) (
                  ap (λ k. data_loop id size is_complete fuel b (pos k) (pos size) none) q_n
                  ∙ data_loop-done fuel b (pos size) none (omega arith))
                ∙ ap (λ k. some (complete s (some (subarray b (pos p) (pos k))) m)) q_n
                ∙ ap (λ t. some (complete s (some t) m)) (part-end b p (omega arith)))
        | inr e ↦
            let q_n : q < n = ground arith in
            let part = subarray b (pos p) (pos q) in
            rw (next-min n p r, inside, e)
              (receive-more s _ _ (follows-flags m)
                ∙ data_loop-receive fuel b q size (extend s (some part) m) none q_n positive
                    (omega arith)
                ∙ ap some (complete-body s part (drop q b) m)
                ∙ ap (λ t. some (complete s (some t) m))
                    (part-drop b p q (omega arith) (omega arith)))
      ]
