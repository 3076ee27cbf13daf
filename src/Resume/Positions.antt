-- ===== src/Resume/Positions.antt =====
-- The positions of a frame store count the bytes of its frames.
use rsocket.Prelude.{
  ℕ, zero, suc, ◌+◌, ◌-◌, ◌<◌, ◌≡◌, refl, ap, ◌∙◌, sym, subst, true, false, List, [], ◌∷◌, ◌++◌,
  arith, ltb, ◌==◌, inl, inr, at_most-cases,
}
use rsocket.Prelude.Number.{Number, nan, pos, negsuc, add, sub, sub-pos, sub-negative}
use rsocket.Prelude.Result.{Result, ok, err}
use rsocket.Frames.{Frame}
use rsocket.Codecs.Common.{TextCodec}
use rsocket.Codecs.Size.{size_of_frame}
use rsocket.Resume.{FrameStore, after_drop, drop_loop, drop_to}

module _ (text : TextCodec) where
  -- `bytes` is the number of bytes of the frames, each of which has some.
  pub data HasBytes : List Frame → ℕ → Type 0 where
    no_bytes : HasBytes [] 0
    more_bytes :
        {frame : Frame} {frames : List Frame} {size bytes : ℕ}
        → size_of_frame text frame ≡ ok size
        → 0 < size
        → HasBytes frames bytes
        → HasBytes (frame ∷ frames) (size + bytes)

  -- The frames lie between the first available position and the last one that was sent.
  pub record IsStore (s : FrameStore) : Type 0 where
    pub first : ℕ
    pub bytes : ℕ
    pub first_available : s.first_available ≡ pos first
    pub stored : HasBytes s.stored_frames bytes
    pub last_sent : s.last_sent ≡ pos (first + bytes)

  pub HasBytes-append :
      {xs ys : List Frame} {m n : ℕ} → HasBytes xs m → HasBytes ys n → HasBytes (xs ++ ys) (m + n)
  HasBytes-append {n = n} no_bytes hy = let e : n ≡ 0 + n = omega arith in subst (HasBytes _) e hy
  HasBytes-append {n = n} (more_bytes {size = size} {bytes = bytes} e h hx) hy =
      let assoc : size + (bytes + n) ≡ size + bytes + n = omega arith in
      subst (HasBytes _) assoc (more_bytes e h (HasBytes-append hx hy))

  -- Dropping exactly the bytes of the frames in front leaves the others.
  drop_loop-none : (frames : List Frame) → drop_loop text frames (pos 0) ≡ (ok (pos 0), frames)
  unfolding drop_loop
  drop_loop-none [] = refl
  drop_loop-none (frame ∷ frames) = refl

  pub drop_loop-negative :
      (frames : List Frame) (k : ℕ) → drop_loop text frames (negsuc k) ≡ (ok (negsuc k), frames)
  unfolding drop_loop
  drop_loop-negative [] k = refl
  drop_loop-negative (frame ∷ frames) k = refl

  drop_loop-more :
      (frame : Frame) (frames : List Frame) (size k : ℕ)
      → size_of_frame text frame ≡ ok size
      → 0 < k
      → drop_loop text (frame ∷ frames) (pos k) ≡ drop_loop text frames (sub (pos k) (pos size))
  unfolding drop_loop
  drop_loop-more frame frames size k e h = let go : ltb 0 k ≡ true = ground arith in rw (e, go) refl

  drop_loop-front :
      {xs ys : List Frame} {m : ℕ}
      → HasBytes xs m
      → drop_loop text (xs ++ ys) (pos m) ≡ (ok (pos 0), ys)
  drop_loop-front {ys = ys} no_bytes = drop_loop-none ys
  drop_loop-front {ys = ys} (more_bytes {frame} {frames} {size} {bytes} e h hx) =
      let rest : sub (pos (size + bytes)) (pos size) ≡ pos bytes = ground arith in
      drop_loop-more frame (frames ++ ys) size (size + bytes) e (omega arith)
      ∙ ap (drop_loop text (frames ++ ys)) rest
      ∙ drop_loop-front hx

  -- A loop that ends at zero has dropped whole frames of that many bytes.
  drop_loop-exact :
      {frames : List Frame} {n : ℕ} (k : ℕ) (ys : List Frame)
      → HasBytes frames n
      → drop_loop text frames (pos k) ≡ (ok (pos 0), ys)
      → (xs : List Frame) × (m : ℕ) × (frames ≡ xs ++ ys)
        × HasBytes xs k
        × HasBytes ys m
        × (n ≡ k + m)
  unfolding drop_loop
  drop_loop-exact k ys no_bytes e =
      let bytes : ok (pos k) ≡ ok (pos 0) = ap (λ p. p.0) e in
      let none : 0 ≡ k = cc in
      let rest : [] ≡ ys = ap (λ p. p.1) e in
      (
        [],
        0,
        rest,
        subst (HasBytes []) none no_bytes,
        subst (λ y. HasBytes y 0) rest no_bytes,
        omega arith,
      )
  drop_loop-exact zero ys (more_bytes {size = size} {bytes = bytes} s h hx) e =
      let rest : (_ ∷ _) ≡ ys = ap (λ p. p.1) e in
      (
        [],
        size + bytes,
        rest,
        no_bytes,
        subst (λ y. HasBytes y (size + bytes)) rest (more_bytes s h hx),
        omega arith,
      )
  drop_loop-exact (suc k) ys (more_bytes {frame} {frames} {size} {bytes} s h hx) e =
      let first = sym (drop_loop-more frame frames size (suc k) s (omega arith)) ∙ e in
      elim (at_most-cases size (suc k)) [
        | inl fits ↦
            let left = ap (drop_loop text frames) (sym (sub-pos (suc k) size fits)) ∙ first in
            let (xs, m, split, front, back, n) = drop_loop-exact (suc k - size) ys hx left in
            let whole : size + (suc k - size) ≡ suc k = omega arith in
            (
              frame ∷ xs,
              m,
              ap (λ t. frame ∷ t) split,
              subst (HasBytes (frame ∷ xs)) whole (more_bytes s h front),
              back,
              omega arith,
            )
        | inr beyond ↦
            let past =
              ap (drop_loop text frames) (sym (sub-negative (suc k) size beyond)) ∙ first in
            let bytes = ap (λ p. p.0) (sym (drop_loop-negative frames (size - suc k - 1)) ∙ past) in
            absurd cc
      ]

  after_drop-ok :
      (s s' : FrameStore) (position : Number) (r : Result Number × List Frame)
      → after_drop text s position r ≡ (ok tt, s')
      → (r ≡ (ok (pos 0), s'.stored_frames))
        × (s' ≡ record s { stored_frames = s'.stored_frames; first_available = position })
  after_drop-ok s s' position (err x, frames) e = let r = ap (λ p. p.0) e in absurd cc
  after_drop-ok s s' position (ok nan, frames) e = let r = ap (λ p. p.0) e in absurd cc
  after_drop-ok s s' position (ok (pos zero), frames) e =
      let rest : record s { stored_frames = frames; first_available = position } ≡ s' =
        ap (λ p. p.1) e in
      let kept : frames ≡ s'.stored_frames = ap (λ (t : FrameStore). t.stored_frames) rest in
      (
        ap (λ f. (ok (pos 0), f)) kept,
        sym rest
            ∙ ap (λ (f : List Frame). record s { stored_frames = f; first_available = position })
                kept,
      )
  after_drop-ok s s' position (ok (pos (suc n)), frames) e =
      let more : suc n == 0 ≡ false = ground arith in
      let r = ap (λ p. p.0) (rw more at e) in absurd cc
  after_drop-ok s s' position (ok (negsuc n), frames) e = let r = ap (λ p. p.0) e in absurd cc

  -- `dropTo` the position behind the first of the stored frames drops these.
  pub drop_to-front :
      (s : FrameStore) (xs ys : List Frame) (m first : ℕ)
      → s.first_available ≡ pos first
      → s.stored_frames ≡ xs ++ ys
      → HasBytes xs m
      → drop_to text s (pos (first + m))
        ≡ (ok tt, record s { stored_frames = ys; first_available = pos (first + m) })
  unfolding drop_to
  drop_to-front s xs ys m first e split h =
      let bytes : sub (pos (first + m)) (pos first) ≡ pos m = ground arith in
      rw (e, split, bytes, drop_loop-front h) refl

  -- Where `dropTo` returns, on a store whose frames lie between its two positions, it has dropped
  -- whole frames, of as many bytes as the first position has moved, and the frames that are left
  -- still lie between the two positions.
  pub drop_to-IsStore :
      (s s' : FrameStore) (position : ℕ)
      → IsStore s
      → drop_to text s (pos position) ≡ (ok tt, s')
      → IsStore s'
        × (s'.first_available ≡ pos position)
        × ((xs : List Frame) × (m : ℕ) × (s.stored_frames ≡ xs ++ s'.stored_frames)
            × HasBytes xs m
            × (add s.first_available (pos m) ≡ pos position))
  unfolding drop_to
  drop_to-IsStore s s' position i e =
      let (looped, kept) =
        after_drop-ok s s' (pos position)
          (drop_loop text s.stored_frames (sub (pos position) s.first_available)) e in
      let at : drop_loop text s.stored_frames (sub (pos position) (pos i.first))
          ≡ (ok (pos 0), s'.stored_frames) =
        ap (λ n. drop_loop text s.stored_frames (sub (pos position) n)) (sym i.first_available)
        ∙ looped in
      elim (at_most-cases i.first position) [
        | inl ahead ↦
            let left =
              ap (drop_loop text s.stored_frames) (sym (sub-pos position i.first ahead)) ∙ at in
            let (xs, m, split, front, back, n) =
              drop_loop-exact (position - i.first) s'.stored_frames i.stored left in
            let first : s'.first_available ≡ pos position =
              ap (λ (t : FrameStore). t.first_available) kept in
            let end : pos (i.first + i.bytes) ≡ pos (position + m) = ap pos (omega arith) in
            let sent : s'.last_sent ≡ pos (position + m) =
              ap (λ (t : FrameStore). t.last_sent) kept ∙ i.last_sent ∙ end in
            (
              record {
                first = position;
                bytes = m;
                first_available = first;
                stored = back;
                last_sent = sent;
              },
              first,
              (xs, position - i.first, split, front, rw i.first_available (ap pos (omega arith))),
            )
        | inr behind ↦
            let past =
              ap (drop_loop text s.stored_frames) (sym (sub-negative position i.first behind))
              ∙ at in
            let bytes =
              ap (λ p. p.0)
                (sym (drop_loop-negative s.stored_frames (i.first - position - 1)) ∙ past) in
            absurd cc
      ]
