-- ===== src/Resume/Stores.antt =====
-- Each method of a frame store keeps the frames between its positions, unless it throws.
use rsocket.Prelude.{ℕ, ◌+◌, ◌<◌, ◌≡◌, refl, sym, ap, ◌∙◌, subst, List, [], ◌∷◌, arith}
use rsocket.Prelude.Number.{Number, nan, pos, negsuc, add, sub}
use rsocket.Prelude.Result.{connection_error, ok, err, ok-injective, first_step}
use rsocket.Frames.{Frame, unsupported}
use rsocket.Codecs.Common.{TextCodec}
use rsocket.Codecs.Size.{size_of_frame}
use rsocket.Resume.{FrameStore, store, record_received, after_drop, drop_loop, drop_to}
use rsocket.Resume.Positions.{
  no_bytes, more_bytes, HasBytes-append, IsStore, drop_loop-negative, drop_to-IsStore,
}

module _ (text : TextCodec) where
  same_size : {k n : ℕ} → 0 < k → ok k ≡ ok n → 0 < n
  same_size more e = let same = ok-injective e in omega (arith, same)

  -- Each frame has a header.
  size_of_frame-positive : (frame : Frame) {n : ℕ} → size_of_frame text frame ≡ ok n → 0 < n
  unfolding size_of_frame
  size_of_frame-positive (unsupported f) e = absurd cc
  size_of_frame-positive _ e = same_size (omega arith) e

  pub store-IsStore :
      (s s' : FrameStore) (frame : Frame)
      → IsStore text s
      → store text s frame ≡ ok s'
      → IsStore text s'
  unfolding store
  store-IsStore s s' frame i returns =
      let (size, sized, rest) = first_step (size_of_frame text frame) _ returns in
      subst (IsStore text) (ok-injective rest) (record {
        first = i.first;
        bytes = i.bytes + (size + 0);
        first_available = i.first_available;
        stored =
            HasBytes-append text i.stored
              (more_bytes sized (size_of_frame-positive frame sized) no_bytes);
        last_sent = ap (λ n. add n (pos size)) i.last_sent ∙ ap pos (omega arith);
      })

  pub record_received-IsStore :
      (s s' : FrameStore) (frame : Frame)
      → IsStore text s
      → record_received text s frame ≡ ok s'
      → IsStore text s'
  unfolding record_received
  record_received-IsStore s s' frame i returns =
      let (size, sized, rest) = first_step (size_of_frame text frame) _ returns in
      subst (IsStore text) (ok-injective rest) (record {
        first = i.first;
        bytes = i.bytes;
        first_available = i.first_available;
        stored = i.stored;
        last_sent = i.last_sent;
      })

  drop_loop-nan : (frames : List Frame) → drop_loop text frames nan ≡ (ok nan, frames)
  unfolding drop_loop
  drop_loop-nan [] = refl
  drop_loop-nan (frame ∷ frames) = refl

  -- Where `dropTo` returns the frames that it leaves still lie between the positions; it throws on a
  -- position that is no natural number.
  pub drop_to-keeps :
      (s s' : FrameStore) (position : Number)
      → IsStore text s
      → drop_to text s position ≡ (ok tt, s')
      → IsStore text s'
  unfolding drop_to
  drop_to-keeps s s' (pos n) i e = (drop_to-IsStore text s s' n i e).0
  drop_to-keeps s s' nan i e =
      let throws = ap (λ r. (after_drop text s nan r).0) (drop_loop-nan s.stored_frames) in
      let thrown : err connection_error ≡ ok tt = sym throws ∙ ap (λ r. r.0) e in absurd cc
  drop_to-keeps s s' (negsuc n) i e =
      let below : sub (negsuc n) s.first_available ≡ negsuc (n + i.first) =
        ap (sub (negsuc n)) i.first_available in
      let stuck = drop_loop-negative text s.stored_frames (n + i.first) in
      let throws =
        ap (λ r. (after_drop text s (negsuc n) r).0)
          (ap (drop_loop text s.stored_frames) below ∙ stuck) in
      let thrown : err connection_error ≡ ok tt = sym throws ∙ ap (λ r. r.0) e in absurd cc
