-- ===== src/Multiplexer/Routing.antt =====
-- A frame reaches the stream of its id, and no other: `handle` is, at each id of the registry, what
-- `route` does with the stream that stands there.
use rsocket.Prelude.{
  ℕ, ◌≡◌, refl, sym, subst, ap, ◌∙◌, Bool, true, false, Option, none, some, List, [], ◌∷◌, ◌==◌,
  map, if◌then◌else◌, if_both, if_cases, arith,
}
use rsocket.Prelude.Number.{Number, nan, pos, negsuc, eq, lt}
use rsocket.Frames.{Frame, stream_id_of, is_connection, is_request, type_of}
use rsocket.Frames.FrameTypes
use rsocket.Streams.{registered_after}
use rsocket.Multiplexer.Handlers.{StreamHandler, id_of, deliver, RSocket, serve}
use rsocket.Multiplexer.{
  Registry, lookup, put, erase, put_under, erase_under, settle, Multiplexer, Output, of_stream,
  to_connection, dispatch, joined, accept, handle,
}
use rsocket.Multiplexer.Inputs.{Input, run, new_multiplexer}
use rsocket.Multiplexer.Ids.{deliver-id}
use rsocket.Multiplexer.Keyed.{IsKeyed, eq_sound, Has, lookup-Has, serve-Has, run-IsKeyed}

abbrev kept_if : Bool → Option StreamHandler → Option StreamHandler
kept_if registered o = if registered then o else none

-- A frame for a stream: its events, and the stream that is left
abbrev pub route_stream : Option StreamHandler → Frame → List Output × Option StreamHandler
route_stream none frame = ([], none)
route_stream (some h) frame =
    let (events, h') = deliver frame h in
    (map of_stream events, kept_if (registered_after events true) (some h'))

module _ (rsocket : RSocket) (fragment_size : ℕ) where
  -- A request makes a stream where there is none.
  abbrev pub route_request : Option StreamHandler → Frame → List Output × Option StreamHandler
  route_request (some h) frame = ([], some h)
  route_request none frame =
      let (events, o) = serve rsocket fragment_size frame in
      (map of_stream events, kept_if (registered_after events false) o)

  -- What a frame does to the stream of its id
  abbrev pub route : Option StreamHandler → Frame → List Output × Option StreamHandler
  route known frame =
      if is_connection frame
      then (if type_of frame == FrameTypes.reserved
          then ([], known)
          else (to_connection frame ∷ [], known))
      else (if is_request frame then route_request known frame else route_stream known frame)

eq_trans : (i j k : Number) → eq j i ≡ false → eq i k ≡ true → eq j k ≡ false
eq_trans nan j k h e = absurd cc
eq_trans (pos a) j nan h e = absurd cc
eq_trans (pos a) j (negsuc c) h e = absurd cc
eq_trans (pos a) nan (pos c) h e = refl
eq_trans (pos a) (negsuc b) (pos c) h e = refl
eq_trans (pos a) (pos b) (pos c) h e = ground arith
eq_trans (negsuc a) j nan h e = absurd cc
eq_trans (negsuc a) j (pos c) h e = absurd cc
eq_trans (negsuc a) nan (negsuc c) h e = refl
eq_trans (negsuc a) (pos b) (negsuc c) h e = refl
eq_trans (negsuc a) (negsuc b) (negsuc c) h e = ground arith

module _ (i j : Number) (other : eq j i ≡ false) where
  skip :
      (k : Number) (g : StreamHandler) (r : Registry)
      → eq i k ≡ true
      → lookup j ((k, g) ∷ r) ≡ lookup j r
  skip k g r same = ap (λ b. if b then some g else lookup j r) (eq_trans i j k other same)

  skip_own : (g : StreamHandler) (r : Registry) → lookup j ((i, g) ∷ r) ≡ lookup j r
  skip_own g r = ap (λ b. if b then some g else lookup j r) other

  lookup-put : (h : StreamHandler) (r : Registry) → lookup j (put i h r) ≡ lookup j r
  lookup-put h [] = skip_own h []
  lookup-put h ((k, g) ∷ r) =
      let Same : Registry → Type 0 = λ made. lookup j made ≡ lookup j ((k, g) ∷ r) in
      if_cases Same (eq i k) (λ e. skip_own h r ∙ sym (skip k g r e))
        (λ e.
          if_both Same (lt i k) (skip_own h ((k, g) ∷ r))
            (ap (λ o. if eq j k then some g else o) (lookup-put h r)))

  lookup-erase : (r : Registry) → lookup j (erase i r) ≡ lookup j r
  lookup-erase [] = refl
  lookup-erase ((k, g) ∷ r) =
      if_cases (λ made. lookup j made ≡ lookup j ((k, g) ∷ r)) (eq i k)
        (λ e. lookup-erase r ∙ sym (skip k g r e))
        (λ e. ap (λ o. if eq j k then some g else o) (lookup-erase r))

lookup-put_own :
    (i : Number) (h : StreamHandler) (r : Registry) → eq i i ≡ true → lookup i (put i h r) ≡ some h
lookup-put_own i h [] same = ap (λ b. if b then some h else none) same
lookup-put_own i h ((k, g) ∷ r) same =
    let found : (rest : Option StreamHandler) → (if eq i i then some h else rest) ≡ some h =
      λ rest. ap (λ b. if b then some h else rest) same in
    if_cases (λ made. lookup i made ≡ some h) (eq i k) (λ e. found (lookup i r))
      (λ other.
        if_both (λ made. lookup i made ≡ some h) (lt i k) (found (lookup i ((k, g) ∷ r)))
          (ap (λ b. if b then some g else lookup i (put i h r)) other ∙ lookup-put_own i h r same))

lookup-erase_own : (i : Number) (r : Registry) → lookup i (erase i r) ≡ none
lookup-erase_own i [] = refl
lookup-erase_own i ((k, g) ∷ r) =
    if_cases (λ made. lookup i made ≡ none) (eq i k) (λ e. lookup-erase_own i r)
      (λ other. ap (λ b. if b then some g else lookup i (erase i r)) other ∙ lookup-erase_own i r)

-- What is found under j when the stream of i is `o`, and the others are those of r
abbrev Puts : Number → Number → Option StreamHandler → Registry → Registry → Type 0
Puts i j o r made = lookup j made ≡ (if eq j i then o else lookup j r)

module _ (i j : Number) (r : Registry) where
  same-Puts : (o : Option StreamHandler) → lookup i r ≡ o → Puts i j o r r
  same-Puts o found =
      if_cases (λ x. lookup j r ≡ x) (eq j i)
        (λ same. ap (λ k. lookup k r) (eq_sound j i same) ∙ found) (λ other. refl)

  put-Puts : (h : StreamHandler) → Puts i j (some h) r (put i h r)
  put-Puts h =
      if_cases (λ x. lookup j (put i h r) ≡ x) (eq j i)
        (λ same.
          let is = eq_sound j i same in
          ap (λ k. lookup k (put i h r)) is
          ∙ lookup-put_own i h r (subst (λ k. eq k i ≡ true) is same))
        (λ other. lookup-put i j other h r)

  erase-Puts : Puts i j none r (erase i r)
  erase-Puts =
      if_cases (λ x. lookup j (erase i r) ≡ x) (eq j i)
        (λ same. ap (λ k. lookup k (erase i r)) (eq_sound j i same) ∙ lookup-erase_own i r)
        (λ other. lookup-erase i j other r)

  settle-Puts :
      (b : Bool) (h : StreamHandler)
      → id_of h ≡ some i
      → Puts i j (kept_if b (some h)) r (settle i b h r)
  settle-Puts true h own = put-Puts h
  settle-Puts false h own = subst (λ o. Puts i j none r (erase_under o r)) (sym own) erase-Puts

  joined-Puts :
      (b : Bool) (o : Option StreamHandler)
      → Has i o
      → lookup i r ≡ none
      → Puts i j (kept_if b o) r (joined b o r)
  joined-Puts true (some h) own free =
      subst (λ k. Puts i j (some h) r (put_under k h r)) (sym own) (put-Puts h)
  joined-Puts true none own free = same-Puts none free
  joined-Puts false o own free = same-Puts none free

-- The outputs are the same, and the registry is that of m but for the stream of the frame.
abbrev Routes :
    Number
    → Number
    → Multiplexer
    → List Output × Multiplexer
    → List Output × Option StreamHandler
    → Type 0
Routes i j m (outputs, m') (told, o) = (outputs ≡ told) × Puts i j o m.registry m'.registry

both_if :
    {A B : Type 0} (R : A → B → Type 0) (test : Bool) {a a' : A} {b b' : B}
    → R a b
    → R a' b'
    → R (if test then a else a') (if test then b else b')
both_if R true first second = first
both_if R false first second = second

dispatch-Routes :
    (known : Option StreamHandler) (frame : Frame) (m : Multiplexer) (j : Number)
    → lookup (stream_id_of frame) m.registry ≡ known
    → Has (stream_id_of frame) known
    → Routes (stream_id_of frame) j m (dispatch known frame m) (route_stream known frame)
dispatch-Routes none frame m j found has =
    (refl, same-Puts (stream_id_of frame) j m.registry none found)
dispatch-Routes (some h) frame m j found has =
    (refl, settle-Puts (stream_id_of frame) j m.registry _ _ (deliver-id frame h ∙ has))

module _ (rsocket : RSocket) (fragment_size : ℕ) where
  accept-Routes :
      (known : Option StreamHandler) (frame : Frame) (m : Multiplexer) (j : Number)
      → lookup (stream_id_of frame) m.registry ≡ known
      → Routes
          (stream_id_of frame)
          j
          m
          (accept rsocket fragment_size known frame m)
          (route_request rsocket fragment_size known frame)
  accept-Routes (some h) frame m j found =
      (refl, same-Puts (stream_id_of frame) j m.registry (some h) found)
  accept-Routes none frame m j found = (
    refl,
    joined-Puts (stream_id_of frame) j m.registry _ _ (serve-Has rsocket fragment_size frame) found,
  )

  handle-Routes :
      (frame : Frame) (m : Multiplexer) (j : Number)
      → IsKeyed m.registry
      → Routes
          (stream_id_of frame)
          j
          m
          (handle rsocket fragment_size frame m)
          (route rsocket fragment_size (lookup (stream_id_of frame) m.registry) frame)
  unfolding handle
  handle-Routes frame m j keyed =
      let id = stream_id_of frame in
      let known = lookup id m.registry in
      let R = Routes id j m in
      let same = same-Puts id j m.registry known refl in
      both_if R (is_connection frame)
        (both_if R (type_of frame == FrameTypes.reserved) (refl, same) (refl, same))
        (both_if R (is_request frame) (accept-Routes known frame m j refl)
          (dispatch-Routes known frame m j refl (lookup-Has id m.registry keyed)))

-- A frame that reaches a multiplexer, to which anything has happened since it was new, does what
-- `route` does with the stream that is registered under the frame's id, if there is one: the
-- outputs are those of `route`; under the frame's id the registry then has the stream that `route`
-- leaves, or none; under every other id it has what it had.
pub lookup-handle :
    (rsocket : RSocket) (fragment_size : ℕ) (seed : Number) (inputs : List Input) (frame : Frame)
    (j : Number)
    → let m = (run rsocket fragment_size inputs (new_multiplexer seed)).1 in
      let id = stream_id_of frame in
      let (outputs, m') = handle rsocket fragment_size frame m in
      let (told, left) = route rsocket fragment_size (lookup id m.registry) frame in
      (outputs ≡ told) × (lookup j m'.registry ≡ (if eq j id then left else lookup j m.registry))
lookup-handle rsocket fragment_size seed inputs frame j =
    let m = (run rsocket fragment_size inputs (new_multiplexer seed)).1 in
    handle-Routes rsocket fragment_size frame m j (run-IsKeyed rsocket fragment_size seed inputs)
