-- ===== src/Multiplexer/Live.antt =====
-- As long as a multiplexer is not closed, the streams of its registry are open.
use rsocket.Prelude.{
  ℕ, ◌≡◌, refl, sym, subst, ◌∙◌, ◌⊎◌, Bool, true, false, not, Option, none, some, List, [], ◌∷◌,
  ◌==◌, All, inl, inr, if_both, if_cases,
}
use rsocket.Prelude.Number.{Number, pos}
use rsocket.Frames.{Frame, stream_id_of, is_connection, is_request, type_of}
use rsocket.Frames.FrameTypes
use rsocket.Deferred as Deferred
use rsocket.Deferred.{Deferred}
use rsocket.StreamIds.{Offer, offered, not_offered, never_ends, next}
use rsocket.Streams.{Event, registered_after}
use rsocket.RequestChannel.Responder.{Signal}
use rsocket.Multiplexer.Handlers.{StreamHandler, Opening, ready, deliver, RSocket, serve, refuses}
use rsocket.Multiplexer.{
  Registry, lookup, keys, Multiplexer, Output, opened, create_request_stream, close, dispatch,
  joined, accept, handle, number_of,
}
use rsocket.Multiplexer.Inputs.{
  Input, receive, start_stream, use_stream_of, shut, used, use_of, step, run, new_multiplexer,
}
use rsocket.Multiplexer.Entries.{Entries, Found, lookup-Entries, connect-Entries, settle-Entries}
use rsocket.Multiplexer.Streams.{
  is_open, Holds, Holds-is_open, CanOpen, deliver-Holds, ready-Holds, Serves, serve-Holds,
  use_of-Holds,
}

abbrev IsRegistered : StreamHandler → Type 0
IsRegistered h = Holds h true

-- What is done is done; the streams that the registry has are not.
abbrev pub Kept : Multiplexer → List Output × Multiplexer → Type 0
Kept m (outputs, m') =
    (m'.deferred.done ≡ m.deferred.done)
    × (Entries IsRegistered m.registry → Entries IsRegistered m'.registry)

stays : (m : Multiplexer) → Kept m ([], m)
stays m = (refl, λ h. h)

left :
    (b : Bool) (events : List Event) (h : StreamHandler)
    → Holds h (registered_after events b)
    → registered_after events b ≡ true
    → Holds h true
left b events h kept on = subst (Holds h) on kept

opened-Entries :
    (offer : Offer) (o : Opening) (r : Registry)
    → CanOpen o
    → Entries IsRegistered r
    → Entries IsRegistered (opened offer o r).1
opened-Entries (offered id) o r can h =
    let (events, g) = ready (pos id) o in
    if_cases (Entries IsRegistered) (registered_after events false)
      (λ on.
        connect-Entries IsRegistered g r (left false events g (ready-Holds (pos id) o can) on) h)
      (λ off. h)
opened-Entries not_offered o r can h = h
opened-Entries never_ends o r can h = h

create-Kept :
    (already_closed : ℕ) (o : Opening) (m : Multiplexer)
    → CanOpen o
    → Kept m (create_request_stream already_closed o m)
unfolding create_request_stream
create-Kept already_closed o m can =
    let (offer, current_id) = next m.current_id (λ id. not (refuses o)) (keys m.registry) in
    if_both (Kept m) m.deferred.done (stays m) (refl, opened-Entries offer o m.registry can)

dispatch-Kept :
    (known : Option StreamHandler) (frame : Frame) (m : Multiplexer)
    → known ≡ lookup (stream_id_of frame) m.registry
    → Kept m (dispatch known frame m)
dispatch-Kept none frame m e = stays m
dispatch-Kept (some h) frame m e = (
  refl,
  λ all.
      let id = stream_id_of frame in
      let (events, h') = deliver frame h in
      let found : IsRegistered h =
        subst (Found IsRegistered) (sym e) (lookup-Entries IsRegistered id m.registry all) in
      settle-Entries IsRegistered id (registered_after events true) h' m.registry
        (left true events h' (deliver-Holds frame h found)) all,
)

pub used-Kept :
    (known : Option StreamHandler) (id : Number) (signal : Signal) (m : Multiplexer)
    → known ≡ lookup id m.registry
    → Kept m (used known id signal m)
used-Kept none id signal m e = stays m
used-Kept (some h) id signal m e = (
  refl,
  λ all.
      let (events, h') = use_of signal h in
      let found : IsRegistered h =
        subst (Found IsRegistered) (sym e) (lookup-Entries IsRegistered id m.registry all) in
      settle-Entries IsRegistered id (registered_after events true) h' m.registry
        (left true events h' (use_of-Holds signal h found)) all,
)

joined-Entries :
    (b : Bool) (h : Option StreamHandler) (events : List Event) (r : Registry)
    → registered_after events false ≡ b
    → Serves (events, h)
    → Entries IsRegistered r
    → Entries IsRegistered (joined b h r)
joined-Entries true (some h) events r on serves all =
    connect-Entries IsRegistered h r (left false events h serves on) all
joined-Entries true none events r on serves all = all
joined-Entries false h events r on serves all = all

module _ (rsocket : RSocket) (fragment_size : ℕ) where
  accept-Kept :
      (known : Option StreamHandler) (frame : Frame) (m : Multiplexer)
      → Kept m (accept rsocket fragment_size known frame m)
  accept-Kept (some h) frame m = stays m
  accept-Kept none frame m =
      let (events, h) = serve rsocket fragment_size frame in
      (
        refl,
        joined-Entries (registered_after events false) h events m.registry refl
            (serve-Holds rsocket fragment_size frame),
      )

  pub handle-Kept :
      (frame : Frame) (m : Multiplexer) → Kept m (handle rsocket fragment_size frame m)
  unfolding handle
  handle-Kept frame m =
      let known = lookup (stream_id_of frame) m.registry in
      if_both (Kept m) (is_connection frame)
        (if_both (Kept m) (type_of frame == FrameTypes.reserved) (stays m) (refl, λ h. h))
        (if_both (Kept m) (is_request frame) (accept-Kept known frame m)
          (dispatch-Kept known frame m refl))

deferred_done : (n : Option ℕ) (d : Deferred) → (Deferred.close n d).1.done ≡ true
unfolding Deferred.close
deferred_done n d =
    if_cases (λ (r : List Deferred.Event × Deferred). r.1.done ≡ true) d.done (λ over. over)
      (λ live. refl)

pub close-done : (e : Option (ℕ × List ℕ)) (m : Multiplexer) → (close e m).1.deferred.done ≡ true
unfolding close
close-done e m =
    let over = deferred_done (number_of e) m.deferred in
    if_both (λ (r : List Output × Multiplexer). r.1.deferred.done ≡ true) m.deferred.done over over

-- A channel that is opened is a new one.
abbrev pub CanJoin : Input → Type 0
CanJoin (start_stream already_closed o) = CanOpen o
CanJoin _ = Unit

-- It is closed, or the streams of its registry are open.
abbrev Sound : Multiplexer → Type 0
Sound m = (m.deferred.done ≡ true) ⊎ Entries IsRegistered m.registry

Kept-Sound :
    (m : Multiplexer) (made : List Output × Multiplexer) → Kept m made → Sound m → Sound made.1
Kept-Sound m made (same, kept) (inl over) = inl (same ∙ over)
Kept-Sound m made (same, kept) (inr all) = inr (kept all)

module _ (rsocket : RSocket) (fragment_size : ℕ) where
  step-Sound :
      (input : Input) (m : Multiplexer)
      → CanJoin input
      → Sound m
      → Sound (step rsocket fragment_size input m).1
  step-Sound (receive frame) m can sound =
      Kept-Sound m (handle rsocket fragment_size frame m)
        (handle-Kept rsocket fragment_size frame m) sound
  step-Sound (start_stream already_closed o) m can sound =
      Kept-Sound m (create_request_stream already_closed o m) (create-Kept already_closed o m can)
        sound
  step-Sound (use_stream_of id signal) m can sound =
      Kept-Sound m (used (lookup id m.registry) id signal m)
        (used-Kept (lookup id m.registry) id signal m refl) sound
  step-Sound (shut e) m can sound = inl (close-done e m)

  run-Sound :
      (inputs : List Input) (m : Multiplexer)
      → All CanJoin inputs
      → Sound m
      → Sound (run rsocket fragment_size inputs m).1
  run-Sound [] m can sound = sound
  run-Sound (input ∷ inputs) m (can, cans) sound =
      run-Sound inputs (step rsocket fragment_size input m).1 cans (step-Sound input m can sound)

all_open : (r : Registry) → Entries IsRegistered r → Entries (λ h. is_open h ≡ true) r
all_open [] all = tt
all_open ((id, h) ∷ r) (here, all) = (Holds-is_open h here, all_open r all)

-- Whatever frames reach a new multiplexer, whatever streams are opened, and whatever the application
-- does with those that are registered: as long as it is not closed, each stream of the registry is
-- open. A channel that is opened has no id, and is not done inbound unless it is done outbound.
pub run-AllOpen :
    (rsocket : RSocket) (fragment_size : ℕ) (seed : Number) (inputs : List Input)
    → All CanJoin inputs
    → (run rsocket fragment_size inputs (new_multiplexer seed)).1.deferred.done ≡ false
    → Entries
        (λ h. is_open h ≡ true)
        (run rsocket fragment_size inputs (new_multiplexer seed)).1.registry
run-AllOpen rsocket fragment_size seed inputs can live =
    elim (run-Sound rsocket fragment_size inputs (new_multiplexer seed) can (inr tt)) [
      | inl over ↦ absurd cc
      | inr all ↦ all_open _ all
    ]
