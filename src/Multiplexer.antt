-- ===== src/Multiplexer.antt =====
-- packages/rsocket-core/src/ClientServerMultiplexerDemultiplexer.ts:
-- `ClientServerInputMultiplexerDemultiplexer`, with the streams of its registry. The handler of
-- connection frames is a parameter: that it gets a frame is an output.
pub mod Handlers
pub mod Inputs
pub mod Entries
pub mod Ids
pub mod Keyed
pub mod Streams
pub mod Live
pub mod Routing
pub mod Requester
pub mod Tests
use rsocket.Multiplexer.Handlers.{
  StreamHandler, id_of, Opening, refuses, ready, reject, deliver, close_stream, RSocket, serve,
}
use rsocket.Prelude.{
  ℕ, Bool, true, false, not, Option, none, some, List, [], ◌∷◌, ◌++◌, map, ◌==◌, if◌then◌else◌,
}
use rsocket.Prelude.Number.{Number, pos, eq, lt}
use rsocket.Frames.{Frame, stream_id_of, is_connection, is_request, type_of}
use rsocket.Frames.FrameTypes
use rsocket.Deferred as Deferred
use rsocket.Deferred.{Deferred}
use rsocket.StreamIds.{Offer, offered, not_offered, never_ends, next}
use rsocket.Streams.{StreamError, Event, failed, other_failure, registered_after}
use rsocket.Streams.Messages.{codes}

-- The entries of `registry` by rising ids, as `for ... in` goes through them.
abbrev pub Registry : Type 0
Registry = List (Number × StreamHandler)

-- `this.registry[id]`
abbrev pub lookup : Number → Registry → Option StreamHandler
lookup id [] = none
lookup id ((k, h) ∷ entries) = if eq id k then some h else lookup id entries

-- `this.registry[id] = h`
abbrev pub put : Number → StreamHandler → Registry → Registry
put id h [] = (id, h) ∷ []
put id h ((k, g) ∷ entries) =
    let rest = put id h entries in
    if eq id k
    then (id, h) ∷ entries
    else (if lt id k then (id, h) ∷ (k, g) ∷ entries else (k, g) ∷ rest)

-- `delete this.registry[id]`
abbrev pub erase : Number → Registry → Registry
erase id [] = []
erase id ((k, g) ∷ entries) = let rest = erase id entries in if eq id k then rest else (k, g) ∷ rest

abbrev pub put_under : Option Number → StreamHandler → Registry → Registry
put_under none h entries = entries
put_under (some id) h entries = put id h entries

abbrev pub erase_under : Option Number → Registry → Registry
erase_under none entries = entries
erase_under (some id) entries = erase id entries

-- `connect` and `disconnect`, which take the id of the stream. Only a stream that has one calls them.
abbrev pub connect : StreamHandler → Registry → Registry
connect h entries = put_under (id_of h) h entries

abbrev pub disconnect : StreamHandler → Registry → Registry
disconnect h entries = erase_under (id_of h) entries

-- What a call of the stream that the registry has under `id` leaves: `h` is the same stream in its new
-- state, which is still there, unless it has called `disconnect`.
abbrev pub settle : Number → Bool → StreamHandler → Registry → Registry
settle id registered h entries = if registered then put id h entries else disconnect h entries

-- `Object.keys(registry)`, of which a candidate for a stream id can only be a natural one.
abbrev pub keys : Registry → List ℕ
keys [] = []
keys ((pos k, h) ∷ entries) = k ∷ keys entries
keys (_ ∷ entries) = keys entries

-- `currentId` is the one of the supplier of stream ids.
pub record Multiplexer : Type 0 where
  pub registry : Registry
  pub deferred : Deferred
  pub current_id : Number

pub data Output : Type 0 where
  of_stream : Event → Output
  to_connection : Frame → Output
  of_deferred : Deferred.Event → Output

-- `createRequestStream`; `already_closed` is the error with that message.
abbrev pub opened : Offer → Opening → Registry → List Event × Registry
opened (offered id) o entries =
    let (events, h) = ready (pos id) o in
    (events, if registered_after events false then connect h entries else entries)
opened not_offered o entries = ([], entries)
opened never_ends o entries = ([], entries)

unfoldable pub create_request_stream : ℕ → Opening → Multiplexer → List Output × Multiplexer
create_request_stream already_closed o m =
    let (offer, current_id) = next m.current_id (λ id. not (refuses o)) (keys m.registry) in
    let (events, entries) = opened offer o m.registry in
    if m.deferred.done
    then (map of_stream (reject already_closed o), m)
    else (map of_stream events, record m { registry = entries; current_id = current_id })

-- The error that `close` gives each stream; `cause` is the text of its own.
abbrev pub closed_error : Option (List ℕ) → StreamError
closed_error none = failed (other_failure (codes "Closed. "))
closed_error (some cause) =
    failed (other_failure (codes "Closed. Original cause [" ++ cause ++ codes "]."))

abbrev pub close_all : StreamError → Registry → List Event × Registry
close_all e [] = ([], [])
close_all e ((id, h) ∷ entries) =
    let (events, h') = close_stream (some e) h in
    let (more, entries') = close_all e entries in (events ++ more, (id, h') ∷ entries')

-- An error is its number and its text.
abbrev pub number_of : Option (ℕ × List ℕ) → Option ℕ
number_of none = none
number_of (some (e, text)) = some e

abbrev pub text_of_error : Option (ℕ × List ℕ) → Option (List ℕ)
text_of_error none = none
text_of_error (some (e, text)) = some text

unfoldable pub close : Option (ℕ × List ℕ) → Multiplexer → List Output × Multiplexer
close e m =
    let (told, deferred) = Deferred.close (number_of e) m.deferred in
    let (events, entries) = close_all (closed_error (text_of_error e)) m.registry in
    if m.deferred.done then (map of_deferred told, record m { deferred = deferred }) else (
      map of_stream events ++ map of_deferred told,
      record m { registry = entries; deferred = deferred },
    )

-- A frame for a stream that is registered, or is not
abbrev pub dispatch : Option StreamHandler → Frame → Multiplexer → List Output × Multiplexer
dispatch none frame m = ([], m)
dispatch (some h) frame m =
    let id = stream_id_of frame in
    let (events, h') = deliver frame h in
    (
      map of_stream events,
      record m { registry = settle id (registered_after events true) h' m.registry },
    )

-- What a request leaves in the registry: the responder, if it has called `connect` last
abbrev pub joined : Bool → Option StreamHandler → Registry → Registry
joined true (some h) entries = connect h entries
joined registered h entries = entries

module _ (rsocket : RSocket) (fragment_size : ℕ) where
  -- A request, whose id is registered, or is not
  abbrev pub accept : Option StreamHandler → Frame → Multiplexer → List Output × Multiplexer
  accept (some h) frame m = ([], m)
  accept none frame m =
      let (events, h) = serve rsocket fragment_size frame in
      (
        map of_stream events,
        record m { registry = joined (registered_after events false) h m.registry },
      )

  unfoldable pub handle : Frame → Multiplexer → List Output × Multiplexer
  handle frame m =
      let known = lookup (stream_id_of frame) m.registry in
      let request = accept known frame m in
      let other = dispatch known frame m in
      if is_connection frame
      then (if type_of frame == FrameTypes.reserved then ([], m) else (to_connection frame ∷ [], m))
      else (if is_request frame then request else other)
