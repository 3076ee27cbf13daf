-- ===== src/Multiplexer/Requester.antt =====
-- `RSocketRequester` of packages/rsocket-core/src/RSocketSupport.ts: a call of the application makes a
-- stream, which asks for a lease first where the connection has leases, and gets its id at once where
-- it has none. Which receiver a stream has is left out.
use rsocket.Prelude.{ℕ, refl, Bool, true, false, Option, none, List, [], ◌∷◌, inl}
use rsocket.Prelude.Number.{Number}
use rsocket.Bytes.{Bytes}
use rsocket.Frames.{metadata_push}
use rsocket.Frames.Flags
use rsocket.Reassembler.{Payload, FragmentsHolder}
use rsocket.Streams.{Event, sent, on_complete}
use rsocket.RequestResponse as RequestResponse
use rsocket.RequestFnf as RequestFnf
use rsocket.RequestStream as RequestStream
use rsocket.RequestChannel as RequestChannel
use rsocket.Multiplexer.Handlers.{Opening, open_fnf, open_response, open_stream, open_channel}
use rsocket.Multiplexer.{Multiplexer, Output, create_request_stream}
use rsocket.Multiplexer.Inputs.{start_stream}
use rsocket.Multiplexer.Live.{CanJoin}

-- The fragments of a stream that is new
abbrev no_fragments : FragmentsHolder
no_fragments = record { has_fragments = false; body = none; metadata = none }

abbrev pub new_fnf : Payload → ℕ → RequestFnf.Requester
new_fnf content size = record {
  request = content;
  fragment_size = size;
  done = false;
  stream_id = none;
}

abbrev pub new_response : Payload → ℕ → RequestResponse.Requester
new_response content size = record {
  request = content;
  fragment_size = size;
  done = false;
  extension = none;
  holder = no_fragments;
  stream_id = none;
}

abbrev pub new_stream : Payload → ℕ → Number → RequestStream.Requester
new_stream content size n = record {
  request = content;
  fragment_size = size;
  initial_request_n = n;
  done = false;
  extension = none;
  holder = no_fragments;
  stream_id = none;
}

abbrev pub new_channel : Payload → Bool → ℕ → Number → RequestChannel.Requester
new_channel content is_complete size n = record {
  request = content;
  fragment_size = size;
  initial_request_n = n;
  is_complete = is_complete;
  inbound_done = false;
  outbound_done = false;
  extension = none;
  holder = no_fragments;
  stream_id = none;
}

-- What the application asks for
pub data Interaction : Type 0 where
  fire_and_forget : Payload → Interaction
  request_response : Payload → Interaction
  request_stream : Payload → Number → Interaction
  request_channel : Payload → Number → Bool → Interaction

abbrev pub stream_of : ℕ → Interaction → Opening
stream_of size (fire_and_forget content) = open_fnf (new_fnf content size)
stream_of size (request_response content) = open_response (new_response content size)
stream_of size (request_stream content n) = open_stream (new_stream content size n)
stream_of size (request_channel content n is_completed) =
    open_channel (new_channel content is_completed size n)

-- `leaseManager.requestLease`, or `createRequestStream`
pub data Requested : Type 0 where
  lease_requested : Opening → Requested
  created : List Output × Multiplexer → Requested

-- Whether there is a lease manager, the fragment size and the error "Already closed"
unfoldable pub request : Bool → ℕ → ℕ → Interaction → Multiplexer → Requested
request true size already_closed interaction m = lease_requested (stream_of size interaction)
request false size already_closed interaction m =
    created (create_request_stream already_closed (stream_of size interaction) m)

-- `metadataPush`, and the receiver that is told
unfoldable pub push_metadata : Option Bytes → List Event
push_metadata metadata =
    sent (metadata_push (record { flags = Flags.metadata; metadata = metadata })) ∷ on_complete ∷ []

-- A stream that is made for the application can be opened.
pub stream_of-CanJoin :
    (size already_closed : ℕ) (interaction : Interaction)
    → CanJoin (start_stream already_closed (stream_of size interaction))
stream_of-CanJoin size already_closed (fire_and_forget content) = tt
stream_of-CanJoin size already_closed (request_response content) = tt
stream_of-CanJoin size already_closed (request_stream content n) = tt
stream_of-CanJoin size already_closed (request_channel content n is_completed) = (refl, inl refl)
