-- ===== src/Lease.antt =====
-- `LeaseHandler` of packages/rsocket-core/src/RSocketSupport.ts: requests that wait for a lease. A
-- request's handler is its number; the calls that leave the component are events, and the clock is
-- an argument.
pub mod Bounds
pub mod Conserved
pub mod Grants
pub mod Tests
use rsocket.Prelude.{
  ℕ, suc, ◌+◌, Bool, true, false, ◌&&◌, List, [], ◌∷◌, ◌++◌, map, length, leb, ◌==◌, if◌then◌else◌,
}
use rsocket.Prelude.Number.{Number, pos, add, sub, lt}
use rsocket.Frames.{LeaseFrame}

-- What the component does to a handler: `multiplexer.createRequestStream(handler)`,
-- `handler.handleReject(error)`, and, to keep the account of handlers, taking it off the queue.
pub data Event : Type 0 where
  created : ℕ → Event
  rejected : ℕ → Event
  withdrawn : ℕ → Event

pub record LeaseHandler : Type 0 where
  pub pending_requests : List ℕ
  pub expiration_time : Number
  pub available_lease : Number

abbrev pub new_handler : LeaseHandler
new_handler = record { pending_requests = []; expiration_time = pos 0; available_lease = pos 0 }

-- The loop of `handle`
unfoldable pub grant_loop : List ℕ → Number → List Event × List ℕ × Number
grant_loop [] available = ([], [], available)
grant_loop (handler ∷ pending) available =
    let (events, waiting, left) = grant_loop pending (sub available (pos 1)) in
    if lt (pos 0) available
    then (created handler ∷ events, waiting, left)
    else ([], handler ∷ pending, available)

unfoldable pub handle : LeaseFrame → Number → LeaseHandler → List Event × LeaseHandler
handle frame now s =
    let (events, pending, available) = grant_loop s.pending_requests frame.request_count in
    (
      events,
      record {
        pending_requests = pending;
        expiration_time = add frame.ttl now;
        available_lease = available;
      },
    )

-- `splice(indexOf(handler), 1)` of a list that may have it
unfoldable pub take_off : ℕ → List ℕ → List Event × List ℕ
take_off handler [] = ([], [])
take_off handler (x ∷ xs) =
    let (events, rest) = take_off handler xs in
    if x == handler then (withdrawn x ∷ [], xs) else (events, x ∷ rest)

unfoldable pub cancel_request : ℕ → LeaseHandler → List Event × LeaseHandler
cancel_request handler s =
    let (events, pending) = take_off handler s.pending_requests in
    (events, record s { pending_requests = pending })

unfoldable pub close : LeaseHandler → List Event × LeaseHandler
close s = (map rejected s.pending_requests, record s { pending_requests = [] })

-- The calls that reach the component.
pub data Call : Type 0 where
  handle_call : LeaseFrame → Number → Call
  request_call : ℕ → Number → Call
  cancel_call : ℕ → Call
  close_call : Call

module _ (max_pending : ℕ) where
  unfoldable pub request_lease : ℕ → Number → LeaseHandler → List Event × LeaseHandler
  request_lease handler now s =
      if lt (pos 0) s.available_lease && lt now s.expiration_time
      then (created handler ∷ [], record s { available_lease = sub s.available_lease (pos 1) })
      else if leb max_pending (length s.pending_requests)
      then (rejected handler ∷ [], s)
      else ([], record s { pending_requests = s.pending_requests ++ (handler ∷ []) })

  abbrev pub step : Call → LeaseHandler → List Event × LeaseHandler
  step (handle_call frame now) s = handle frame now s
  step (request_call handler now) s = request_lease handler now s
  step (cancel_call handler) s = cancel_request handler s
  step close_call s = close s

  -- A sequence of calls, with all that it causes.
  abbrev pub run : List Call → LeaseHandler → List Event × LeaseHandler
  run [] s = ([], s)
  run (call ∷ calls) s =
      let (events, s') = step call s in let (more, s'') = run calls s' in (events ++ more, s'')
