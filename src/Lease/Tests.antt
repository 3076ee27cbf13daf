-- ===== src/Lease/Tests.antt =====
-- The theorems on leases at concrete calls.
use rsocket.Prelude.{◌+◌, ◌≤◌, ◌≡◌, refl, List, [], ◌∷◌, arith, length, none}
use rsocket.Prelude.Number.{pos}
use rsocket.Frames.{LeaseFrame}
use rsocket.Lease.{
  LeaseHandler, new_handler, Call, handle_call, request_call, cancel_call, run, take_off,
  cancel_request, request_lease, rejected, withdrawn,
}
use rsocket.Lease.Bounds.{run_bound}
use rsocket.Lease.Conserved.{count, dealt_with, run-count}
use rsocket.Lease.Grants.{created_count, lease_bound}

abbrev two_requests : LeaseFrame
two_requests = record { flags = 0; ttl = pos 1000; request_count = pos 2; metadata = none }

abbrev requested : List Call
requested =
    request_call 1 (pos 10) ∷ request_call 2 (pos 20) ∷ request_call 3 (pos 30) ∷ cancel_call 1 ∷ []

-- Two of three requests find room to wait, and the first is cancelled; a lease creates the other.
run-requested : (run 2 requested new_handler).0 ≡ rejected 3 ∷ withdrawn 1 ∷ []
unfolding request_lease cancel_request take_off
run-requested = refl

run_bound_example : length (run 2 requested new_handler).1.pending_requests ≤ 2
run_bound_example = run_bound 2 requested new_handler (omega arith)

run-count_example :
    dealt_with 3 (run 2 requested new_handler).0
      + count 3 (run 2 requested new_handler).1.pending_requests
    ≡ 1
run-count_example = run-count 2 3 requested new_handler

abbrev waiting : LeaseHandler
waiting = record new_handler { pending_requests = 7 ∷ 8 ∷ 9 ∷ [] }

lease_bound_example :
    created_count (run 4 (handle_call two_requests (pos 40) ∷ requested) waiting).0 ≤ 2
lease_bound_example = lease_bound 4 two_requests (pos 40) requested waiting 2 refl tt
