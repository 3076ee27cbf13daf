-- ===== src/Deferred/Tests.antt =====
-- The theorem on `Deferred` at concrete calls.
use rsocket.Prelude.{◌≡◌, none, some, [], ◌∷◌}
use rsocket.Deferred.{new_deferred, called, close_call, on_close_call, run}
use rsocket.Deferred.Closed.{run-close}

run-close_example :
    (run
      (on_close_call 1
        ∷ on_close_call 2
        ∷ close_call (some 9)
        ∷ close_call none
        ∷ on_close_call 3
        ∷ [])
      new_deferred).0
    ≡ called (some 9) 1 ∷ called (some 9) 2 ∷ called (some 9) 3 ∷ []
run-close_example =
    run-close (on_close_call 1 ∷ on_close_call 2 ∷ []) (close_call none ∷ on_close_call 3 ∷ [])
      (some 9) tt
