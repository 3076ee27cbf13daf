-- ===== src/Deferred.antt =====
-- packages/rsocket-core/src/Deferred.ts: an object that is closed once. A callback and an error are
-- their numbers, and the calls of callbacks are events. A callback that calls the object again finds
-- it closed already and its list empty, as a later call does.
pub mod Closed
pub mod Tests
use rsocket.Prelude.{
  ℕ, Bool, true, false, Option, none, some, List, [], ◌∷◌, ◌++◌, map, if◌then◌else◌,
}

pub record Deferred : Type 0 where
  pub done : Bool
  pub error : Option ℕ
  pub on_close_callbacks : List ℕ

abbrev pub new_deferred : Deferred
new_deferred = record { done = false; error = none; on_close_callbacks = [] }

-- `callback(error)`; a clean close calls `callback()`, which is `called none` too.
pub data Event : Type 0 where
  called : Option ℕ → ℕ → Event

unfoldable pub close : Option ℕ → Deferred → List Event × Deferred
close error d = if d.done then ([], d) else (
  map (called error) d.on_close_callbacks,
  record { done = true; error = error; on_close_callbacks = [] },
)

unfoldable pub on_close : ℕ → Deferred → List Event × Deferred
on_close callback d =
    if d.done
    then (called d.error callback ∷ [], d)
    else ([], record d { on_close_callbacks = d.on_close_callbacks ++ (callback ∷ []) })

pub data Call : Type 0 where
  close_call : Option ℕ → Call
  on_close_call : ℕ → Call

abbrev pub step : Call → Deferred → List Event × Deferred
step (close_call error) d = close error d
step (on_close_call callback) d = on_close callback d

abbrev pub run : List Call → Deferred → List Event × Deferred
run [] d = ([], d)
run (call ∷ calls) d =
    let (events, d') = step call d in let (more, d'') = run calls d' in (events ++ more, d'')
