-- ===== src/KeepAlive.antt =====
-- `KeepAliveHandler` of packages/rsocket-core/src/RSocketSupport.ts. Times are whole milliseconds of a
-- clock that does not go back, so that their difference is a natural number; the timer is when it is
-- due, if it is set, and the frames that are sent and the closing of the connection are events.
pub mod Timed
pub mod Tests
use rsocket.Prelude.{
  ℕ, ◌+◌, ◌-◌, max, Bool, true, false, Option, none, some, List, [], ◌∷◌, leb, if◌then◌else◌,
}
use rsocket.Prelude.Number.{pos}
use rsocket.Frames.{Frame, KeepAliveFrame, keepalive}
use rsocket.Frames.Flags

-- `KeepAliveHandlerStates`
pub data KeepAliveState : Type 0 where
  paused : KeepAliveState
  running : KeepAliveState
  closed : KeepAliveState

pub data Event : Type 0 where
  sent : Frame → Event
  connection_closed : Event

pub record KeepAliveHandler : Type 0 where
  pub last_received : ℕ
  pub timer : Option ℕ
  pub state : KeepAliveState

unfoldable pub handle : KeepAliveFrame → ℕ → KeepAliveHandler → List Event × KeepAliveHandler
handle frame now s =
    let ack =
      keepalive
        (record { flags = Flags.no_flags; body = frame.body; last_received_position = pos 0 }) in
    (if Flags.has_respond frame.flags then sent ack ∷ [] else [], record s { last_received = now })

-- `pause` and `close`: the timer is cleared.
unfoldable pub pause : KeepAliveHandler → KeepAliveHandler
pause s = elim s.state [
  | paused ↦ s
  | running ↦ record s { state = paused; timer = none }
  | closed ↦ s
]

unfoldable pub close : KeepAliveHandler → KeepAliveHandler
close s = record s { state = closed; timer = none }

module _ (duration : ℕ) where
  unfoldable pub start : ℕ → KeepAliveHandler → KeepAliveHandler
  start now s = elim s.state [
    | paused ↦ record { last_received = now; state = running; timer = some (now + duration) }
    | running ↦ s
    | closed ↦ s
  ]

  -- `timeoutCheck`, which the timer calls
  unfoldable pub timeout_check : ℕ → KeepAliveHandler → List Event × KeepAliveHandler
  timeout_check now s =
      let silence = now - s.last_received in
      if leb duration silence
      then (connection_closed ∷ [], record s { timer = none })
      else ([], record s { timer = some (now + max 100 (duration - silence)) })
