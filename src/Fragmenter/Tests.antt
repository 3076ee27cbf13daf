-- ===== src/Fragmenter/Tests.antt =====
-- The theorems on Fragmenter.ts at concrete payloads.
use rsocket.Prelude.{◌≡◌, refl, true, false, some, none, [], ◌∷◌, arith, inr}
use rsocket.Prelude.Number.{pos}
use rsocket.Prelude.Generator.{Generator, yield}
use rsocket.Frames.{Frame}
use rsocket.Bytes.{Bytes}
use rsocket.Reassembler.{Payload}
use rsocket.Reassembler.Shape.{idle, holder_of}
use rsocket.Fragmenter.{
  fnf_kind, stream_kind, fragment, fragment_with_request_n, is_fragmentable, request_many_frame,
}
use rsocket.Fragmenter.Receive.{receive}
use rsocket.Fragmenter.RoundTrip.{receive-fragment_with_request_n}
use rsocket.Fragmenter.Unfinished.{AllFollow, fragment-AllFollow}
use rsocket.Fragmenter.Within.{AllWithin, fragment-AllWithin}
use rsocket.Fragmenter.Overrun.{fragment_with_request_n_overrun}

abbrev nine : Bytes
nine = 1 ∷ 2 ∷ 3 ∷ 4 ∷ 5 ∷ 6 ∷ 7 ∷ 8 ∷ 9 ∷ []

abbrev small : Payload
small = record { body = some nine; metadata = some (7 ∷ 7 ∷ 7 ∷ []) }

receive-fragment_with_request_n_example :
    receive (holder_of idle) (fragment_with_request_n (pos 1) small 7 stream_kind (pos 4) true)
    ≡ some small
unfolding is_fragmentable
receive-fragment_with_request_n_example =
    receive-fragment_with_request_n (pos 1) (pos 4) nine (some (7 ∷ 7 ∷ 7 ∷ [])) 7 stream_kind true
      (omega arith) (omega arith) refl (inr (omega arith))

fragment-AllFollow_example :
    AllFollow (fragment (pos 1) (record { body = none; metadata = some nine }) 5 fnf_kind false)
fragment-AllFollow_example =
    fragment-AllFollow (pos 1) 1 (2 ∷ 3 ∷ 4 ∷ 5 ∷ 6 ∷ 7 ∷ 8 ∷ 9 ∷ []) 5 fnf_kind (omega arith)

abbrev seven : Payload
seven = record { body = some nine; metadata = some (7 ∷ []) }

-- The first frame carries eight of the nine bytes, in place of one.
fragment_with_request_n_overrun_example :
    (rest : Generator Frame (Unit {0})) × (fragment_with_request_n
        (pos 1)
        seven
        9
        stream_kind
        (pos 4)
        false
      ≡ yield
          (request_many_frame stream_kind
            (pos 1)
            (pos 4)
            0x180
            (some (1 ∷ 2 ∷ 3 ∷ 4 ∷ 5 ∷ 6 ∷ 7 ∷ 8 ∷ []))
            (some (7 ∷ [])))
          rest)
fragment_with_request_n_overrun_example =
    fragment_with_request_n_overrun (pos 1) (pos 4) nine 7 [] 9 stream_kind false (omega arith)
      (omega arith) (omega arith)

fragment-AllWithin_example : AllWithin 5 (fragment (pos 1) small 5 fnf_kind true)
fragment-AllWithin_example = fragment-AllWithin (pos 1) small 5 fnf_kind true (omega arith)
