-- ===== src/StreamIds/Tests.antt =====
-- The theorems on the ids of streams at concrete ids.
use rsocket.Prelude.{ℕ, ◌≡◌, ◌≢◌, refl, false, true, [], ◌∷◌, arith}
use rsocket.Prelude.Number.{pos, negsuc}
use rsocket.StreamIds.{
  has, search_loop, search, next, offered, never_ends, parity_start_of, max_stream_id,
}
use rsocket.StreamIds.Fresh.{IsId, next-offered, next_free, next_ends}

-- At the boundary the ids go round, and the ids 1 and 3 are in use.
next_around : next (pos max_stream_id) (λ id. true) (1 ∷ 3 ∷ []) ≡ (offered 5, pos 5)
unfolding next search search_loop
next_around = refl

next-offered_example :
    IsId (parity_start_of (pos max_stream_id)) 5
    × (has (1 ∷ 3 ∷ []) 5 ≡ false)
    × ((next (pos max_stream_id) (λ id. false) (1 ∷ 3 ∷ [])).1 ≡ pos max_stream_id)
unfolding next search search_loop
next-offered_example =
    next-offered (pos max_stream_id) (λ id. false) (1 ∷ 3 ∷ []) (omega arith) 5 refl

next_ends_example : (next (negsuc 0) (λ id. true) (1 ∷ [])).0 ≢ never_ends
next_ends_example = next_ends (negsuc 0) (λ id. true) (1 ∷ []) refl

next_free_example : (k : ℕ) × ((next (pos 0) (λ id. true) (2 ∷ 4 ∷ [])).0 ≡ offered k)
next_free_example =
    next_free (pos 0) (λ id. true) (2 ∷ 4 ∷ []) (omega arith) 8
      (record { parity = refl; lowest = omega arith; highest = omega arith }) refl
