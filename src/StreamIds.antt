-- ===== src/StreamIds.antt =====
-- packages/rsocket-core/src/ClientServerMultiplexerDemultiplexer.ts: `StreamIdGenerator`, which
-- gives a new stream the next free id of its side's parity. The handler that is asked whether it
-- takes the id is a parameter. The loop is on fuel, one round for each id of a parity.
pub mod Fresh
pub mod Tests
use rsocket.Prelude.{
  ℕ, zero, suc, ◌+◌, ◌-◌, ◌%◌, ◌^◌, Bool, true, false, ◌||◌, List, [], ◌∷◌, ltb, ◌==◌,
  if◌then◌else◌,
}
use rsocket.Prelude.Number.{Number, nan, pos, negsuc, add, lt}

-- `MAX_STREAM_ID` of RSocket.ts
abbrev pub max_stream_id : ℕ
max_stream_id = 0x7fffffff

-- `(id & 1) === 1`
abbrev pub is_odd : Number → Bool
is_odd nan = false
is_odd (pos n) = n % 2 == 1
is_odd (negsuc n) = n % 2 == 0

-- `inUse.has(id)`
abbrev pub has : List ℕ → ℕ → Bool
has [] id = false
has (x ∷ xs) id = x == id || has xs id

-- How the search for an id ends.
pub data Search : Type 0 where
  found : ℕ → Search
  all_in_use : Search
  out_of_fuel : Search

-- `nextId += 2`, with the way round at the boundary
abbrev pub advance : ℕ → ℕ → ℕ
advance parity_start id = if ltb max_stream_id (id + 2) then parity_start else id + 2

unfoldable pub search_loop : ℕ → List ℕ → ℕ → ℕ → ℕ → Search
search_loop zero in_use parity_start first_candidate next_id = out_of_fuel
search_loop (suc fuel) in_use parity_start first_candidate next_id =
    let next = advance parity_start next_id in
    let rest = search_loop fuel in_use parity_start first_candidate next in
    if has in_use next_id
    then if next == first_candidate then all_in_use else rest
    else found next_id

abbrev pub parity_start_of : Number → ℕ
parity_start_of current_id = if is_odd current_id then 1 else 2

-- The first candidate, behind `currentId`.
abbrev pub first_candidate_of : Number → Number
first_candidate_of current_id =
    let next_id = add current_id (pos 2) in
    if lt (pos max_stream_id) next_id then pos (parity_start_of current_id) else next_id

-- The ids of the two sides start at -1 and 0, so that every candidate is a natural number; of
-- another seed the search is not modelled.
abbrev to_search : ℕ → List ℕ → ℕ → Number → Search
to_search fuel in_use parity_start nan = out_of_fuel
to_search fuel in_use parity_start (negsuc n) = out_of_fuel
to_search fuel in_use parity_start (pos first) = search_loop fuel in_use parity_start first first

unfoldable pub search : Number → List ℕ → Search
search current_id in_use =
    to_search (2 ^ 30 + 1) in_use (parity_start_of current_id) (first_candidate_of current_id)

-- `next(handler, streamIds)`: the id that the handler is called with, if any, and `currentId`.
pub data Offer : Type 0 where
  offered : ℕ → Offer
  not_offered : Offer
  never_ends : Offer

abbrev pub settle : Number → (ℕ → Bool) → Search → Offer × Number
settle current_id handler (found id) = (offered id, if handler id then pos id else current_id)
settle current_id handler all_in_use = (not_offered, current_id)
settle current_id handler out_of_fuel = (never_ends, current_id)

unfoldable pub next : Number → (ℕ → Bool) → List ℕ → Offer × Number
next current_id handler in_use = settle current_id handler (search current_id in_use)
