-- ===== src/StreamIds/Fresh.antt =====
-- The ids that `StreamIdGenerator` offers.
use rsocket.Prelude.{
  ℕ, zero, suc, ◌+◌, ◌*◌, ◌%◌, ◌^◌, ◌≤◌, ◌<◌, ◌≡◌, ◌≢◌, refl, ap, ◌∙◌, sym, subst, Bool, true,
  false, List, arith, ltb, ◌==◌, ◌⊎◌, inl, inr, Bool-cases, if◌then◌else◌,
}
use rsocket.Prelude.Number.{Number, nan, pos, negsuc}
use rsocket.StreamIds.{
  max_stream_id, has, Search, found, all_in_use, out_of_fuel, advance, search_loop, search, settle,
  next, offered, never_ends, parity_start_of, first_candidate_of,
}

-- An id of the side that starts at `start`.
pub record IsId (start id : ℕ) : Type 0 where
  pub parity : id % 2 ≡ start % 2
  pub lowest : start ≤ id
  pub highest : id ≤ max_stream_id

-- The ids that the way round from `first` to `id` has passed.
abbrev Passed : ℕ → ℕ → ℕ → Type 0
Passed first id j =
    ((first ≤ id) × (first ≤ j) × (j < id)) ⊎ ((id < first) × ((first ≤ j) ⊎ (j < id)))

-- The fuel lasts for the rest of the way round.
abbrev Lasts : ℕ → ℕ → ℕ → ℕ → Type 0
Lasts start first fuel id =
    ((first ≤ id) × (max_stream_id + first + 2 ≤ 2 * fuel + id + start))
    ⊎ ((id < first) × (first ≤ 2 * fuel + id))

-- What the search found: a free id, or that there is none.
abbrev Outcome : List ℕ → ℕ → Search → Type 0
Outcome in_use start (found id) = IsId start id × (has in_use id ≡ false)
Outcome in_use start all_in_use = (j : ℕ) → IsId start j → has in_use j ≡ true
Outcome in_use start out_of_fuel = ⊥

advance-cases :
    (start id : ℕ)
    → ((max_stream_id < id + 2) × (advance start id ≡ start))
      ⊎ ((id + 2 ≤ max_stream_id) × (advance start id ≡ id + 2))
advance-cases start id = ground arith

module _ (in_use : List ℕ) (start first : ℕ) (low : 1 ≤ start) (high : start ≤ 2)
    (is_first : IsId start first) where
  advance-IsId : (id : ℕ) → IsId start id → IsId start (advance start id)
  advance-IsId id h = elim (advance-cases start id) [
    | inl (around, e) ↦ rw e (record { parity = refl; lowest = omega arith; highest = omega arith })
    | inr (ahead, e) ↦ rw e (record { parity = omega arith; lowest = omega arith; highest = ahead })
  ]

  Passed-advance :
      (id j : ℕ)
      → IsId start id
      → IsId start j
      → Passed first (advance start id) j
      → Passed first id j ⊎ (j ≡ id)
  Passed-advance id j h hj p = elim (advance-cases start id) [
    | inl (around, e) ↦ let q : Passed first start j = rw (sym e) p in ground arith
    | inr (ahead, e) ↦ let q : Passed first (id + 2) j = rw (sym e) p in ground arith
  ]

  Lasts-advance :
      (fuel id : ℕ)
      → IsId start id
      → Lasts start first (suc fuel) id
      → (advance start id == first) ≡ false
      → Lasts start first fuel (advance start id)
  Lasts-advance fuel id h l e = elim (advance-cases start id) [
    | inl (around, a) ↦ let q : (start == first) ≡ false = rw (sym a) e in rw a (ground arith)
    | inr (ahead, a) ↦ let q : (id + 2 == first) ≡ false = rw (sym a) e in rw a (ground arith)
  ]

  Passed-all_round :
      (id j : ℕ)
      → IsId start id
      → IsId start j
      → (advance start id == first) ≡ true
      → Passed first id j ⊎ (j ≡ id)
  Passed-all_round id j h hj e = elim (advance-cases start id) [
    | inl (around, a) ↦ let q : (start == first) ≡ true = rw (sym a) e in ground arith
    | inr (ahead, a) ↦ let q : (id + 2 == first) ≡ true = rw (sym a) e in ground arith
  ]

  search_loop-Outcome :
      (fuel id : ℕ)
      → IsId start id
      → Lasts start first fuel id
      → ((j : ℕ) → IsId start j → Passed first id j → has in_use j ≡ true)
      → Outcome in_use start (search_loop fuel in_use start first id)
  unfolding search_loop
  search_loop-Outcome zero id h l passed = absurd (ground arith)
  search_loop-Outcome (suc fuel) id h l passed = elim (Bool-cases (has in_use id)) [
    | inr free ↦ rw free (h, free)
    | inl taken ↦ elim (Bool-cases (advance start id == first)) [
      | inl around ↦
          rw (taken, around)
            (λ j hj. elim (Passed-all_round id j h hj around) [
              | inl before ↦ passed j hj before
              | inr here ↦ ap (has in_use) here ∙ taken
            ])
      | inr on ↦
          rw (taken, on)
            (search_loop-Outcome fuel (advance start id) (advance-IsId id h)
              (Lasts-advance fuel id h l on)
              (λ j hj p. elim (Passed-advance id j h hj p) [
                | inl before ↦ passed j hj before
                | inr here ↦ ap (has in_use) here ∙ taken
              ]))
    ]
  ]

-- What `currentId` holds: the seed of a side, or an id that was taken.
abbrev pub IsCurrent : Number → Type 0
IsCurrent nan = ⊥
IsCurrent (pos n) = n ≤ max_stream_id
IsCurrent (negsuc n) = n ≡ 0

start-range : (current : Number) → (1 ≤ parity_start_of current) × (parity_start_of current ≤ 2)
start-range nan = (omega arith, omega arith)
start-range (pos n) = ground arith
start-range (negsuc n) = ground arith

candidate-IsId :
    (current : Number)
    → IsCurrent current
    → (first : ℕ) × (first_candidate_of current ≡ pos first) × IsId (parity_start_of current) first
candidate-IsId nan h = absurd h
candidate-IsId (pos n) h =
    let start = parity_start_of (pos n) in
    let parity : n % 2 ≡ start % 2 = ground arith in
    let (low, high) = start-range (pos n) in
    elim (advance-cases start n) [
      | inl (around, e) ↦
          let past : ltb max_stream_id (n + 2) ≡ true = ground arith in
          (
            start,
            rw past refl,
            record { parity = refl; lowest = omega arith; highest = omega arith },
          )
      | inr (ahead, e) ↦
          let inside : ltb max_stream_id (n + 2) ≡ false = ground arith in
          (
            n + 2,
            rw inside refl,
            record { parity = omega arith; lowest = omega arith; highest = ahead },
          )
    ]
candidate-IsId (negsuc n) h = (
  1,
  ground arith,
  record { parity = rw h refl; lowest = rw h (omega arith); highest = omega arith },
)

search-Outcome :
    (current : Number) (in_use : List ℕ)
    → IsCurrent current
    → Outcome in_use (parity_start_of current) (search current in_use)
unfolding search
search-Outcome current in_use h =
    let start = parity_start_of current in
    let (first, e, is_first) = candidate-IsId current h in
    let (low, high) = start-range current in
    rw e (
      search_loop-Outcome in_use start first low high is_first (2 ^ 30 + 1) first is_first
        (inl (omega arith)) (λ j hj p. absurd (ground arith)))

module _ (current : Number) (handler : ℕ → Bool) (in_use : List ℕ) (start : ℕ) where
  settle-offered :
      (r : Search) (id : ℕ)
      → Outcome in_use start r
      → (settle current handler r).0 ≡ offered id
      → IsId start id
        × (has in_use id ≡ false)
        × ((settle current handler r).1 ≡ (if handler id then pos id else current))
  settle-offered (found k) id (is_id, free) e =
      let same : k ≡ id = cc in
      (
        subst (IsId start) same is_id,
        ap (has in_use) (sym same) ∙ free,
        ap (λ i. if handler i then pos i else current) same,
      )
  settle-offered all_in_use id o e = absurd cc
  settle-offered out_of_fuel id o e = absurd cc

  settle_free :
      (r : Search) (id : ℕ)
      → Outcome in_use start r
      → IsId start id
      → has in_use id ≡ false
      → (k : ℕ) × ((settle current handler r).0 ≡ offered k)
  settle_free (found k) id o h free = (k, refl)
  settle_free all_in_use id o h free = let taken = o id h in absurd cc
  settle_free out_of_fuel id o h free = absurd o

  settle_ends : (r : Search) → Outcome in_use start r → (settle current handler r).0 ≢ never_ends
  settle_ends (found k) o e = absurd cc
  settle_ends all_in_use o e = absurd cc
  settle_ends out_of_fuel o e = o

module _ (current : Number) (handler : ℕ → Bool) (in_use : List ℕ) (h : IsCurrent current) where
  -- The id that `next` calls its handler with has the parity of the generator's ids, lies between
  -- the lowest of them and the highest stream id, and is not in use; it becomes the current id where
  -- the handler takes it, and where not the current id stays as it is. Before the call the current
  -- id is a seed or an id that was taken.
  pub next-offered :
      (id : ℕ)
      → (next current handler in_use).0 ≡ offered id
      → IsId (parity_start_of current) id
        × (has in_use id ≡ false)
        × ((next current handler in_use).1 ≡ (if handler id then pos id else current))
  unfolding next
  next-offered id e =
      settle-offered current handler in_use (parity_start_of current) (search current in_use) id
        (search-Outcome current in_use h) e

  -- As long as an id of the generator's parity is free, `next` calls its handler with one, if the
  -- current id is a seed or an id that was taken.
  pub next_free :
      (id : ℕ)
      → IsId (parity_start_of current) id
      → has in_use id ≡ false
      → (k : ℕ) × ((next current handler in_use).0 ≡ offered k)
  unfolding next
  next_free id is_id free =
      settle_free current handler in_use (parity_start_of current) (search current in_use) id
        (search-Outcome current in_use h) is_id free

  -- The search for an id ends, if the current id is a seed or an id that was taken.
  pub next_ends : (next current handler in_use).0 ≢ never_ends
  unfolding next
  next_ends =
      settle_ends current handler in_use (parity_start_of current) (search current in_use)
        (search-Outcome current in_use h)
