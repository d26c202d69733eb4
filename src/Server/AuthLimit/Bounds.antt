-- ===== src/Server/AuthLimit/Bounds.antt =====
-- auth_limit.rs: the size of the map, and its keys.
use kmsrdp.Prelude.{
  ℕ, ◌+◌, ◌≤◌, ◌<◌, ◌≡◌, ◌≢◌, refl, sym, ◌∙◌, none, some, [], ◌∷◌, length, arith, ltb,
  if◌then◌else◌, Bool-cases, Option-cases, inl, inr, ◌⊎◌,
}
use native.Mathlib.Decide.{ℕ_discrete}
use kmsrdp.Server.AuthLimit.Map.{Distinct, Distinct-gc, Distinct-put, Distinct-remove}
use kmsrdp.Server.AuthLimit.{
  FailureState, Failures, max_tracked, gc, get, contains_key, remove, goes_before, victim,
  evict_if_full, put, record_failure,
}

length-gc : (now : ℕ) (map : Failures) → length (gc map now) ≤ length map
unfolding gc
length-gc now [] = omega arith
length-gc now ((key, state) ∷ map) = ground (arith, length-gc now map)

length-remove : (ip : ℕ) (map : Failures) → length (remove ip map) ≤ length map
unfolding remove
length-remove ip [] = omega arith
length-remove ip ((key, state) ∷ map) = ground (arith, length-remove ip map)

length-remove-some :
    (ip : ℕ) (map : Failures) (state : FailureState)
    → get ip map ≡ some state
    → length (remove ip map) < length map
unfolding remove get
length-remove-some ip [] state h = absurd (cc)
length-remove-some ip ((key, t) ∷ map) state h =
    ground (arith, length-remove ip map, length-remove-some ip map state)

length-put-some :
    (ip : ℕ) (new : FailureState) (map : Failures) (state : FailureState)
    → get ip map ≡ some state
    → length (put ip new map) ≡ length map
unfolding put get
length-put-some ip new [] state h = absurd (cc)
length-put-some ip new ((key, t) ∷ map) state h = ground (arith, length-put-some ip new map state)

length-put :
    (ip : ℕ) (new : FailureState) (map : Failures) → length (put ip new map) ≤ length map + 1
unfolding put
length-put ip new [] = omega arith
length-put ip new ((key, t) ∷ map) = ground (arith, length-put ip new map)

pub victim_skip :
    (incoming key : ℕ) (s : FailureState) (map : Failures)
    → key ≡ incoming
    → victim incoming ((key, s) ∷ map) ≡ victim incoming map
unfolding victim
victim_skip incoming key s map e = ground arith

-- The chosen entry of a map that starts with another address: the first, or the one chosen from the
-- rest.
pub victim_pick :
    (incoming key : ℕ) (s : FailureState) (map : Failures)
    → key ≢ incoming
    → ((victim incoming map ≡ none) × (victim incoming ((key, s) ∷ map) ≡ some (key, s)))
      ⊎ ((best : ℕ × FailureState) × (victim incoming map ≡ some best)
          × (victim incoming ((key, s) ∷ map)
              ≡ (if goes_before best.1 s then some best else some (key, s))))
unfolding victim
victim_pick incoming key s map ne = elim (Option-cases (victim incoming map)) [
  | inl nothing ↦ inl (nothing, ground arith)
  | inr (best, found) ↦ inr (best, found, ground arith)
]

get_later :
    (key other : ℕ) (s t : FailureState) (map : Failures)
    → get key map ≡ none
    → get other map ≡ some t
    → get other ((key, s) ∷ map) ≡ some t
unfolding get
get_later key other s t map h e = ground arith

get_here : (key : ℕ) (s : FailureState) (map : Failures) → get key ((key, s) ∷ map) ≡ some s
unfolding get
get_here key s map = ground arith

-- The chosen entry is one of the map's, and not that of the address that comes in.
pub victim_found :
    (incoming : ℕ) (map : Failures) (ip : ℕ) (state : FailureState)
    → Distinct map
    → victim incoming map ≡ some (ip, state)
    → (get ip map ≡ some state) × (ip ≢ incoming)
victim_found incoming [] ip state d h = unfold victim in absurd (cc)
victim_found incoming ((key, s) ∷ map) ip state d h = elim (ℕ_discrete key incoming) [
  | yes same ↦
      later (victim_found incoming map ip state d.1 (sym (victim_skip incoming key s map same) ∙ h))
  | no ne ↦ elim (victim_pick incoming key s map ne) [
    | inl (nothing, picked) ↦ here ne (cc (picked, h)) (cc (picked, h))
    | inr (best, found, picked) ↦ elim (Bool-cases (goes_before best.1 s)) [
      | inl before ↦
          let first : victim incoming ((key, s) ∷ map) ≡ some best = rw before at picked in
          let best_ip : best.0 ≡ ip = cc (first, h) in
          let best_state : best.1 ≡ state = cc (first, h) in
          later (rw (best_ip, best_state) at (victim_found incoming map best.0 best.1 d.1 found))
      | inr after ↦
          let first : victim incoming ((key, s) ∷ map) ≡ some (key, s) = rw after at picked in
          here ne (cc (first, h)) (cc (first, h))
    ]
  ]
]
  where
    later :
        (get ip map ≡ some state) × (ip ≢ incoming)
        → (get ip ((key, s) ∷ map) ≡ some state) × (ip ≢ incoming)
    later r = (get_later key ip s state map d.0 r.0, r.1)

    here :
        key ≢ incoming
        → key ≡ ip
        → s ≡ state
        → (get ip ((key, s) ∷ map) ≡ some state) × (ip ≢ incoming)
    here ne e f = rw (sym e, sym f) (get_here key s map, ne)

-- There is one, unless every entry is that of the address that comes in.
pub victim-none :
    (incoming : ℕ) (map : Failures)
    → victim incoming map ≡ none
    → get incoming map ≡ none
    → map ≡ []
unfolding get
victim-none incoming [] h g = refl
victim-none incoming ((key, s) ∷ map) h g = elim (ℕ_discrete key incoming) [
  | yes same ↦ absurd (ground arith)
  | no ne ↦ absurd (ground (arith, victim_pick incoming key s map ne))
]

-- The map's keys are distinct, and it is no larger than the limit.
pub record IsValid (map : Failures) : Type 0 where
  pub distinct : Distinct map
  pub size : length map ≤ max_tracked

-- What `evict_if_full` does: nothing, since there is room or the address has an entry, or it removes
-- the chosen entry.
abbrev pub Evicted : Failures → ℕ → Type 0
Evicted map ip =
    ((evict_if_full map ip ≡ map)
      × ((length map < max_tracked) ⊎ ((state : FailureState) × (get ip map ≡ some state))))
    ⊎ ((best : ℕ × FailureState) × (victim ip map ≡ some best)
        × (get ip map ≡ none)
        × (evict_if_full map ip ≡ remove best.0 map))

pub evict_cases : (map : Failures) (ip : ℕ) → Evicted map ip
unfolding evict_if_full contains_key
evict_cases map ip = elim (Bool-cases (ltb (length map) max_tracked)) [
  | inl small ↦ inl (ground arith, inl (ground arith))
  | inr full ↦ elim (Option-cases (get ip map)) [
    | inr (state, found) ↦ inl (ground (arith, found, full), inr (state, found))
    | inl absent ↦ elim (Option-cases (victim ip map)) [
      | inr (best, found) ↦ inr (best, found, absent, ground (arith, found, absent, full))
      | inl nothing ↦ absurd (ground (arith, victim-none ip map nothing absent))
    ]
  ]
]

pub Distinct-evict_if_full :
    (map : Failures) (ip : ℕ) → Distinct map → Distinct (evict_if_full map ip)
Distinct-evict_if_full map ip d = elim (evict_cases map ip) [
  | inl (same, why) ↦ rw same d
  | inr (best, found, absent, removed) ↦ rw removed (Distinct-remove best.0 map d)
]

-- After an eviction the entry of the address has room, or takes the place of an older one.
put_room :
    (map : Failures) (ip : ℕ) (new : FailureState)
    → IsValid map
    → length (put ip new (evict_if_full map ip)) ≤ max_tracked
put_room map ip new v = elim (evict_cases map ip) [
  | inl (same, inl small) ↦ rw same (omega (arith, length-put ip new map, small))
  | inl (same, inr (state, found)) ↦ rw (same, length-put-some ip new map state found) v.size
  | inr (best, found, absent, removed) ↦
      let taken = (victim_found ip map best.0 best.1 v.distinct found).0 in
      rw removed (
        omega (
          arith,
          length-put ip new (remove best.0 map),
          length-remove-some best.0 map best.1 taken,
          v.size,
        ))
]

-- record_failure keeps the keys of the map distinct and its size within MAX_TRACKED, if they
-- were so before.
pub record_failure-IsValid :
    (ip now : ℕ) (map : Failures) → IsValid map → IsValid (record_failure ip now map)
unfolding record_failure
record_failure-IsValid ip now map v =
    let live = gc map now in
    let live_valid : IsValid live = record {
      distinct = Distinct-gc now map v.distinct;
      size = omega (arith, length-gc now map, v.size);
    } in
    record {
      distinct = Distinct-put ip _ _ (Distinct-evict_if_full live ip live_valid.distinct);
      size = put_room live ip _ live_valid;
    }
