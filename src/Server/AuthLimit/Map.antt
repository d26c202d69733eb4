-- ===== src/Server/AuthLimit/Map.antt =====
-- auth_limit.rs: lookups in the map after each of its operations.
use kmsrdp.Prelude.{ℕ, ◌≡◌, refl, none, some, [], ◌∷◌, arith, ◌==◌, if◌then◌else◌}
use kmsrdp.Server.AuthLimit.{FailureState, Failures, entry_live, gc, get, remove, put}

-- No address has two entries.
abbrev pub Distinct : Failures → Type 0
Distinct [] = Unit
Distinct ((ip, state) ∷ map) = (get ip map ≡ none) × Distinct map

module _ (ip : ℕ) where
  pub get-put :
      (other : ℕ) (new : FailureState) (map : Failures)
      → get other (put ip new map) ≡ (if ip == other then some new else get other map)
  unfolding get put
  get-put other new [] = refl
  get-put other new ((key, state) ∷ map) = ground (arith, get-put other new map)

  pub get-remove :
      (other : ℕ) (map : Failures)
      → get other (remove ip map) ≡ (if ip == other then none else get other map)
  unfolding get remove
  get-remove other [] = ground arith
  get-remove other ((key, state) ∷ map) = ground (arith, get-remove other map)

  pub get-gc-none : (now : ℕ) (map : Failures) → get ip map ≡ none → get ip (gc map now) ≡ none
  unfolding get gc
  get-gc-none now [] h = refl
  get-gc-none now ((key, state) ∷ map) h = ground (arith, get-gc-none now map)

  pub get-gc :
      (now : ℕ) (map : Failures) (state : FailureState)
      → Distinct map
      → get ip map ≡ some state
      → get ip (gc map now) ≡ (if entry_live state now then some state else none)
  unfolding get gc
  get-gc now [] state d h = absurd (cc)
  get-gc now ((key, t) ∷ map) state d h = ground (arith, get-gc now map state, get-gc-none now map)

pub Distinct-gc : (now : ℕ) (map : Failures) → Distinct map → Distinct (gc map now)
unfolding gc
Distinct-gc now [] d = tt
Distinct-gc now ((key, state) ∷ map) d =
    ground (arith, get-gc-none key now map, Distinct-gc now map)

pub Distinct-remove : (ip : ℕ) (map : Failures) → Distinct map → Distinct (remove ip map)
unfolding remove
Distinct-remove ip [] d = tt
Distinct-remove ip ((key, state) ∷ map) d =
    ground (arith, get-remove ip key map, Distinct-remove ip map)

pub Distinct-put :
    (ip : ℕ) (new : FailureState) (map : Failures) → Distinct map → Distinct (put ip new map)
unfolding put get
Distinct-put ip new [] d = (refl, tt)
Distinct-put ip new ((key, state) ∷ map) d =
    ground (arith, get-put ip key new map, Distinct-put ip new map)
