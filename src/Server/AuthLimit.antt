-- ===== src/Server/AuthLimit.antt =====
-- crates/rdpcore-server/src/auth_limit.rs: how many failed logins an address may have. The map is an
-- association list, whose order stands for the order in which the code's hash map is iterated; an
-- address is a number, of which only the equality counts; an instant is a number of nanoseconds.
pub mod Map
pub mod Bounds
pub mod Evict
pub mod Lock
use kmsrdp.Prelude.{
  ℕ, ◌+◌, ◌-◌, min, Bool, true, false, ◌&&◌, ◌||◌, Option, none, some, List, [], ◌∷◌, ◌++◌, length,
  ltb, leb, ◌==◌, if◌then◌else◌,
}

abbrev pub max_failures : ℕ
max_failures = 5

abbrev pub window : ℕ
window = 60_000_000_000

abbrev pub lockout : ℕ
lockout = 300_000_000_000

abbrev pub max_tracked : ℕ
max_tracked = 4096

pub record FailureState : Type 0 where
  pub count : ℕ
  pub first : ℕ
  pub locked_until : Option ℕ

abbrev pub Failures : Type 0
Failures = List (ℕ × FailureState)

unfoldable pub entry_live : FailureState → ℕ → Bool
entry_live state now = elim state.locked_until [
  | some until ↦ ltb now until
  | none ↦ leb (now - state.first) window
]

unfoldable pub gc : Failures → ℕ → Failures
gc [] now = []
gc ((ip, state) ∷ map) now =
    let rest = gc map now in if entry_live state now then (ip, state) ∷ rest else rest

-- The hash map's own operations on the list: `get`, `contains_key` and `remove`.
unfoldable pub get : ℕ → Failures → Option FailureState
get ip [] = none
get ip ((key, state) ∷ map) = let rest = get ip map in if key == ip then some state else rest

unfoldable pub contains_key : ℕ → Failures → Bool
contains_key ip map = elim (get ip map) [ none ↦ false | some state ↦ true ]

unfoldable pub remove : ℕ → Failures → Failures
remove ip [] = []
remove ip ((key, state) ∷ map) =
    let rest = remove ip map in if key == ip then rest else (key, state) ∷ rest

-- The order of the keys `(locked_until.is_some(), first)`.
unfoldable pub is_locked : FailureState → Bool
is_locked state = elim state.locked_until [ none ↦ false | some until ↦ true ]

unfoldable pub goes_before : FailureState → FailureState → Bool
goes_before s t = elim (is_locked s) [
  | true ↦ elim (is_locked t) [ true ↦ ltb s.first t.first | false ↦ false ]
  | false ↦ elim (is_locked t) [ true ↦ true | false ↦ ltb s.first t.first ]
]

-- `filter` and `min_by_key`: the first of the entries whose key is the least.
unfoldable pub victim : ℕ → Failures → Option (ℕ × FailureState)
victim incoming [] = none
victim incoming ((key, state) ∷ map) =
    let rest = victim incoming map in
    if key == incoming then rest else elim rest [
      | none ↦ some (key, state)
      | some (other, t) ↦ if goes_before t state then some (other, t) else some (key, state)
    ]

unfoldable pub evict_if_full : Failures → ℕ → Failures
evict_if_full map incoming =
    if ltb (length map) max_tracked || contains_key incoming map
    then map
    else elim (victim incoming map) [ none ↦ map | some (ip, state) ↦ remove ip map ]

unfoldable pub is_blocked : ℕ → ℕ → Failures → Bool × Failures
is_blocked ip now map =
    let live = gc map now in
    elim (get ip live) [
      | none ↦ (false, live)
      | some state ↦ (elim state.locked_until [ some until ↦ ltb now until | none ↦ false ], live)
    ]

unfoldable pub record_success : ℕ → Failures → Failures
record_success ip map = remove ip map

-- What `record_failure` does to the entry.
unfoldable pub reset_if_stale : FailureState → ℕ → FailureState
reset_if_stale state now =
    if ltb window (now - state.first)
    then record { count = 0; first = now; locked_until = none }
    else state

unfoldable pub count_failure : FailureState → ℕ → FailureState
count_failure state now =
    let count = min (state.count + 1) 0xffff_ffff in
    record state {
      count = count;
      locked_until = if leb max_failures count then some (now + lockout) else state.locked_until;
    }

unfoldable pub fail_entry : FailureState → ℕ → FailureState
fail_entry state now =
    if elim state.locked_until [ some until ↦ ltb now until | none ↦ false ]
    then state
    else count_failure (reset_if_stale state now) now

-- The entry of the address, or the fresh one that `or_insert` puts there.
unfoldable pub entry_or_fresh : Option FailureState → ℕ → FailureState
entry_or_fresh none now = record { count = 0; first = now; locked_until = none }
entry_or_fresh (some state) now = state

-- The entry is written in its place, or added.
unfoldable pub put : ℕ → FailureState → Failures → Failures
put ip new [] = (ip, new) ∷ []
put ip new ((key, state) ∷ map) =
    let rest = put ip new map in if key == ip then (ip, new) ∷ map else (key, state) ∷ rest

unfoldable pub record_failure : ℕ → ℕ → Failures → Failures
record_failure ip now map =
    let live = evict_if_full (gc map now) ip in
    put ip (fail_entry (entry_or_fresh (get ip live) now) now) live
