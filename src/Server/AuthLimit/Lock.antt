-- ===== src/Server/AuthLimit/Lock.antt =====
-- auth_limit.rs: the failures of one address, counted, and the lock.
use kmsrdp.Prelude.{
  ℕ, suc, ◌+◌, ◌-◌, ◌≤◌, ◌<◌, ◌≡◌, refl, ap, ◌∙◌, true, false, none, some, List, [], ◌∷◌, length,
  All, arith, ltb, ==_self, inl, inr,
}
use kmsrdp.Server.AuthLimit.{
  FailureState, Failures, window, lockout, entry_live, gc, get, remove, evict_if_full, is_blocked,
  record_success, reset_if_stale, count_failure, fail_entry, entry_or_fresh, record_failure,
}
use kmsrdp.Server.AuthLimit.Map.{
  Distinct, get-put, get-remove, get-gc-none, get-gc, Distinct-gc, Distinct-put, Distinct-remove,
}
use kmsrdp.Server.AuthLimit.Bounds.{evict_cases, Distinct-evict_if_full}

get-evict_own : (map : Failures) (ip : ℕ) → get ip (evict_if_full map ip) ≡ get ip map
get-evict_own map ip = elim (evict_cases map ip) [
  | inl (same, why) ↦ rw same refl
  | inr (best, found, absent, removed) ↦
      rw removed (ground (arith, get-remove best.0 ip map, absent))
]

pub Distinct-record_failure :
    (ip now : ℕ) (map : Failures) → Distinct map → Distinct (record_failure ip now map)
unfolding record_failure
Distinct-record_failure ip now map d =
    Distinct-put ip _ _ (Distinct-evict_if_full (gc map now) ip (Distinct-gc now map d))

pub get-record_failure :
    (ip now : ℕ) (map : Failures)
    → get ip (record_failure ip now map)
      ≡ some (fail_entry (entry_or_fresh (get ip (gc map now)) now) now)
unfolding record_failure
get-record_failure ip now map = rw (get-put, ==_self, get-evict_own) refl

-- An entry that has counted `n` failures since `first` and is not locked.
abbrev counting : ℕ → ℕ → FailureState
counting n first = record { count = n; first = first; locked_until = none }

abbrev locked : ℕ → ℕ → ℕ → FailureState
locked n first last = record { count = n; first = first; locked_until = some (last + lockout) }

count_one :
    (n first now : ℕ)
    → now - first ≤ window
    → n < 4
    → fail_entry (counting n first) now ≡ counting (n + 1) first
unfolding fail_entry reset_if_stale count_failure
count_one n first now h k = ground arith

count_last :
    (first now : ℕ) → now - first ≤ window → fail_entry (counting 4 first) now ≡ locked 5 first now
unfolding fail_entry reset_if_stale count_failure
count_last first now h = ground arith

live_counting : (n first now : ℕ) → now - first ≤ window → entry_live (counting n first) now ≡ true
unfolding entry_live
live_counting n first now h = ground arith

-- The failures of one address at the given times, in order.
unfoldable pub fail_at : ℕ → List ℕ → Failures → Failures
fail_at ip [] map = map
fail_at ip (now ∷ times) map = fail_at ip times (record_failure ip now map)

record_failure-counting :
    (ip now n first : ℕ) (map : Failures)
    → Distinct map
    → get ip map ≡ some (counting n first)
    → now - first ≤ window
    → get ip (record_failure ip now map) ≡ some (fail_entry (counting n first) now)
unfolding entry_or_fresh
record_failure-counting ip now n first map d e h =
    rw (get-record_failure, get-gc ip now map (counting n first) d e, live_counting n first now h)
      refl

record_failure-fresh :
    (ip now : ℕ) (map : Failures)
    → get ip map ≡ none
    → get ip (record_failure ip now map) ≡ some (counting 1 now)
unfolding entry_or_fresh
record_failure-fresh ip now map e =
    rw (get-record_failure, get-gc-none ip now map e)
      (ap some (count_one 0 now now (omega arith) (omega arith)))

fail_at-counting :
    (ip n first : ℕ) (times : List ℕ) (map : Failures)
    → Distinct map
    → get ip map ≡ some (counting n first)
    → n + length times < 5
    → All (λ now. now - first ≤ window) times
    → Distinct (fail_at ip times map)
      × (get ip (fail_at ip times map) ≡ some (counting (n + length times) first))
unfolding fail_at
fail_at-counting ip n first [] map d e k h =
    let zero_more : n + 0 ≡ n = omega arith in (d, rw zero_more e)
fail_at-counting ip n first (now ∷ times) map d e k h =
    let sum : n + suc (length times) ≡ n + 1 + length times = omega arith in
    let counted =
      record_failure-counting ip now n first map d e h.0
      ∙ ap some (count_one n first now h.0 (omega arith)) in
    rw sum (
      fail_at-counting ip (n + 1) first times (record_failure ip now map)
        (Distinct-record_failure ip now map d) counted (omega arith) h.1)

blocked_free :
    (ip now n first : ℕ) (map : Failures)
    → Distinct map
    → get ip map ≡ some (counting n first)
    → (is_blocked ip now map).0 ≡ false
unfolding is_blocked
blocked_free ip now n first map d e = ground (arith, get-gc ip now map (counting n first) d e)

blocked_locked :
    (ip now n first last : ℕ) (map : Failures)
    → Distinct map
    → get ip map ≡ some (locked n first last)
    → (is_blocked ip now map).0 ≡ ltb now (last + lockout)
unfolding is_blocked entry_live
blocked_locked ip now n first last map d e =
    ground (arith, get-gc ip now map (locked n first last) d e)

after_first :
    (ip first : ℕ) (times : List ℕ) (map : Failures)
    → Distinct map
    → get ip map ≡ none
    → length times ≤ 3
    → All (λ t. t - first ≤ window) times
    → Distinct (fail_at ip (first ∷ times) map)
      × (get ip (fail_at ip (first ∷ times) map) ≡ some (counting (1 + length times) first))
unfolding fail_at
after_first ip first times map d e k h =
    fail_at-counting ip 1 first times (record_failure ip first map)
      (Distinct-record_failure ip first map d) (record_failure-fresh ip first map e) (omega arith) h

-- For an address without an entry in a map with distinct keys, at most four failures, the later
-- ones at most the window after the first, never block the address.
pub four_failures_free :
    (ip first : ℕ) (times : List ℕ) (now : ℕ) (map : Failures)
    → Distinct map
    → get ip map ≡ none
    → length times ≤ 3
    → All (λ t. t - first ≤ window) times
    → (is_blocked ip now (fail_at ip (first ∷ times) map)).0 ≡ false
four_failures_free ip first times now map d e k h =
    let (distinct, counted) = after_first ip first times map d e k h in
    blocked_free ip now (1 + length times) first (fail_at ip (first ∷ times) map) distinct counted

-- For an address without an entry in a map with distinct keys, five failures, each of the later
-- ones at most the window after the first, block the address at exactly the instants before the
-- last failure plus the lockout.
pub five_failures_lock :
    (ip first : ℕ) (times : List ℕ) (last now : ℕ) (map : Failures)
    → Distinct map
    → get ip map ≡ none
    → length times ≡ 3
    → All (λ t. t - first ≤ window) times
    → last - first ≤ window
    → (is_blocked ip now (record_failure ip last (fail_at ip (first ∷ times) map))).0
      ≡ ltb now (last + lockout)
five_failures_lock ip first times last now map d e k h l =
    let (distinct, counted) = after_first ip first times map d e (omega arith) h in
    let before = fail_at ip (first ∷ times) map in
    let four : get ip before ≡ some (counting 4 first) = rw k at counted in
    let at_last =
      record_failure-counting ip last 4 first before distinct four l
      ∙ ap some (count_last first last l) in
    blocked_locked ip now 5 first last (record_failure ip last before)
      (Distinct-record_failure ip last before distinct) at_last

-- After a success, on a map with distinct keys, at most four failures of the same address, the
-- later ones at most the window after the first, never block it, whatever its entry was.
pub record_success-restarts :
    (ip first : ℕ) (times : List ℕ) (now : ℕ) (map : Failures)
    → Distinct map
    → length times ≤ 3
    → All (λ t. t - first ≤ window) times
    → (is_blocked ip now (fail_at ip (first ∷ times) (record_success ip map))).0 ≡ false
unfolding record_success
record_success-restarts ip first times now map d k h =
    four_failures_free ip first times now (remove ip map) (Distinct-remove ip map d)
      (rw (get-remove, ==_self) refl) k h
