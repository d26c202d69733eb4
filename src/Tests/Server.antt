-- ===== src/Tests/Server.antt =====
-- The limiter of failed logins, on two addresses.
use kmsrdp.Prelude.{◌≡◌, ◌+◌, refl, true, false, none, some, [], ◌∷◌, arith, ltb}
use kmsrdp.Server.AuthLimit.{
  Failures, lockout, get, is_locked, evict_if_full, is_blocked, record_failure, record_success,
}
use kmsrdp.Server.AuthLimit.Bounds.{IsValid, record_failure-IsValid}
use kmsrdp.Server.AuthLimit.Evict.{evict_keeps_locked}
use kmsrdp.Server.AuthLimit.Lock.{
  fail_at, four_failures_free, five_failures_lock, record_success-restarts,
}

-- Address 2 is locked, and address 3 has failed once.
abbrev seen : Failures
seen =
    (2, record { count = 5; first = 10; locked_until = some 300_000_000_050 })
    ∷ (3, record { count = 1; first = 20; locked_until = none })
    ∷ []

seen-IsValid : IsValid seen
unfolding get
seen-IsValid = record { distinct = (refl, (refl, tt)); size = omega arith }

one_new : get 1 seen ≡ none
unfolding get
one_new = refl

record_failure-IsValid_example : IsValid (record_failure 1 30 seen)
record_failure-IsValid_example = record_failure-IsValid 1 30 seen seen-IsValid

five_failures_lock_example :
    (is_blocked 1 70 (record_failure 1 60 (fail_at 1 (30 ∷ 40 ∷ 50 ∷ 55 ∷ []) seen))).0
    ≡ ltb 70 (60 + lockout)
five_failures_lock_example =
    five_failures_lock 1 30 (40 ∷ 50 ∷ 55 ∷ []) 60 70 seen seen-IsValid.distinct one_new refl
      (omega arith, (omega arith, (omega arith, tt))) (omega arith)

four_failures_free_example : (is_blocked 1 70 (fail_at 1 (30 ∷ 40 ∷ 50 ∷ 55 ∷ []) seen)).0 ≡ false
four_failures_free_example =
    four_failures_free 1 30 (40 ∷ 50 ∷ 55 ∷ []) 70 seen seen-IsValid.distinct one_new (omega arith)
      (omega arith, (omega arith, (omega arith, tt)))

record_success-restarts_example :
    (is_blocked 2 70 (fail_at 2 (30 ∷ 40 ∷ []) (record_success 2 seen))).0 ≡ false
record_success-restarts_example =
    record_success-restarts 2 30 (40 ∷ []) 70 seen seen-IsValid.distinct (omega arith)
      (omega arith, tt)

two_here : get 2 seen ≡ some (record { count = 5; first = 10; locked_until = some 300_000_000_050 })
unfolding get
two_here = refl

three_here : get 3 seen ≡ some (record { count = 1; first = 20; locked_until = none })
unfolding get
three_here = refl

two_locked :
    is_locked (record { count = 5; first = 10; locked_until = some 300_000_000_050 }) ≡ true
unfolding is_locked
two_locked = refl

three_free : is_locked (record { count = 1; first = 20; locked_until = none }) ≡ false
unfolding is_locked
three_free = refl

evict_keeps_locked_example :
    get 2 (evict_if_full seen 1)
    ≡ some (record { count = 5; first = 10; locked_until = some 300_000_000_050 })
evict_keeps_locked_example =
    evict_keeps_locked seen 1 2
      (record { count = 5; first = 10; locked_until = some 300_000_000_050 }) 3
      (record { count = 1; first = 20; locked_until = none }) seen-IsValid.distinct two_here
      two_locked three_here three_free
