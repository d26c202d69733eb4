-- ===== src/Pdu/Result.antt =====
-- crates/rdpcore-pdu/src/lib.rs: `DecodeError`, and the `Result` that every decoder returns.
use kmsrdp.Prelude.{ℕ, String, Bool, true, false, ◌≡◌, refl, ◌⊎◌, inl, inr}

-- `NotEnoughBytes` has the fields `needed` and `remaining`, in this order. The conversion
-- `From<NotEnoughBytes>` that `?` applies is made where the error arises.
pub data DecodeError : Type 0 where
  not_enough_bytes : ℕ → ℕ → DecodeError
  invalid_value : String → String → DecodeError

pub data Result {ℓ} (A : Type ℓ) : Type ℓ where
  err : DecodeError → Result A
  ok : A → Result A

-- `if !test { return Err(error) }`
abbrev pub guard : Bool → DecodeError → Result (Unit {0})
guard false error = err error
guard true error = ok tt

-- `?`, with the value it yields and without.
infixl 5 ◌>>=◌ ◌>>◌
abbrev pub ◌>>=◌ {ℓ κ} :
    {A : Type ℓ} {B : Type κ} (step : Result A) (next : A → Result B) → Result B
err error >>= next = err error
ok value >>= next = next value

abbrev pub ◌>>◌ {ℓ} : {B : Type ℓ} (check : Result (Unit {0})) (next : Result B) → Result B
err error >> next = err error
ok tt >> next = next

-- A result is an error or a value.
pub Result-cases {ℓ} :
    {A : Type ℓ} (m : Result A)
    → ((error : DecodeError) × (m ≡ err error)) ⊎ ((value : A) × (m ≡ ok value))
Result-cases (err error) = inl (error, refl)
Result-cases (ok value) = inr (value, refl)

-- Where a chain of two steps succeeds, both do.
pub bind-ok {ℓ κ} :
    {A : Type ℓ} {B : Type κ} (step : Result A) (next : A → Result B) (result : B)
    → step >>= next ≡ ok result
    → (value : A) × (step ≡ ok value) × (next value ≡ ok result)
bind-ok (ok value) next result e = (value, refl, e)
bind-ok (err error) next result e = absurd (cc)

pub guard-ok : (test : Bool) (error : DecodeError) → guard test error ≡ ok tt → test ≡ true
guard-ok true error e = refl
guard-ok false error e = absurd (cc)

pub check-ok {ℓ} :
    {B : Type ℓ} (test : Bool) (error : DecodeError) (next : Result B) (result : B)
    → guard test error >> next ≡ ok result
    → (test ≡ true) × (next ≡ ok result)
check-ok true error next result e = (refl, e)
check-ok false error next result e = absurd (cc)
