-- ===== src/Connector/Progress.antt =====
-- crates/rdpcore-connector/src/lib.rs: what one round of the acceptor's loops takes of the input.
use kmsrdp.Prelude.{
  ℕ, ◌+◌, ◌/◌, ◌≤◌, Bool, true, false, ltb, ◌==◌, if◌then◌else◌, arith, Bool-cases, inl, inr,
  get_or, bit_and,
}
use kmsrdp.Pdu.Result.{Result, ok, err, DecodeError, guard, ◌>>=◌, ◌>>◌}
use kmsrdp.Pdu.Cursor.{
  ReadCursor, remaining, ensure, advance, peek_slice, read_u8, read_u16_be, read_slice,
}
use kmsrdp.Pdu.Per
use kmsrdp.Pdu.Mcs.Domain.{
  DomainMcsPdu, erect_domain_request, attach_user_request, channel_join_request, read_choice_byte,
  skip_optional_non_standard, from_u8, is_pdu, decode_erect, decode_attach_request,
  decode_join_request, decode_send_data,
}

-- A read takes at least `n` bytes, where it succeeds.
unfoldable pub Takes {ℓ} :
    {A : Type ℓ} (n : ℕ) (c : ReadCursor) (result : Result (A × ReadCursor)) → Type 0
Takes n c (err error) = Unit
Takes n c (ok (value, c')) = remaining c' + n ≤ remaining c

ok-Takes {ℓ} : {A : Type ℓ} (c : ReadCursor) (value : A) → Takes 0 c (ok (value, c))
unfolding Takes
ok-Takes c value = omega arith

trans_Takes {ℓ} :
    {A : Type ℓ} (n : ℕ) (c c' : ReadCursor) (result : Result (A × ReadCursor))
    → remaining c' + n ≤ remaining c
    → Takes 0 c' result
    → Takes n c result
unfolding Takes
trans_Takes n c c' (err error) h k = tt
trans_Takes n c c' (ok (value, c'')) h k = omega arith

bind-Takes {ℓ κ} :
    {A : Type ℓ} {B : Type κ} (n : ℕ) (c : ReadCursor) (read : Result (A × ReadCursor))
    (next : A × ReadCursor → Result (B × ReadCursor))
    → Takes n c read
    → ((value : A) (c' : ReadCursor) → Takes 0 c' (next (value, c')))
    → Takes n c (read >>= next)
unfolding Takes
bind-Takes n c (err error) next h k = tt
bind-Takes n c (ok (value, c')) next h k = trans_Takes n c c' (next (value, c')) h (k value c')

guard-Takes {ℓ} :
    {A : Type ℓ} (n : ℕ) (c : ReadCursor) (test : Bool) (error : DecodeError)
    (next : Result (A × ReadCursor))
    → Takes n c next
    → Takes n c (guard test error >> next)
unfolding Takes
guard-Takes n c true error next h = h
guard-Takes n c false error next h = tt

-- A read behind `ensure`.
ensure-Takes {ℓ} :
    {A : Type ℓ} (n : ℕ) (c c' : ReadCursor) (value : A)
    → (n ≤ remaining c → remaining c' + n ≤ remaining c)
    → Takes n c (ensure n c >> ok (value, c'))
unfolding ensure Takes
ensure-Takes n c c' value h = elim (Bool-cases (ltb (remaining c) n)) [
  | inl e ↦ rw (e) tt
  | inr e ↦ rw (e) (h (ground (arith, e)))
]

read_u8-Takes : (c : ReadCursor) → Takes 1 c (read_u8 c)
unfolding read_u8 remaining
read_u8-Takes c = ensure-Takes 1 c _ _ (λ h. omega arith)

read_u16_be-Takes : (c : ReadCursor) → Takes 2 c (read_u16_be c)
unfolding read_u16_be remaining
read_u16_be-Takes c = ensure-Takes 2 c _ _ (λ h. omega arith)

read_slice-Takes : (n : ℕ) (c : ReadCursor) → Takes n c (read_slice n c)
unfolding read_slice remaining
read_slice-Takes n c = ensure-Takes n c _ _ (λ h. omega arith)

less_Takes {ℓ} :
    {A : Type ℓ} (n m : ℕ) (c : ReadCursor) (result : Result (A × ReadCursor))
    → m ≤ n
    → Takes n c result
    → Takes m c result
unfolding Takes
less_Takes n m c (err error) h k = tt
less_Takes n m c (ok (value, c')) h k = omega arith

if_Takes {ℓ} :
    {A : Type ℓ} (n : ℕ) (c : ReadCursor) (test : Bool) (x y : Result (A × ReadCursor))
    → Takes n c x
    → Takes n c y
    → Takes n c (if test then x else y)
if_Takes n c true x y h k = h
if_Takes n c false x y h k = k

peek-Takes {ℓ κ} :
    {A : Type ℓ} {B : Type κ} (c : ReadCursor) (peek : Result A)
    (next : A → Result (B × ReadCursor))
    → ((value : A) → Takes 0 c (next value))
    → Takes 0 c (peek >>= next)
peek-Takes c (err error) next k = unfold Takes in tt
peek-Takes c (ok value) next k = k value

read_u16-Takes : (least : ℕ) (c : ReadCursor) → Takes 0 c (Per.read_u16 least c)
unfolding Per.read_u16
read_u16-Takes least c =
    less_Takes 2 0 c _ (omega arith)
      (bind-Takes 2 c (read_u16_be c) _ (read_u16_be-Takes c) (λ v c'. ok-Takes c' _))

read_length-Takes : (c : ReadCursor) → Takes 0 c (Per.read_length c)
unfolding Per.read_length
read_length-Takes c = peek-Takes c (peek_slice 1 c) _ (λ slice.
    if_Takes 0 c (bit_and (get_or slice 0 0) 0x80 == 0) _ _
      (less_Takes 1 0 c _ (omega arith) (read_u8-Takes c))
      (less_Takes 2 0 c _ (omega arith)
        (bind-Takes 2 c (read_u16_be c) _ (read_u16_be-Takes c) (λ v c'. ok-Takes c' _))))

read_u32-Takes : (c : ReadCursor) → Takes 0 c (Per.read_u32 c)
unfolding Per.read_u32
read_u32-Takes c = bind-Takes 0 c (Per.read_length c) _ (read_length-Takes c) (λ size c'.
    bind-Takes 0 c' (read_slice size c') _
      (less_Takes size 0 c' _ (omega arith) (read_slice-Takes size c'))
      (λ bytes c''. ok-Takes c'' _))

read_choice_byte-Takes :
    (expected : DomainMcsPdu) (c : ReadCursor) → Takes 1 c (read_choice_byte expected c)
unfolding read_choice_byte Per.read_choice
read_choice_byte-Takes expected c =
    bind-Takes 1 c (read_u8 c) _ (read_u8-Takes c)
      (λ byte c'. guard-Takes 0 c' (is_pdu (from_u8 (byte / 4)) expected) _ _ (ok-Takes c' _))

skip-Takes : (options : ℕ) (c : ReadCursor) → Takes 0 c (skip_optional_non_standard options c)
unfolding skip_optional_non_standard advance remaining
skip-Takes options c =
    if_Takes 0 c (bit_and options 0x2 == 0) _ _ (ok-Takes c tt)
      (less_Takes 2 0 c _ (omega arith) (ensure-Takes 2 c _ _ (λ h. omega arith)))

pub decode_erect-Takes : (c : ReadCursor) → Takes 1 c (decode_erect c)
unfolding decode_erect
decode_erect-Takes c =
    bind-Takes 1 c (read_choice_byte erect_domain_request c) _ (read_choice_byte-Takes _ c)
      (λ options c1. bind-Takes 0 c1 (Per.read_u32 c1) _ (read_u32-Takes c1) (λ sub_height c2.
        bind-Takes 0 c2 (Per.read_u32 c2) _ (read_u32-Takes c2) (λ sub_interval c3.
          bind-Takes 0 c3 (skip_optional_non_standard options c3) _ (skip-Takes options c3)
            (λ _ c4. ok-Takes c4 _))))

pub decode_attach_request-Takes : (c : ReadCursor) → Takes 1 c (decode_attach_request c)
unfolding decode_attach_request
decode_attach_request-Takes c =
    bind-Takes 1 c (read_choice_byte attach_user_request c) _ (read_choice_byte-Takes _ c)
      (λ options c1. skip-Takes options c1)

pub decode_join_request-Takes : (c : ReadCursor) → Takes 1 c (decode_join_request c)
unfolding decode_join_request
decode_join_request-Takes c =
    bind-Takes 1 c (read_choice_byte channel_join_request c) _ (read_choice_byte-Takes _ c)
      (λ options c1. bind-Takes 0 c1 (Per.read_u16 1001 c1) _ (read_u16-Takes _ c1) (λ initiator c2.
        bind-Takes 0 c2 (Per.read_u16 0 c2) _ (read_u16-Takes _ c2)
          (λ channel_id c3. ok-Takes c3 _)))

pub decode_send_data-Takes :
    (pdu : DomainMcsPdu) (c : ReadCursor) → Takes 1 c (decode_send_data pdu c)
unfolding decode_send_data
decode_send_data-Takes pdu c =
    bind-Takes 1 c (read_choice_byte pdu c) _ (read_choice_byte-Takes pdu c) (λ options c1.
      bind-Takes 0 c1 (Per.read_u16 1001 c1) _ (read_u16-Takes _ c1) (λ initiator c2.
        bind-Takes 0 c2 (Per.read_u16 0 c2) _ (read_u16-Takes _ c2) (λ channel_id c3.
          bind-Takes 0 c3 (read_u8 c3) _ (less_Takes 1 0 c3 _ (omega arith) (read_u8-Takes c3))
            (λ priority c4.
              bind-Takes 0 c4 (Per.read_length c4) _ (read_length-Takes c4) (λ size c5.
                bind-Takes 0 c5 (read_slice size c5) _
                  (less_Takes size 0 c5 _ (omega arith) (read_slice-Takes size c5))
                  (λ payload c6. ok-Takes c6 _))))))
