-- ===== src/Pdu/Mcs/Connect/Size.antt =====
-- How many bytes the parts of a connect PDU take at most.
use kmsrdp.Prelude.{ℕ, ◌+◌, ◌≤◌, Bool, List, length, length-append, arith}
use kmsrdp.Pdu.Cursor.{write_u16_be}
use kmsrdp.Pdu.Ber
use kmsrdp.Pdu.Mcs.Connect.{
  DomainParameters, parameters_body, write_parameters, ConnectInitial, initial_body,
  ConnectResponse, response_body,
}

length-write_length : (n : ℕ) → length (Ber.write_length n) ≤ 3
unfolding Ber.write_length write_u16_be
length-write_length n = ground arith

length-write_integer : (v : ℕ) → length (Ber.write_integer v) ≤ 9
unfolding Ber.write_integer Ber.integer_bytes write_u16_be
length-write_integer v =
    simp length-append (ground (arith, length-write_length (Ber.integer_size v)))

length-write_octet_string : (s : List ℕ) → length (Ber.write_octet_string s) ≤ length s + 4
unfolding Ber.write_octet_string
length-write_octet_string s = simp length-append (omega (arith, length-write_length (length s)))

length-write_boolean : (b : Bool) → length (Ber.write_boolean b) ≤ 5
unfolding Ber.write_boolean
length-write_boolean b = simp length-append (omega (arith, length-write_length 1))

length-write_enumerated : (v : ℕ) → length (Ber.write_enumerated v) ≤ 5
unfolding Ber.write_enumerated
length-write_enumerated v = simp length-append (omega (arith, length-write_length 1))

pub length-parameters_body : (p : DomainParameters) → length (parameters_body p) ≤ 72
unfolding parameters_body
length-parameters_body p = simp length-append (omega (arith, length-write_integer))

length-write_parameters : (p : DomainParameters) → length (write_parameters p) ≤ 76
unfolding write_parameters Ber.write_sequence_tag
length-write_parameters p =
    simp length-append
      (omega (arith, length-write_length (length (parameters_body p)), length-parameters_body p))

pub length-initial_body : (x : ConnectInitial) → length (initial_body x) ≤ length x.user_data + 300
unfolding initial_body
length-initial_body x =
    simp length-append
      (omega (arith, length-write_octet_string, length-write_boolean, length-write_parameters))

pub length-response_body :
    (x : ConnectResponse) → length (response_body x) ≤ length x.user_data + 300
unfolding response_body
length-response_body x = simp length-append (
    omega (
      arith, length-write_octet_string, length-write_enumerated, length-write_integer,
      length-write_parameters,
    ))
