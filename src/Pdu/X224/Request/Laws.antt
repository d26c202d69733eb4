-- ===== src/Pdu/X224/Request/Laws.antt =====
-- x224.rs: `ConnectionRequest::decode` after `encode`.
use kmsrdp.Prelude.{
  ℕ, ◌+◌, ◌-◌, ◌≤◌, ◌≡◌, refl, Bool, true, false, Option, none, some, List, [], ◌∷◌, ◌++◌, length,
  ltb, ◌==◌, arith, All, IsU16, IsU32, append-nil, append_assoc, length-append, take_append,
  drop_append, leb,
}
use kmsrdp.Pdu.Result.{ok}
use kmsrdp.Pdu.Cursor.{remaining, peek_slice, slice_from_to, write_u8, write_u16_le, write_u32_le}
use kmsrdp.Pdu.Cursor.Laws.{
  at, cursor_laws, pos-at, peek_slice-all, ensure-at, remaining-at, peek_slice-at, advance-at,
  length-write_u16_le, read_u32_le-end,
}
use kmsrdp.Pdu.Tpdu
use kmsrdp.Pdu.Tpdu.Laws as TpduLaws
use kmsrdp.Pdu.Tpkt
use kmsrdp.Pdu.X224.{nego_body_size}
use kmsrdp.Pdu.X224.Laws.{x224_tpkt, decode_x224_header-encode_x224}
use kmsrdp.Pdu.X224.Request.{
  cookie_prefix, crlf, nego_request, ConnectionRequest, cookie_line, encode_request, next_place,
  find_crlf, found_at, read_cookie_value, read_cookie, decode_request,
}

-- The cookie has no carriage return.
unfoldable pub IsLine : List ℕ → Type 0
IsLine cookie = All (λ b. (b == 0x0d) ≡ false) cookie

find_crlf-line :
    (cookie r : List ℕ)
    → IsLine cookie
    → find_crlf (cookie ++ 0x0d ∷ 0x0a ∷ r) ≡ some (length cookie)
unfolding find_crlf next_place IsLine
find_crlf-line [] r h = refl
find_crlf-line (x ∷ []) r h = simp (h.0)
find_crlf-line (x ∷ y ∷ cookie) r h = simp (h.0, find_crlf-line (y ∷ cookie) r h.1)

slice_from_to-at :
    (f s t r : List ℕ) → slice_from_to (length f) (length (f ++ s)) (at ((f ++ s) ++ t) r) ≡ s
unfolding slice_from_to at
slice_from_to-at f s t r =
    let start_before : leb (length f) (length (f ++ s)) ≡ true =
      ground (arith, length-append f s) in
    let fits : leb (length (f ++ s)) (length (((f ++ s) ++ t) ++ r)) ≡ true =
      ground (arith, length-append ((f ++ s) ++ t) r, length-append (f ++ s) t) in
    let size : length (f ++ s) - length f ≡ length s = omega (arith, length-append f s) in
    let bytes : ((f ++ s) ++ t) ++ r ≡ f ++ (s ++ (t ++ r)) = simp (append_assoc) in
    rw (
      start_before,
      fits,
      size,
      bytes,
      drop_append (length f) f (s ++ (t ++ r)) refl,
      take_append (length s) s (t ++ r) refl,
    )

module _ (is_utf8 : List ℕ → Bool) where
  read_cookie_value-at :
      (f rest cookie : List ℕ)
      → IsLine cookie
      → is_utf8 cookie ≡ true
      → read_cookie_value is_utf8 (at f (cookie ++ (write_u16_le crlf ++ rest)))
        ≡ ok (cookie, at ((f ++ cookie) ++ write_u16_le crlf) rest)
  unfolding read_cookie_value found_at write_u16_le peek_slice at
  read_cookie_value-at f rest cookie line text =
      let bytes = cookie ++ 0x0d ∷ 0x0a ∷ rest in
      rw (
        pos-at f bytes,
        peek_slice-all f bytes,
        find_crlf-line cookie rest line,
        advance-at f cookie (0x0d ∷ 0x0a ∷ rest) (length cookie) refl,
        pos-at (f ++ cookie) (0x0d ∷ 0x0a ∷ rest),
        advance-at (f ++ cookie) (0x0d ∷ 0x0a ∷ []) rest 2 refl,
        slice_from_to-at f cookie (0x0d ∷ 0x0a ∷ []) rest,
        text,
      )

  read_cookie-at :
      (f rest cookie : List ℕ)
      → IsLine cookie
      → is_utf8 cookie ≡ true
      → read_cookie is_utf8 (at f (cookie_prefix ++ (cookie ++ (write_u16_le crlf ++ rest))))
        ≡ ok (some cookie, at (((f ++ cookie_prefix) ++ cookie) ++ write_u16_le crlf) rest)
  unfolding read_cookie
  read_cookie-at f rest cookie line text =
      let line_end = cookie ++ (write_u16_le crlf ++ rest) in
      let size : length line_end ≡ length cookie + 2 + length rest =
        omega (
          arith,
          length-append cookie (write_u16_le crlf ++ rest),
          length-write_u16_le crlf rest,
        ) in
      let room : ltb (remaining (at f (cookie_prefix ++ line_end))) 19 ≡ false =
        ground (arith, remaining-at f (cookie_prefix ++ line_end), size) in
      rw (
        room,
        read_cookie,
        peek_slice-at f cookie_prefix line_end 17 refl,
        advance-at f cookie_prefix line_end 17 refl,
        read_cookie_value-at (f ++ cookie_prefix) rest cookie line text,
      )

-- A cookie on a line of its own, that fits the header.
unfoldable pub IsCookie : (List ℕ → Bool) → Option (List ℕ) → Type 0
IsCookie is_utf8 none = Unit
IsCookie is_utf8 (some cookie) = IsLine cookie × (is_utf8 cookie ≡ true) × (length cookie ≤ 221)

abbrev nego : ℕ → ℕ → List ℕ
nego flags protocol = nego_request ∷ flags ∷ (write_u16_le nego_body_size ++ write_u32_le protocol)

length-nego : (flags protocol : ℕ) → length (nego flags protocol) ≡ 8
unfolding write_u16_le write_u32_le
length-nego flags protocol = refl

module _ (is_utf8 : List ℕ → Bool) (f : List ℕ) (flags protocol : ℕ) where
  read_cookie-missing :
      read_cookie is_utf8 (at f (nego flags protocol)) ≡ ok (none, at f (nego flags protocol))
  unfolding read_cookie
  read_cookie-missing =
      let short : ltb (remaining (at f (nego flags protocol))) 19 ≡ true =
        ground (arith, remaining-at f (nego flags protocol), length-nego flags protocol) in
      rw (short, read_cookie)

  read_cookie-cookie_line :
      (cookie : Option (List ℕ))
      → IsCookie is_utf8 cookie
      → read_cookie is_utf8 (at f (cookie_line cookie ++ nego flags protocol))
        ≡ ok (cookie, at (f ++ cookie_line cookie) (nego flags protocol))
  unfolding cookie_line IsCookie
  read_cookie-cookie_line none h = rw (append-nil, read_cookie-missing)
  read_cookie-cookie_line (some cookie) h =
      let read = read_cookie-at is_utf8 f (nego flags protocol) cookie h.0 h.1 in
      let bytes : (cookie_prefix ++ (cookie ++ write_u16_le crlf)) ++ nego flags protocol
          ≡ cookie_prefix ++ (cookie ++ (write_u16_le crlf ++ nego flags protocol)) =
        simp (append_assoc) in
      let front : f ++ (cookie_prefix ++ (cookie ++ write_u16_le crlf))
          ≡ ((f ++ cookie_prefix) ++ cookie) ++ write_u16_le crlf =
        simp (append_assoc) in
      rw (bytes, front, read)

length-cookie_line :
    (is_utf8 : List ℕ → Bool) (cookie : Option (List ℕ))
    → IsCookie is_utf8 cookie
    → length (cookie_line cookie) ≤ 240
unfolding cookie_line IsCookie write_u16_le
length-cookie_line is_utf8 none h = omega arith
length-cookie_line is_utf8 (some cookie) h =
    omega (arith, length-append cookie (write_u16_le crlf), h.2)

-- A Connection Request with a 32-bit protocol, and with no cookie or with one of at most 221
-- bytes of text without a carriage return, is decoded from its encoding.
pub decode_request-encode_request :
    (is_utf8 : List ℕ → Bool) (x : ConnectionRequest)
    → IsCookie is_utf8 x.cookie
    → IsU32 x.protocol
    → decode_request is_utf8 (encode_request x) ≡ ok x
unfolding decode_request encode_request write_u8
decode_request-encode_request is_utf8 x h small =
    let code = Tpdu.connection_request in
    let body = cookie_line x.cookie ++ nego x.flags x.protocol in
    let size : length body ≤ 248 = omega (
      arith,
      length-append (cookie_line x.cookie) (nego x.flags x.protocol),
      length-cookie_line is_utf8 x.cookie h,
      length-nego x.flags x.protocol,
    ) in
    let front = Tpkt.write (x224_tpkt code body) ++ Tpdu.write (Tpdu.for_pdu code (length body)) in
    let part = (TpduLaws.decode-for_pdu [] [] code (length body) size).1 in
    let eight : IsU16 nego_body_size = omega arith in
    simp (
      decode_x224_header-encode_x224 code body size,
      part,
      ensure-at front body (length body) (omega arith),
      read_cookie-cookie_line is_utf8 front x.flags x.protocol x.cookie h,
      eight,
      small,
      cursor_laws,
      read_u32_le-end,
    )
