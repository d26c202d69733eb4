-- ===== src/Tests/Codec.antt =====
-- The headers and the primitive fields, written and read back.
use kmsrdp.Prelude.{◌≡◌, refl, [], ◌∷◌, arith, inl, String}
use kmsrdp.Pdu.Result.{ok, err, invalid_value}
use kmsrdp.Pdu.Cursor.Laws.{at}
use kmsrdp.Pdu.Tpdu
use kmsrdp.Pdu.Tpdu.Laws.{decode_li}
use kmsrdp.Pdu.X224.{ConnectionConfirm, encode_confirm, decode_confirm}
use kmsrdp.Pdu.X224.Laws.{decode_confirm-encode_confirm}

decode_li_example :
    (reason : String) × (Tpdu.decode Tpdu.connection_confirm
        (at [] (0xff ∷ Tpdu.connection_confirm ∷ []))
      ≡ err (invalid_value "tpdu.li" reason))
decode_li_example = decode_li [] [] 0xff Tpdu.connection_confirm (inl refl)

decode_confirm-encode_confirm_example :
    decode_confirm (encode_confirm (ConnectionConfirm.response 1 2))
    ≡ ok (ConnectionConfirm.response 1 2)
decode_confirm-encode_confirm_example =
    decode_confirm-encode_confirm (ConnectionConfirm.response 1 2) (omega arith, omega arith)
