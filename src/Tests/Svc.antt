-- ===== src/Tests/Svc.antt =====
-- Static channel messages, split and put together.
use kmsrdp.Prelude.{
  ℕ, ◌⊎◌, ◌≢◌, ◌<◌, some, bit_and, ◌≡◌, ◌≤◌, ◌-◌, refl, true, none, List, [], ◌∷◌, length, map,
  arith, All,
}
use kmsrdp.Pdu.Result.{ok, err, invalid_value}
use kmsrdp.Pdu.Svc.{with_header, chunkify, wrap_indication, reassemble}
use kmsrdp.Pdu.Svc.Laws.{feed, answers, feed-chunkify}
use kmsrdp.Pdu.Svc.Bounds.{
  MessageFits, reassemble_fits, reassemble_begun, reassemble_orphan, empty_first_lost,
}
use kmsrdp.Pdu.Svc.Frames.{unwrap_indication, chunkify_small, unwrap_indication-wrap_indication}

abbrev hello : List ℕ
hello = 104 ∷ 101 ∷ 108 ∷ 108 ∷ 111 ∷ []

feed-chunkify_example :
    feed 16 "svc" (7 ∷ []) (chunkify hello) ≡ (answers (length (chunkify hello) - 1) hello, [])
feed-chunkify_example = feed-chunkify 16 "svc" (7 ∷ []) hello (omega arith)

reassemble_fits_example :
    (length (reassemble (7 ∷ []) hello 4 "svc").1 ≤ 4)
    × MessageFits 4 (reassemble (7 ∷ []) hello 4 "svc").0
reassemble_fits_example = reassemble_fits 4 "svc" (7 ∷ []) hello (omega arith)

reassemble_begun_example :
    let result = reassemble (7 ∷ 8 ∷ []) (with_header 7 2 hello) 7 "svc" in
    let joined = 7 ∷ 8 ∷ hello in
    (result
        ≡ (err (invalid_value "svc" "reassembled SVC message exceeded maximum allowed size"), [])
      × (7 < length joined))
    ⊎ ((length joined ≤ 7)
        × ((result ≡ (ok (some joined), []) × (bit_and 2 2 ≢ 0))
            ⊎ (result ≡ (ok none, joined) × (bit_and 2 2 ≡ 0))))
reassemble_begun_example =
    reassemble_begun 7 "svc" 7 (8 ∷ []) hello 7 2 (omega arith) (omega arith) refl

reassemble_orphan_example : reassemble [] (with_header 7 2 hello) 16 "svc" ≡ (ok none, [])
reassemble_orphan_example = reassemble_orphan 16 "svc" hello 7 2 (omega arith) (omega arith) refl

empty_first_lost_example :
    (reassemble [] (with_header 5 1 []) 16 "svc" ≡ (ok none, []))
    × (reassemble (reassemble [] (with_header 5 1 []) 16 "svc").1 (with_header 5 2 hello) 16 "svc"
        ≡ (ok none, []))
empty_first_lost_example = empty_first_lost 16 "svc" [] hello 5 (omega arith)

chunkify_small_example : All (λ c. length c ≤ 1608) (chunkify hello)
chunkify_small_example = chunkify_small hello

unwrap_indication-wrap_indication_example :
    map unwrap_indication (wrap_indication 1002 1004 hello)
    ≡ map
        (λ c. ok (record { initiator = 1002; channel_id = 1004; payload = c; complete = true }))
        (chunkify hello)
unwrap_indication-wrap_indication_example =
    unwrap_indication-wrap_indication 1002 1004 hello (omega arith, omega arith) (omega arith)
