-- ===== src/Server/AuthLimit/Evict.antt =====
-- auth_limit.rs, `evict_if_full`: the entry that is removed.
use kmsrdp.Prelude.{
  ℕ, ◌≡◌, ◌≢◌, sym, ap, ◌∙◌, true, false, none, some, [], ◌∷◌, arith, if◌then◌else◌, inl, inr, ◌⊎◌,
  ne→false,
}
use native.Mathlib.Decide.{ℕ_discrete}
use kmsrdp.Server.AuthLimit.{
  FailureState, Failures, get, is_locked, goes_before, victim, evict_if_full,
}
use kmsrdp.Server.AuthLimit.Map.{Distinct, get-remove}
use kmsrdp.Server.AuthLimit.Bounds.{victim_skip, victim_pick, victim_found, evict_cases}

-- Of two entries, one of them not locked, the one that is chosen is not locked.
better_unlocked :
    (b : ℕ × FailureState) (key : ℕ) (s : FailureState)
    → (is_locked b.1 ≡ false) ⊎ (is_locked s ≡ false)
    → (best : ℕ × FailureState) → best ≡ (if goes_before b.1 s then b else (key, s))
    → is_locked best.1 ≡ false
unfolding goes_before
better_unlocked b key s h best e = ground arith

get_split :
    (key other : ℕ) (s t : FailureState) (map : Failures)
    → get other ((key, s) ∷ map) ≡ some t
    → ((key ≡ other) × (s ≡ t)) ⊎ (get other map ≡ some t)
unfolding get
get_split key other s t map g = ground arith

victim-some :
    (incoming : ℕ) (map : Failures) (other : ℕ) (t : FailureState)
    → get other map ≡ some t
    → other ≢ incoming
    → victim incoming map ≢ none
victim-some incoming [] other t g ne h = unfold get in absurd (cc)
victim-some incoming ((key, s) ∷ map) other t g ne h = elim (ℕ_discrete key incoming) [
  | yes same ↦ elim (get_split key other s t map g) [
    | inl (e, f) ↦ absurd (ne (sym e ∙ same))
    | inr later ↦
        victim-some incoming map other t later ne (sym (victim_skip incoming key s map same) ∙ h)
  ]
  | no differs ↦ elim (victim_pick incoming key s map differs) [
    | inl (nothing, picked) ↦ absurd (cc (picked, h))
    | inr (best, found, picked) ↦ absurd (ground (arith, picked, h))
  ]
]

-- The chosen entry is not locked if another address has an entry that is not.
victim_unlocked :
    (incoming : ℕ) (map : Failures) (best : ℕ × FailureState) (other : ℕ) (t : FailureState)
    → victim incoming map ≡ some best
    → get other map ≡ some t
    → other ≢ incoming
    → is_locked t ≡ false
    → is_locked best.1 ≡ false
victim_unlocked incoming [] best other t h g ne free = unfold get in absurd (cc)
victim_unlocked incoming ((key, s) ∷ map) best other t h g ne free =
    elim (ℕ_discrete key incoming) [
      | yes same ↦ elim (get_split key other s t map g) [
        | inl (e, f) ↦ absurd (ne (sym e ∙ same))
        | inr later ↦
            victim_unlocked incoming map best other t
              (sym (victim_skip incoming key s map same) ∙ h) later ne free
      ]
      | no differs ↦ elim (victim_pick incoming key s map differs) [
        | inl (nothing, picked) ↦ elim (get_split key other s t map g) [
          | inl (e, f) ↦ let same : (key, s) ≡ best = cc (picked, h) in rw (sym same, f) free
          | inr later ↦ absurd (victim-some incoming map other t later ne nothing)
        ]
        | inr (b, found, picked) ↦
            let chosen : best ≡ (if goes_before b.1 s then b else (key, s)) =
              ground (arith, picked, h) in
            elim (get_split key other s t map g) [
              | inl (e, f) ↦ better_unlocked b key s (inr (ap is_locked f ∙ free)) best chosen
              | inr later ↦
                  better_unlocked b key s
                    (inl (victim_unlocked incoming map b other t found later ne free)) best chosen
            ]
      ]
    ]

-- In a map with distinct keys, a locked entry stays through evict_if_full for any address that
-- comes in, if some entry of the map is not locked.
pub evict_keeps_locked :
    (map : Failures) (incoming ip : ℕ) (s : FailureState) (other : ℕ) (t : FailureState)
    → Distinct map
    → get ip map ≡ some s
    → is_locked s ≡ true
    → get other map ≡ some t
    → is_locked t ≡ false
    → get ip (evict_if_full map incoming) ≡ some s
evict_keeps_locked map incoming ip s other t d here locked there free =
    elim (evict_cases map incoming) [
      | inl (same, why) ↦ rw same here
      | inr (best, found, absent, removed) ↦ elim (ℕ_discrete best.0 ip) [
        | yes taken ↦
            let other_new : other ≢ incoming =
              λ e. absurd (cc (ap (λ k. get k map) e, absent, there)) in
            let unlocked = victim_unlocked incoming map best other t found there other_new free in
            let own : get ip map ≡ some best.1 =
              rw taken at (victim_found incoming map best.0 best.1 d found).0 in
            absurd (cc (own, here, unlocked, locked))
        | no ne ↦ rw (removed, get-remove, ne→false best.0 ip ne) here
      ]
    ]
