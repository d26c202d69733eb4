-- ===== src/Transport/Scheduler/Fair.antt =====
-- scheduler.rs, the bulk loop of `pop_next`: the turns of the bulk classes.
use kmsrdp.Prelude.{
  ℕ, zero, suc, ◌+◌, ◌-◌, ◌%◌, ◌<◌, ◌≡◌, ◌≢◌, refl, sym, ap, ◌∙◌, none, some, List, [], ◌∷◌, length,
  arith, Option-cases, Bool-cases, inl, inr, ◌⊎◌, leb,
}
use native.Mathlib.Nat.{mod-add-mod}
use native.Mathlib.Decide.{ℕ_discrete}
use kmsrdp.Transport.Scheduler.{
  Priority, latency, bulk, Bytes, ChannelQueue, Scheduler, pending_at, set_pending, latency_front,
  pop_latency, bulk_slot, pop_bulk, pop_next,
}
use kmsrdp.Transport.Scheduler.Valid.{IsValid}
use kmsrdp.Transport.Scheduler.Pop.{priority_at, Served, pop_bulk-Served, pop_bulk-none}
use kmsrdp.Transport.Scheduler.Order.{pop_next_bulk, bulk_slot_bulk}
use kmsrdp.Transport.Scheduler.Turns.{pop_next-IsValid}
use mathlib.Core.List.{Memᴰ}
use mathlib.Core.List.Memᴰ.{head, tail}

latency_front_bulk :
    (p : Priority) (pending : List Bytes) → p ≡ bulk → latency_front p pending ≡ none
unfolding latency_front
latency_front_bulk latency pending e = absurd (cc)
latency_front_bulk bulk pending e = refl

-- No latency frame waits in the first queue, nor in the others.
no_latency_split :
    (q : ChannelQueue) (qs : List ChannelQueue)
    → pop_latency (q ∷ qs) ≡ none
    → (latency_front q.priority q.pending ≡ none) × (pop_latency qs ≡ none)
unfolding pop_latency
no_latency_split q qs e = elim (Option-cases (latency_front q.priority q.pending)) [
  | inl here ↦ elim (Option-cases (pop_latency qs)) [
    | inl later ↦ (here, later)
    | inr (found, some_later) ↦ absurd (ground arith)
  ]
  | inr (found, some_here) ↦ absurd (ground arith)
]

no_latency_join :
    (q : ChannelQueue) (qs : List ChannelQueue)
    → latency_front q.priority q.pending ≡ none
    → pop_latency qs ≡ none
    → pop_latency (q ∷ qs) ≡ none
unfolding pop_latency
no_latency_join q qs here later = ground arith

pop_latency-set_pending :
    (qs : List ChannelQueue) (idx : ℕ) (pending : List Bytes)
    → priority_at qs idx ≡ some bulk
    → pop_latency qs ≡ none
    → pop_latency (set_pending qs idx pending) ≡ none
unfolding set_pending priority_at
pop_latency-set_pending [] idx pending h e = absurd (cc)
pop_latency-set_pending (q ∷ qs) zero pending h e =
    no_latency_join (record q { pending = pending }) qs
      (latency_front_bulk q.priority pending (ground arith)) (no_latency_split q qs e).1
pop_latency-set_pending (q ∷ qs) (suc idx) pending h e =
    let (here, later) = no_latency_split q qs e in
    no_latency_join q (set_pending qs idx pending) here
      (pop_latency-set_pending qs idx pending h later)

pending-set_pending_other :
    (qs : List ChannelQueue) (idx other : ℕ) (pending : List Bytes)
    → idx ≢ other
    → pending_at (set_pending qs idx pending) other ≡ pending_at qs other
unfolding pending_at set_pending
pending-set_pending_other [] idx other pending h = refl
pending-set_pending_other (q ∷ qs) zero zero pending h = absurd (h refl)
pending-set_pending_other (q ∷ qs) zero (suc other) pending h = refl
pending-set_pending_other (q ∷ qs) (suc idx) zero pending h = refl
pending-set_pending_other (q ∷ qs) (suc idx) (suc other) pending h =
    pending-set_pending_other qs idx other pending (λ e. h (ap suc e))

-- The frames that the next `n` calls of `pop_next` send.
unfoldable pub drain : ℕ → Scheduler → List Bytes
drain zero s = []
drain (suc n) s = elim (pop_next s) [ none ↦ [] | some (b, s') ↦ b ∷ drain n s' ]

drain-some :
    (n : ℕ) (s s' : Scheduler) (b : Bytes)
    → pop_next s ≡ some (b, s')
    → drain (suc n) s ≡ b ∷ drain n s'
unfolding drain
drain-some n s s' b e = rw (e, drain)

-- What waits at the front of the slot that the loop reaches after `j` steps.
pub record Waits (s : Scheduler) (j : ℕ) (x : Bytes) : Type 0 where
  pub within : j < length s.bulk_order
  pub rest : List Bytes
  pub front : pending_at s.queues (bulk_slot s j) ≡ x ∷ rest

turn_slot :
    (s s' : Scheduler) (at j : ℕ)
    → at < j
    → s'.bulk_order ≡ s.bulk_order
    → s'.next_bulk_channel ≡ (s.next_bulk_channel + at + 1) % length s.bulk_order
    → bulk_slot s' (j - at - 1) ≡ bulk_slot s j
unfolding bulk_slot
turn_slot s s' at j h order turn =
    let sum : s.next_bulk_channel + at + 1 + (j - at - 1) ≡ s.next_bulk_channel + j =
      omega (arith, h) in
    rw (order, turn, mod-add-mod, sum) refl

-- A round either sends the frame or brings its slot nearer.
nearer :
    (s : Scheduler) (j : ℕ) (x : Bytes) (b : Bytes) (s' : Scheduler)
    → Waits s j x
    → Served s 0 (length s.bulk_order) b s'
    → (b ≡ x) ⊎ ((i : ℕ) × (i < j) × Waits s' i x)
nearer s j x b s' w v = elim (ℕ_discrete (bulk_slot s v.at) (bulk_slot s j)) [
  | yes same ↦ inl (cc (v.front, w.front, same))
  | no differs ↦ elim (Bool-cases (leb j v.at)) [
    | inl past ↦ elim (ℕ_discrete v.at j) [
      | yes same ↦ absurd (differs (ap (bulk_slot s) same))
      | no ne ↦ absurd (cc (v.skipped j (omega arith) (ground arith), w.front))
    ]
    | inr before ↦
        let h : v.at < j = ground arith in
        let order : s'.bulk_order ≡ s.bulk_order = ap (λ r. r.bulk_order) v.left in
        let place = turn_slot s s' v.at j h order (ap (λ r. r.next_bulk_channel) v.left) in
        inr (
          j - v.at - 1,
          omega (arith, h),
          record {
            within = rw order (omega (arith, h, w.within));
            rest = w.rest;
            front =
                rw (place, v.left)
                  (pending-set_pending_other s.queues (bulk_slot s v.at) (bulk_slot s j) v.rest
                      differs
                    ∙ w.front);
          },
        )
  ]
]

still_no_latency :
    (s : Scheduler) (b : Bytes) (s' : Scheduler)
    → IsValid s
    → pop_latency s.queues ≡ none
    → Served s 0 (length s.bulk_order) b s'
    → pop_latency s'.queues ≡ none
still_no_latency s b s' v none_waits served = rw served.left (
    pop_latency-set_pending s.queues (bulk_slot s served.at) served.rest
      (bulk_slot_bulk s served.at v (omega (arith, served.most))) none_waits)

-- On a valid scheduler where no latency frame waits, the frame at the front of the bulk slot
-- that the loop reaches after j steps is among the frames that the next n calls of pop_next
-- send, for every n above j.
pub drain-Waits :
    (n : ℕ) (s : Scheduler) (j : ℕ) (x : Bytes)
    → IsValid s
    → pop_latency s.queues ≡ none
    → Waits s j x
    → j < n
    → Memᴰ x (drain n s)
drain-Waits zero s j x v none_waits w h = absurd (omega arith)
drain-Waits (suc n) s j x v none_waits w h =
    elim (Option-cases (pop_bulk (length s.bulk_order) 0 s)) [
      | inl nothing ↦ absurd (
          cc (
            pop_bulk-none (length s.bulk_order) 0 s nothing j (omega arith)
                (omega (arith, w.within)),
            w.front,
          ))
      | inr ((b, s'), found) ↦
          let served = pop_bulk-Served (length s.bulk_order) 0 s b s' found in
          let step = pop_next_bulk s none_waits ∙ found in
          rw (drain-some n s s' b step) (elim (nearer s j x b s' w served) [
            | inl sent ↦ head (sym sent)
            | inr (i, closer, w') ↦ tail (
                drain-Waits n s' i x (pop_next-IsValid s b s' v step)
                  (still_no_latency s b s' v none_waits served) w' (omega arith))
          ])
    ]
