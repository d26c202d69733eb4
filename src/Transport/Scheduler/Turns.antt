-- ===== src/Transport/Scheduler/Turns.antt =====
-- scheduler.rs, the bulk loop of `pop_next`: the places that it looks at.
use kmsrdp.Prelude.{
  ℕ, zero, suc, ◌+◌, ◌-◌, ◌%◌, ◌≤◌, ◌<◌, ◌≡◌, ◌≢◌, sym, ◌∙◌, none, some, List, [], ◌∷◌, ◌++◌,
  length, arith, Option-cases, Bool-cases, inl, inr, ◌⊎◌, get_or, false, leb,
}
use native.Mathlib.Nat.{mod-lt, mod-eq_of_lt, add-mod_right, zero-add}
use kmsrdp.Transport.Scheduler.{
  ChannelKey, Priority, latency, bulk, Bytes, ChannelQueue, Scheduler, is_class, position,
  set_pending, bulk_index, pop_latency, bulk_slot, pop_bulk, pop_next,
}
use kmsrdp.Transport.Scheduler.Views.{view, view-position-none, view-position-some, is_class_iff}
use kmsrdp.Transport.Scheduler.Valid.{
  bulk_indices, IsValid, Distinct-set_pending, bulk_indices-set_pending,
}
use kmsrdp.Transport.Scheduler.Pop.{
  pop_latency-Taken, pop_latency-none, pop_bulk-Served, pop_bulk-none,
}
use kmsrdp.Transport.Scheduler.Order.{pop_next_bulk, pop_next_latency}

-- The place that an index has in a list.
abbrev Place : List ℕ → ℕ → Type 0
Place xs i = (place : ℕ) × (place < length xs) × (get_or xs place 0 ≡ i)

Place-later :
    (p : Priority) (start : ℕ) (xs : List ℕ) (i : ℕ)
    → Place xs i
    → Place (bulk_index p start ++ xs) i
unfolding bulk_index
Place-later latency start xs i h = h
Place-later bulk start xs i (place, h, e) = (suc place, omega (arith, h), e)

not_first :
    (k : ChannelKey) (start : ℕ) (q : ChannelQueue) (qs : List ChannelQueue)
    → is_class k bulk q ≡ false
    → position k bulk (q ∷ qs) ≢ some 0
unfolding position
not_first k start q qs h e = elim (Option-cases (position k bulk qs)) [
  | inl gone ↦ absurd (ground arith)
  | inr (i, there) ↦ absurd (ground arith)
]

later_place :
    (k : ChannelKey) (q : ChannelQueue) (qs : List ChannelQueue) (idx : ℕ)
    → position k bulk (q ∷ qs) ≡ some (suc idx)
    → position k bulk qs ≡ some idx
unfolding position
later_place k q qs idx e = ground arith

own-Place :
    (p : Priority) (start : ℕ) (xs : List ℕ)
    → p ≡ bulk
    → Place (bulk_index p start ++ xs) (start + 0)
unfolding bulk_index
own-Place latency start xs e = absurd (cc)
own-Place bulk start xs e = (0, omega arith, omega arith)

first_place :
    (k : ChannelKey) (start : ℕ) (q : ChannelQueue) (qs : List ChannelQueue)
    → position k bulk (q ∷ qs) ≡ some 0
    → q.priority ≡ bulk
first_place k start q qs e = elim (Bool-cases (is_class k bulk q)) [
  | inl yes_class ↦ ((is_class_iff k bulk q).0 yes_class).1
  | inr not_class ↦ absurd (not_first k start q qs not_class e)
]

bulk-Place :
    (k : ChannelKey) (start : ℕ) (qs : List ChannelQueue) (idx : ℕ)
    → position k bulk qs ≡ some idx
    → Place (bulk_indices start qs) (start + idx)
unfolding position bulk_indices
bulk-Place k start [] idx e = absurd (cc)
bulk-Place k start (q ∷ qs) zero e = own-Place q.priority start _ (first_place k start q qs e)
bulk-Place k start (q ∷ qs) (suc idx) e =
    let rest = bulk-Place k (suc start) qs idx (later_place k q qs idx e) in
    let same : suc start + idx ≡ start + suc idx = omega arith in
    rw same at (Place-later q.priority start (bulk_indices (suc start) qs) (suc start + idx) rest)

-- The offset at which the loop from `n` on reaches a place.
reached :
    (n place len : ℕ)
    → (n ≡ 0) ⊎ (n < len)
    → place < len
    → (j : ℕ) × (j < len) × ((n + j) % len ≡ place)
reached n place len h k = elim (Bool-cases (leb n place)) [
  | inl is_after ↦
      let after : n ≤ place = ground arith in
      let sum : n + (place - n) ≡ place = omega (arith, after) in
      (place - n, omega (arith, k), rw sum (mod-eq_of_lt k))
  | inr not_after ↦
      let before : place < n = ground arith in
      let sum : n + (place + len - n) ≡ place + len = omega (arith, before) in
      (place + len - n, ground (arith, before, h), rw (sum, add-mod_right) (mod-eq_of_lt k))
]

pub pop_next-none_bulk :
    (s : Scheduler) (k : ChannelKey)
    → IsValid s
    → pop_bulk (length s.bulk_order) 0 s ≡ none
    → view k bulk s.queues ≡ []
pop_next-none_bulk s k v e = elim (Option-cases (position k bulk s.queues)) [
  | inl absent ↦ view-position-none k bulk s.queues absent
  | inr (idx, found) ↦
      let (place, h, at) : Place s.bulk_order idx =
        rw v.order (rw zero-add at (bulk-Place k 0 s.queues idx found)) in
      let (j, small, same) = reached s.next_bulk_channel place (length s.bulk_order) v.turn h in
      let here : bulk_slot s j ≡ idx = unfold bulk_slot in rw same at in
      view-position-some k bulk s.queues idx found
      ∙ rw here at
          (pop_bulk-none (length s.bulk_order) 0 s e j (omega arith) (omega (arith, small)))
]

-- A queue changes in its frames only.
IsValid-set_pending :
    (s : Scheduler) (idx : ℕ) (pending : List Bytes) (turn : ℕ)
    → IsValid s
    → (turn ≡ 0) ⊎ (turn < length s.bulk_order)
    → IsValid (record s { queues = set_pending s.queues idx pending; next_bulk_channel = turn })
IsValid-set_pending s idx pending turn v h = record {
  distinct = Distinct-set_pending s.queues idx pending v.distinct;
  order = v.order ∙ sym (bulk_indices-set_pending 0 s.queues idx pending);
  turn = h;
}

-- What pop_next leaves of a valid scheduler, when it returns a frame, is valid.
pub pop_next-IsValid :
    (s : Scheduler) (b : Bytes) (s' : Scheduler)
    → IsValid s
    → pop_next s ≡ some (b, s')
    → IsValid s'
pop_next-IsValid s b s' v e = elim (Option-cases (pop_latency s.queues)) [
  | inl none_waits ↦
      let served =
        pop_bulk-Served (length s.bulk_order) 0 s b s' (sym (pop_next_bulk s none_waits) ∙ e) in
      rw served.left (
        IsValid-set_pending s (bulk_slot s served.at) served.rest _ v
          (inr (mod-lt (s.next_bulk_channel + served.at + 1) (omega (arith, served.most)))))
  | inr ((b', queues), found) ↦
      let first = pop_next_latency s b' queues found in
      let state : s' ≡ record s { queues = queues } = cc (first, e) in
      let taken = pop_latency-Taken s.queues b' queues found in
      rw (state, taken.left)
        (IsValid-set_pending s taken.idx taken.rest s.next_bulk_channel v v.turn)
]

-- On a valid scheduler pop_next returns nothing only when no frame waits in any class.
pub pop_next-none :
    (s : Scheduler) (k : ChannelKey) (p : Priority)
    → IsValid s
    → pop_next s ≡ none
    → view k p s.queues ≡ []
pop_next-none s k p v e = elim (Option-cases (pop_latency s.queues)) [
  | inl none_waits ↦ each p (sym (pop_next_bulk s none_waits) ∙ e) none_waits
  | inr ((b', queues), found) ↦ absurd (cc (pop_next_latency s b' queues found, e))
]
  where
    each :
        (q : Priority)
        → pop_bulk (length s.bulk_order) 0 s ≡ none
        → pop_latency s.queues ≡ none
        → view k q s.queues ≡ []
    each latency bulk_none none_waits = pop_latency-none s.queues k none_waits
    each bulk bulk_none none_waits = pop_next-none_bulk s k v bulk_none
