-- ===== src/Transport/Scheduler/Order.antt =====
-- scheduler.rs, `pop_next`: the order of service.
use kmsrdp.Prelude.{
  ℕ, zero, suc, ◌+◌, ◌-◌, ◌%◌, ◌≤◌, ◌<◌, ◌≡◌, ◌≢◌, refl, sym, ap, ◌∙◌, true, false, none, some,
  List, [], ◌∷◌, length, All, All-append, arith, Option-cases, inl, inr, get_or,
}
use native.Mathlib.Nat.{mod-lt, le_refl, sub-zero}
use kmsrdp.Transport.Scheduler.{
  ChannelKey, Priority, latency, bulk, Bytes, ChannelQueue, Scheduler, pending_at, set_pending,
  bulk_index, pop_latency, bulk_slot, pop_bulk, pop_next,
}
use kmsrdp.Transport.Scheduler.Views.{
  view, same_class, same_class_iff, view-position-some, view-set_pending,
}
use kmsrdp.Transport.Scheduler.Valid.{bulk_indices, IsValid}
use kmsrdp.Transport.Scheduler.Pop.{
  priority_at, slot, pop_latency-Taken, pop_latency-none, pop_bulk-Served,
}

pub All-get_or :
    (P : ℕ → Type 0) (xs : List ℕ) (i : ℕ) → All P xs → i < length xs → P (get_or xs i 0)
All-get_or P [] i h k = absurd (omega arith)
All-get_or P (x ∷ xs) zero h k = h.0
All-get_or P (x ∷ xs) (suc i) h k = All-get_or P xs i h.1 (omega arith)

abbrev IsBulk : ℕ → List ChannelQueue → ℕ → Type 0
IsBulk start qs i = (start ≤ i) × (priority_at qs (i - start) ≡ some bulk)

All-weaken :
    (start : ℕ) (q : ChannelQueue) (qs : List ChannelQueue) (xs : List ℕ)
    → All (IsBulk (suc start) qs) xs
    → All (IsBulk start (q ∷ qs)) xs
unfolding priority_at
All-weaken start q qs [] h = tt
All-weaken start q qs (x ∷ xs) h =
    let e : x - start ≡ suc (x - suc start) = omega (arith, h.0.0) in
    ((omega (arith, h.0.0), rw e h.0.1), All-weaken start q qs xs h.1)

own_index :
    (p : Priority) (start : ℕ) (q : ChannelQueue) (qs : List ChannelQueue)
    → q.priority ≡ p
    → All (IsBulk start (q ∷ qs)) (bulk_index p start)
unfolding bulk_index priority_at
own_index latency start q qs e = tt
own_index bulk start q qs e =
    let z : start - start ≡ 0 = omega arith in ((le_refl start, rw z (ap some e)), tt)

bulk_indices-IsBulk :
    (start : ℕ) (qs : List ChannelQueue) → All (IsBulk start qs) (bulk_indices start qs)
unfolding bulk_indices
bulk_indices-IsBulk start [] = tt
bulk_indices-IsBulk start (q ∷ qs) =
    All-append (IsBulk start (q ∷ qs)) (bulk_index q.priority start) _
      (own_index q.priority start q qs refl)
      (All-weaken start q qs _ (bulk_indices-IsBulk (suc start) qs))

-- Every slot of the bulk loop is a bulk queue.
pub bulk_slot_bulk :
    (s : Scheduler) (j : ℕ)
    → IsValid s
    → 0 < length s.bulk_order
    → priority_at s.queues (bulk_slot s j) ≡ some bulk
unfolding bulk_slot
bulk_slot_bulk s j v h =
    let place = (s.next_bulk_channel + j) % length s.bulk_order in
    let all : All (IsBulk 0 s.queues) s.bulk_order = rw v.order (bulk_indices-IsBulk 0 s.queues) in
    rw (sub-zero) at
      (All-get_or (IsBulk 0 s.queues) s.bulk_order place all (mod-lt (s.next_bulk_channel + j) h)).1

-- What one `pop_next` does to the classes.
pub record Popped (s : Scheduler) (b : Bytes) (s' : Scheduler) : Type 0 where
  pub key : ChannelKey
  pub priority : Priority
  pub front : view key priority s.queues ≡ b ∷ view key priority s'.queues
  pub others :
      (k : ChannelKey) (p : Priority)
      → same_class key priority k p ≡ false
      → view k p s'.queues ≡ view k p s.queues
  pub latency_first : priority ≡ bulk → (k : ChannelKey) → view k latency s.queues ≡ []

-- A frame taken from the front of the queue at a place.
Popped-at :
    (s s' : Scheduler) (p : Priority) (idx : ℕ) (b : Bytes) (rest : List Bytes)
    → IsValid s
    → priority_at s.queues idx ≡ some p
    → pending_at s.queues idx ≡ b ∷ rest
    → s'.queues ≡ set_pending s.queues idx rest
    → (p ≡ bulk → (k : ChannelKey) → view k latency s.queues ≡ [])
    → Popped s b s'
Popped-at s s' p idx b rest v here front left first =
    let c = slot s.queues idx p v.distinct here in
    let self : same_class c.key p c.key p ≡ true =
      (same_class_iff c.key p c.key p).1 (refl, refl) in
    let changed =
      λ (k : ChannelKey) (p' : Priority). view-set_pending c.key p s.queues idx rest k p' c.found in
    record {
      key = c.key;
      priority = p;
      front =
          view-position-some c.key p s.queues idx c.found
          ∙ front
          ∙ ap (λ r. b ∷ r) (sym (rw (left, changed c.key p, self)));
      others = λ k p' ne. rw (left, changed k p', ne);
      latency_first = first;
    }

pub pop_next_latency :
    (s : Scheduler) (b : Bytes) (queues : List ChannelQueue)
    → pop_latency s.queues ≡ some (b, queues)
    → pop_next s ≡ some (b, record s { queues = queues })
unfolding pop_next
pop_next_latency s b queues e = rw (e, pop_next)

pub pop_next_bulk :
    (s : Scheduler) → pop_latency s.queues ≡ none → pop_next s ≡ pop_bulk (length s.bulk_order) 0 s
unfolding pop_next
pop_next_bulk s e = rw (e, pop_next)

latency_not_bulk : latency ≢ bulk
latency_not_bulk e = absurd (cc)

-- On a valid scheduler, a frame that pop_next returns is the oldest frame of one class (a
-- channel with a priority), which loses just that frame; every other class keeps its frames; and
-- if the class is a bulk class, no latency frame waits on any channel.
pub pop_next-Popped :
    (s : Scheduler) (b : Bytes) (s' : Scheduler)
    → IsValid s
    → pop_next s ≡ some (b, s')
    → Popped s b s'
pop_next-Popped s b s' v e = elim (Option-cases (pop_latency s.queues)) [
  | inl none_waits ↦
      let served =
        pop_bulk-Served (length s.bulk_order) 0 s b s' (sym (pop_next_bulk s none_waits) ∙ e) in
      Popped-at s s' bulk (bulk_slot s served.at) b served.rest v
        (bulk_slot_bulk s served.at v (omega (arith, served.most))) served.front
        (ap (λ r. r.queues) served.left) (λ _ k. pop_latency-none s.queues k none_waits)
  | inr ((b', queues), found) ↦
      let first = pop_next_latency s b' queues found in
      let same : b' ≡ b = cc (first, e) in
      let state : s' ≡ record s { queues = queues } = cc (first, e) in
      let taken = pop_latency-Taken s.queues b queues (rw same at found) in
      Popped-at s s' latency taken.idx b taken.rest v taken.here taken.front
        (ap (λ r. r.queues) state ∙ taken.left) (λ impossible. absurd (latency_not_bulk impossible))
]
