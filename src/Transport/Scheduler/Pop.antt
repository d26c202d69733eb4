-- ===== src/Transport/Scheduler/Pop.antt =====
-- What `pop_next` takes, and what it leaves.
use kmsrdp.Prelude.{
  ℕ, zero, suc, ◌+◌, ◌%◌, ◌≤◌, ◌<◌, ◌≡◌, refl, sym, ap, ◌∙◌, true, false, Option, none, some, List,
  [], ◌∷◌, length, All, arith, Option-cases, List-cases, inl, inr,
}
use native.Mathlib.Nat.{le_refl}
use native.Mathlib.Decide.{ℕ_discrete}
use kmsrdp.Transport.Scheduler.{
  ChannelKey, Priority, latency, bulk, Bytes, ChannelQueue, Scheduler, is_class, position,
  pending_at, set_pending, latency_front, pop_latency, bulk_slot, pop_bulk,
}
use kmsrdp.Transport.Scheduler.Views.{view, Distinct, is_class_iff}

unfoldable pub priority_at : List ChannelQueue → ℕ → Option Priority
priority_at [] idx = none
priority_at (q ∷ qs) zero = some q.priority
priority_at (q ∷ qs) (suc idx) = priority_at qs idx

-- The class of the queue at a place, which is found there.
pub record Slot (qs : List ChannelQueue) (idx : ℕ) (p : Priority) : Type 0 where
  pub key : ChannelKey
  pub found : position key p qs ≡ some idx

not_head :
    (q : ChannelQueue) (k : ChannelKey) (p : Priority) (qs : List ChannelQueue) (idx : ℕ)
    → All (λ r. is_class q.key q.priority r ≡ false) qs
    → position k p qs ≡ some idx
    → is_class k p q ≡ false
unfolding position
not_head q k p [] idx h e = cc
not_head q k p (r ∷ qs) zero h e =
    ground (arith, is_class_iff k p r, is_class_iff k p q, is_class_iff q.key q.priority r, h.0)
not_head q k p (r ∷ qs) (suc idx) h e = not_head q k p qs idx h.1 (ground arith)

position_head :
    (k : ChannelKey) (p : Priority) (q : ChannelQueue) (qs : List ChannelQueue)
    → is_class k p q ≡ true
    → position k p (q ∷ qs) ≡ some 0
unfolding position
position_head k p q qs h = ground arith

position_later :
    (k : ChannelKey) (p : Priority) (q : ChannelQueue) (qs : List ChannelQueue) (idx : ℕ)
    → is_class k p q ≡ false
    → position k p qs ≡ some idx
    → position k p (q ∷ qs) ≡ some (suc idx)
unfolding position
position_later k p q qs idx h e = ground arith

pub slot :
    (qs : List ChannelQueue) (idx : ℕ) (p : Priority)
    → Distinct qs
    → priority_at qs idx ≡ some p
    → Slot qs idx p
unfolding priority_at
slot [] idx p d e = absurd (cc)
slot (q ∷ qs) zero p d e = record {
  key = q.key;
  found = position_head q.key p q qs ((is_class_iff q.key p q).1 (refl, ground arith));
}
slot (q ∷ qs) (suc idx) p d e =
    let s = slot qs idx p d.1 e in
    record {
      key = s.key;
      found = position_later s.key p q qs idx (not_head q s.key p qs idx d.0 s.found) s.found;
    }

-- What `pop_latency` takes stands at the front of a latency queue.
pub record Taken (p : Priority) (qs : List ChannelQueue) (b : Bytes) (qs' : List ChannelQueue)
    : Type 0 where
  pub idx : ℕ
  pub rest : List Bytes
  pub here : priority_at qs idx ≡ some p
  pub front : pending_at qs idx ≡ b ∷ rest
  pub left : qs' ≡ set_pending qs idx rest

latency_front-some :
    (p : Priority) (pending : List Bytes) (b : Bytes) (rest : List Bytes)
    → latency_front p pending ≡ some (b, rest)
    → (p ≡ latency) × (pending ≡ b ∷ rest)
unfolding latency_front
latency_front-some latency [] b rest e = absurd (cc)
latency_front-some latency (x ∷ xs) b rest e = ground arith
latency_front-some bulk pending b rest e = absurd (cc)

Taken-later :
    (p : Priority) (q : ChannelQueue) (qs : List ChannelQueue) (b : Bytes)
    (later : List ChannelQueue)
    → Taken p qs b later
    → Taken p (q ∷ qs) b (q ∷ later)
unfolding priority_at pending_at set_pending
Taken-later p q qs b later t = record {
  idx = suc t.idx;
  rest = t.rest;
  here = t.here;
  front = t.front;
  left = ap (λ r. q ∷ r) t.left;
}

Taken-here :
    (q : ChannelQueue) (qs : List ChannelQueue) (b : Bytes) (rest : List Bytes)
    → (q.priority ≡ latency) × (q.pending ≡ b ∷ rest)
    → Taken latency (q ∷ qs) b (record q { pending = rest } ∷ qs)
unfolding priority_at pending_at set_pending
Taken-here q qs b rest h = record {
  idx = 0;
  rest = rest;
  here = ap some h.0;
  front = h.1;
  left = refl;
}

Taken-eq :
    (p : Priority) (qs : List ChannelQueue) (b b' : Bytes) (l l' : List ChannelQueue)
    → (b' ≡ b) × (l ≡ l')
    → Taken p qs b' l'
    → Taken p qs b l
Taken-eq p qs b b' l l' e t = record {
  idx = t.idx;
  rest = t.rest;
  here = t.here;
  front = t.front ∙ ap (λ x. x ∷ t.rest) e.0;
  left = e.1 ∙ t.left;
}

-- The first queue decides, or the later ones do.
pop_latency_first :
    (q : ChannelQueue) (qs : List ChannelQueue) (b : Bytes) (qs' : List ChannelQueue) (b' : Bytes)
    (rest : List Bytes)
    → pop_latency (q ∷ qs) ≡ some (b, qs')
    → latency_front q.priority q.pending ≡ some (b', rest)
    → (b' ≡ b) × (qs' ≡ record q { pending = rest } ∷ qs)
unfolding pop_latency
pop_latency_first q qs b qs' b' rest e f = ground arith

pop_latency_later :
    (q : ChannelQueue) (qs : List ChannelQueue) (b : Bytes) (qs' : List ChannelQueue)
    → pop_latency (q ∷ qs) ≡ some (b, qs')
    → latency_front q.priority q.pending ≡ none
    → (later : List ChannelQueue) × (pop_latency qs ≡ some (b, later)) × (qs' ≡ q ∷ later)
unfolding pop_latency
pop_latency_later q qs b qs' e f = elim (Option-cases (pop_latency qs)) [
  | inl nothing ↦ absurd (ground arith)
  | inr ((b', later), found) ↦ (later, ground arith, ground arith)
]

pub pop_latency-Taken :
    (qs : List ChannelQueue) (b : Bytes) (qs' : List ChannelQueue)
    → pop_latency qs ≡ some (b, qs')
    → Taken latency qs b qs'
unfolding pop_latency
pop_latency-Taken [] b qs' e = absurd (cc)
pop_latency-Taken (q ∷ qs) b qs' e = elim (Option-cases (latency_front q.priority q.pending)) [
  | inl skip ↦
      let (later, found, shape) = pop_latency_later q qs b qs' e skip in
      Taken-eq latency (q ∷ qs) b b qs' (q ∷ later) (refl, shape)
        (Taken-later latency q qs b later (pop_latency-Taken qs b later found))
  | inr ((b', rest), first) ↦
      Taken-eq latency (q ∷ qs) b b' qs' _ (pop_latency_first q qs b qs' b' rest e first)
        (Taken-here q qs b' rest (latency_front-some q.priority q.pending b' rest first))
]

pub pop_latency-none :
    (qs : List ChannelQueue) (k : ChannelKey) → pop_latency qs ≡ none → view k latency qs ≡ []
unfolding pop_latency view latency_front
pop_latency-none [] k e = refl
pop_latency-none (q ∷ qs) k e = ground (arith, is_class_iff k latency q, pop_latency-none qs k)

-- What the bulk loop serves: the first slot from `offset` on that has a frame.
pub record Served (s : Scheduler) (offset rounds : ℕ) (b : Bytes) (s' : Scheduler) : Type 0 where
  pub at : ℕ
  pub rest : List Bytes
  pub least : offset ≤ at
  pub most : at < offset + rounds
  pub front : pending_at s.queues (bulk_slot s at) ≡ b ∷ rest
  pub skipped : (j : ℕ) → offset ≤ j → j < at → pending_at s.queues (bulk_slot s j) ≡ []
  pub left : s' ≡ record s {
    queues = set_pending s.queues (bulk_slot s at) rest;
    next_bulk_channel = (s.next_bulk_channel + at + 1) % length s.bulk_order;
  }

pop_bulk_empty :
    (rounds offset : ℕ) (s : Scheduler)
    → pending_at s.queues (bulk_slot s offset) ≡ []
    → pop_bulk (suc rounds) offset s ≡ pop_bulk rounds (offset + 1) s
unfolding pop_bulk
pop_bulk_empty rounds offset s e = rw (e, pop_bulk)

pop_bulk_front :
    (rounds offset : ℕ) (s : Scheduler) (b : Bytes) (rest : List Bytes)
    → pending_at s.queues (bulk_slot s offset) ≡ b ∷ rest
    → pop_bulk (suc rounds) offset s
      ≡ some (
        b,
        record s {
          queues = set_pending s.queues (bulk_slot s offset) rest;
          next_bulk_channel = (s.next_bulk_channel + offset + 1) % length s.bulk_order;
        },
      )
unfolding pop_bulk
pop_bulk_front rounds offset s b rest e = rw (e, pop_bulk)

pub pop_bulk-Served :
    (rounds offset : ℕ) (s : Scheduler) (b : Bytes) (s' : Scheduler)
    → pop_bulk rounds offset s ≡ some (b, s')
    → Served s offset rounds b s'
pop_bulk-Served zero offset s b s' e = unfold pop_bulk in absurd (cc)
pop_bulk-Served (suc rounds) offset s b s' e =
    elim (List-cases (pending_at s.queues (bulk_slot s offset))) [
      | inl empty ↦ later empty (
          pop_bulk-Served rounds (offset + 1) s b s'
            (sym (pop_bulk_empty rounds offset s empty) ∙ e))
      | inr (b', rest, found) ↦ now b' rest found
    ]
  where
    later :
        pending_at s.queues (bulk_slot s offset) ≡ []
        → Served s (offset + 1) rounds b s'
        → Served s offset (suc rounds) b s'
    later empty v = record {
      at = v.at;
      rest = v.rest;
      least = omega (arith, v.least);
      most = omega (arith, v.most);
      front = v.front;
      skipped = λ j h k. elim (ℕ_discrete j offset) [
        | yes same ↦ rw same empty
        | no ne ↦ v.skipped j (omega arith) k
      ];
      left = v.left;
    }

    now :
        (b' : Bytes) (rest : List Bytes)
        → pending_at s.queues (bulk_slot s offset) ≡ b' ∷ rest
        → Served s offset (suc rounds) b s'
    now b' rest found =
        let first = pop_bulk_front rounds offset s b' rest found in
        record {
          at = offset;
          rest = rest;
          least = le_refl offset;
          most = omega arith;
          front = found ∙ ap (λ x. x ∷ rest) (cc (first, e));
          skipped = λ j h k. absurd (omega arith);
          left = cc (first, e);
        }

pub pop_bulk-none :
    (rounds offset : ℕ) (s : Scheduler)
    → pop_bulk rounds offset s ≡ none
    → (j : ℕ) → offset ≤ j
    → j < offset + rounds
    → pending_at s.queues (bulk_slot s j) ≡ []
pop_bulk-none zero offset s e j h k = absurd (omega arith)
pop_bulk-none (suc rounds) offset s e j h k =
    elim (List-cases (pending_at s.queues (bulk_slot s offset))) [
      | inl empty ↦ elim (ℕ_discrete j offset) [
        | yes same ↦ rw same empty
        | no ne ↦
            pop_bulk-none rounds (offset + 1) s (sym (pop_bulk_empty rounds offset s empty) ∙ e) j
              (omega arith) (omega arith)
      ]
      | inr (b, rest, found) ↦ absurd (cc (pop_bulk_front rounds offset s b rest found))
    ]
