-- ===== src/Transport/Scheduler.antt =====
-- crates/rdpcore-transport/src/scheduler.rs: which frame the writer sends next.
pub mod Views
pub mod Valid
pub mod Pop
pub mod Order
pub mod Turns
pub mod Fair
use kmsrdp.Prelude.{
  ℕ, zero, suc, ◌+◌, ◌%◌, Bool, true, false, ◌&&◌, not, ◌||◌, Option, none, some, List, [], ◌∷◌,
  ◌++◌, length, get_or, ◌==◌,
}

pub data ChannelKey : Type 0 where
  io : ChannelKey
  static : ℕ → ChannelKey

pub data Priority : Type 0 where
  latency bulk : Priority

abbrev pub Bytes : Type 0
Bytes = List ℕ

pub record Frame : Type 0 where
  pub channel : ChannelKey
  pub priority : Priority
  pub bytes : Bytes

pub record ChannelQueue : Type 0 where
  pub key : ChannelKey
  pub priority : Priority
  pub pending : List Bytes

pub record Scheduler : Type 0 where
  pub queues : List ChannelQueue
  pub bulk_order : List ℕ
  pub next_bulk_channel : ℕ

unfoldable pub new : Scheduler
new = record { queues = []; bulk_order = []; next_bulk_channel = 0 }

-- The derived equalities.
unfoldable pub key_eq : ChannelKey → ChannelKey → Bool
key_eq io io = true
key_eq (static a) (static b) = a == b
key_eq _ _ = false

unfoldable pub priority_eq : Priority → Priority → Bool
priority_eq latency latency = true
priority_eq bulk bulk = true
priority_eq _ _ = false

-- The test of `position`, for the channel and the priority of a frame.
unfoldable pub is_class : ChannelKey → Priority → ChannelQueue → Bool
unfolding key_eq priority_eq
is_class key priority q = key_eq q.key key && priority_eq q.priority priority

unfoldable pub position : ChannelKey → Priority → List ChannelQueue → Option ℕ
position key priority [] = none
position key priority (q ∷ qs) =
    let rest = position key priority qs in
    elim (is_class key priority q) [
      | true ↦ some 0
      | false ↦ elim rest [ none ↦ none | some i ↦ some (suc i) ]
    ]

-- `queues[idx].pending` and an assignment to it; the code never uses an index out of range.
unfoldable pub pending_at : List ChannelQueue → ℕ → List Bytes
pending_at [] idx = []
pending_at (q ∷ qs) zero = q.pending
pending_at (q ∷ qs) (suc idx) = pending_at qs idx

unfoldable pub set_pending : List ChannelQueue → ℕ → List Bytes → List ChannelQueue
set_pending [] idx pending = []
set_pending (q ∷ qs) zero pending = record q { pending = pending } ∷ qs
set_pending (q ∷ qs) (suc idx) pending = q ∷ set_pending qs idx pending

unfoldable pub push_back : List ChannelQueue → ℕ → Bytes → List ChannelQueue
push_back queues idx bytes = set_pending queues idx (pending_at queues idx ++ bytes ∷ [])

unfoldable pub bulk_index : Priority → ℕ → List ℕ
bulk_index latency idx = []
bulk_index bulk idx = idx ∷ []

unfoldable pub enqueue : Frame → Scheduler → Scheduler
enqueue frame s = elim (position frame.channel frame.priority s.queues) [
  | some idx ↦ record s { queues = push_back s.queues idx frame.bytes }
  | none ↦
      let idx = length s.queues in
      let fresh : ChannelQueue = record {
        key = frame.channel;
        priority = frame.priority;
        pending = [];
      } in
      record s {
        queues = push_back (s.queues ++ fresh ∷ []) idx frame.bytes;
        bulk_order = s.bulk_order ++ bulk_index frame.priority idx;
      }
]

unfoldable pub is_empty : List Bytes → Bool
is_empty [] = true
is_empty (b ∷ bs) = false

unfoldable pub any_pending : List ChannelQueue → Bool
unfolding is_empty
any_pending [] = false
any_pending (q ∷ qs) = not (is_empty q.pending) || any_pending qs

unfoldable pub has_pending : Scheduler → Bool
unfolding any_pending
has_pending s = any_pending s.queues

-- The first frame of a queue, if the queue is a latency queue.
unfoldable pub latency_front : Priority → List Bytes → Option (Bytes × List Bytes)
latency_front latency (b ∷ rest) = some (b, rest)
latency_front _ _ = none

-- The loop over the latency queues.
unfoldable pub pop_latency : List ChannelQueue → Option (Bytes × List ChannelQueue)
unfolding latency_front
pop_latency [] = none
pop_latency (q ∷ qs) =
    let later = pop_latency qs in
    elim (latency_front q.priority q.pending) [
      | some (bytes, rest) ↦ some (bytes, record q { pending = rest } ∷ qs)
      | none ↦ elim later [ none ↦ none | some (bytes, qs') ↦ some (bytes, q ∷ qs') ]
    ]

-- The index that the bulk loop looks at.
unfoldable pub bulk_slot : Scheduler → ℕ → ℕ
bulk_slot s offset = get_or s.bulk_order ((s.next_bulk_channel + offset) % length s.bulk_order) 0

-- The loop `for offset in 0..self.bulk_order.len()`, with the rounds that are left.
unfoldable pub pop_bulk : ℕ → ℕ → Scheduler → Option (Bytes × Scheduler)
unfolding bulk_slot pending_at set_pending
pop_bulk zero offset s = none
pop_bulk (suc rounds) offset s =
    let idx = bulk_slot s offset in
    elim (pending_at s.queues idx) [
      | [] ↦ pop_bulk rounds (offset + 1) s
      | bytes ∷ rest ↦ some (
        bytes,
        record s {
          queues = set_pending s.queues idx rest;
          next_bulk_channel = (s.next_bulk_channel + offset + 1) % length s.bulk_order;
        },
      )
    ]

unfoldable pub pop_next : Scheduler → Option (Bytes × Scheduler)
unfolding pop_latency pop_bulk
pop_next s = elim (pop_latency s.queues) [
  | some (bytes, queues) ↦ some (bytes, record s { queues = queues })
  | none ↦ pop_bulk (length s.bulk_order) 0 s
]
