-- ===== src/Transport/Scheduler/Views.antt =====
-- What a client sees of the scheduler: for each channel and priority, the frames that wait.
use kmsrdp.Prelude.{
  ℕ, zero, suc, ◌≡◌, refl, Bool, true, false, ◌&&◌, none, some, List, [], ◌∷◌, ◌++◌, length, All,
  arith, if◌then◌else◌, ◌↔◌,
}
use kmsrdp.Transport.Scheduler.{
  ChannelKey, io, static, Priority, latency, bulk, Bytes, ChannelQueue, key_eq, priority_eq,
  is_class, position, pending_at, set_pending,
}

-- The frames of one class that wait, oldest first.
unfoldable pub view : ChannelKey → Priority → List ChannelQueue → List Bytes
view key priority [] = []
view key priority (q ∷ qs) = if is_class key priority q then q.pending else view key priority qs

-- No two queues are of one class.
abbrev pub Distinct : List ChannelQueue → Type 0
Distinct [] = Unit
Distinct (q ∷ qs) = All (λ r. is_class q.key q.priority r ≡ false) qs × Distinct qs

key_eq_iff : (a b : ChannelKey) → (key_eq a b ≡ true) ↔ (a ≡ b)
unfolding key_eq
key_eq_iff io io = ground arith
key_eq_iff (static a) (static b) = ground arith
key_eq_iff io (static b) = ground arith
key_eq_iff (static a) io = ground arith

priority_eq_iff : (a b : Priority) → (priority_eq a b ≡ true) ↔ (a ≡ b)
unfolding priority_eq
priority_eq_iff latency latency = ground arith
priority_eq_iff latency bulk = ground arith
priority_eq_iff bulk latency = ground arith
priority_eq_iff bulk bulk = ground arith

pub is_class_iff :
    (key : ChannelKey) (priority : Priority) (q : ChannelQueue)
    → (is_class key priority q ≡ true) ↔ ((q.key ≡ key) × (q.priority ≡ priority))
unfolding is_class
is_class_iff key priority q =
    ground (arith, key_eq_iff q.key key, priority_eq_iff q.priority priority)

abbrev pub same_class : ChannelKey → Priority → ChannelKey → Priority → Bool
same_class k p k' p' = key_eq k k' && priority_eq p p'

pub same_class_iff :
    (k : ChannelKey) (p : Priority) (k' : ChannelKey) (p' : Priority)
    → (same_class k p k' p' ≡ true) ↔ ((k ≡ k') × (p ≡ p'))
same_class_iff k p k' p' = ground (arith, key_eq_iff k k', priority_eq_iff p p')

-- A queue of one class is of another only if the classes are the same.
class_transfer :
    (k : ChannelKey) (p : Priority) (q : ChannelQueue) (k' : ChannelKey) (p' : Priority)
    → is_class k p q ≡ true
    → is_class k' p' q ≡ same_class k p k' p'
class_transfer k p q k' p' h =
    ground (arith, is_class_iff k p q, is_class_iff k' p' q, same_class_iff k p k' p')

is_class_pending :
    (k : ChannelKey) (p : Priority) (q : ChannelQueue) (pending : List Bytes)
    → is_class k p (record q { pending = pending }) ≡ is_class k p q
unfolding is_class
is_class_pending k p q pending = refl

class_differs :
    (k : ChannelKey) (p : Priority) (q : ChannelQueue) (k' : ChannelKey) (p' : Priority)
    → is_class k p q ≡ false
    → is_class k' p' q ≡ true
    → same_class k p k' p' ≡ false
class_differs k p q k' p' h e =
    ground (arith, is_class_iff k p q, is_class_iff k' p' q, same_class_iff k p k' p')

module _ (k : ChannelKey) (p : Priority) where
  pub view-position-none : (qs : List ChannelQueue) → position k p qs ≡ none → view k p qs ≡ []
  unfolding position view
  view-position-none [] h = refl
  view-position-none (q ∷ qs) h = ground (arith, view-position-none qs)

  pub view-position-some :
      (qs : List ChannelQueue) (idx : ℕ)
      → position k p qs ≡ some idx
      → view k p qs ≡ pending_at qs idx
  unfolding position view pending_at
  view-position-some [] idx h = cc
  view-position-some (q ∷ qs) zero h = ground (arith)
  view-position-some (q ∷ qs) (suc idx) h = ground (arith, view-position-some qs idx)

  pub view-set_pending :
      (qs : List ChannelQueue) (idx : ℕ) (pending : List Bytes) (k' : ChannelKey) (p' : Priority)
      → position k p qs ≡ some idx
      → view k' p' (set_pending qs idx pending)
        ≡ (if same_class k p k' p' then pending else view k' p' qs)
  unfolding position view set_pending
  view-set_pending [] idx pending k' p' h = cc
  view-set_pending (q ∷ qs) zero pending k' p' h =
      ground (arith, class_transfer k p q k' p', is_class_pending k' p' q pending)
  view-set_pending (q ∷ qs) (suc idx) pending k' p' h =
      ground (arith, class_differs k p q k' p', view-set_pending qs idx pending k' p')

  pub position-append :
      (qs : List ChannelQueue) (q : ChannelQueue)
      → position k p qs ≡ none
      → is_class k p q ≡ true
      → position k p (qs ++ q ∷ []) ≡ some (length qs)
  unfolding position
  position-append [] q h e = ground arith
  position-append (r ∷ qs) q h e = ground (arith, position-append qs q)

  pub view-append :
      (qs : List ChannelQueue) (q : ChannelQueue)
      → q.pending ≡ []
      → view k p (qs ++ q ∷ []) ≡ view k p qs
  unfolding view
  view-append [] q h = ground arith
  view-append (r ∷ qs) q h = ground (arith, view-append qs q)
