-- ===== src/Transport/Scheduler/Valid.antt =====
-- The invariant of the scheduler, and what `enqueue` does to the views.
use kmsrdp.Prelude.{
  ℕ, zero, suc, ◌+◌, ◌<◌, ◌≡◌, refl, ap, true, false, none, some, List, [], ◌∷◌, ◌++◌, length, All,
  All-append, length-append, arith, if◌then◌else◌, Option-cases, inl, inr, ◌⊎◌, append_assoc,
  append-nil,
}
use kmsrdp.Transport.Scheduler.{
  ChannelKey, Priority, Bytes, Frame, ChannelQueue, Scheduler, new, is_class, position, pending_at,
  set_pending, push_back, bulk_index, enqueue,
}
use kmsrdp.Transport.Scheduler.Views.{
  view, Distinct, is_class_iff, same_class, same_class_iff, view-position-some, view-set_pending,
  position-append, view-append,
}

-- The places of the bulk queues, from `start` on.
unfoldable pub bulk_indices : ℕ → List ChannelQueue → List ℕ
unfolding bulk_index
bulk_indices start [] = []
bulk_indices start (q ∷ qs) = bulk_index q.priority start ++ bulk_indices (suc start) qs

pub record IsValid (s : Scheduler) : Type 0 where
  pub distinct : Distinct s.queues
  pub order : s.bulk_order ≡ bulk_indices 0 s.queues
  pub turn : (s.next_bulk_channel ≡ 0) ⊎ (s.next_bulk_channel < length s.bulk_order)

pub IsValid-new : IsValid new
unfolding new bulk_indices
IsValid-new = record { distinct = tt; order = refl; turn = inl refl }

All-set_pending :
    (k : ChannelKey) (p : Priority) (qs : List ChannelQueue) (idx : ℕ) (pending : List Bytes)
    → All (λ r. is_class k p r ≡ false) qs
    → All (λ r. is_class k p r ≡ false) (set_pending qs idx pending)
unfolding set_pending is_class
All-set_pending k p [] idx pending h = tt
All-set_pending k p (q ∷ qs) zero pending h = h
All-set_pending k p (q ∷ qs) (suc idx) pending h = (h.0, All-set_pending k p qs idx pending h.1)

pub Distinct-set_pending :
    (qs : List ChannelQueue) (idx : ℕ) (pending : List Bytes)
    → Distinct qs
    → Distinct (set_pending qs idx pending)
unfolding set_pending
Distinct-set_pending [] idx pending h = tt
Distinct-set_pending (q ∷ qs) zero pending h = h
Distinct-set_pending (q ∷ qs) (suc idx) pending h =
    (All-set_pending q.key q.priority qs idx pending h.0, Distinct-set_pending qs idx pending h.1)

pub bulk_indices-set_pending :
    (start : ℕ) (qs : List ChannelQueue) (idx : ℕ) (pending : List Bytes)
    → bulk_indices start (set_pending qs idx pending) ≡ bulk_indices start qs
unfolding set_pending bulk_indices
bulk_indices-set_pending start [] idx pending = refl
bulk_indices-set_pending start (q ∷ qs) zero pending = refl
bulk_indices-set_pending start (q ∷ qs) (suc idx) pending =
    ap (λ r. bulk_index q.priority start ++ r) (bulk_indices-set_pending (suc start) qs idx pending)

class_symm :
    (k : ChannelKey) (p : Priority) (q r : ChannelQueue)
    → r.key ≡ k
    → r.priority ≡ p
    → is_class k p q ≡ false
    → is_class q.key q.priority r ≡ false
class_symm k p q r hk hp h = ground (arith, is_class_iff k p q, is_class_iff q.key q.priority r)

Distinct-append :
    (k : ChannelKey) (p : Priority) (qs : List ChannelQueue) (r : ChannelQueue)
    → r.key ≡ k
    → r.priority ≡ p
    → position k p qs ≡ none
    → Distinct qs
    → Distinct (qs ++ r ∷ [])
unfolding position
Distinct-append k p [] r hk hp e h = (tt, tt)
Distinct-append k p (q ∷ qs) r hk hp e h = (
  All-append (λ x. is_class q.key q.priority x ≡ false) qs (r ∷ []) h.0
      (class_symm k p q r hk hp (ground arith), tt),
  Distinct-append k p qs r hk hp (ground arith) h.1,
)

bulk_indices-append :
    (start : ℕ) (qs : List ChannelQueue) (r : ChannelQueue)
    → bulk_indices start (qs ++ r ∷ [])
      ≡ bulk_indices start qs ++ bulk_index r.priority (start + length qs)
unfolding bulk_indices
bulk_indices-append start [] r = let e : start + 0 ≡ start = omega arith in rw (append-nil, e)
bulk_indices-append start (q ∷ qs) r =
    let e : suc start + length qs ≡ start + suc (length qs) = omega arith in
    rw (bulk_indices-append (suc start) qs r, append_assoc, e)

abbrev fresh : Frame → ChannelQueue
fresh frame = record { key = frame.channel; priority = frame.priority; pending = [] }

module _ (frame : Frame) (s : Scheduler) where
  enqueue_old :
      (idx : ℕ)
      → position frame.channel frame.priority s.queues ≡ some idx
      → enqueue frame s ≡ record s { queues = push_back s.queues idx frame.bytes }
  unfolding enqueue
  enqueue_old idx e = rw (e, enqueue)

  enqueue_new :
      position frame.channel frame.priority s.queues ≡ none
      → enqueue frame s ≡ record s {
        queues = push_back (s.queues ++ fresh frame ∷ []) (length s.queues) frame.bytes;
        bulk_order = s.bulk_order ++ bulk_index frame.priority (length s.queues);
      }
  unfolding enqueue
  enqueue_new e = rw (e, enqueue)

fresh_class : (frame : Frame) → is_class frame.channel frame.priority (fresh frame) ≡ true
fresh_class frame = (is_class_iff frame.channel frame.priority (fresh frame)).1 (refl, refl)

view-push_back :
    (k : ChannelKey) (p : Priority) (qs : List ChannelQueue) (idx : ℕ) (bytes : Bytes)
    (k' : ChannelKey) (p' : Priority)
    → position k p qs ≡ some idx
    → view k' p' (push_back qs idx bytes)
      ≡ (if same_class k p k' p' then view k' p' qs ++ bytes ∷ [] else view k' p' qs)
unfolding push_back
view-push_back k p qs idx bytes k' p' h = ground (
  arith,
  view-set_pending k p qs idx (pending_at qs idx ++ bytes ∷ []) k' p' h,
  view-position-some k p qs idx h,
  same_class_iff k p k' p',
)

-- Enqueuing a frame, on any scheduler, puts it behind the frames of its own class, and changes
-- no other class.
pub view-enqueue :
    (frame : Frame) (s : Scheduler) (k : ChannelKey) (p : Priority)
    → view k p (enqueue frame s).queues ≡ (
        if same_class frame.channel frame.priority k p
        then view k p s.queues ++ frame.bytes ∷ []
        else view k p s.queues)
view-enqueue frame s k p = elim (Option-cases (position frame.channel frame.priority s.queues)) [
  | inl e ↦ rw (
    enqueue_new frame s e,
    view-push_back frame.channel frame.priority (s.queues ++ fresh frame ∷ []) (length s.queues)
        frame.bytes k p
        (position-append frame.channel frame.priority s.queues (fresh frame) e (fresh_class frame)),
    view-append k p s.queues (fresh frame) refl,
  )
  | inr (idx, e) ↦ rw (
    enqueue_old frame s idx e,
    view-push_back frame.channel frame.priority s.queues idx frame.bytes k p e,
  )
]

grows : (n : ℕ) (xs ys : List ℕ) → (n ≡ 0) ⊎ (n < length xs) → (n ≡ 0) ⊎ (n < length (xs ++ ys))
grows n xs ys (inl e) = inl e
grows n xs ys (inr h) = inr (omega (arith, length-append xs ys))

-- Enqueuing a frame on a valid scheduler gives a valid one.
pub enqueue-IsValid : (frame : Frame) (s : Scheduler) → IsValid s → IsValid (enqueue frame s)
enqueue-IsValid frame s h = elim (Option-cases (position frame.channel frame.priority s.queues)) [
  | inl e ↦ rw (enqueue_new frame s e) (
      unfold push_back in
      record {
        distinct = Distinct-set_pending _ _ _ (
            Distinct-append frame.channel frame.priority s.queues (fresh frame) refl refl e
              h.distinct);
        order =
            rw (bulk_indices-set_pending, bulk_indices-append, h.order)
              (ap (λ n. bulk_indices 0 s.queues ++ bulk_index frame.priority n) (omega arith));
        turn =
            grows s.next_bulk_channel s.bulk_order (bulk_index frame.priority (length s.queues))
              h.turn;
      })
  | inr (idx, e) ↦ rw (enqueue_old frame s idx e) (
      unfold push_back in
      record {
        distinct = Distinct-set_pending s.queues idx _ h.distinct;
        order = rw bulk_indices-set_pending h.order;
        turn = h.turn;
      })
]
