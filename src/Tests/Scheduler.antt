-- ===== src/Tests/Scheduler.antt =====
-- The frame scheduler on the channels of a session.
use kmsrdp.Prelude.{◌≡◌, ◌++◌, refl, none, some, [], ◌∷◌, arith, if◌then◌else◌}
use mathlib.Core.List.{Memᴰ}
use kmsrdp.Transport.Scheduler.{
  io, static, latency, bulk, Frame, Scheduler, new, position, push_back, bulk_index, set_pending,
  is_class, pending_at, enqueue, pop_next, bulk_slot, pop_latency,
}
use kmsrdp.Transport.Scheduler.Views.{view, same_class}
use kmsrdp.Transport.Scheduler.Valid.{IsValid, IsValid-new, enqueue-IsValid, view-enqueue}
use kmsrdp.Transport.Scheduler.Order.{Popped, pop_next-Popped}
use kmsrdp.Transport.Scheduler.Turns.{pop_next-none, pop_next-IsValid}
use kmsrdp.Transport.Scheduler.Fair.{drain, Waits, drain-Waits}

-- Two bulk channels and a latency channel, as in a session with graphics, a drive and sound.
abbrev picture : Frame
picture = record { channel = io; priority = bulk; bytes = 1 ∷ [] }

abbrev drive : Frame
drive = record { channel = static 1004; priority = bulk; bytes = 2 ∷ [] }

abbrev sound : Frame
sound = record { channel = static 1005; priority = latency; bytes = 3 ∷ [] }

abbrev three : Scheduler
three = enqueue sound (enqueue drive (enqueue picture new))

abbrev two : Scheduler
two = enqueue drive (enqueue picture new)

abbrev sent_sound : Scheduler
sent_sound = record {
  queues =
      record { key = io; priority = bulk; pending = (1 ∷ []) ∷ [] }
      ∷ record { key = static 1004; priority = bulk; pending = (2 ∷ []) ∷ [] }
      ∷ record { key = static 1005; priority = latency; pending = [] }
      ∷ [];
  bulk_order = 0 ∷ 1 ∷ [];
  next_bulk_channel = 0;
}

three-IsValid : IsValid three
three-IsValid =
    enqueue-IsValid sound _ (enqueue-IsValid drive _ (enqueue-IsValid picture new IsValid-new))

two-IsValid : IsValid two
two-IsValid = enqueue-IsValid drive _ (enqueue-IsValid picture new IsValid-new)

three-next : pop_next three ≡ some (3 ∷ [], sent_sound)
unfolding pop_next enqueue new position push_back bulk_index is_class
three-next = refl

pop_next-Popped_example : Popped three (3 ∷ []) sent_sound
pop_next-Popped_example = pop_next-Popped three (3 ∷ []) sent_sound three-IsValid three-next

pop_next-IsValid_example : IsValid sent_sound
pop_next-IsValid_example = pop_next-IsValid three (3 ∷ []) sent_sound three-IsValid three-next

new-empty : pop_next new ≡ none
unfolding pop_next new
new-empty = refl

pop_next-none_example : view io bulk new.queues ≡ []
pop_next-none_example = pop_next-none new io bulk IsValid-new new-empty

view-enqueue_example : view io bulk three.queues ≡ (
    if same_class (static 1005) latency io bulk
    then view io bulk two.queues ++ (3 ∷ []) ∷ []
    else view io bulk two.queues)
view-enqueue_example = view-enqueue sound two io bulk

enqueue-IsValid_example : IsValid (enqueue sound two)
enqueue-IsValid_example = enqueue-IsValid sound two two-IsValid

two-no_latency : pop_latency two.queues ≡ none
unfolding pop_latency enqueue new position push_back bulk_index set_pending is_class pending_at
two-no_latency = refl

two-Waits : Waits two 1 (2 ∷ [])
unfolding bulk_slot enqueue new position push_back bulk_index set_pending is_class pending_at
two-Waits = record { within = omega arith; rest = []; front = refl }

drain-Waits_example : Memᴰ (2 ∷ []) (drain 2 two)
drain-Waits_example =
    drain-Waits 2 two 1 (2 ∷ []) two-IsValid two-no_latency two-Waits (omega arith)
