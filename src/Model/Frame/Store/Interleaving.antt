-- ===== src/Model/Frame/Store/Interleaving.antt =====
-- FrameStore.cpp as its two threads use it: one that submits frames, and one that takes them from
-- the queue and reports them done. A dequeue is two steps, since it takes the frame before it takes
-- the store's mutex; the submitting thread may come between them. A frame that is taken
-- while its submission still holds the mutex is as if taken after it, since the rest of the
-- submission does not read the queue.
use edge_vision.Prelude.{ℕ, List, [], ◌∷◌, Option, none, some}
use edge_vision.Model.Frame.{Frame}
use edge_vision.Model.Frame.ReadyQueue.{RingBuffer}
use edge_vision.Model.Frame.ReadyQueue
use edge_vision.Model.Frame.Store.{
  FrameStore, begin_dequeue, finish_dequeue, mark_frame_consumed, mark_frame_failed, submit_frame,
}

-- `taken` is the frame that the consumer has taken and not yet marked as dispatched.
pub record Threads (B : Type 0) : Type 0 where
  pub store : FrameStore B
  pub taken : Option Frame

pub data Event : Type 0 where
  submits : Frame → Event
  takes dispatches : Event
  consumes fails : ℕ → Event

module _ {B : Type 0} ⦃rb : RingBuffer B⦄ where
  -- An event whose thread is not at that point does nothing: the consumer takes a frame, and
  -- reports one done, only between two dequeues.
  unfoldable pub step : Event → Threads B → Threads B
  step (submits f) y = record y { store = (submit_frame f y.store).0 }
  step takes y = elim y.taken [
    | none ↦
        let (store, taken) = begin_dequeue (ReadyQueue.try_dequeue y.store.ready_queue) y.store in
        record { store = store; taken = taken }
    | some f ↦ y
  ]
  step dispatches y = elim y.taken [
    | none ↦ y
    | some f ↦ record { store = finish_dequeue f.frame_id y.store; taken = none }
  ]
  step (consumes id) y = elim y.taken [
    | none ↦ record y { store = (mark_frame_consumed id y.store).0 }
    | some f ↦ y
  ]
  step (fails id) y = elim y.taken [
    | none ↦ record y { store = (mark_frame_failed id y.store).0 }
    | some f ↦ y
  ]

  unfoldable pub run : List Event → Threads B → Threads B
  run [] y = y
  run (e ∷ es) y = run es (step e y)
