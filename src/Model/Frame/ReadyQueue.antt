-- ===== src/Model/Frame/ReadyQueue.antt =====
-- src/model/src/frame/queue/ReadyFrameQueue.cpp: the queue between the thread that submits frames
-- and the one that consumes them. The blocking circular buffer under it is a library's, and enters
-- as the interface RingBuffer.
use edge_vision.Prelude.{
  ℕ, ℤ, ◌≤◌, ◌<◌, max, ◌≡◌, ◌≢◌, inl, inr, Option-cases, arith, Bool, true, false, List, [], ◌∷◌,
  ◌++◌, Option, none, some, length, contains, add, discard, if◌then◌else◌,
}
use edge_vision.Model.Frame.{Frame}

-- A bounded first-in first-out buffer. `none` is a refused write, an empty buffer, or a wait that
-- has not ended with an element. The waits hand out the front, as the plain read does.
pub record RingBuffer (B : Type 0) : Type 0 where
  pub contents : B → List Frame
  pub capacity : B → ℕ
  pub make : ℕ → B
  pub try_enqueue : B → Frame → Option B
  pub try_dequeue : B → Option (Frame × B)
  pub wait_dequeue : B → Option (Frame × B)
  pub wait_dequeue_timed : ℤ → B → Option (Frame × B)
  pub size_approx : B → ℕ
  pub contents-make : (n : ℕ) → contents (make n) ≡ []
  pub capacity-make : (n : ℕ) → capacity (make n) ≡ n
  pub enqueued :
      (b : B) (f : Frame) {b' : B}
      → try_enqueue b f ≡ some b'
      → (contents b' ≡ contents b ++ f ∷ []) × (capacity b' ≡ capacity b)
  pub has_room : (b : B) (f : Frame) → length (contents b) < capacity b → try_enqueue b f ≢ none
  pub is_full : (b : B) (f : Frame) → capacity b ≤ length (contents b) → try_enqueue b f ≡ none
  pub dequeued :
      (b : B) {f : Frame} {b' : B}
      → try_dequeue b ≡ some (f, b')
      → (contents b ≡ f ∷ contents b') × (capacity b' ≡ capacity b)
  pub dequeue_empty : (b : B) → try_dequeue b ≡ none → contents b ≡ []
  pub waited :
      (b : B) {f : Frame} {b' : B}
      → wait_dequeue b ≡ some (f, b')
      → (contents b ≡ f ∷ contents b') × (capacity b' ≡ capacity b)
  pub waited_timed :
      (timeout : ℤ) (b : B) {f : Frame} {b' : B}
      → wait_dequeue_timed timeout b ≡ some (f, b')
      → (contents b ≡ f ∷ contents b') × (capacity b' ≡ capacity b)

pub record ReadyFrameQueue (B : Type 0) : Type 0 where
  pub queue : B
  pub ready_frame_ids : List ℕ
  pub in_flight_frame_ids : List ℕ

module _ {B : Type 0} ⦃rb : RingBuffer B⦄ where
  unfoldable pub make_ready_queue : ℕ → ReadyFrameQueue B
  make_ready_queue capacity = record {
    queue = rb.make (max 1 capacity);
    ready_frame_ids = [];
    in_flight_frame_ids = [];
  }

  unfoldable pub try_enqueue : ReadyFrameQueue B → Frame → Option (ReadyFrameQueue B)
  try_enqueue q frame = elim (rb.try_enqueue q.queue frame) [
    | none ↦ none
    | some b ↦ some (record q { queue = b; ready_frame_ids = add frame.frame_id q.ready_frame_ids })
  ]

  -- What the three reads do with the frame that they got, under the queue's own mutex.
  abbrev pub take_out : ReadyFrameQueue B → Option (Frame × B) → Option (Frame × ReadyFrameQueue B)
  take_out q none = none
  take_out q (some (frame, b)) = some (
    frame,
    record {
      queue = b;
      ready_frame_ids = discard frame.frame_id q.ready_frame_ids;
      in_flight_frame_ids = add frame.frame_id q.in_flight_frame_ids;
    },
  )

  unfoldable pub try_dequeue : ReadyFrameQueue B → Option (Frame × ReadyFrameQueue B)
  try_dequeue q = take_out q (rb.try_dequeue q.queue)

  unfoldable pub wait_dequeue : ReadyFrameQueue B → Option (Frame × ReadyFrameQueue B)
  wait_dequeue q = take_out q (rb.wait_dequeue q.queue)

  unfoldable pub wait_dequeue_timed : ℤ → ReadyFrameQueue B → Option (Frame × ReadyFrameQueue B)
  wait_dequeue_timed timeout q = take_out q (rb.wait_dequeue_timed timeout q.queue)

  unfoldable pub size_approx : ReadyFrameQueue B → ℕ
  size_approx q = rb.size_approx q.queue

unfoldable pub mark_completed : {B : Type 0} → ℕ → ReadyFrameQueue B → ReadyFrameQueue B × Bool
mark_completed id q =
    if contains id q.in_flight_frame_ids
    then (record q { in_flight_frame_ids = discard id q.in_flight_frame_ids }, true)
    else (q, false)

module _ {B : Type 0} ⦃rb : RingBuffer B⦄ where
  -- An accepted frame goes to the end of the line.
  pub enqueued_last :
      (q : ReadyFrameQueue B) (f : Frame) {q' : ReadyFrameQueue B}
      → try_enqueue q f ≡ some q'
      → (rb.contents q'.queue ≡ rb.contents q.queue ++ f ∷ [])
        × (q'.in_flight_frame_ids ≡ q.in_flight_frame_ids)
  unfolding try_enqueue
  enqueued_last q f {q'} e = elim (Option-cases (rb.try_enqueue q.queue f)) [
    | inl no_room ↦ ground arith
    | inr (b, stored) ↦ ground (arith, rb.enqueued q.queue f stored)
  ]

  -- The frame that comes out is the first in line, and its id is in flight.
  pub dequeued_first :
      (q : ReadyFrameQueue B) {f : Frame} {q' : ReadyFrameQueue B}
      → try_dequeue q ≡ some (f, q')
      → (rb.contents q.queue ≡ f ∷ rb.contents q'.queue)
        × (q'.in_flight_frame_ids ≡ add f.frame_id q.in_flight_frame_ids)
  unfolding try_dequeue
  dequeued_first q {f} {q'} e = elim (Option-cases (rb.try_dequeue q.queue)) [
    | inl nothing ↦ ground arith
    | inr ((g, b), got) ↦ ground (arith, rb.dequeued q.queue got)
  ]

-- A frame is done with only if it was in flight, and then it is no longer.
pub completed_once :
    {B : Type 0} (id : ℕ) (q : ReadyFrameQueue B)
    → (mark_completed id q).1 ≡ true
    → (contains id q.in_flight_frame_ids ≡ true)
      × ((mark_completed id q).0.in_flight_frame_ids ≡ discard id q.in_flight_frame_ids)
      × ((mark_completed id q).0.queue ≡ q.queue)
unfolding mark_completed
completed_once id q h = ground arith
