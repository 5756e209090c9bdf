-- ===== src/Witnesses/Frames.antt =====
-- The frame store's theorems on stores of two frames.
use edge_vision.Prelude.{
  map, some, ◌≡◌, refl, arith, List, [], ◌∷◌, true, contains, add, discard, lookup, insert, All,
  length, ◌≤◌, ◌⊎◌,
}
use edge_vision.Model.Frame.History
use edge_vision.Model.Frame.History.Order.{Above, UpTo}
use edge_vision.Model.Frame.Lifecycle.States.{state_of, guards}
use edge_vision.Model.Frame.Store.{
  FrameStore, make_store, submit_frame, evict_old_frames, validation_context, store_frame,
  evict_loop, record_status, finish_dequeue, next_to_evict, drop_frame,
}
use edge_vision.Model.Frame.Store.Submission.{StoreInv}
use edge_vision.Model.Frame.Store.Eviction.{Stays, evict_old_frames-Settled}
use edge_vision.Model.Frame.Store.Capacity.{make_store-StoreInv, submit_frame-StoreInv}
use edge_vision.Model.Frame.Store.Protection.{Held, submit_frame_protects}
use edge_vision.Model.Frame.Store.Interleaving.{Event, submits, takes, dispatches, step, run}
use edge_vision.Model.Frame.Store.Delivery.{
  fresh, waiting, IsTaken, InHand, waiting_frames_held, in_flight_frames_held,
}
use edge_vision.Model.Frame.{is_empty}
use edge_vision.Model.Frame.Lifecycle.{
  record_accepted_ready, mark_dropped, mark_dispatched, is_protected_from_eviction,
}
use edge_vision.Model.Frame.ReadyQueue.{try_enqueue, try_dequeue, make_ready_queue}
use edge_vision.Model.Frame.Validator.{
  validate, is_valid_timestamp, is_valid_size, is_valid_intrinsics, has_sane_image_bytes,
}
use edge_vision.Model.Frame.Validator.Acceptance.{ImageBounds, has_sane_image_bytes-ImageBounds}
use edge_vision.Witnesses.{Ring, ring, frame, image, two_frames}

abbrev empty_store : FrameStore Ring
empty_store = make_store ⦃rb = ring⦄ two_frames

submit_frame-StoreInv_example : StoreInv (submit_frame ⦃rb = ring⦄ (frame 1) empty_store).0
submit_frame-StoreInv_example =
    submit_frame-StoreInv ⦃rb = ring⦄ (frame 1) empty_store
      (make_store-StoreInv ⦃rb = ring⦄ two_frames)

-- A store in which the frame 1 waits for the consumer.
abbrev one_ready : FrameStore Ring
one_ready = (submit_frame ⦃rb = ring⦄ (frame 1) empty_store).0

up_to_one : UpTo (History.id_of one_ready.history.latest_frame) 1
unfolding submit_frame validate is_valid_timestamp validation_context History.latest_frame_id
    History.latest_timestamp History.size History.find_oldest_evictable History.find_id
    History.add_frame make_store make_ready_queue is_empty has_sane_image_bytes is_valid_size
    is_valid_intrinsics try_enqueue store_frame evict_old_frames evict_loop record_status
    record_accepted_ready lookup insert
up_to_one = omega arith

one_guarded : guards (state_of 1 one_ready.tracker) ≡ true
unfolding state_of submit_frame validate is_valid_timestamp validation_context
    History.latest_frame_id History.latest_timestamp History.size History.find_oldest_evictable
    History.find_id History.add_frame make_store make_ready_queue is_empty has_sane_image_bytes
    is_valid_size is_valid_intrinsics try_enqueue store_frame evict_old_frames evict_loop
    record_status record_accepted_ready lookup insert
one_guarded = refl

submit_frame_protects_example :
    (state_of 1 (submit_frame ⦃rb = ring⦄ (frame 2) one_ready).0.tracker
      ≡ state_of 1 one_ready.tracker)
    × (History.get 1 (submit_frame ⦃rb = ring⦄ (frame 2) one_ready).0.history
        ≡ History.get 1 one_ready.history)
submit_frame_protects_example =
    submit_frame_protects ⦃rb = ring⦄ (frame 2) one_ready 1
      (submit_frame-StoreInv ⦃rb = ring⦄ (frame 1) empty_store
        (make_store-StoreInv ⦃rb = ring⦄ two_frames))
      up_to_one one_guarded

-- The second submission comes between the two halves of a dequeue.
abbrev interleaved : List Event
interleaved = submits (frame 1) ∷ takes ∷ submits (frame 2) ∷ dispatches ∷ []

waiting_frames_held_example :
    let y = run ⦃rb = ring⦄ interleaved (fresh ⦃rb = ring⦄ two_frames) in
    Above 0 (waiting ⦃rb = ring⦄ y)
    × All (Held y.store) (waiting ⦃rb = ring⦄ y)
    × (length y.store.history.history ≤ y.store.config.max_stored_frames)
waiting_frames_held_example = waiting_frames_held Ring ⦃rb = ring⦄ two_frames interleaved

one_in_flight :
    contains 1
      (run ⦃rb = ring⦄ interleaved
        (fresh ⦃rb = ring⦄ two_frames)).store.ready_queue.in_flight_frame_ids
    ≡ true
unfolding run fresh step contains add discard mark_dispatched finish_dequeue try_dequeue
    is_protected_from_eviction next_to_evict drop_frame submit_frame validate is_valid_timestamp
    validation_context History.latest_frame_id History.latest_timestamp History.size
    History.find_oldest_evictable History.find_id History.add_frame make_store make_ready_queue
    is_empty has_sane_image_bytes is_valid_size is_valid_intrinsics try_enqueue store_frame
    evict_old_frames evict_loop record_status record_accepted_ready lookup insert
one_in_flight = refl

in_flight_frames_held_example :
    let y = run ⦃rb = ring⦄ interleaved (fresh ⦃rb = ring⦄ two_frames) in
    IsTaken y.taken 1 ⊎ InHand ⦃rb = ring⦄ y.store 1
in_flight_frames_held_example =
    in_flight_frames_held Ring ⦃rb = ring⦄ two_frames interleaved 1 one_in_flight

-- One frame is stored at most; the frame 3 waits for the consumer, 1 may go, 2 is the latest.
abbrev crowded : FrameStore Ring
crowded = record empty_store {
  config = record two_frames { max_stored_frames = 1 };
  tracker = record_accepted_ready 3 [];
  history = record {
    latest_frame = some (frame 2);
    history = frame 3 ∷ frame 1 ∷ frame 2 ∷ [];
    frames_by_id = (3, frame 3) ∷ (1, frame 1) ∷ (2, frame 2) ∷ [];
  };
}

evict_old_frames-Settled_example :
    let t = evict_old_frames crowded in
    (length t.history.history ≤ t.config.max_stored_frames) ⊎ All (Stays t) t.history.history
evict_old_frames-Settled_example = evict_old_frames-Settled crowded

evicts_one : map (λ f. f.frame_id) (evict_old_frames crowded).history.history ≡ 3 ∷ 2 ∷ []
unfolding evict_old_frames evict_loop next_to_evict drop_frame History.size
    History.find_oldest_evictable History.find_id History.latest_frame_id History.remove_frame
    History.erase_first is_protected_from_eviction record_accepted_ready mark_dropped make_store
    lookup insert
evicts_one = refl

sane_image : has_sane_image_bytes (image 8) ≡ true
unfolding has_sane_image_bytes
sane_image = refl

has_sane_image_bytes-ImageBounds_example : ImageBounds (image 8)
has_sane_image_bytes-ImageBounds_example =
    has_sane_image_bytes-ImageBounds (image 8) (omega arith) sane_image
