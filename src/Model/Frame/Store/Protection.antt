-- ===== src/Model/Frame/Store/Protection.antt =====
-- What submitFrame leaves alone, and what it leaves behind (FrameStore.cpp).
use edge_vision.Prelude.{
  ℕ, ◌<◌, ◌≡◌, ◌≢◌, refl, ◌⊎◌, inl, inr, true, false, none, some, arith, lookup-insert,
  lookup-erase, ◌==◌, if◌then◌else◌,
}
use edge_vision.Model.Frame.{Frame, FrameSubmissionResult, ready_for_consumer_state}
use edge_vision.Model.Frame.Validator.{not_newer_id}
use edge_vision.Model.Frame.Validator.Acceptance.{IsAcceptable}
use edge_vision.Model.Frame.History
use edge_vision.Model.Frame.History.{FrameHistory, find_id}
use edge_vision.Model.Frame.History.Order.{UpTo, find_id-true, find_id-All}
use edge_vision.Model.Frame.Lifecycle.States.{
  state_of, guards, protected-state_of, state_of-record_accepted_ready, state_of-record_invalid,
  state_of-mark_dropped,
}
use edge_vision.Model.Frame.ReadyQueue.{RingBuffer, ReadyFrameQueue, try_enqueue}
use edge_vision.Model.Frame.Store.{
  FrameStore, drop_frame, record_status, record_rejected_frame, validation_context, submit_frame,
}
use edge_vision.Model.Frame.Store.Submission.{
  StoreInv, unprotected, with_frame, older, newer_than_latest, submit_cases,
}

pub get-add_frame :
    (f : Frame) (h : FrameHistory) (id : ℕ)
    → History.get id (History.add_frame f h)
      ≡ (if f.frame_id == id then some f else History.get id h)
unfolding History.get History.add_frame
get-add_frame f h id = lookup-insert id f.frame_id f h.frames_by_id

pub get-remove_frame :
    (gone : ℕ) (h : FrameHistory) (id : ℕ)
    → History.get id (History.remove_frame gone h) ≡ (if gone == id then none else History.get id h)
unfolding History.get History.remove_frame
get-remove_frame gone h id = lookup-erase id gone h.frames_by_id

module _ {B : Type 0} where
  -- A frame that waits for the consumer or is with it keeps its state and its stored copy.
  abbrev pub Keeps : FrameStore B → FrameStore B → Type 0
  Keeps s t =
      (id : ℕ)
      → UpTo (History.id_of s.history.latest_frame) id
      → guards (state_of id s.tracker) ≡ true
      → (state_of id t.tracker ≡ state_of id s.tracker)
        × (History.get id t.history ≡ History.get id s.history)

  -- A frame that waits for the consumer, with its stored copy.
  abbrev pub Held : FrameStore B → Frame → Type 0
  Held s f =
      (state_of f.frame_id s.tracker ≡ some ready_for_consumer_state)
      × (History.get f.frame_id s.history ≡ some f)

  rejected-Keeps :
      (s : FrameStore B) (frame : Frame) (r : FrameSubmissionResult)
      → Keeps s (record_rejected_frame frame r s)
  unfolding record_rejected_frame
  rejected-Keeps s frame r id u g =
      ground (arith, state_of-record_invalid frame.frame_id id s.tracker)

  added-Keeps :
      (s : FrameStore B) (frame : Frame) (queue : ReadyFrameQueue B)
      → IsAcceptable frame (validation_context s)
      → Keeps s (with_frame frame queue s)
  unfolding with_frame validation_context History.latest_frame_id
  added-Keeps s frame queue a id u g = ground (
    arith,
    newer_than_latest s.history.latest_frame frame.frame_id id a.newer_id u,
    state_of-record_accepted_ready frame.frame_id id s.tracker,
    get-add_frame frame s.history id,
  )

  drop_frame-other :
      (s : FrameStore B) (gone id : ℕ)
      → gone ≢ id
      → (state_of id (drop_frame gone s).tracker ≡ state_of id s.tracker)
        × (History.get id (drop_frame gone s).history ≡ History.get id s.history)
  unfolding drop_frame
  drop_frame-other s gone id h =
      ground (arith, state_of-mark_dropped gone id s.tracker, get-remove_frame gone s.history id)

  added-Held :
      (s : FrameStore B) (frame : Frame) (queue : ReadyFrameQueue B)
      → Held (with_frame frame queue s) frame
  unfolding with_frame
  added-Held s frame queue = ground (
    arith,
    state_of-record_accepted_ready frame.frame_id frame.frame_id s.tracker,
    get-add_frame frame s.history frame.frame_id,
  )

  module _ (s : FrameStore B) (frame : Frame) {gone : ℕ} (v : StoreInv s)
      (a : IsAcceptable frame (validation_context s))
      (found : find_id (unprotected s) s.history.history ≡ some gone) where
    gone-unguarded : guards (state_of gone s.tracker) ≡ false
    gone-unguarded = ground (
      arith,
      find_id-true (unprotected s) s.history.history found,
      protected-state_of gone s.tracker,
    )

    gone-lt : gone < frame.frame_id
    gone-lt =
        find_id-All (λ id. id < frame.frame_id) (unprotected s) s.history.history
          (older s frame v a) found

    exchanged-Keeps :
        (queue : ReadyFrameQueue B) → Keeps s (drop_frame gone (with_frame frame queue s))
    exchanged-Keeps queue id u g = ground (
      arith,
      gone-unguarded,
      added-Keeps s frame queue a id u g,
      drop_frame-other (with_frame frame queue s) gone id,
    )

    exchanged-Held :
        (queue : ReadyFrameQueue B) → Held (drop_frame gone (with_frame frame queue s)) frame
    exchanged-Held queue = ground (
      arith,
      gone-lt,
      added-Held s frame queue,
      drop_frame-other (with_frame frame queue s) gone frame.frame_id,
    )

  -- How a submission ends: the queue and the latest frame are as before, or the frame is the latest
  -- one, is newer than the one before, and waits in the queue with its copy stored.
  abbrev pub Outcome : ⦃rb : RingBuffer B⦄ → FrameStore B → Frame → FrameStore B → Type 0
  Outcome s frame t =
      ((t.ready_queue ≡ s.ready_queue) × (t.history.latest_frame ≡ s.history.latest_frame))
      ⊎ ((try_enqueue s.ready_queue frame ≡ some t.ready_queue)
          × (not_newer_id (History.id_of s.history.latest_frame) frame.frame_id ≡ false)
          × (frame.frame_id ≢ 0)
          × (t.history.latest_frame ≡ some frame)
          × Held t frame)

  rejected-Outcome :
      ⦃rb : RingBuffer B⦄ (s : FrameStore B) (frame : Frame) (r : FrameSubmissionResult)
      → Outcome s frame (record_rejected_frame frame r s)
  unfolding record_rejected_frame
  rejected-Outcome s frame r = inl (refl, refl)

  newer :
      (s : FrameStore B) (frame : Frame)
      → IsAcceptable frame (validation_context s)
      → not_newer_id (History.id_of s.history.latest_frame) frame.frame_id ≡ false
  unfolding validation_context History.latest_frame_id
  newer s frame a = a.newer_id

module _ {B : Type 0} ⦃rb : RingBuffer B⦄ where
  kept-Outcome :
      (s : FrameStore B) (frame : Frame) (queue : ReadyFrameQueue B)
      → IsAcceptable frame (validation_context s)
      → try_enqueue s.ready_queue frame ≡ some queue
      → Outcome s frame (with_frame frame queue s)
  kept-Outcome s frame queue a q = inr (
    unfold with_frame in q,
    newer s frame a,
    a.has_id,
    unfold with_frame History.add_frame in refl,
    added-Held s frame queue,
  )

  -- submitFrame leaves every frame alone that waits for the consumer or is with it: its lifecycle
  -- state and its stored copy are as before, whichever frame is evicted. The frame submitted is
  -- either left out, with the queue and the latest frame as before, or it is the latest frame,
  -- newer than the one before, and waits in the queue, ready, with its copy stored.
  pub submit_frame-Keeps :
      (frame : Frame) (s : FrameStore B)
      → StoreInv s
      → Keeps s (submit_frame frame s).0 × Outcome s frame (submit_frame frame s).0
  submit_frame-Keeps frame s v =
      submit_cases s frame (λ t. Keeps s t × Outcome s frame t) v
        (λ r. (rejected-Keeps s frame r, rejected-Outcome s frame r))
        (λ queue a q h.
          unfold record_status in (added-Keeps s frame queue a, kept-Outcome s frame queue a q))
        (λ queue id a q full found.
          unfold record_status in
          (
            exchanged-Keeps s frame v a found queue,
            inr (
              unfold drop_frame with_frame in q,
              newer s frame a,
              a.has_id,
              unfold drop_frame with_frame History.add_frame History.remove_frame in refl,
              exchanged-Held s frame v a found queue,
            ),
          ))

  -- submitFrame leaves alone a frame that waits for the consumer or is with it: its lifecycle state
  -- and its stored copy are as before, whichever frame is evicted and however the submission ends.
  -- The store is in order, and the frame's id is not above the latest accepted one.
  pub submit_frame_protects :
      (frame : Frame) (s : FrameStore B) (id : ℕ)
      → StoreInv s
      → UpTo (History.id_of s.history.latest_frame) id
      → guards (state_of id s.tracker) ≡ true
      → (state_of id (submit_frame frame s).0.tracker ≡ state_of id s.tracker)
        × (History.get id (submit_frame frame s).0.history ≡ History.get id s.history)
  submit_frame_protects frame s id v u g = (submit_frame-Keeps frame s v).0 id u g
