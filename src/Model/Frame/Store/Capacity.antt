-- ===== src/Model/Frame/Store/Capacity.antt =====
-- The bound on the stored frames and the order of their ids (FrameStore.cpp).
use edge_vision.Prelude.{
  ℕ, ◌≤◌, ◌<◌, ◌≡◌, Bool, true, false, ◌⊎◌, inl, inr, Bool-cases, some, arith, [], ◌∷◌, ◌++◌,
  length, length-append, All, All-map, All-append,
}
use edge_vision.Model.Frame.{Frame, FrameSubmissionResult}
use edge_vision.Model.Frame.History
use edge_vision.Model.Frame.History.Order.{
  Above, UpTo, Above-append, Above-erase_first, All-erase_first, length-erase_first, find_id-append,
}
use edge_vision.Model.Frame.History.{find_id}
use edge_vision.Model.Frame.Lifecycle.{mark_consumed, mark_failed}
use edge_vision.Model.Frame.ReadyQueue.{RingBuffer, ReadyFrameQueue, mark_completed}
use edge_vision.Model.Frame.Store.{
  FrameStore, FrameStoreConfig, drop_frame, record_status, record_rejected_frame,
  validation_context, make_store, submit_frame, mark_frame_consumed, mark_frame_failed,
}
use edge_vision.Model.Frame.Store.Eviction.{evict_old_frames_idle}
use edge_vision.Model.Frame.Store.Submission.{
  StoreInv, unprotected, with_frame, older, submit_cases,
}
use edge_vision.Model.Frame.Validator.Acceptance.{IsAcceptable}

module _ {B : Type 0} where
  record_status-StoreInv :
      (r : FrameSubmissionResult) (s : FrameStore B) → StoreInv s → StoreInv (record_status r s)
  unfolding record_status
  record_status-StoreInv r s v = ground (arith)

  record_rejected_frame-StoreInv :
      (frame : Frame) (r : FrameSubmissionResult) (s : FrameStore B)
      → StoreInv s
      → StoreInv (record_rejected_frame frame r s)
  unfolding record_rejected_frame
  record_rejected_frame-StoreInv frame r s v = ground (arith)

  -- The order of the ids, with no bound on their number.
  abbrev Ordered : FrameStore B → Type 0
  Ordered s =
      Above 0 s.history.history
      × All (λ f. UpTo (History.id_of s.history.latest_frame) f.frame_id) s.history.history

  with_frame-Ordered :
      (s : FrameStore B) (frame : Frame) (queue : ReadyFrameQueue B)
      → StoreInv s
      → IsAcceptable frame (validation_context s)
      → Ordered (with_frame frame queue s)
  unfolding with_frame History.add_frame
  with_frame-Ordered s frame queue v a =
      let before = older s frame v a in
      (
        Above-append 0 s.history.history frame v.ascending before (omega (arith, a.has_id)),
        All-append _ s.history.history (frame ∷ [])
            (All-map _ (λ f. f.frame_id ≤ frame.frame_id) s.history.history (λ f h. omega arith)
              before)
            (omega arith),
      )

  drop_frame-Ordered : (id : ℕ) (s : FrameStore B) → Ordered s → Ordered (drop_frame id s)
  unfolding drop_frame History.remove_frame
  drop_frame-Ordered id s o =
      (Above-erase_first 0 id s.history.history o.0, All-erase_first _ id s.history.history o.1)

  with_frame-StoreInv :
      (s : FrameStore B) (frame : Frame) (queue : ReadyFrameQueue B)
      → StoreInv s
      → IsAcceptable frame (validation_context s)
      → length s.history.history < s.config.max_stored_frames
      → StoreInv (with_frame frame queue s)
  unfolding with_frame History.add_frame
  with_frame-StoreInv s frame queue v a h =
      let (rising, newest) = with_frame-Ordered s frame queue v a in
      record {
        capacity_pos = v.capacity_pos;
        bounded = omega (arith, length-append s.history.history (frame ∷ []));
        ascending = rising;
        up_to_latest = newest;
      }

  length-drop_frame :
      (s : FrameStore B) (frame : Frame) (queue : ReadyFrameQueue B) (p : ℕ → Bool) {id : ℕ}
      → find_id p s.history.history ≡ some id
      → length (drop_frame id (with_frame frame queue s)).history.history ≡ length s.history.history
  unfolding drop_frame with_frame History.add_frame History.remove_frame
  length-drop_frame s frame queue p {id} e = omega (
    arith,
    length-append s.history.history (frame ∷ []),
    length-erase_first p id (s.history.history ++ frame ∷ [])
        (find_id-append p s.history.history (frame ∷ []) e),
  )

  exchanged-StoreInv :
      (s : FrameStore B) (frame : Frame) (queue : ReadyFrameQueue B) {id : ℕ}
      → StoreInv s
      → IsAcceptable frame (validation_context s)
      → find_id (unprotected s) s.history.history ≡ some id
      → StoreInv (drop_frame id (with_frame frame queue s))
  exchanged-StoreInv s frame queue {id} v a e =
      let (rising, newest) =
        drop_frame-Ordered id (with_frame frame queue s) (with_frame-Ordered s frame queue v a) in
      record {
        capacity_pos = unfold drop_frame with_frame in v.capacity_pos;
        bounded =
            unfold drop_frame with_frame in
            omega (arith, length-drop_frame s frame queue (unprotected s) e, v.bounded);
        ascending = rising;
        up_to_latest = newest;
      }

  -- Within its bound a store has nothing to evict when a frame is done with.
  pub mark_frame_consumed_shape :
      (id : ℕ) (s : FrameStore B)
      → StoreInv s
      → (((mark_completed id s.ready_queue).1 ≡ false) × (mark_frame_consumed id s ≡ (s, false)))
        ⊎ (((mark_completed id s.ready_queue).1 ≡ true)
            × (mark_frame_consumed id s ≡ (
              record s {
                ready_queue = (mark_completed id s.ready_queue).0;
                tracker = mark_consumed id s.tracker;
              },
              true,
            )))
  unfolding mark_frame_consumed
  mark_frame_consumed_shape id s v = elim (Bool-cases (mark_completed id s.ready_queue).1) [
    | inr no_such ↦ inl (no_such, ground arith)
    | inl known ↦ inr (
      known,
      ground (
        arith,
        evict_old_frames_idle (record s {
          ready_queue = (mark_completed id s.ready_queue).0;
          tracker = mark_consumed id s.tracker;
        }),
      ),
    )
  ]

  pub mark_frame_consumed-StoreInv :
      (id : ℕ) (s : FrameStore B) → StoreInv s → StoreInv (mark_frame_consumed id s).0
  mark_frame_consumed-StoreInv id s v = elim (mark_frame_consumed_shape id s v) [
    | inl (_, e) ↦ rw e v
    | inr (_, e) ↦ rw e (assumption v)
  ]

  -- Within its bound a store has nothing to evict when a frame is done with.
  pub mark_frame_failed_shape :
      (id : ℕ) (s : FrameStore B)
      → StoreInv s
      → (((mark_completed id s.ready_queue).1 ≡ false) × (mark_frame_failed id s ≡ (s, false)))
        ⊎ (((mark_completed id s.ready_queue).1 ≡ true)
            × (mark_frame_failed id s ≡ (
              record s {
                ready_queue = (mark_completed id s.ready_queue).0;
                tracker = mark_failed id s.tracker;
              },
              true,
            )))
  unfolding mark_frame_failed
  mark_frame_failed_shape id s v = elim (Bool-cases (mark_completed id s.ready_queue).1) [
    | inr no_such ↦ inl (no_such, ground arith)
    | inl known ↦ inr (
      known,
      ground (
        arith,
        evict_old_frames_idle (record s {
          ready_queue = (mark_completed id s.ready_queue).0;
          tracker = mark_failed id s.tracker;
        }),
      ),
    )
  ]

  pub mark_frame_failed-StoreInv :
      (id : ℕ) (s : FrameStore B) → StoreInv s → StoreInv (mark_frame_failed id s).0
  mark_frame_failed-StoreInv id s v = elim (mark_frame_failed_shape id s v) [
    | inl (_, e) ↦ rw e v
    | inr (_, e) ↦ rw e (assumption v)
  ]

module _ {B : Type 0} ⦃rb : RingBuffer B⦄ where
  -- Whatever is submitted, and however the submission ends, the store keeps its order and its bound:
  -- the number of frames never passes the configured capacity.
  pub submit_frame-StoreInv :
      (frame : Frame) (s : FrameStore B) → StoreInv s → StoreInv (submit_frame frame s).0
  submit_frame-StoreInv frame s v =
      submit_cases s frame StoreInv v (λ r. record_rejected_frame-StoreInv frame r s v)
        (λ queue a q h.
          record_status-StoreInv _ (with_frame frame queue s)
            (with_frame-StoreInv s frame queue v a h))
        (λ queue id a q full found.
          record_status-StoreInv _ (drop_frame id (with_frame frame queue s))
            (exchanged-StoreInv s frame queue v a found))

  pub make_store-StoreInv : (config : FrameStoreConfig) → StoreInv {B = B} (make_store config)
  unfolding make_store
  make_store-StoreInv config = omega arith
