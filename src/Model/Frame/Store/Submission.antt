-- ===== src/Model/Frame/Store/Submission.antt =====
-- The ways that submitFrame can end, for a store that satisfies its invariant.
use edge_vision.Prelude.{
  ℕ, ◌≤◌, ◌<◌, ◌≡◌, refl, ◌⊎◌, inl, inr, Bool, true, false, not, Option, none, some, arith, [], ◌∷◌,
  length, length-append, All, All-map, Bool-cases, Option-cases, inc64, ◌∙◌,
}
use edge_vision.Model.Frame.{
  Frame, FrameSubmissionResult, make_result, is_accepted, ready_frame_queue_full,
}
use edge_vision.Model.Frame.Validator.{validate, not_newer_id}
use edge_vision.Model.Frame.Validator.Acceptance.{IsAcceptable, accepted-IsAcceptable}
use edge_vision.Model.Frame.History
use edge_vision.Model.Frame.History.{find_id}
use edge_vision.Model.Frame.History.Order.{Above, UpTo, find_id-append, find_id-agree}
use edge_vision.Model.Frame.Lifecycle.States.{protected-state_of, state_of-record_accepted_ready}
use native.Mathlib.Numerals.{add-one}
use native.Mathlib.Decide.{dec_lt}
use edge_vision.Model.Frame.Lifecycle.{Tracker, is_protected_from_eviction, record_accepted_ready}
use edge_vision.Model.Frame.ReadyQueue.{RingBuffer, ReadyFrameQueue, try_enqueue}
use edge_vision.Model.Frame.Store.{
  FrameStore, drop_frame, next_to_evict, evict_old_frames, record_status, record_rejected_frame,
  validation_context, store_frame, submit_frame,
}
use edge_vision.Model.Frame.Store.Eviction.{evict_loop_idle, evict_loop_once}

-- The stored frames have rising ids, none above the latest accepted one, and are within the capacity.
pub record StoreInv {B : Type 0} (s : FrameStore B) : Type 0 where
  pub capacity_pos : 1 ≤ s.config.max_stored_frames
  pub bounded : length s.history.history ≤ s.config.max_stored_frames
  pub ascending : Above 0 s.history.history
  pub up_to_latest :
      All (λ f. UpTo (History.id_of s.history.latest_frame) f.frame_id) s.history.history

abbrev pub unprotected : {B : Type 0} → FrameStore B → ℕ → Bool
unprotected s id = not (is_protected_from_eviction id s.tracker)

protected-record_accepted_ready :
    (t : Tracker) (id other : ℕ)
    → other < id
    → is_protected_from_eviction other (record_accepted_ready id t)
      ≡ is_protected_from_eviction other t
protected-record_accepted_ready t id other h = ground (
  arith,
  protected-state_of other t,
  protected-state_of other (record_accepted_ready id t),
  state_of-record_accepted_ready id other t,
)

-- The store between the enqueue and the eviction.
unfoldable pub with_frame : {B : Type 0} → Frame → ReadyFrameQueue B → FrameStore B → FrameStore B
with_frame frame queue s = record s {
  ready_queue = queue;
  tracker = record_accepted_ready frame.frame_id s.tracker;
  history = History.add_frame frame s.history;
  accepted_frame_count = inc64 s.accepted_frame_count;
}

pub newer_than_latest :
    (latest : Option Frame) (id other : ℕ)
    → not_newer_id (History.id_of latest) id ≡ false
    → UpTo (History.id_of latest) other
    → other < id
newer_than_latest none id other n u = absurd u
newer_than_latest (some l) id other n u = ground arith

module _ {B : Type 0} (s : FrameStore B) (frame : Frame) where
  -- The latest accepted frame, and so every stored one, is older than a frame that passes.
  pub older :
      StoreInv s
      → IsAcceptable frame (validation_context s)
      → All (λ f. f.frame_id < frame.frame_id) s.history.history
  unfolding validation_context History.latest_frame_id
  older v a =
      All-map (λ f. UpTo (History.id_of s.history.latest_frame) f.frame_id)
        (λ f. f.frame_id < frame.frame_id) s.history.history
        (λ f. newer_than_latest s.history.latest_frame frame.frame_id f.frame_id a.newer_id)
        v.up_to_latest

  evict_kept :
      (queue : ReadyFrameQueue B)
      → length s.history.history < s.config.max_stored_frames
      → evict_old_frames (with_frame frame queue s) ≡ with_frame frame queue s
  unfolding evict_old_frames with_frame History.add_frame
  evict_kept queue h =
      evict_loop_idle _ (with_frame frame queue s)
        (omega (arith, length-append s.history.history (frame ∷ [])))

  same_choice :
      (queue : ReadyFrameQueue B) {id : ℕ}
      → StoreInv s
      → IsAcceptable frame (validation_context s)
      → find_id (unprotected s) s.history.history ≡ some id
      → next_to_evict (with_frame frame queue s) ≡ some id
  unfolding next_to_evict with_frame History.add_frame History.find_oldest_evictable
      History.latest_frame_id
  same_choice queue {id} v a e = find_id-append _ s.history.history (frame ∷ []) (
      find_id-agree _ (unprotected s) s.history.history (
        All-map (λ f. f.frame_id < frame.frame_id) _ s.history.history
          (λ f h.
            ground (arith, protected-record_accepted_ready s.tracker frame.frame_id f.frame_id))
          (older v a))
      ∙ e)

  evict_one :
      (queue : ReadyFrameQueue B) {id : ℕ}
      → StoreInv s
      → IsAcceptable frame (validation_context s)
      → length s.history.history ≡ s.config.max_stored_frames
      → find_id (unprotected s) s.history.history ≡ some id
      → evict_old_frames (with_frame frame queue s) ≡ drop_frame id (with_frame frame queue s)
  unfolding evict_old_frames History.size with_frame History.add_frame
  evict_one queue {id} v a h e =
      let n = length-append s.history.history (frame ∷ []) in
      rw (n, add-one)
        (evict_loop_once (length s.history.history) (with_frame frame queue s) (omega (arith, n))
          (same_choice queue v a e))

module _ {B : Type 0} ⦃rb : RingBuffer B⦄ (s : FrameStore B) (frame : Frame) where
  abbrev result : FrameSubmissionResult
  result = validate frame (validation_context s)

  -- A refusal leaves the frame out, and reports what it records; an acceptance stores the frame.
  pub submit_shape :
      ((r : FrameSubmissionResult) × (is_accepted r ≡ false)
        × (submit_frame frame s ≡ (record_rejected_frame frame r s, r)))
      ⊎ ((queue : ReadyFrameQueue B) × (is_accepted result ≡ true)
          × (try_enqueue s.ready_queue frame ≡ some queue)
          × (submit_frame frame s ≡ (store_frame frame result queue s, result)))
  unfolding submit_frame
  submit_shape = elim (Bool-cases (is_accepted result)) [
    | inr bad ↦ inl (result, bad, ground arith)
    | inl good ↦ elim (Option-cases (try_enqueue s.ready_queue frame)) [
      | inl e ↦ inl (
        make_result ready_frame_queue_full frame.frame_id "Ready frame queue is full",
        refl,
        ground arith,
      )
      | inr (queue, e) ↦ inr (queue, good, e, ground arith)
    ]
  ]

  store_frame_lem :
      (queue : ReadyFrameQueue B)
      → store_frame frame result queue s
        ≡ record_status result (evict_old_frames (with_frame frame queue s))
  unfolding store_frame with_frame
  store_frame_lem queue = refl

  -- A full store has a frame that may go, or the validation fails.
  evictable :
      IsAcceptable frame (validation_context s)
      → length s.history.history ≡ s.config.max_stored_frames
      → (id : ℕ) × (find_id (unprotected s) s.history.history ≡ some id)
  unfolding validation_context History.find_oldest_evictable History.size
  evictable a full = elim (Option-cases (find_id (unprotected s) s.history.history)) [
    | inr found ↦ found
    | inl e ↦ absurd (ground (arith, a.room))
  ]

  -- submitFrame refuses the frame, or stores it beside the others, or stores it in the place of the
  -- oldest frame that is not protected.
  pub submit_cases {ℓ} :
      (P : FrameStore B → Type ℓ)
      → StoreInv s
      → ((r : FrameSubmissionResult) → P (record_rejected_frame frame r s))
      → ((queue : ReadyFrameQueue B)
          → IsAcceptable frame (validation_context s)
          → try_enqueue s.ready_queue frame ≡ some queue
          → length s.history.history < s.config.max_stored_frames
          → P (record_status result (with_frame frame queue s)))
      → ((queue : ReadyFrameQueue B) (id : ℕ)
          → IsAcceptable frame (validation_context s)
          → try_enqueue s.ready_queue frame ≡ some queue
          → length s.history.history ≡ s.config.max_stored_frames
          → find_id (unprotected s) s.history.history ≡ some id
          → P (record_status result (drop_frame id (with_frame frame queue s))))
      → P (submit_frame frame s).0
  submit_cases P v rejected kept evicted = elim submit_shape [
    | inl (r, _, e) ↦ rw e (rejected r)
    | inr (queue, good, q, e) ↦
        let a = accepted-IsAcceptable frame (validation_context s) good in
        rw (e, store_frame_lem queue)
          (elim (dec_lt (length s.history.history) s.config.max_stored_frames) [
            | yes h ↦ rw (evict_kept s frame queue h) (kept queue a q h)
            | no h ↦
                let full : length s.history.history ≡ s.config.max_stored_frames =
                  omega (arith, v.bounded) in
                let (id, found) = evictable a full in
                rw (evict_one s frame queue v a full found) (evicted queue id a q full found)
          ])
  ]
