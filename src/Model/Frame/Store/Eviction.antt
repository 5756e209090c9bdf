-- ===== src/Model/Frame/Store/Eviction.antt =====
-- The loop of evictOldFramesLocked.
use edge_vision.Prelude.{
  ℕ, zero, suc, ◌≤◌, ◌≡◌, refl, ◌⊎◌, inl, inr, true, false, ◌||◌, List, [], ◌∷◌, All, Option, none,
  some, arith, length, lookup, Option-cases, Bool-cases,
}
use edge_vision.Model.Frame.{
  Frame, FrameLifecycle, FrameLifecycleState, captured_state, stored_state,
  ready_for_consumer_state, dispatched_to_consumer_state, consumed_state, dropped_state,
  invalid_state, failed_state,
}
use edge_vision.Model.Frame.Lifecycle
use edge_vision.Model.Frame.Lifecycle.{Tracker}
use edge_vision.Model.Frame.History
use edge_vision.Model.Frame.History.Order.{length-erase_first}
use edge_vision.Model.Frame.Store.{
  FrameStore, drop_frame, next_to_evict, evict_loop, evict_old_frames, is_evictable, is_not_latest,
}

-- A frame that must stay, by the latest frame and by what is recorded of it: it is the latest one, or
-- its state is that of a frame which waits for the consumer or is with it.
abbrev pub MustStay : Option Frame → Option FrameLifecycle → Frame → Type 0
MustStay latest found f =
    ((g : Frame) × (latest ≡ some g) × (f.frame_id ≡ g.frame_id))
    ⊎ ((l : FrameLifecycle) × (found ≡ some l)
        × ((l.state ≡ ready_for_consumer_state) ⊎ (l.state ≡ dispatched_to_consumer_state)))

guarded_state :
    (state : FrameLifecycleState)
    → (Lifecycle.is_ready_state state || Lifecycle.is_dispatched_state state) ≡ true
    → (state ≡ ready_for_consumer_state) ⊎ (state ≡ dispatched_to_consumer_state)
guarded_state ready_for_consumer_state e = inl refl
guarded_state dispatched_to_consumer_state e = inr refl
guarded_state captured_state e = ground (arith, e)
guarded_state stored_state e = ground (arith, e)
guarded_state consumed_state e = ground (arith, e)
guarded_state dropped_state e = ground (arith, e)
guarded_state invalid_state e = ground (arith, e)
guarded_state failed_state e = ground (arith, e)

same_frame :
    (latest : Option Frame) (f : Frame)
    → is_not_latest (History.id_of latest) f.frame_id ≡ false
    → (g : Frame) × (latest ≡ some g) × (f.frame_id ≡ g.frame_id)
same_frame none f e = ground (arith, e)
same_frame (some g) f e = (g, refl, ground (arith, e))

protected_state :
    (found : Option FrameLifecycle)
    → elim found [
      | none ↦ false
      | some l ↦ Lifecycle.is_ready_state l.state || Lifecycle.is_dispatched_state l.state
    ]
      ≡ true
    → (l : FrameLifecycle) × (found ≡ some l)
      × ((l.state ≡ ready_for_consumer_state) ⊎ (l.state ≡ dispatched_to_consumer_state))
protected_state none e = ground (arith, e)
protected_state (some l) e = (l, refl, guarded_state l.state e)

-- A frame that the test of the loop does not let go must stay.
must_stay :
    (latest : Option Frame) (t : Tracker) (f : Frame)
    → is_evictable (History.id_of latest) t f.frame_id ≡ false
    → MustStay latest (lookup f.frame_id t) f
unfolding Lifecycle.is_protected_from_eviction
must_stay latest t f e = elim (Bool-cases (is_not_latest (History.id_of latest) f.frame_id)) [
  | inr same ↦ inl (same_frame latest f same)
  | inl other ↦ inr (protected_state (lookup f.frame_id t) (ground (arith, e, other)))
]

module _ {B : Type 0} where
  -- Within the capacity the loop does nothing.
  pub evict_loop_idle :
      (fuel : ℕ) (s : FrameStore B)
      → length s.history.history ≤ s.config.max_stored_frames
      → evict_loop fuel s ≡ s
  unfolding evict_loop History.size
  evict_loop_idle zero s h = refl
  evict_loop_idle (suc fuel) s h = ground arith

  pub drop_frame-shorter :
      (s : FrameStore B) {id : ℕ}
      → next_to_evict s ≡ some id
      → suc (length (drop_frame id s).history.history) ≡ length s.history.history
  unfolding drop_frame next_to_evict History.find_oldest_evictable History.remove_frame
  drop_frame-shorter s {id} h = length-erase_first _ id s.history.history h

  drop_frame-config : (id : ℕ) (s : FrameStore B) → (drop_frame id s).config ≡ s.config
  unfolding drop_frame
  drop_frame-config id s = refl

  -- One frame too many, and one that may go: it goes, and the loop is over.
  pub evict_loop_once :
      (fuel : ℕ) (s : FrameStore B) {id : ℕ}
      → length s.history.history ≡ suc s.config.max_stored_frames
      → next_to_evict s ≡ some id
      → evict_loop (suc fuel) s ≡ drop_frame id s
  unfolding evict_loop History.size
  evict_loop_once fuel s {id} h e = ground (
    arith,
    evict_loop_idle fuel (drop_frame id s),
    drop_frame-shorter s {id = id},
    drop_frame-config id s,
  )

  abbrev pub Settled : FrameStore B → Type 0
  Settled s = (length s.history.history ≤ s.config.max_stored_frames) ⊎ (next_to_evict s ≡ none)

  evict_loop_settles :
      (fuel : ℕ) (s : FrameStore B) → length s.history.history ≤ fuel → Settled (evict_loop fuel s)
  unfolding evict_loop History.size
  evict_loop_settles zero s h = inl (omega arith)
  evict_loop_settles (suc fuel) s h = elim (Option-cases (next_to_evict s)) [
    | inl stuck ↦ ground arith
    | inr (id, e) ↦
        ground (arith, drop_frame-shorter s {id = id}, evict_loop_settles fuel (drop_frame id s))
  ]

  evict_old_frames_settles : (s : FrameStore B) → Settled (evict_old_frames s)
  unfolding evict_old_frames History.size
  evict_old_frames_settles s = evict_loop_settles (length s.history.history) s (omega arith)

  abbrev pub Stays : FrameStore B → Frame → Type 0
  Stays s f = MustStay s.history.latest_frame (lookup f.frame_id s.tracker) f

  none_evictable :
      (s : FrameStore B) (fs : List Frame)
      → History.find_id (is_evictable (History.latest_frame_id s.history) s.tracker) fs ≡ none
      → All (Stays s) fs
  unfolding History.find_id History.latest_frame_id
  none_evictable s [] e = tt
  none_evictable s (f ∷ fs) e =
      elim (Bool-cases (is_evictable (History.latest_frame_id s.history) s.tracker f.frame_id)) [
        | inl y ↦ ground (arith, e, y)
        | inr n ↦ (
          must_stay s.history.latest_frame s.tracker f n,
          none_evictable s fs (ground (arith, e, n)),
        )
      ]

  -- The fuel is enough: the loop of evictOldFramesLocked always ends by its own test or its break,
  -- so afterwards the store is within its capacity, or every frame left must stay: it is the latest one,
  -- or its recorded state is ready for the consumer or dispatched to it.
  pub evict_old_frames-Settled :
      (s : FrameStore B)
      → let t = evict_old_frames s in
        (length t.history.history ≤ t.config.max_stored_frames) ⊎ All (Stays t) t.history.history
  unfolding next_to_evict History.find_oldest_evictable
  evict_old_frames-Settled s = elim (evict_old_frames_settles s) [
    | inl h ↦ inl h
    | inr e ↦ inr (none_evictable (evict_old_frames s) (evict_old_frames s).history.history e)
  ]

  pub evict_old_frames_idle :
      (s : FrameStore B)
      → length s.history.history ≤ s.config.max_stored_frames
      → evict_old_frames s ≡ s
  unfolding evict_old_frames
  evict_old_frames_idle s h = evict_loop_idle _ s h
