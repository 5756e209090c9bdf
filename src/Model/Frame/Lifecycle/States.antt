-- ===== src/Model/Frame/Lifecycle/States.antt =====
-- What each operation of the tracker does to the state of every frame id.
use edge_vision.Prelude.{
  ℕ, ◌≡◌, refl, Bool, true, false, ◌||◌, Option, none, some, arith, lookup, insert, lookup-insert,
  ◌==◌, if◌then◌else◌,
}
use edge_vision.Model.Frame.{
  FrameLifecycle, FrameLifecycleState, blank_lifecycle, ready_for_consumer_state,
  dispatched_to_consumer_state, consumed_state, dropped_state, invalid_state, failed_state,
}
use edge_vision.Model.Frame.Lifecycle.{
  Tracker, update_entry, record_accepted_ready, record_invalid, mark_dispatched, mark_consumed,
  mark_failed, mark_dropped, is_protected_from_eviction, is_ready_state, is_dispatched_state,
}

abbrev pub state_in : Option FrameLifecycle → Option FrameLifecycleState
state_in none = none
state_in (some l) = some l.state

unfoldable pub state_of : ℕ → Tracker → Option FrameLifecycleState
state_of id t = state_in (lookup id t)

-- A known id takes the new state; an unknown one stays unknown.
abbrev pub becomes : FrameLifecycleState → Option FrameLifecycleState → Option FrameLifecycleState
becomes new none = none
becomes new (some old) = some new

abbrev pub guards : Option FrameLifecycleState → Bool
guards none = false
guards (some st) = is_ready_state st || is_dispatched_state st

pub protected-state_of :
    (id : ℕ) (t : Tracker) → is_protected_from_eviction id t ≡ guards (state_of id t)
unfolding is_protected_from_eviction state_of
protected-state_of id t = ground arith

pub state_of-record_accepted_ready :
    (id j : ℕ) (t : Tracker)
    → state_of j (record_accepted_ready id t)
      ≡ (if id == j then some ready_for_consumer_state else state_of j t)
unfolding state_of record_accepted_ready
state_of-record_accepted_ready id j t = ground (arith, entry)
  where
    entry : lookup j (record_accepted_ready id t) ≡ (
        if id == j
        then some (record blank_lifecycle {
          frame_id = id;
          state = ready_for_consumer_state;
          captured = true;
          stored = true;
          ready_for_consumer = true;
        })
        else lookup j t)
    entry = lookup-insert j id _ t

abbrev pub rejected_state : ℕ → Option FrameLifecycleState → Option FrameLifecycleState
rejected_state id none = if id == 0 then none else some invalid_state
rejected_state id (some old) = some old

pub state_of-record_invalid :
    (id j : ℕ) (t : Tracker)
    → state_of j (record_invalid id t)
      ≡ (if id == j then rejected_state id (state_of j t) else state_of j t)
unfolding state_of record_invalid
state_of-record_invalid id j t = ground (arith, entry)
  where
    entry :
        lookup j (
          insert id
            (record blank_lifecycle {
              frame_id = id;
              state = invalid_state;
              captured = true;
              invalid = true;
            })
            t)
        ≡ (if id == j
            then some (record blank_lifecycle {
              frame_id = id;
              state = invalid_state;
              captured = true;
              invalid = true;
            })
            else lookup j t)
    entry = lookup-insert j id _ t

-- The same for every update in place that sets the state to `new`.
state_of-update_entry :
    (new : FrameLifecycleState) (f : FrameLifecycle → FrameLifecycle)
    → ((l : FrameLifecycle) → (f l).state ≡ new)
    → (id j : ℕ) (t : Tracker)
    → state_of j (update_entry id f t)
      ≡ (if id == j then becomes new (state_of j t) else state_of j t)
unfolding state_of
state_of-update_entry new f sets id j t = go (lookup id t) refl
  where
    go :
        (o : Option FrameLifecycle)
        → lookup id t ≡ o
        → state_in (lookup j (elim o [ none ↦ t | some l ↦ insert id (f l) t ]))
          ≡ (if id == j then becomes new (state_in (lookup j t)) else state_in (lookup j t))
    go none e = ground arith
    go (some l) e = ground (arith, lookup-insert j id (f l) t, sets l)

pub state_of-mark_dispatched :
    (id j : ℕ) (t : Tracker)
    → state_of j (mark_dispatched id t)
      ≡ (if id == j then becomes dispatched_to_consumer_state (state_of j t) else state_of j t)
unfolding mark_dispatched
state_of-mark_dispatched = state_of-update_entry _ _ (λ l. refl)

pub state_of-mark_consumed :
    (id j : ℕ) (t : Tracker)
    → state_of j (mark_consumed id t)
      ≡ (if id == j then becomes consumed_state (state_of j t) else state_of j t)
unfolding mark_consumed
state_of-mark_consumed = state_of-update_entry _ _ (λ l. refl)

pub state_of-mark_failed :
    (id j : ℕ) (t : Tracker)
    → state_of j (mark_failed id t)
      ≡ (if id == j then becomes failed_state (state_of j t) else state_of j t)
unfolding mark_failed
state_of-mark_failed = state_of-update_entry _ _ (λ l. refl)

pub state_of-mark_dropped :
    (id j : ℕ) (t : Tracker)
    → state_of j (mark_dropped id t)
      ≡ (if id == j then becomes dropped_state (state_of j t) else state_of j t)
unfolding mark_dropped
state_of-mark_dropped = state_of-update_entry _ _ (λ l. refl)
