-- ===== src/Model/Frame/Lifecycle.antt =====
-- src/model/src/frame/state/FrameLifecycleTracker.cpp and types/lifecycle.hpp: what has become of
-- each frame id. The tracker's map is an association list.
pub mod States
use edge_vision.Prelude.{
  ℕ, Bool, true, false, ◌||◌, String, List, Option, none, some, lookup, insert, is_some, ◌==◌,
  if◌then◌else◌,
}
use edge_vision.Model.Frame.{
  FrameLifecycle, FrameLifecycleState, blank_lifecycle, captured_state, stored_state,
  ready_for_consumer_state, dispatched_to_consumer_state, consumed_state, dropped_state,
  invalid_state, failed_state,
}

abbrev pub Tracker : Type 0
Tracker = List (ℕ × FrameLifecycle)

unfoldable pub frame_lifecycle_state_to_string : FrameLifecycleState → String
frame_lifecycle_state_to_string captured_state = "captured"
frame_lifecycle_state_to_string stored_state = "stored"
frame_lifecycle_state_to_string ready_for_consumer_state = "ready_for_consumer"
frame_lifecycle_state_to_string dispatched_to_consumer_state = "dispatched_to_consumer"
frame_lifecycle_state_to_string consumed_state = "consumed"
frame_lifecycle_state_to_string dropped_state = "dropped"
frame_lifecycle_state_to_string invalid_state = "invalid"
frame_lifecycle_state_to_string failed_state = "failed"

unfoldable pub record_accepted_ready : ℕ → Tracker → Tracker
record_accepted_ready id t =
    insert id
      (record blank_lifecycle {
        frame_id = id;
        state = ready_for_consumer_state;
        captured = true;
        stored = true;
        ready_for_consumer = true;
      })
      t

unfoldable pub record_invalid : ℕ → Tracker → Tracker
record_invalid id t =
    if id == 0 || is_some (lookup id t)
    then t
    else insert id
        (record blank_lifecycle {
          frame_id = id;
          state = invalid_state;
          captured = true;
          invalid = true;
        })
        t

-- find, and an update in place of the entry found.
abbrev update_entry : ℕ → (FrameLifecycle → FrameLifecycle) → Tracker → Tracker
update_entry id f t = elim (lookup id t) [ none ↦ t | some l ↦ insert id (f l) t ]

unfoldable pub mark_dispatched : ℕ → Tracker → Tracker
mark_dispatched id =
    update_entry id
      λ l. record l { state = dispatched_to_consumer_state; dispatched_to_consumer = true }

unfoldable pub mark_consumed : ℕ → Tracker → Tracker
mark_consumed id =
    update_entry id
      λ l. record l { state = consumed_state; dispatched_to_consumer = true; consumed = true }

unfoldable pub mark_failed : ℕ → Tracker → Tracker
mark_failed id =
    update_entry id
      λ l. record l { state = failed_state; dispatched_to_consumer = true; failed = true }

unfoldable pub mark_dropped : ℕ → Tracker → Tracker
mark_dropped id = update_entry id λ l. record l { state = dropped_state; dropped = true }

abbrev pub is_ready_state : FrameLifecycleState → Bool
is_ready_state ready_for_consumer_state = true
is_ready_state _ = false

abbrev pub is_dispatched_state : FrameLifecycleState → Bool
is_dispatched_state dispatched_to_consumer_state = true
is_dispatched_state _ = false

unfoldable pub is_ready_for_consumer : ℕ → Tracker → Bool
is_ready_for_consumer id t = elim (lookup id t) [ none ↦ false | some l ↦ is_ready_state l.state ]

unfoldable pub is_protected_from_eviction : ℕ → Tracker → Bool
is_protected_from_eviction id t = elim (lookup id t) [
  | none ↦ false
  | some l ↦ is_ready_state l.state || is_dispatched_state l.state
]

unfoldable pub get_lifecycle : ℕ → Tracker → Option FrameLifecycle
get_lifecycle id t = lookup id t

unfoldable pub snapshot : Tracker → Tracker
snapshot t = t
