-- ===== src/Model/Scene/Shared/Threads.antt =====
-- The threads that share a scene (SharedScene.cpp, SceneAccessLease.cpp), as a step over events. An
-- event is what one thread does under the state's mutex; the order of the events is free.
use edge_vision.Prelude.{
  ℕ, zero, suc, ◌+◌, ◌-◌, Bool, ◌&&◌, List, [], ◌∷◌, none, some, ltb, get_elem?, if◌then◌else◌,
}
use edge_vision.Model.Scene.Shared.{
  SharedSceneState, SceneAccessLease, ok, throws, can_acquire_read, can_acquire_write, arrive_read,
  acquire_read, arrive_write, acquire_write, release, publish,
}

-- The leases that are held, the newest first, and the number of readers inside their wait. The
-- writers inside theirs are counted by the state itself.
pub record Scene : Type 0 where
  pub state : SharedSceneState
  pub leases : List SceneAccessLease
  pub waiting_readers : ℕ

pub data Event : Type 0 where
  reader_arrives reader_enters writer_arrives writer_enters : Event
  releases publishes : ℕ → Event

unfoldable pub remove : ℕ → List SceneAccessLease → List SceneAccessLease
remove i [] = []
remove zero (l ∷ ls) = ls
remove (suc i) (l ∷ ls) = l ∷ remove i ls

unfoldable pub replace : ℕ → SceneAccessLease → List SceneAccessLease → List SceneAccessLease
replace i new [] = []
replace zero new (l ∷ ls) = new ∷ ls
replace (suc i) new (l ∷ ls) = l ∷ replace i new ls

unfoldable pub reader_may_enter : Scene → Bool
reader_may_enter y = ltb 0 y.waiting_readers && can_acquire_read y.state

unfoldable pub writer_may_enter : Scene → Bool
writer_may_enter y = ltb 0 y.state.waiting_writer_count && can_acquire_write y.state

-- The holder of the lease `i` publishes through it; a call that throws changes nothing.
unfoldable pub publish_through : ℕ → SceneAccessLease → Scene → Scene
publish_through i lease y = elim (publish (some lease) y.state) [
  | throws message ↦ y
  | ok (state, lease', version) ↦ record y { state = state; leases = replace i lease' y.leases }
]

-- A thread whose wait cannot end yet, or a lease that is not held, is no event: nothing changes.
unfoldable pub step : Event → Scene → Scene
step reader_arrives y = record y {
  state = arrive_read y.state;
  waiting_readers = y.waiting_readers + 1;
}
step reader_enters y =
    let (state, lease) = acquire_read y.state in
    if reader_may_enter y
    then record {
      state = state;
      leases = lease ∷ y.leases;
      waiting_readers = y.waiting_readers - 1;
    }
    else y
step writer_arrives y = record y { state = arrive_write y.state }
step writer_enters y =
    let (state, lease) = acquire_write y.state in
    if writer_may_enter y then record y { state = state; leases = lease ∷ y.leases } else y
step (releases i) y = elim (get_elem? y.leases i) [
  | none ↦ y
  | some lease ↦ record y { state = release lease y.state; leases = remove i y.leases }
]
step (publishes i) y = elim (get_elem? y.leases i) [
  | none ↦ y
  | some lease ↦ publish_through i lease y
]

unfoldable pub run : List Event → Scene → Scene
run [] y = y
run (e ∷ es) y = run es (step e y)
