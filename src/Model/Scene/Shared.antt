-- ===== src/Model/Scene/Shared.antt =====
-- src/model/src/scene: SharedScene.cpp, SceneAccess.cpp, state/SceneAccessLease.cpp and
-- state/SharedSceneState.cpp. The voxel scene itself belongs to InfiniTAM and is left out.
pub mod Threads
pub mod Exclusion
use edge_vision.Prelude.{
  ℕ, ◌+◌, ◌-◌, ◌%◌, Bool, true, false, not, ◌&&◌, ◌||◌, String, Option, none, some, ltb, inc64,
  u64_mod, ◌==◌, if◌then◌else◌,
}
use edge_vision.Config.{SceneReadPolicy, SceneConfig, greedy, balanced}

-- `identity` tells one shared state from another, as its address does.
pub record SharedSceneState : Type 0 where
  pub identity : ℕ
  pub active_reader_count : ℕ
  pub waiting_writer_count : ℕ
  pub writer_active : Bool
  pub blocked_priority_read_pending : Bool
  pub read_policy : SceneReadPolicy
  pub scene_version_id : ℕ

unfoldable pub make_state : ℕ → SceneConfig → SharedSceneState
make_state identity config = record {
  identity = identity;
  active_reader_count = 0;
  waiting_writer_count = 0;
  writer_active = false;
  blocked_priority_read_pending = false;
  read_policy = config.read_policy;
  scene_version_id = 0;
}

pub data SceneLockMode : Type 0 where
  read_mode write_mode : SceneLockMode

pub record SceneAccessLease : Type 0 where
  pub owner : ℕ
  pub mode : SceneLockMode
  pub version : ℕ

abbrev policy_admits_read : SceneReadPolicy → SharedSceneState → Bool
policy_admits_read greedy s = not s.writer_active
policy_admits_read balanced s =
    not s.writer_active && (s.waiting_writer_count == 0 || s.blocked_priority_read_pending)

unfoldable pub can_acquire_read : SharedSceneState → Bool
can_acquire_read s = policy_admits_read s.read_policy s

unfoldable pub can_acquire_write : SharedSceneState → Bool
can_acquire_write s =
    not s.writer_active && (s.active_reader_count == 0 && not s.blocked_priority_read_pending)

-- acquireRead up to its wait: a reader that meets a writer asks to be next.
unfoldable pub arrive_read : SharedSceneState → SharedSceneState
arrive_read s = record s {
  blocked_priority_read_pending = s.writer_active || s.blocked_priority_read_pending;
}

-- acquireRead after its wait.
unfoldable pub acquire_read : SharedSceneState → SharedSceneState × SceneAccessLease
acquire_read s = (
  record s {
    active_reader_count = inc64 s.active_reader_count;
    blocked_priority_read_pending = false;
  },
  record { owner = s.identity; mode = read_mode; version = s.scene_version_id },
)

-- acquireWrite up to its wait.
unfoldable pub arrive_write : SharedSceneState → SharedSceneState
arrive_write s = record s { waiting_writer_count = inc64 s.waiting_writer_count }

-- -- on std::size_t.
abbrev dec64 : ℕ → ℕ
dec64 n = (n + (u64_mod - 1)) % u64_mod

-- acquireWrite after its wait.
unfoldable pub acquire_write : SharedSceneState → SharedSceneState × SceneAccessLease
acquire_write s = (
  record s { waiting_writer_count = dec64 s.waiting_writer_count; writer_active = true },
  record { owner = s.identity; mode = write_mode; version = s.scene_version_id },
)

-- ~SceneAccessLease.
unfoldable pub release_mode : SceneLockMode → SharedSceneState → SharedSceneState
release_mode read_mode s =
    if ltb 0 s.active_reader_count
    then record s { active_reader_count = s.active_reader_count - 1 }
    else s
release_mode write_mode s = record s { writer_active = false }

unfoldable pub release : SceneAccessLease → SharedSceneState → SharedSceneState
unfolding release_mode
release lease s = release_mode lease.mode s

-- SceneAccessLease::owns.
unfoldable pub owns : SceneAccessLease → SharedSceneState → Bool
owns lease s = lease.owner == s.identity

-- SharedScene::version.
unfoldable pub current_version : SharedSceneState → ℕ
current_version s = s.scene_version_id

-- The exceptions are their messages.
pub data Result (A : Type 0) : Type 0 where
  ok : A → Result A
  throws : String → Result A

-- A handle holds a lease, or none once it has been moved from. requireLease, and the version read
-- through it.
unfoldable pub handle_version : String → Option SceneAccessLease → Result ℕ
handle_version message none = throws message
handle_version message (some lease) = ok lease.version

abbrev pub is_write : SceneLockMode → Bool
is_write read_mode = false
is_write write_mode = true

-- SharedScene::publish: the state and the lease afterwards, and the new version.
unfoldable pub publish :
    Option SceneAccessLease → SharedSceneState → Result (SharedSceneState × SceneAccessLease × ℕ)
unfolding owns
publish none s = throws "Scene version publication requires a valid write access"
publish (some lease) s =
    if not (is_write lease.mode) || not (owns lease s)
    then throws "Scene version publication requires this scene write access"
    else let next = inc64 s.scene_version_id in
      ok (record s { scene_version_id = next }, record lease { version = next }, next)
