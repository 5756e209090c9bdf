-- ===== src/Viewer/Runner.antt =====
-- src/viewer/src/SceneViewerRunner.cpp: the status of the render thread, and the rounds of its loop.
-- Between the rounds other threads change the pose store and the scene, so a round finds them as they
-- are then.
pub mod Rounds
use edge_vision.Prelude.{
  ℕ, ℤ, pos, Bool, true, false, ◌||◌, List, [], ◌∷◌, Option, none, some, inc64, ltb_ℤ,
  if◌then◌else◌,
}
use edge_vision.Config.{ViewerLoopPolicy, ViewerRuntimeConfig, event, hot_loop}
use edge_vision.Model.Scene.Shared.{SharedSceneState}
use edge_vision.Model.Viewer.{ViewerPose, RenderOutput}
use edge_vision.Model.Viewer.PoseStore.{ViewerPoseStore, wait_for_newer, latest}
use edge_vision.Viewer.{Visualisation}
use edge_vision.Viewer.SceneViewer.{SceneViewer, render_pose}

pub data SceneViewerRunnerActivity : Type 0 where
  idle_activity waiting_for_pose rendered_output : SceneViewerRunnerActivity

pub record SceneViewerRunnerStatus : Type 0 where
  pub running : Bool
  pub stop_requested : Bool
  pub activity : SceneViewerRunnerActivity
  pub render_attempt_count : ℕ
  pub published_output_count : ℕ
  pub cached_output_count : ℕ
  pub idle_iteration_count : ℕ
  pub last_pose_generation : Option ℕ
  pub last_scene_version_id : Option ℕ
  pub last_output_was_cached : Bool

-- SceneViewerRunnerStatus{}
abbrev pub blank_status : SceneViewerRunnerStatus
blank_status = record {
  running = false;
  stop_requested = false;
  activity = idle_activity;
  render_attempt_count = 0;
  published_output_count = 0;
  cached_output_count = 0;
  idle_iteration_count = 0;
  last_pose_generation = none;
  last_scene_version_id = none;
  last_output_was_cached = false;
}

-- `joinable` says that m_thread holds a thread that was not joined.
pub record SceneViewerRunner : Type 0 where
  pub config : ViewerRuntimeConfig
  pub stop_requested : Bool
  pub is_running : Bool
  pub joinable : Bool
  pub status : SceneViewerRunnerStatus

-- std::max(loopPeriodMs, 1)
unfoldable pub make_loop_period : ViewerRuntimeConfig → ℤ
make_loop_period config =
    if ltb_ℤ config.loop_period_ms (pos 1) then pos 1 else config.loop_period_ms

unfoldable pub set_running : Bool → SceneViewerRunner → SceneViewerRunner
set_running running r = record r {
  is_running = running;
  status = record (r.status) { running = running; stop_requested = r.stop_requested };
}

unfoldable pub start : SceneViewerRunner → SceneViewerRunner × Bool
unfolding set_running
start r =
    if r.joinable || r.is_running
    then (r, false)
    else (record (set_running true (record r { stop_requested = false })) { joinable = true }, true)

unfoldable pub request_stop : SceneViewerRunner → SceneViewerRunner
request_stop r = record r {
  stop_requested = true;
  status = record (r.status) { stop_requested = true };
}

-- Waits for the thread, which has ended when this returns.
unfoldable pub join : SceneViewerRunner → SceneViewerRunner
join r = record r { joinable = false }

-- ~SceneViewerRunner.
unfoldable pub destroy : SceneViewerRunner → SceneViewerRunner
unfolding request_stop join
destroy r = join (request_stop r)

unfoldable pub record_idle :
    SceneViewerRunnerActivity → SceneViewerRunnerStatus → SceneViewerRunnerStatus
record_idle activity s = record s {
  idle_iteration_count = inc64 s.idle_iteration_count;
  activity = activity;
}

unfoldable pub record_render_attempt :
    ViewerPose → SceneViewerRunnerStatus → SceneViewerRunnerStatus
record_render_attempt pose s = record s {
  render_attempt_count = inc64 s.render_attempt_count;
  last_pose_generation = some pose.generation;
}

unfoldable pub record_output : RenderOutput → SceneViewerRunnerStatus → SceneViewerRunnerStatus
record_output output s = record s {
  published_output_count = inc64 s.published_output_count;
  cached_output_count =
      if output.cached then inc64 s.cached_output_count else s.cached_output_count;
  activity = rendered_output;
  last_pose_generation = some output.pose_generation;
  last_scene_version_id = some output.scene_version_id;
  last_output_was_cached = output.cached;
}

-- The loop's own variables, with the viewer and the status that it works on.
pub record Loop (V : Type 0) : Type 0 where
  pub viewer : SceneViewer V
  pub status : SceneViewerRunnerStatus
  pub last_pose_generation : ℕ

-- What a round finds: the pose store as it begins and as its wait ends, the scene, and the time.
pub record Surroundings (S : Type 0) : Type 0 where
  pub poses : ViewerPoseStore
  pub poses_later : ViewerPoseStore
  pub shared : SharedSceneState
  pub scene : S
  pub now : ℤ

-- The activity that a round without an output reports.
abbrev pub idle_activity_of : ViewerLoopPolicy → SceneViewerRunnerActivity
idle_activity_of event = waiting_for_pose
idle_activity_of hot_loop = idle_activity

-- The pose that a round works on: waitForNewer, or latest.
unfoldable pub next_pose :
    {S : Type 0} → ViewerLoopPolicy → ℤ → Surroundings S → ℕ → Option ViewerPose
next_pose event period at generation = wait_for_newer generation period at.poses_later at.poses
next_pose hot_loop period at generation = latest at.poses

-- The rest of a round once the viewer has answered.
abbrev pub conclude :
    {V : Type 0}
    → ViewerLoopPolicy
    → Loop V
    → SceneViewer V × Option RenderOutput
    → Loop V × Option RenderOutput
conclude policy l (viewer, none) =
    (record l { viewer = viewer; status = record_idle (idle_activity_of policy) l.status }, none)
conclude policy l (viewer, some output) = (
  record {
    viewer = viewer;
    status = record_output output l.status;
    last_pose_generation = output.pose_generation;
  },
  some output,
)

abbrev pub onto : Option RenderOutput → List RenderOutput → List RenderOutput
onto none os = os
onto (some o) os = o ∷ os

module _ {S V : Type 0} ⦃vis : Visualisation S V⦄ where
  abbrev pub with_pose :
      ViewerLoopPolicy → Surroundings S → Loop V → Option ViewerPose → Loop V × Option RenderOutput
  with_pose policy at l none =
      (record l { status = record_idle (idle_activity_of policy) l.status }, none)
  with_pose policy at l (some pose) =
      conclude policy (record l { status = record_render_attempt pose l.status })
        (render_pose at.scene at.now pose (record (l.viewer) { shared = at.shared }))

  -- A round of runLoop, and what it published. Sleeping changes nothing.
  unfoldable pub round :
      ViewerLoopPolicy → ℤ → Surroundings S → Loop V → Loop V × Option RenderOutput
  round policy period at l =
      with_pose policy at l (next_pose policy period at l.last_pose_generation)

  -- The rounds of runLoop, from the first, and the outputs in the order of their publication.
  unfoldable pub rounds :
      ViewerLoopPolicy → ℤ → List (Surroundings S) → Loop V → Loop V × List RenderOutput
  unfolding round
  rounds policy period [] l = (l, [])
  rounds policy period (at ∷ rest) l =
      let r = round policy period at l in
      let later = rounds policy period rest r.0 in (later.0, onto r.1 later.1)

  -- runLoop, with the rounds it makes before a stop is seen.
  unfoldable pub run_loop :
      List (Surroundings S)
      → SceneViewer V
      → SceneViewerRunner
      → SceneViewer V × SceneViewerRunner × List RenderOutput
  unfolding rounds set_running
  run_loop visits viewer r =
      let ended =
        rounds r.config.loop_policy (make_loop_period r.config) visits
          (record { viewer = viewer; status = r.status; last_pose_generation = 0 }) in
      (ended.0.viewer, set_running false (record r { status = ended.0.status }), ended.1)
