-- ===== src/Viewer/Runner/Rounds.antt =====
-- What runs of the loop in SceneViewerRunner.cpp publish and count.
use edge_vision.Prelude.{
  ℕ, suc, ◌+◌, ◌<◌, ◌≤◌, ◌≡◌, refl, sym, subst, inl, inr, arith, ℤ, List, [], ◌∷◌, Option, none,
  some, length, u64_mod, Option-cases,
}
use native.Mathlib.Nat.{add-zero}
use edge_vision.Config.{ViewerLoopPolicy, event}
use edge_vision.Model.Viewer.{ViewerPose, RenderOutput}
use edge_vision.Model.Viewer.PoseStore.{ViewerPoseStore, wait_for_newer, has_newer_generation}
use edge_vision.Viewer.{Visualisation}
use edge_vision.Viewer.Pipeline.{render}
use edge_vision.Viewer.SceneViewer.{SceneViewer, render_pose, render_with_access}
use edge_vision.Viewer.Runner.{
  Loop, Surroundings, SceneViewerRunnerStatus, SceneViewerRunnerActivity, record_idle,
  record_render_attempt, record_output, next_pose, conclude, with_pose, onto, round, rounds,
}

-- What the counters say after `n` rounds.
pub record CountInv (n : ℕ) (s : SceneViewerRunnerStatus) : Type 0 where
  pub total : s.published_output_count + s.idle_iteration_count ≡ n
  pub cached_le : s.cached_output_count ≤ s.published_output_count
  pub published_le : s.published_output_count ≤ s.render_attempt_count
  pub attempts_le : s.render_attempt_count ≤ n

-- In a round the attempt is counted before the outcome.
pub record Attempted (n : ℕ) (s : SceneViewerRunnerStatus) : Type 0 where
  pub total : s.published_output_count + s.idle_iteration_count ≡ n
  pub cached_le : s.cached_output_count ≤ s.published_output_count
  pub published_le : suc s.published_output_count ≤ s.render_attempt_count
  pub attempts_le : s.render_attempt_count ≤ suc n

idle-CountInv :
    (n : ℕ) (a : SceneViewerRunnerActivity) (s : SceneViewerRunnerStatus)
    → suc n < u64_mod
    → CountInv n s
    → CountInv (suc n) (record_idle a s)
unfolding record_idle
idle-CountInv n a s b v = ground (arith, b, v)

attempt-Attempted :
    (n : ℕ) (p : ViewerPose) (s : SceneViewerRunnerStatus)
    → suc n < u64_mod
    → CountInv n s
    → Attempted n (record_render_attempt p s)
unfolding record_render_attempt
attempt-Attempted n p s b v = ground (arith, b, v)

refused-CountInv :
    (n : ℕ) (a : SceneViewerRunnerActivity) (s : SceneViewerRunnerStatus)
    → suc n < u64_mod
    → Attempted n s
    → CountInv (suc n) (record_idle a s)
unfolding record_idle
refused-CountInv n a s b v = ground (arith, b, v)

output-CountInv :
    (n : ℕ) (o : RenderOutput) (s : SceneViewerRunnerStatus)
    → suc n < u64_mod
    → Attempted n s
    → CountInv (suc n) (record_output o s)
unfolding record_output
output-CountInv n o s b v = ground (arith, b, v)

-- Above `g`, and each above the one before.
abbrev pub Rising : ℕ → List RenderOutput → Type 0
Rising g [] = Unit
Rising g (o ∷ os) = (g < o.pose_generation) × Rising o.pose_generation os

conclude-CountInv :
    {V : Type 0} (n : ℕ) (policy : ViewerLoopPolicy) (l : Loop V)
    (r : SceneViewer V × Option RenderOutput)
    → suc n < u64_mod
    → Attempted n l.status
    → CountInv (suc n) (conclude policy l r).0.status
conclude-CountInv n policy l (viewer, none) b v = refused-CountInv n _ l.status b v
conclude-CountInv n policy l (viewer, some o) b v = output-CountInv n o l.status b v

waited_newer :
    (g : ℕ) (timeout : ℤ) (later s : ViewerPoseStore) {p : ViewerPose}
    → wait_for_newer g timeout later s ≡ some p
    → g < p.generation
unfolding wait_for_newer has_newer_generation
waited_newer g timeout later s e = ground (arith, e)

concluded :
    {V : Type 0} (policy : ViewerLoopPolicy) (l : Loop V) (r : SceneViewer V × Option RenderOutput)
    {o : RenderOutput}
    → (conclude policy l r).1 ≡ some o
    → (r.1 ≡ some o) × ((conclude policy l r).0.last_pose_generation ≡ o.pose_generation)
concluded policy l (viewer, none) e = ground (arith, e)
concluded policy l (viewer, some o) e = ground (arith, e)

concluded_none :
    {V : Type 0} (policy : ViewerLoopPolicy) (l : Loop V) (r : SceneViewer V × Option RenderOutput)
    → (conclude policy l r).1 ≡ none
    → (conclude policy l r).0.last_pose_generation ≡ l.last_pose_generation
concluded_none policy l (viewer, none) e = refl
concluded_none policy l (viewer, some o) e = ground (arith, e)

shift : (n k : ℕ) → suc n + k ≡ n + suc k
shift n k = omega arith

module _ {S V : Type 0} ⦃vis : Visualisation S V⦄ where
  with_pose-CountInv :
      (n : ℕ) (policy : ViewerLoopPolicy) (at : Surroundings S) (l : Loop V)
      (pose : Option ViewerPose)
      → suc n < u64_mod
      → CountInv n l.status
      → CountInv (suc n) (with_pose policy at l pose).0.status
  with_pose-CountInv n policy at l none b v = idle-CountInv n _ l.status b v
  with_pose-CountInv n policy at l (some pose) b v =
      conclude-CountInv n policy (record l { status = record_render_attempt pose l.status })
        (render_pose at.scene at.now pose (record (l.viewer) { shared = at.shared })) b
        (attempt-Attempted n pose l.status b v)

  round-CountInv :
      (n : ℕ) (policy : ViewerLoopPolicy) (period : ℤ) (at : Surroundings S) (l : Loop V)
      → suc n < u64_mod
      → CountInv n l.status
      → CountInv (suc n) (round policy period at l).0.status
  unfolding round
  round-CountInv n policy period at l b v = with_pose-CountInv n policy at l _ b v

  -- From a status that counts `n` rounds, after every run of further rounds under either policy that
  -- does not overflow the counters: each round was counted as either a published output or an idle
  -- iteration, and the cached outputs are at most the published, which are at most the attempts.
  pub rounds-CountInv :
      (n : ℕ) (policy : ViewerLoopPolicy) (period : ℤ) (visits : List (Surroundings S)) (l : Loop V)
      → n + length visits < u64_mod
      → CountInv n l.status
      → CountInv (n + length visits) (rounds policy period visits l).0.status
  unfolding rounds
  rounds-CountInv n policy period [] l b v = subst (λ m. CountInv m l.status) (sym (add-zero n)) v
  rounds-CountInv n policy period (at ∷ rest) l b v =
      subst (λ m. CountInv m (rounds policy period rest (round policy period at l).0).0.status)
        (shift n (length rest))
        (rounds-CountInv (suc n) policy period rest (round policy period at l).0 (omega (arith, b))
          (round-CountInv n policy period at l (omega (arith, b)) v))

  rendered_generation :
      (scene : S) (now : ℤ) (pose : ViewerPose) (s : SceneViewer V) {o : RenderOutput}
      → (render_pose scene now pose s).1 ≡ some o
      → o.pose_generation ≡ pose.generation
  unfolding render_pose render_with_access render
  rendered_generation scene now pose s e = ground (arith, e)

  with_pose_newer :
      (g : ℕ) (policy : ViewerLoopPolicy) (at : Surroundings S) (l : Loop V)
      (pose : Option ViewerPose) {o : RenderOutput}
      → ((p : ViewerPose) → pose ≡ some p → g < p.generation)
      → (with_pose policy at l pose).1 ≡ some o
      → (g < o.pose_generation)
        × ((with_pose policy at l pose).0.last_pose_generation ≡ o.pose_generation)
  with_pose_newer g policy at l none newer e = ground (arith, e)
  with_pose_newer g policy at l (some pose) newer e =
      let answer = render_pose at.scene at.now pose (record (l.viewer) { shared = at.shared }) in
      let c =
        concluded policy (record l { status = record_render_attempt pose l.status }) answer e in
      let same = rendered_generation at.scene at.now pose _ c.0 in
      (omega (arith, newer pose refl, same), c.1)

  with_pose_silent :
      (policy : ViewerLoopPolicy) (at : Surroundings S) (l : Loop V) (pose : Option ViewerPose)
      → (with_pose policy at l pose).1 ≡ none
      → (with_pose policy at l pose).0.last_pose_generation ≡ l.last_pose_generation
  with_pose_silent policy at l none e = refl
  with_pose_silent policy at l (some pose) e =
      concluded_none policy (record l { status = record_render_attempt pose l.status })
        (render_pose at.scene at.now pose (record (l.viewer) { shared = at.shared })) e

  round_newer :
      (period : ℤ) (at : Surroundings S) (l : Loop V) {o : RenderOutput}
      → (round event period at l).1 ≡ some o
      → (l.last_pose_generation < o.pose_generation)
        × ((round event period at l).0.last_pose_generation ≡ o.pose_generation)
  unfolding round next_pose
  round_newer period at l e =
      let g = l.last_pose_generation in
      with_pose_newer g event at l (wait_for_newer g period at.poses_later at.poses)
        (λ p f. waited_newer g period at.poses_later at.poses f) e

  round_silent :
      (period : ℤ) (at : Surroundings S) (l : Loop V)
      → (round event period at l).1 ≡ none
      → (round event period at l).0.last_pose_generation ≡ l.last_pose_generation
  unfolding round
  round_silent period at l e = with_pose_silent event at l _ e

  -- With the event policy, every run of rounds, whatever the other threads do to the pose store and
  -- the scene in between, publishes outputs of strictly rising pose generations, all newer than the
  -- generation the loop was at: no pose is rendered twice, and none after a newer one.
  pub rounds-Rising :
      (period : ℤ) (visits : List (Surroundings S)) (l : Loop V)
      → Rising l.last_pose_generation (rounds event period visits l).1
  unfolding rounds
  rounds-Rising period [] l = tt
  rounds-Rising period (at ∷ rest) l =
      let r = round event period at l in
      let (l', os) = rounds event period rest r.0 in
      let rest_rising = rounds-Rising period rest r.0 in
      elim (Option-cases r.1) [
        | inl e ↦
            subst (λ o. Rising l.last_pose_generation (onto o os)) (sym e)
              (subst (λ g. Rising g os) (round_silent period at l e) rest_rising)
        | inr (o, e) ↦
            let newer = round_newer period at l e in
            subst (λ o. Rising l.last_pose_generation (onto o os)) (sym e)
              (newer.0, subst (λ g. Rising g os) newer.1 rest_rising)
      ]
