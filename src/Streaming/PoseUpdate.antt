-- ===== src/Streaming/PoseUpdate.antt =====
-- src/streaming/webrtc/src/utils/PoseUpdateHandler.cpp, and what WebRtcServer.cpp does with the pose.
use text.Mathlib.Text.{◌==◌ as str_eq}
use edge_vision.Prelude.{
  ℕ, ◌&&◌, List, [], ◌∷◌, Option, none, some, length, ◌==◌, Float32, String, if◌then◌else◌,
}
use edge_vision.Model.Scene.Shared.{Result, ok, throws}
use edge_vision.Model.Viewer.PoseStore.{ViewerPoseStore, FloatArith, apply_relative_pose}
use edge_vision.Streaming.{Json, ◌>>=◌}

pub record PoseUpdate : Type 0 where
  pub matrix : List Float32

-- What catch (...) makes of an exception.
abbrev pub caught : {A : Type 0} → Result (Option A) → Option A
caught (throws message) = none
caught (ok found) = found

module _ {J : Type 0} ⦃json : Json J⦄ where
  -- The loop over the sixteen entries.
  unfoldable pub get_floats : List J → Result (List Float32)
  get_floats [] = ok []
  get_floats (j ∷ js) = do x ← json.get_float j; xs ← get_floats js; ok (x ∷ xs)

  abbrev pub member : String → J → Result (Option J)
  member key message = json.at key message >>= λ matrix. ok (some matrix)

  -- The first of the two keys that the message has.
  abbrev pub find_matrix : J → Result (Option J)
  find_matrix message =
      if json.contains "matrix" message
      then member "matrix" message
      else if json.contains "pose" message
      then member "pose" message
      else ok none

  abbrev pub filled : List J → Result (Option PoseUpdate)
  filled elements = get_floats elements >>= λ xs. ok (some (record { matrix = xs }))

  unfoldable pub read_matrix : Option J → Result (Option PoseUpdate)
  read_matrix none = ok none
  read_matrix (some matrix) =
      if json.is_array matrix && length (json.elements matrix) == 16
      then filled (json.elements matrix)
      else ok none

  abbrev pub posed : J → Result (Option PoseUpdate)
  posed message = find_matrix message >>= λ matrix. read_matrix matrix

  abbrev pub typed : J → Result String → Result (Option PoseUpdate)
  typed message (throws reason) = throws reason
  typed message (ok kind) = if str_eq kind "pose" then posed message else ok none

  abbrev pub read_message : Option J → Option PoseUpdate
  read_message none = none
  read_message (some message) = caught (typed message (json.text_value "type" "" message))

-- onMessageStringTrampoline and applyPoseUpdate of WebRtcServer.cpp, for a message of the active channel.
abbrev pub applied : FloatArith → ViewerPoseStore → Option PoseUpdate → ViewerPoseStore
applied fl s none = s
applied fl s (some pose) = (apply_relative_pose fl (record { matrix = pose.matrix }) s).0

module _ (J : Type 0) ⦃json : Json J⦄ where
  unfoldable pub parse_pose_update_message : List ℕ → Option PoseUpdate
  unfolding read_matrix
  parse_pose_update_message payload = read_message {J = J} (json.parse payload)

  unfoldable pub on_message_string : FloatArith → List ℕ → ViewerPoseStore → ViewerPoseStore
  on_message_string fl payload s = applied fl s (parse_pose_update_message payload)
