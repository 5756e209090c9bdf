-- ===== src/Witnesses.antt =====
-- Small frames, buffers, cameras and scenes on which the theorems are applied.
mod Frames
mod Scenes
mod Captures
mod Runners
mod Settings
mod Viewers
mod Apps
mod Streams
use edge_vision.Prelude.{
  ℕ, zero, suc, ◌+◌, ◌*◌, ap, ◌∙◌, to_u64, ℤ, pos, negsuc, Bool, true, false, ◌++◌, ◌≡◌, ◌≢◌, ◌≤◌,
  ◌<◌, refl, arith, List, [], ◌∷◌, Option, none, some, length, ltb, if◌then◌else◌,
}
use edge_vision.Model.Frame.{Frame, FrameImage, CameraIntrinsics}
use edge_vision.Model.Frame.ReadyQueue.{RingBuffer}
use edge_vision.Model.Frame.Store.{FrameStoreConfig}
use edge_vision.Config.{ImageSize}
use edge_vision.Model.Scene.{Pixel, Pose4f}
use edge_vision.Model.Viewer.{ViewerPose}
use edge_vision.Viewer.{Visualisation}
use edge_vision.App.{FileSystem}
use edge_vision.Builder.{InfiniTam}
use edge_vision.Capture.{
  K4aInterface, K4aImage, ImageFormat, DeviceConfiguration, color_bgra32, depth16, p720, off_mode,
  rate30,
}

-- The buffer as a list.
pub record Ring : Type 0 where
  pub items : List Frame
  pub room : ℕ

abbrev enqueue : Ring → Frame → Option Ring
enqueue b f =
    if ltb (length b.items) b.room then some (record b { items = b.items ++ f ∷ [] }) else none

abbrev dequeue_from : ℕ → List Frame → Option (Frame × Ring)
dequeue_from room [] = none
dequeue_from room (f ∷ fs) = some (f, record { items = fs; room = room })

pub dequeued_front :
    (room : ℕ) (fs : List Frame) {f : Frame} {b : Ring}
    → dequeue_from room fs ≡ some (f, b)
    → (fs ≡ f ∷ b.items) × (b.room ≡ room)
dequeued_front room [] e = ground arith
dequeued_front room (g ∷ fs) e = ground arith

pub nothing_left : (room : ℕ) (fs : List Frame) → dequeue_from room fs ≡ none → fs ≡ []
nothing_left room [] e = refl
nothing_left room (g ∷ fs) e = ground arith

pub enqueued_last :
    (b : Ring) (f : Frame) {b' : Ring}
    → enqueue b f ≡ some b'
    → (b'.items ≡ b.items ++ f ∷ []) × (b'.room ≡ b.room)
enqueued_last b f e = ground arith

pub room_used : (b : Ring) (f : Frame) → length b.items < b.room → enqueue b f ≢ none
room_used b f h e = ground arith

pub refused : (b : Ring) (f : Frame) → b.room ≤ length b.items → enqueue b f ≡ none
refused b f h = ground arith

abbrev pub ring : RingBuffer Ring
ring = record {
  contents = λ b. b.items;
  capacity = λ b. b.room;
  make = λ n. record { items = []; room = n };
  try_enqueue = enqueue;
  try_dequeue = λ b. dequeue_from b.room b.items;
  wait_dequeue = λ b. dequeue_from b.room b.items;
  wait_dequeue_timed = λ timeout b. dequeue_from b.room b.items;
  size_approx = λ b. length b.items;
  contents-make = λ n. refl;
  capacity-make = λ n. refl;
  enqueued = λ b f e. enqueued_last b f e;
  has_room = λ b f h e. room_used b f h e;
  is_full = λ b f h. refused b f h;
  dequeued = λ b e. dequeued_front b.room b.items e;
  dequeue_empty = λ b e. nothing_left b.room b.items e;
  waited = λ b e. dequeued_front b.room b.items e;
  waited_timed = λ timeout b e. dequeued_front b.room b.items e;
}

abbrev pub image : ℕ → FrameImage
image bytes_per_row = record {
  size = record { width = pos 2; height = pos 1 };
  stride_bytes = pos bytes_per_row;
  buffer = record {
    bytes = some (1 ∷ 2 ∷ 3 ∷ 4 ∷ 5 ∷ 6 ∷ 7 ∷ 8 ∷ []);
    byte_count = 8;
    owned = true;
  };
}

-- The focal lengths are 1.0f.
abbrev pub unit_intrinsics : CameraIntrinsics
unit_intrinsics = record { fx = 1065353216; fy = 1065353216; cx = 0; cy = 0 }

abbrev pub frame : ℕ → Frame
frame n = record {
  frame_id = n;
  timestamp = record { ticks = pos n };
  rgb = image 8;
  depth = image 4;
  intrinsics = unit_intrinsics;
}

abbrev pub two_frames : FrameStoreConfig
two_frames = record { max_stored_frames = 2; max_ready_frames = 2 }

abbrev zeros : Pose4f
zeros = record { matrix = [] }

-- An InfiniTAM whose state counts the integrated frames, and whose tracker never fails.
abbrev pub counting : InfiniTam ℕ
counting = record {
  make_view = λ f n. n;
  fill_view = λ colours depths n. n;
  metres = λ d. d;
  make_engines = λ resets f n. n;
  track = λ n. (true, n);
  process_frame = λ n. n + 1;
  prepare = λ n. n;
  current_pose = λ n. zeros;
}

abbrev pub sdk_image : ℕ → ImageFormat → ℕ → K4aImage
sdk_image handle format bytes_per_row = record {
  handle = handle;
  format = format;
  width_pixels = pos 2;
  height_pixels = pos 1;
  stride_bytes = pos bytes_per_row;
  size = 8;
  has_buffer = true;
}

abbrev pub configuration : DeviceConfiguration
configuration = record {
  color_format = color_bgra32;
  color_resolution = p720;
  depth_mode = off_mode;
  camera_fps = rate30;
  synchronized_images_only = true;
}

-- A camera that always delivers; its state counts the calls that take something.
abbrev pub sdk : K4aInterface ℕ
sdk = record {
  initial_configuration = configuration;
  device_open = λ i n. (some 7, suc n);
  device_start_cameras = λ d c n. (true, n);
  device_stop_cameras = λ d n. n;
  device_close = λ d n. n;
  device_get_capture = λ d t n. ((true, some n), suc n);
  device_get_calibration = λ d m r n. (some (record { color_intrinsics = unit_intrinsics }), n);
  capture_get_color_image = λ h n. (some (sdk_image n color_bgra32 8), suc n);
  capture_get_depth_image = λ h n. (some (sdk_image n depth16 4), suc n);
  image_bytes = λ i n. 1 ∷ 2 ∷ 3 ∷ 4 ∷ 5 ∷ 6 ∷ 7 ∷ 8 ∷ [];
  image_create = λ f w h s n. (some (sdk_image n depth16 4), suc n);
  transformation_create = λ c n. (some n, suc n);
  transformation_depth_image_to_color_camera = λ t d i n. (true, n);
  image_release = λ h n. n;
  capture_release = λ h n. n;
  transformation_destroy = λ h n. n;
}

-- An engine whose state is the size of the output image, which is black.
unfoldable pub blacks : ℕ → List Pixel
blacks zero = []
blacks (suc n) = record { r = 0; g = 0; b = 0; a = 0 } ∷ blacks n

pub length-blacks : (n : ℕ) → length (blacks n) ≡ n
unfolding blacks
length-blacks zero = refl
length-blacks (suc n) = ap suc (length-blacks n)

abbrev pub black_engine : Visualisation ℕ ImageSize
black_engine = record {
  make_engine = λ v. v;
  make_render_state = λ scene size v. v;
  make_output_image = λ size v. size;
  find_visible_blocks = λ scene pose i v. v;
  create_expected_depths = λ scene pose i v. v;
  render_image = λ scene pose i v. v;
  copy_to_host = λ v. v;
  image_size = λ v. v;
  pixels = λ v. blacks (to_u64 v.width * to_u64 v.height);
  made_size = λ size v. refl;
  visible_size = λ scene pose i v. refl;
  expected_size = λ scene pose i v. refl;
  rendered_size = λ scene pose i v. refl;
  copied_size = λ v. refl;
  pixels_of_size = λ width height v e.
      ap (λ s. length (blacks (to_u64 s.width * to_u64 s.height))) e
      ∙ length-blacks (width * height);
}

abbrev pub small : ImageSize
small = record { width = pos 2; height = pos 1 }

-- A pose with every entry zero, as renderPose does not look at it.
abbrev pub pose_of : ℕ → ViewerPose
pose_of n = record {
  pose = zeros;
  intrinsics = unit_intrinsics;
  image_size = small;
  generation = n;
}

-- A disk that takes everything and keeps nothing.
abbrev pub taking : FileSystem ℕ
taking = record {
  create_directories = λ directory n. (true, n);
  open_truncated = λ directory name n. (true, n);
  write = λ bytes n. (true, n + 1);
}
