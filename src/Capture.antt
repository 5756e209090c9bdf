-- ===== src/Capture.antt =====
-- src/capture: the camera side. The Azure Kinect SDK behind interfaces/K4aInterface.cpp is a library,
-- and enters as the interface K4aInterface over its own state W.
pub mod Config
pub mod Camera
pub mod Frame
use edge_vision.Prelude.{ℕ, ◌+◌, ℤ, Bool, true, false, List, [], ◌∷◌, Option, none, some}
use edge_vision.Model.Frame.{CameraIntrinsics}

-- k4a_image_format_t, as far as the code tells the formats apart.
pub data ImageFormat : Type 0 where
  color_bgra32 depth16 other_format : ImageFormat

-- What a k4a_image_t that is not null refers to: attributes that are fixed when it is made. The
-- pixels are read from the SDK's state.
pub record K4aImage : Type 0 where
  pub handle : ℕ
  pub format : ImageFormat
  pub width_pixels : ℤ
  pub height_pixels : ℤ
  pub stride_bytes : ℤ
  pub size : ℕ
  pub has_buffer : Bool

-- The part of k4a_calibration_t that the code reads.
pub record Calibration : Type 0 where
  pub color_intrinsics : CameraIntrinsics

pub data ColorResolution : Type 0 where
  off_resolution p720 p1080 p1440 p1536 p2160 p3072 : ColorResolution

pub data DepthMode : Type 0 where
  off_mode nfov_2x2binned nfov_unbinned wfov_2x2binned wfov_unbinned passive_ir : DepthMode

pub data FrameRate : Type 0 where
  rate5 rate15 rate30 : FrameRate

-- The fields of k4a_device_configuration_t that the code sets; the others keep the SDK's initial
-- values.
pub record DeviceConfiguration : Type 0 where
  pub color_format : ImageFormat
  pub color_resolution : ColorResolution
  pub depth_mode : DepthMode
  pub camera_fps : FrameRate
  pub synchronized_images_only : Bool

-- The SDK's functions. `none` is a result other than success or a null handle.
pub record K4aInterface (W : Type 0) : Type 0 where
  pub initial_configuration : DeviceConfiguration
  pub device_open : ℕ → W → Option ℕ × W
  pub device_start_cameras : ℕ → DeviceConfiguration → W → Bool × W
  pub device_stop_cameras : ℕ → W → W
  pub device_close : ℕ → W → W
  pub device_get_capture : ℕ → ℤ → W → (Bool × Option ℕ) × W
  pub device_get_calibration : ℕ → DepthMode → ColorResolution → W → Option Calibration × W
  pub capture_get_color_image : ℕ → W → Option K4aImage × W
  pub capture_get_depth_image : ℕ → W → Option K4aImage × W
  pub image_bytes : K4aImage → W → List ℕ
  pub image_create : ImageFormat → ℤ → ℤ → ℤ → W → Option K4aImage × W
  pub transformation_create : Calibration → W → Option ℕ × W
  pub transformation_depth_image_to_color_camera : ℕ → K4aImage → K4aImage → W → Bool × W
  pub image_release : ℕ → W → W
  pub capture_release : ℕ → W → W
  pub transformation_destroy : ℕ → W → W

-- The SDK's calls that take a resource or give it back.
pub data Call : Type 0 where
  opened : ℕ → Call
  started : ℕ → Call
  stopped : ℕ → Call
  closed : ℕ → Call
  acquired_image : ℕ → Call
  acquired_capture : ℕ → Call
  acquired_transformation : ℕ → Call
  released_image : ℕ → Call
  released_capture : ℕ → Call
  released_transformation : ℕ → Call

-- The SDK's state, with the calls made so far, the latest first. The calls are a record for the
-- theorems; no operation reads them.
pub record Machine (W : Type 0) : Type 0 where
  pub world : W
  pub calls : List Call

unfoldable pub logged {ℓ} : {W : Type 0} {R : Type ℓ} → Call → List Call → R × W → R × Machine W
logged call calls (r, w) = (r, record { world = w; calls = call ∷ calls })

unfoldable pub unlogged {ℓ} : {W : Type 0} {R : Type ℓ} → List Call → R × W → R × Machine W
unlogged calls (r, w) = (r, record { world = w; calls = calls })

unfoldable pub log : {W : Type 0} → Call → List Call → W → Machine W
log call calls w = record { world = w; calls = call ∷ calls }
