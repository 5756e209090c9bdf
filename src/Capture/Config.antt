-- ===== src/Capture/Config.antt =====
-- src/capture/src/config/K4aConfig.cpp.
use edge_vision.Prelude.{ℤ, pos, ◌≡◌, ◌↔◌, Option, none, some, arith, if◌then◌else◌}
use mathlib.Core.Option.{map}
use edge_vision.Config.{
  ImageSize, size_eq, CaptureCameraConfig, CaptureColorFormat, CaptureDepthMode, CaptureFrameRate,
}
use edge_vision.Capture.{
  ImageFormat, color_bgra32, ColorResolution, p720, p1080, p1440, p1536, p2160, p3072,
  off_resolution, DepthMode, FrameRate, rate5, rate15, rate30, DeviceConfiguration,
}

unfoldable pub color_format : CaptureColorFormat → ImageFormat
color_format CaptureColorFormat.bgra32 = color_bgra32

abbrev sized : ℤ → ℤ → ImageSize
sized width height = record { width = width; height = height }

unfoldable pub color_resolution : ImageSize → Option ColorResolution
unfolding size_eq
color_resolution size =
    if size_eq size (sized (pos 1280) (pos 720))
    then some p720
    else if size_eq size (sized (pos 1920) (pos 1080))
    then some p1080
    else if size_eq size (sized (pos 2560) (pos 1440))
    then some p1440
    else if size_eq size (sized (pos 2048) (pos 1536))
    then some p1536
    else if size_eq size (sized (pos 3840) (pos 2160))
    then some p2160
    else if size_eq size (sized (pos 4096) (pos 3072))
    then some p3072
    else none

unfoldable pub depth_mode : CaptureDepthMode → DepthMode
depth_mode CaptureDepthMode.nfov_2x2_binned = DepthMode.nfov_2x2binned
depth_mode CaptureDepthMode.nfov_unbinned = DepthMode.nfov_unbinned
depth_mode CaptureDepthMode.wfov_2x2_binned = DepthMode.wfov_2x2binned
depth_mode CaptureDepthMode.wfov_unbinned = DepthMode.wfov_unbinned
depth_mode CaptureDepthMode.passive_ir = DepthMode.passive_ir

unfoldable pub frame_rate : CaptureFrameRate → FrameRate
frame_rate CaptureFrameRate.fps5 = rate5
frame_rate CaptureFrameRate.fps15 = rate15
frame_rate CaptureFrameRate.fps30 = rate30

-- makeK4aDeviceConfig.
unfoldable pub make_k4a_device_config : CaptureCameraConfig → ImageSize → Option DeviceConfiguration
unfolding color_resolution color_format depth_mode frame_rate
make_k4a_device_config config image_size = elim (color_resolution image_size) [
  | none ↦ none
  | some resolution ↦ some (record {
    color_format = color_format config.color_format;
    color_resolution = resolution;
    depth_mode = depth_mode config.depth_mode;
    camera_fps = frame_rate config.frame_rate;
    synchronized_images_only = config.synchronized_images_only;
  })
]

-- The image size that a resolution of the SDK stands for.
abbrev pub resolution_size : ColorResolution → Option ImageSize
resolution_size off_resolution = none
resolution_size p720 = some (sized (pos 1280) (pos 720))
resolution_size p1080 = some (sized (pos 1920) (pos 1080))
resolution_size p1440 = some (sized (pos 2560) (pos 1440))
resolution_size p1536 = some (sized (pos 2048) (pos 1536))
resolution_size p2160 = some (sized (pos 3840) (pos 2160))
resolution_size p3072 = some (sized (pos 4096) (pos 3072))

-- A device configuration is made exactly when the image size is that of one of the SDK's
-- resolutions, and then it asks for this resolution.
pub configured_resolution :
    (config : CaptureCameraConfig) (size : ImageSize) (r : ColorResolution)
    → resolution_size r ≡ some size
      ↔ map (λ d. DeviceConfiguration.color_resolution d) (make_k4a_device_config config size)
        ≡ some r
unfolding make_k4a_device_config size_eq color_resolution
configured_resolution config size off_resolution = ground arith
configured_resolution config size p720 = ground arith
configured_resolution config size p1080 = ground arith
configured_resolution config size p1440 = ground arith
configured_resolution config size p1536 = ground arith
configured_resolution config size p2160 = ground arith
configured_resolution config size p3072 = ground arith
