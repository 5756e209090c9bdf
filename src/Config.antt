-- ===== src/Config.antt =====
-- src/config/include/config/types: the settings that the parts of the program are built from.
pub mod Parser
use edge_vision.Prelude.{
  ◌≡◌, arith, same_integer, ℕ, ℤ, pos, Bool, true, false, ◌&&◌, String, List, [], ◌∷◌, eq_ℤ,
}

pub record ImageSize : Type 0 where
  pub width : ℤ
  pub height : ℤ

-- operator== on ImageSize.
unfoldable pub size_eq : ImageSize → ImageSize → Bool
size_eq a b = eq_ℤ a.width b.width && eq_ℤ a.height b.height

pub same_size : (a b : ImageSize) → size_eq a b ≡ true → a ≡ b
unfolding size_eq
same_size a b e = ground (arith, same_integer a.width b.width, same_integer a.height b.height, e)

pub data SceneReadPolicy : Type 0 where
  greedy balanced : SceneReadPolicy

pub data ViewerLoopPolicy : Type 0 where
  event hot_loop : ViewerLoopPolicy

pub data CaptureColorFormat : Type 0 where
  bgra32 : CaptureColorFormat

pub data CaptureDepthMode : Type 0 where
  nfov_2x2_binned nfov_unbinned wfov_2x2_binned wfov_unbinned passive_ir : CaptureDepthMode

pub data CaptureFrameRate : Type 0 where
  fps5 fps15 fps30 : CaptureFrameRate

pub record CaptureCameraConfig : Type 0 where
  pub device_index : ℕ
  pub color_format : CaptureColorFormat
  pub depth_mode : CaptureDepthMode
  pub frame_rate : CaptureFrameRate
  pub synchronized_images_only : Bool

pub record CaptureRuntimeConfig : Type 0 where
  pub capture_timeout_ms : ℤ
  pub failure_backoff_ms : ℤ

pub record CaptureConfig : Type 0 where
  pub enabled : Bool
  pub camera : CaptureCameraConfig
  pub runtime : CaptureRuntimeConfig

pub record BuilderRuntimeConfig : Type 0 where
  pub ready_frame_timeout_ms : ℤ
  pub tracker_config : String

pub record SceneConfig : Type 0 where
  pub read_policy : SceneReadPolicy

pub record ViewerRuntimeConfig : Type 0 where
  pub loop_policy : ViewerLoopPolicy
  pub loop_period_ms : ℤ
  pub output_history_capacity : ℕ

pub record ViewerDumpConfig : Type 0 where
  pub enabled : Bool
  pub max_frames : ℕ

pub record AppDebugConfig : Type 0 where
  pub viewer_dump : ViewerDumpConfig

pub record TcpStreamingConfig : Type 0 where
  pub enabled : Bool
  pub port : ℤ

pub record WebRtcStreamingConfig : Type 0 where
  pub enabled : Bool
  pub signalling_host : String
  pub signalling_port : ℕ
  pub fps : ℕ
  pub bitrate_bps : ℕ
  pub stun_server : String
  pub pump_core_mask : List ℤ

pub record StreamingConfig : Type 0 where
  pub tcp : TcpStreamingConfig
  pub webrtc : WebRtcStreamingConfig

pub record AppConfig : Type 0 where
  pub image_size : ImageSize
  pub streaming : StreamingConfig
  pub capture : CaptureConfig
  pub builder : BuilderRuntimeConfig
  pub scene : SceneConfig
  pub viewer : ViewerRuntimeConfig
  pub debug : AppDebugConfig

-- AppConfig{}, with the member initialisers of every part; 1000 / 20, 1000 / 60 and 1000 / 30 are
-- integer divisions.
abbrev pub default_app_config : AppConfig
default_app_config = record {
  image_size = record { width = pos 1280; height = pos 720 };
  streaming = record {
    tcp = record { enabled = false; port = pos 6688 };
    webrtc = record {
      enabled = true;
      signalling_host = "0.0.0.0";
      signalling_port = 6689;
      fps = 30;
      bitrate_bps = 1500000;
      stun_server = "";
      pump_core_mask = pos 4 ∷ pos 5 ∷ [];
    };
  };
  capture = record {
    enabled = true;
    camera = record {
      device_index = 0;
      color_format = bgra32;
      depth_mode = nfov_unbinned;
      frame_rate = fps30;
      synchronized_images_only = true;
    };
    runtime = record { capture_timeout_ms = pos 1000; failure_backoff_ms = pos 16 };
  };
  builder = record { ready_frame_timeout_ms = pos 50; tracker_config = "" };
  scene = record { read_policy = greedy };
  viewer = record { loop_policy = event; loop_period_ms = pos 33; output_history_capacity = 8 };
  debug = record { viewer_dump = record { enabled = false; max_frames = 1 } };
}
