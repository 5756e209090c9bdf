-- ===== src/Capture/Camera.antt =====
-- src/capture/src/camera/CameraCapture.cpp. The device handle is `none` where the code has nullptr.
pub mod Protocol
use edge_vision.Prelude.{ℕ, ℤ, Bool, true, false, Option, none, some, if◌then◌else◌}
use edge_vision.Capture.{
  K4aInterface, DeviceConfiguration, Calibration, Machine, log, unlogged, logged, opened, started,
  stopped, closed, acquired_capture,
}

pub record CameraCapture : Type 0 where
  pub device : Option ℕ
  pub is_started : Bool
  pub config : DeviceConfiguration

module _ {W : Type 0} ⦃api : K4aInterface W⦄ where
  unfoldable pub make_camera : K4aInterface W → CameraCapture
  make_camera sdk = record { device = none; is_started = false; config = sdk.initial_configuration }

  abbrev opened_with : CameraCapture → Machine W → Option ℕ × W → (CameraCapture × Bool) × Machine W
  opened_with c m (none, w) = unlogged m.calls ((record c { device = none }, false), w)
  opened_with c m (some d, w) = logged (opened d) m.calls ((record c { device = some d }, true), w)

  unfoldable pub open_camera : ℕ → CameraCapture → Machine W → (CameraCapture × Bool) × Machine W
  unfolding logged unlogged
  open_camera index c m = elim (c.device) [
    | some d ↦ ((c, true), m)
    | none ↦ opened_with c m (api.device_open index m.world)
  ]

  abbrev started_with :
      CameraCapture
      → ℕ
      → DeviceConfiguration
      → Machine W
      → Bool × W
      → (CameraCapture × Bool) × Machine W
  started_with c d config m (false, w) = unlogged m.calls ((c, false), w)
  started_with c d config m (true, w) =
      logged (started d) m.calls ((record c { config = config; is_started = true }, true), w)

  unfoldable pub start :
      DeviceConfiguration → CameraCapture → Machine W → (CameraCapture × Bool) × Machine W
  unfolding logged unlogged
  start config c m = elim (c.device) [
    | none ↦ ((c, false), m)
    | some d ↦
        if c.is_started
        then ((c, true), m)
        else started_with c d config m (api.device_start_cameras d config m.world)
  ]

  unfoldable pub stop : CameraCapture → Machine W → CameraCapture × Machine W
  unfolding log
  stop c m = elim (c.device) [
    | none ↦ (c, m)
    | some d ↦
        if c.is_started
        then (
          record c { is_started = false },
          log (stopped d) m.calls (api.device_stop_cameras d m.world),
        )
        else (c, m)
  ]

  unfoldable pub close : CameraCapture → Machine W → CameraCapture × Machine W
  unfolding log
  close c m = elim (c.device) [
    | none ↦ (c, m)
    | some d ↦ (
      record c { device = none; is_started = false },
      log (closed d) m.calls (api.device_close d m.world),
    )
  ]

  -- The destructor.
  unfoldable pub destroy : CameraCapture → Machine W → CameraCapture × Machine W
  unfolding stop close
  destroy c m = let s = stop c m in close s.0 s.1

  abbrev captured_with : Machine W → (Bool × Option ℕ) × W → (Bool × Option ℕ) × Machine W
  captured_with m ((true, some h), w) = logged (acquired_capture h) m.calls ((true, some h), w)
  captured_with m ((true, none), w) = unlogged m.calls ((true, none), w)
  captured_with m ((false, h), w) = unlogged m.calls ((false, h), w)

  -- The result, and the handle that `outCapture` holds afterwards; it holds nullptr before.
  unfoldable pub capture : ℤ → CameraCapture → Machine W → (Bool × Option ℕ) × Machine W
  unfolding logged unlogged
  capture timeout_ms c m = elim (c.device) [
    | none ↦ ((false, none), m)
    | some d ↦
        if c.is_started
        then captured_with m (api.device_get_capture d timeout_ms m.world)
        else ((false, none), m)
  ]

  unfoldable pub get_calibration : CameraCapture → Machine W → Option Calibration × Machine W
  unfolding unlogged
  get_calibration c m = elim (c.device) [
    | none ↦ (none, m)
    | some d ↦
        unlogged m.calls
          (api.device_get_calibration d (c.config.depth_mode) (c.config.color_resolution) m.world)
  ]
