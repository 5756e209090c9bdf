-- ===== src/Capture/Camera/Protocol.antt =====
-- The order in which CameraCapture.cpp calls the SDK.
use edge_vision.Prelude.{
  ◌+◌, ℤ, refl, subst, inl, inr, Option-cases, ℕ, ◌≡◌, arith, Bool, true, false, List, [], ◌∷◌,
  Option, none, some, is_some, ◌||◌, not, ◌==◌, if◌then◌else◌,
}
use edge_vision.Capture.{
  K4aInterface, DeviceConfiguration, Machine, Call, opened, started, stopped, closed,
  acquired_capture, acquired_image, acquired_transformation, released_image, released_capture,
  released_transformation, logged, unlogged, log,
}
use edge_vision.Capture.Camera.{
  CameraCapture, open_camera, start, stop, close, destroy, capture, get_calibration, make_camera,
}

-- Where the device stands by the calls made for it: closed, open, or streaming.
pub data Phase : Type 0 where
  idle : Phase
  open_device : ℕ → Phase
  streaming : ℕ → Phase

-- The device calls that the SDK allows in each phase: one device at a time, cameras started only
-- on an open device that is not streaming, stopped only while it streams, and no call on a handle
-- other than the open one. A capture is taken only while the device streams; images, transformations
-- and what is given back are no matter of the device.
abbrev pub advance : Phase → Call → Option Phase
advance idle (opened d) = some (open_device d)
advance (open_device d) (started e) = if d == e then some (streaming d) else none
advance (open_device d) (closed e) = if d == e then some idle else none
advance (streaming d) (stopped e) = if d == e then some (open_device d) else none
advance (streaming d) (closed e) = if d == e then some idle else none
advance (streaming d) (acquired_capture h) = some (streaming d)
advance phase (acquired_image h) = some phase
advance phase (acquired_transformation h) = some phase
advance phase (released_image h) = some phase
advance phase (released_capture h) = some phase
advance phase (released_transformation h) = some phase
advance phase call = none

abbrev and_then : Option Phase → Call → Option Phase
and_then none call = none
and_then (some phase) call = advance phase call

-- The phase after calls that stand with the latest first; `none` if one was not allowed.
unfoldable pub phase_after : List Call → Option Phase
phase_after [] = some idle
phase_after (call ∷ calls) = and_then (phase_after calls) call

-- How often the device was opened, and how often closed.
abbrev pub opens_of : ℕ → List Call → ℕ
opens_of d [] = 0
opens_of d (opened e ∷ calls) = (if d == e then 1 else 0) + opens_of d calls
opens_of d (call ∷ calls) = opens_of d calls

abbrev pub closes_of : ℕ → List Call → ℕ
closes_of d [] = 0
closes_of d (closed e ∷ calls) = (if d == e then 1 else 0) + closes_of d calls
closes_of d (call ∷ calls) = closes_of d calls

abbrev holds : Phase → ℕ → ℕ
holds idle d = 0
holds (open_device e) d = if d == e then 1 else 0
holds (streaming e) d = if d == e then 1 else 0

balanced_step :
    (d : ℕ) (calls : List Call) (p q : Phase) (call : Call)
    → opens_of d calls ≡ closes_of d calls + holds p d
    → advance p call ≡ some q
    → opens_of d (call ∷ calls) ≡ closes_of d (call ∷ calls) + holds q d
balanced_step d calls p q call h e = ground (arith, h, e)

-- A device that was opened is closed later, or is the one in hand.
balanced :
    (d : ℕ) (calls : List Call) (q : Phase)
    → phase_after calls ≡ some q
    → opens_of d calls ≡ closes_of d calls + holds q d
unfolding phase_after
balanced d [] q e = ground (arith, e)
balanced d (call ∷ calls) q e = elim (Option-cases (phase_after calls)) [
  | inl f ↦ ground (arith, e, f)
  | inr (p, f) ↦
      balanced_step d calls p q call (balanced d calls p f)
        (subst (λ o. and_then o call ≡ some q) f e)
]

balanced_idle :
    (d : ℕ) (calls : List Call)
    → phase_after calls ≡ some idle
    → opens_of d calls ≡ closes_of d calls
balanced_idle d calls e = omega (arith, balanced d calls idle e)

abbrev pub phase_of : Option ℕ → Bool → Phase
phase_of none is_started = idle
phase_of (some d) false = open_device d
phase_of (some d) true = streaming d

-- The calls so far are allowed, and the camera's fields say where they led.
pub record InPhase {W : Type 0} (c : CameraCapture) (m : Machine W) : Type 0 where
  pub allowed : phase_after m.calls ≡ some (phase_of c.device c.is_started)
  pub has_device : (is_some c.device || not c.is_started) ≡ true

pub data Event : Type 0 where
  opens : ℕ → Event
  starts : DeviceConfiguration → Event
  stops closes destroys : Event
  captures : ℤ → Event
  calibrates : Event

module _ {W : Type 0} ⦃api : K4aInterface W⦄ where
  abbrev pub without_result : (CameraCapture × Bool) × Machine W → CameraCapture × Machine W
  without_result r = (r.0.0, r.1)

  unfoldable pub step : Event → CameraCapture × Machine W → CameraCapture × Machine W
  unfolding open_camera start stop close destroy capture get_calibration
  step (opens index) (c, m) = without_result (open_camera index c m)
  step (starts config) (c, m) = without_result (start config c m)
  step stops (c, m) = stop c m
  step closes (c, m) = close c m
  step destroys (c, m) = destroy c m
  step (captures timeout_ms) (c, m) = (c, (capture timeout_ms c m).1)
  step calibrates (c, m) = (c, (get_calibration c m).1)

  unfoldable pub run : List Event → CameraCapture × Machine W → CameraCapture × Machine W
  run [] s = s
  run (e ∷ es) s = run es (step e s)

  open_camera-InPhase :
      (index : ℕ) (c : CameraCapture) (m : Machine W)
      → InPhase c m
      → InPhase (open_camera index c m).0.0 (open_camera index c m).1
  unfolding open_camera phase_after logged unlogged
  open_camera-InPhase index c m h = ground arith

  start-InPhase :
      (config : DeviceConfiguration) (c : CameraCapture) (m : Machine W)
      → InPhase c m
      → InPhase (start config c m).0.0 (start config c m).1
  unfolding start phase_after logged unlogged
  start-InPhase config c m h = ground arith

  stop-InPhase :
      (c : CameraCapture) (m : Machine W) → InPhase c m → InPhase (stop c m).0 (stop c m).1
  unfolding stop phase_after log
  stop-InPhase c m h = ground arith

  close-InPhase :
      (c : CameraCapture) (m : Machine W) → InPhase c m → InPhase (close c m).0 (close c m).1
  unfolding close phase_after log
  close-InPhase c m h = ground arith

  capture-InPhase :
      (timeout_ms : ℤ) (c : CameraCapture) (m : Machine W)
      → InPhase c m
      → InPhase c (capture timeout_ms c m).1
  unfolding capture phase_after logged unlogged
  capture-InPhase timeout_ms c m h = ground arith

  get_calibration-InPhase :
      (c : CameraCapture) (m : Machine W) → InPhase c m → InPhase c (get_calibration c m).1
  unfolding get_calibration unlogged
  get_calibration-InPhase c m h = ground arith

  step-InPhase :
      (e : Event) (c : CameraCapture) (m : Machine W)
      → InPhase c m
      → InPhase (step e (c, m)).0 (step e (c, m)).1
  unfolding step destroy
  step-InPhase (opens index) c m h = open_camera-InPhase index c m h
  step-InPhase (starts config) c m h = start-InPhase config c m h
  step-InPhase stops c m h = stop-InPhase c m h
  step-InPhase closes c m h = close-InPhase c m h
  step-InPhase (captures timeout_ms) c m h = capture-InPhase timeout_ms c m h
  step-InPhase calibrates c m h = get_calibration-InPhase c m h
  step-InPhase destroys c m h = close-InPhase (stop c m).0 (stop c m).1 (stop-InPhase c m h)

  closed_idle :
      (c : CameraCapture) (m : Machine W)
      → InPhase c m
      → phase_after (close c m).1.calls ≡ some idle
  unfolding close phase_after log
  closed_idle c m h = ground arith

  new-InPhase : (w : W) → InPhase (make_camera api) (record { world = w; calls = [] })
  unfolding make_camera phase_after
  new-InPhase w = record { allowed = refl; has_device = refl }

  pub run-InPhase :
      (events : List Event) (c : CameraCapture) (m : Machine W)
      → InPhase c m
      → InPhase (run events (c, m)).0 (run events (c, m)).1
  unfolding run
  run-InPhase [] c m h = h
  run-InPhase (e ∷ es) c m h =
      run-InPhase es (step e (c, m)).0 (step e (c, m)).1 (step-InPhase e c m h)

  closed_without_device : (c : CameraCapture) (m : Machine W) → ((close c m).0.device ≡ none)
  unfolding close
  closed_without_device c m = ground arith

  -- Whatever was done with a new camera, in any order, captures and refused calls included: after
  -- its destructor it holds no device, every call for it was allowed, and each device was closed as
  -- often as it was opened.
  pub destroy_closes :
      (events : List Event) (w : W)
      → let r = run events (make_camera api, record { world = w; calls = [] }) in
        let t = destroy r.0 r.1 in
        (t.0.device ≡ none)
        × (phase_after t.1.calls ≡ some idle)
        × ((d : ℕ) → opens_of d t.1.calls ≡ closes_of d t.1.calls)
  unfolding destroy
  destroy_closes events w =
      let m : Machine W = record { world = w; calls = [] } in
      let r = run events (make_camera api, m) in
      let s = stop r.0 r.1 in
      let h = stop-InPhase r.0 r.1 (run-InPhase events (make_camera api) m (new-InPhase w)) in
      let e = closed_idle s.0 s.1 h in
      (closed_without_device s.0 s.1, e, λ d. balanced_idle d (close s.0 s.1).1.calls e)
