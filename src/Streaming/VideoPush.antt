-- ===== src/Streaming/VideoPush.antt =====
-- src/streaming/webrtc/src/WebRtcServer.cpp: the push of the latest rendering to the video source. What
-- GStreamer does with a buffer is left out, a buffer is its bytes.
pub mod Sending
use edge_vision.Prelude.{
  ℕ, ℤ, pos, Bool, true, false, not, ◌&&◌, ◌||◌, List, [], ◌∷◌, Option, none, some, ◌==◌, leb_ℤ,
  if◌then◌else◌,
}
use edge_vision.Config.{ImageSize, size_eq}
use edge_vision.Model.Viewer.{RenderOutput, has_rgb}
use edge_vision.Model.Viewer.OutputStore.{RenderOutputStore}
use edge_vision.Model.Viewer.OutputStore
use edge_vision.App.FrameDumper.{expected_byte_count, bytes_of}
use edge_vision.Streaming.WebRtcServer.{Session, pump_video}

unfoldable pub copy_render_output_rgb : RenderOutput → Option (List ℕ)
copy_render_output_rgb output =
    if not (has_rgb output)
      || (leb_ℤ output.image_size.width (pos 0) || leb_ℤ output.image_size.height (pos 0))
    then none
    else if not (output.rgb.byte_count == expected_byte_count output.image_size)
    then none
    else some (bytes_of output.rgb output.rgb.byte_count)

abbrev pub push_buffer : Option (List ℕ) → Option (List ℕ)
push_buffer none = none
push_buffer (some []) = none
push_buffer (some (x ∷ xs)) = some (x ∷ xs)

-- Whether the mismatch was warned of, before and after, and what is pushed.
unfoldable pub push_render_output : ImageSize → RenderOutput → Bool → Bool × Option (List ℕ)
push_render_output size output warned =
    if not (size_eq output.image_size size)
    then (true, none)
    else (warned, push_buffer (copy_render_output_rgb output))

abbrev pub push_latest : ImageSize → Option ℕ → Option RenderOutput → Bool → Bool × Option (List ℕ)
push_latest size none output warned = (warned, none)
push_latest size (some source) none warned = (warned, none)
push_latest size (some source) (some output) warned = push_render_output size output warned

-- What a round of pumpVideo leaves: the session, whether the client is to be closed, whether the
-- mismatch was warned of, and the buffer that was pushed.
pub record Pumped : Type 0 where
  pub session : Session
  pub timed_out : Bool
  pub warned : Bool
  pub pushed : Option (List ℕ)

unfoldable pub pump_round : ImageSize → ℤ → RenderOutputStore → Session → Bool → Pumped
pump_round size now outputs s warned =
    let (t, (source, timed_out)) = pump_video now s in
    let (still_warned, buffer) = push_latest size source (OutputStore.latest outputs) warned in
    record { session = t; timed_out = timed_out; warned = still_warned; pushed = buffer }
