-- ===== src/Streaming/VideoPush/Sending.antt =====
-- When a round of pumpVideo in WebRtcServer.cpp pushes a frame, and which one.
use edge_vision.Prelude.{
  zero, suc, sym, ap, ◌∙◌, ◌++◌, ◌*◌, ◌%◌, ◌<◌, min, pos, negsuc, u64_mod, length, drop, ℕ, ℤ, Bool,
  true, false, ◌≡◌, ◌≢◌, Bool-cases, refl, inl, inr, arith, List, [], ◌∷◌, Option, none, some,
}
use edge_vision.Config.{ImageSize, size_eq, same_size}
use edge_vision.App.FrameDumper.{take}
use edge_vision.Model.Frame.{is_empty}
use edge_vision.Model.Viewer.{RenderOutput, has_rgb}
use edge_vision.Model.Viewer.OutputStore.{RenderOutputStore}
use edge_vision.Model.Viewer.OutputStore
use edge_vision.Streaming.WebRtcServer.{
  Session, pump_video, check_negotiation_watchdog, clear_negotiation_watchdog,
}
use edge_vision.Streaming.WebRtcServer.Negotiation.{SessionInv}
use edge_vision.Streaming.VideoPush.{
  copy_render_output_rgb, push_buffer, push_render_output, push_latest, pump_round,
}

take-drop : (n : ℕ) (xs : List ℕ) → xs ≡ take n xs ++ drop n xs
take-drop zero xs = refl
take-drop (suc n) [] = refl
take-drop (suc n) (x ∷ xs) = ap (λ ys. x ∷ ys) (take-drop n xs)

length-take : (n : ℕ) (xs : List ℕ) → length (take n xs) ≡ min n (length xs)
length-take zero xs = omega arith
length-take (suc n) [] = omega arith
length-take (suc n) (x ∷ xs) = omega (arith, length-take n xs)

-- The buffer is the start of the rendering's memory, three bytes for every pixel of a size that is not
-- empty, as far as the memory goes.
pub record IsWhole (output : RenderOutput) (buffer : List ℕ) : Type 0 where
  pub width : ℕ
  pub height : ℕ
  pub bytes : List ℕ
  pub rest : List ℕ
  pub size : output.image_size ≡ record { width = pos width; height = pos height }
  pub not_empty : (0 < width) × (0 < height)
  pub memory : output.rgb.bytes ≡ some bytes
  pub byte_count : output.rgb.byte_count ≡ width * height * 3 % u64_mod
  pub start : bytes ≡ buffer ++ rest
  pub as_long : length buffer ≡ min (width * height * 3 % u64_mod) (length bytes)

copied_bytes :
    (found : Option (List ℕ)) (count : ℕ) (owned : Bool) (w h : ℤ) (o : RenderOutput)
    (buffer : List ℕ)
    → let output : RenderOutput = record o {
      rgb = record { bytes = found; byte_count = count; owned = owned };
      image_size = record { width = w; height = h };
    } in
      copy_render_output_rgb output ≡ some buffer → IsWhole output buffer
unfolding copy_render_output_rgb has_rgb is_empty
copied_bytes none count owned w h o buffer e = ground (arith, e)
copied_bytes (some bytes) count owned (negsuc w) h o buffer e = ground (arith, e)
copied_bytes (some bytes) count owned (pos w) (negsuc h) o buffer e = ground (arith, e)
copied_bytes (some bytes) count owned (pos w) (pos h) o buffer e =
    let n : count ≡ w * h * 3 % u64_mod = ground (arith, e) in
    let same : take count bytes ≡ buffer = ground (arith, e) in
    record {
      width = w;
      height = h;
      bytes = bytes;
      rest = drop count bytes;
      size = refl;
      not_empty = (ground (arith, e), ground (arith, e));
      memory = refl;
      byte_count = n;
      start = take-drop count bytes ∙ ap (λ xs. xs ++ drop count bytes) same;
      as_long = ap length (sym same) ∙ length-take count bytes ∙ ap (λ k. min k (length bytes)) n;
    }

pub record Sends (size : ImageSize) (latest : Option RenderOutput) (buffer : List ℕ) : Type 0 where
  pub output : RenderOutput
  pub is_latest : latest ≡ some output
  pub fits : output.image_size ≡ size
  pub whole : IsWhole output buffer

push_buffer-same :
    (copied : Option (List ℕ)) (buffer : List ℕ)
    → push_buffer copied ≡ some buffer
    → copied ≡ some buffer
push_buffer-same none buffer e = e
push_buffer-same (some []) buffer e = ground (arith, e)
push_buffer-same (some (x ∷ xs)) buffer e = e

push_latest-Sends :
    (size : ImageSize) (source : Option ℕ) (latest : Option RenderOutput) (warned : Bool)
    (buffer : List ℕ)
    → (push_latest size source latest warned).1 ≡ some buffer
    → (source ≢ none) × Sends size latest buffer
unfolding push_render_output
push_latest-Sends size none latest warned buffer e = ground (arith, e)
push_latest-Sends size (some source) none warned buffer e = ground (arith, e)
push_latest-Sends size (some source) (some output) warned buffer e =
    elim (Bool-cases (size_eq output.image_size size)) [
      | inr n ↦ ground (arith, e, n)
      | inl y ↦ (
        ground arith,
        record {
          output = output;
          is_latest = refl;
          fits = same_size output.image_size size y;
          whole =
              copied_bytes output.rgb.bytes output.rgb.byte_count output.rgb.owned
                output.image_size.width output.image_size.height output buffer
                (push_buffer-same (copy_render_output_rgb output) buffer (ground (arith, e, y)));
        },
      )
    ]

source_given :
    (now : ℤ) (s : Session)
    → (pump_video now s).1.0 ≢ none
    → (s.media_pipeline_started ≡ true)
      × (s.video_push_enabled ≡ true)
      × ((pump_video now s).1.1 ≡ false)
unfolding pump_video check_negotiation_watchdog clear_negotiation_watchdog
source_given now s e = ground (arith, e)

-- When a round of the pump pushes a buffer, in a session that satisfies the invariant: the answer of the
-- client was applied, the connection stands and the negotiation has not timed out; and the latest
-- rendering has the configured size, which is not empty, states three bytes for each of its
-- pixels, and the buffer is that many bytes from the start of its memory, or all if there are fewer.
pub pump_round-Sends :
    (size : ImageSize) (now : ℤ) (outputs : RenderOutputStore) (s : Session) (warned : Bool)
    (buffer : List ℕ)
    → SessionInv s
    → (pump_round size now outputs s warned).pushed ≡ some buffer
    → (s.remote_description_applied ≡ true)
      × (s.video_push_enabled ≡ true)
      × ((pump_round size now outputs s warned).timed_out ≡ false)
      × Sends size (OutputStore.latest outputs) buffer
unfolding pump_round
pump_round-Sends size now outputs s warned buffer v e =
    let sent =
      push_latest-Sends size (pump_video now s).1.0 (OutputStore.latest outputs) warned buffer e in
    let (started, enabled, in_time) = source_given now s sent.0 in
    (
      elim (v.media) [ inl idle ↦ ground (arith, idle, started) | inr applied ↦ applied ],
      enabled,
      in_time,
      sent.1,
    )
