-- ===== src/Witnesses/Streams.antt =====
-- The streaming theorems on a JSON of plain texts and a socket of a few bytes.
use edge_vision.Prelude.{
  refl, inl, inr, ℕ, zero, suc, ◌++◌, ◌≤◌, length, pos, ◌<◌, ◌≡◌, arith, true, false, String, List,
  [], ◌∷◌, Option, none, some, All,
}
use edge_vision.Model.Scene.Shared.{ok}
use edge_vision.Model.Viewer.PoseStore.{entry}
use edge_vision.Streaming.{Json, Socket, FloatMath}
use edge_vision.Streaming.Signalling.{make_handler}
use edge_vision.Streaming.Signalling.Addressing.{
  Event, Fits, run, run-Fits, starts, opens, performs, receives, loses,
}
use edge_vision.Config.{ImageSize, size_eq}
use edge_vision.Model.Frame.{is_empty}
use edge_vision.Model.Viewer.{RenderOutput, has_rgb}
use edge_vision.Model.Viewer.OutputStore.{RenderOutputStore}
use edge_vision.Model.Viewer.OutputStore
use edge_vision.Streaming.VideoPush.{copy_render_output_rgb, push_render_output, pump_round}
use edge_vision.Streaming.VideoPush.Sending.{Sends, pump_round-Sends}
use edge_vision.Streaming.WebRtcServer.{
  Session, Setup, IceCandidate, no_session, pump_video, check_negotiation_watchdog,
  clear_negotiation_watchdog,
}
use edge_vision.Streaming.WebRtcServer.Negotiation
use edge_vision.Streaming.IceFilter.{
  DirectIpv4Link, candidate_prefix, filter_remote_answer_sdp, filter_lines, get_lines,
  strip_line_end, write_line, allow_remote_candidate, direct_candidate_drop_reason,
}
use edge_vision.Streaming.IceFilter.Answers.{
  answer_lines, refuses, kept, filter_remote_answer_sdp-lines,
}
use edge_vision.Streaming.WebRtcServer.Negotiation.{SessionInv, run-SessionInv}
use edge_vision.Streaming.RenderServer.{read_exact, convert_pose}
use edge_vision.Streaming.RenderServer.Reading.{Reads, read_exact-Reads}
use edge_vision.Streaming.RenderServer.Poses.{converted_entry, convert_pose-entry}

-- A JSON whose every value is an object with the type of an answer.
abbrev answers : Json String
answers = record {
  parse = λ text. some "answer";
  text_value = λ key default j. ok j;
  contains = λ key j. true;
  at = λ key j. ok j;
  get_float = λ j. ok 0;
  get_bool = λ j. ok true;
  is_array = λ j. false;
  elements = λ j. [];
}

abbrev meeting : List Event
meeting = starts ∷ opens 1 ∷ performs ∷ opens 2 ∷ receives 1 [] ∷ receives 2 [] ∷ loses 2 ∷ []

run-Fits_example : All Fits (run ⦃json = answers⦄ meeting make_handler)
run-Fits_example = run-Fits String ⦃json = answers⦄ meeting make_handler

abbrev first_byte : ℕ → List ℕ → Option (List ℕ) × List ℕ
first_byte n [] = (none, [])
first_byte zero (b ∷ bs) = (none, b ∷ bs)
first_byte (suc n) (b ∷ bs) = (some (b ∷ []), bs)

first_byte_next :
    (n : ℕ) (k : List ℕ) {bytes k' : List ℕ}
    → first_byte n k ≡ (some bytes, k')
    → (k ≡ bytes ++ k') × (0 < length bytes) × (length bytes ≤ n)
first_byte_next n [] e = ground (arith, e)
first_byte_next zero (b ∷ bs) e = ground (arith, e)
first_byte_next (suc n) (b ∷ bs) e = ground (arith, e)

-- A socket that delivers one byte at a time.
abbrev slow : Socket (List ℕ)
slow = record {
  incoming = λ k. k;
  read = first_byte;
  write = λ bytes k. (none, k);
  read_next = λ n k e. first_byte_next n k e;
}

read_exact-Reads_example :
    Reads ⦃net = slow⦄ 2 (5 ∷ 6 ∷ 7 ∷ []) (read_exact ⦃net = slow⦄ 2 (5 ∷ 6 ∷ 7 ∷ []))
read_exact-Reads_example = read_exact-Reads ⦃net = slow⦄ 2 (5 ∷ 6 ∷ 7 ∷ [])

-- A stand-in for the machine's functions, which the theorem does not look into.
abbrev first_operand : FloatMath
first_operand = record { mul = λ x y. x; div = λ x y. x; tan = λ x. x; to_int = λ x. pos x }

abbrev wire_pose : List ℕ
wire_pose = 1 ∷ 2 ∷ 3 ∷ 4 ∷ 5 ∷ 6 ∷ 7 ∷ 8 ∷ 9 ∷ 10 ∷ 11 ∷ 12 ∷ 13 ∷ 14 ∷ 15 ∷ 16 ∷ []

convert_pose-entry_example :
    entry (convert_pose first_operand wire_pose) 6 ≡ converted_entry first_operand wire_pose 1 2
convert_pose-entry_example =
    convert_pose-entry first_operand wire_pose 1 2 (omega arith) (omega arith)

abbrev setup : Setup
setup = record {
  built = record {
    pipeline = some 1;
    webrtcbin = some 2;
    video_app_src = some 3;
    video_payloader = some 4;
  };
  is_ready = true;
  has_video_path = true;
  is_data_channel_disabled = true;
  created_data_channel = none;
}

abbrev candidate : IceCandidate
candidate = record { candidate = 97 ∷ []; media_line_index = some (pos 0) }

abbrev link : DirectIpv4Link
link = record { server_ip = 49 ∷ []; client_ip = 50 ∷ [] }

-- "a=candidate: tcp", which is refused, and a line that is no candidate.
abbrev sdp : List ℕ
sdp = candidate_prefix ++ 32 ∷ 116 ∷ 99 ∷ 112 ∷ 13 ∷ 10 ∷ 118 ∷ 61 ∷ 48 ∷ 10 ∷ []

filter_remote_answer_sdp-lines_example :
    (answer_lines (filter_remote_answer_sdp (some link) sdp) ≡ kept (some link) (answer_lines sdp))
    × (All
          (λ l. refuses (some link) l ≡ false)
          (answer_lines (filter_remote_answer_sdp (some link) sdp))
        × (filter_remote_answer_sdp (some link) (filter_remote_answer_sdp (some link) sdp)
            ≡ filter_remote_answer_sdp (some link) sdp))
filter_remote_answer_sdp-lines_example = filter_remote_answer_sdp-lines (some link) sdp

filter_drops : filter_remote_answer_sdp (some link) sdp ≡ 118 ∷ 61 ∷ 48 ∷ 13 ∷ 10 ∷ []
unfolding filter_remote_answer_sdp filter_lines get_lines strip_line_end write_line
    allow_remote_candidate direct_candidate_drop_reason
filter_drops = refl

-- A candidate arrives before the answer is applied.
abbrev negotiation : List Negotiation.Event
negotiation =
    Negotiation.client_connects setup (pos 1)
    ∷ Negotiation.offer_is_created 1 (some 2) true (pos 2)
    ∷ Negotiation.local_description_is_set 1 (some 2) (some 1) true (pos 3)
    ∷ Negotiation.gets_ice candidate
    ∷ Negotiation.answers [] (pos 4)
    ∷ Negotiation.answer_is_applied 1 (some 2) true true
    ∷ Negotiation.connection_changes true
    ∷ Negotiation.pumps (pos 5)
    ∷ []

no_session-SessionInv : SessionInv no_session
no_session-SessionInv = record { queue = inl refl; media = inl refl; watchdog = inl refl }

run-SessionInv_example : SessionInv (Negotiation.run (some link) negotiation no_session)
run-SessionInv_example = run-SessionInv (some link) negotiation no_session no_session-SessionInv

abbrev tiny : ImageSize
tiny = record { width = pos 1; height = pos 1 }

abbrev rendering : RenderOutput
rendering = record {
  rgb = record { bytes = some (1 ∷ 2 ∷ 3 ∷ []); byte_count = 3; owned = true };
  image_size = tiny;
  pose_generation = 1;
  scene_version_id = 1;
  render_timestamp = pos 1;
  cached = false;
}

abbrev rendered : RenderOutputStore
rendered = record { capacity = 1; history = rendering ∷ []; latest_output = some rendering }

abbrev playing : Session
playing = record no_session {
  handles = setup.built;
  active_session_id = 1;
  local_offer_sent = true;
  remote_description_applied = true;
  media_pipeline_started = true;
  video_push_enabled = true;
}

playing-SessionInv : SessionInv playing
playing-SessionInv = record { queue = inr refl; media = inr refl; watchdog = inl refl }

pushes : (pump_round tiny (pos 5) rendered playing false).pushed ≡ some (1 ∷ 2 ∷ 3 ∷ [])
unfolding pump_round pump_video check_negotiation_watchdog clear_negotiation_watchdog
    OutputStore.latest push_render_output copy_render_output_rgb has_rgb is_empty size_eq
pushes = refl

pump_round-Sends_example :
    (playing.remote_description_applied ≡ true)
    × (playing.video_push_enabled ≡ true)
    × ((pump_round tiny (pos 5) rendered playing false).timed_out ≡ false)
    × Sends tiny (OutputStore.latest rendered) (1 ∷ 2 ∷ 3 ∷ [])
pump_round-Sends_example =
    pump_round-Sends tiny (pos 5) rendered playing false (1 ∷ 2 ∷ 3 ∷ []) playing-SessionInv pushes
