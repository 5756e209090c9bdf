-- ===== src/Streaming/WebRtcServer.antt =====
-- src/streaming/webrtc/src/WebRtcServer.cpp: the session and its negotiation, one function for each part
-- that runs under the mutex. GStreamer's objects are numbers, and what its calls answer is an argument. The
-- reply function, the names of the media lines, the sink pad and the local candidates are left out.
pub mod Negotiation
use edge_vision.Prelude.{
  ℕ, ◌+◌, ◌-◌, ℤ, pos, negsuc, Bool, true, false, not, ◌&&◌, ◌||◌, String, List, [], ◌∷◌, ◌++◌,
  Option, none, some, is_some, ◌==◌, ltb_ℤ, inc64, if◌then◌else◌,
}
use edge_vision.App.DebugSession.{later_by}
use edge_vision.Streaming.IceFilter.{
  DirectIpv4Link, allow_remote_candidate, filter_remote_answer_sdp,
}

pub record PipelineHandles : Type 0 where
  pub pipeline : Option ℕ
  pub webrtcbin : Option ℕ
  pub video_app_src : Option ℕ
  pub video_payloader : Option ℕ

abbrev pub no_handles : PipelineHandles
no_handles = record {
  pipeline = none;
  webrtcbin = none;
  video_app_src = none;
  video_payloader = none;
}

-- A remote candidate, by the two fields that are read from its message.
pub record IceCandidate : Type 0 where
  pub candidate : List ℕ
  pub media_line_index : Option ℤ

pub record Session : Type 0 where
  pub handles : PipelineHandles
  pub next_session_id : ℕ
  pub active_session_id : ℕ
  pub data_channel : Option ℕ
  pub local_offer_sent : Bool
  pub remote_description_applied : Bool
  pub media_pipeline_started : Bool
  pub video_push_enabled : Bool
  pub pending_remote_ice : List IceCandidate
  pub watchdog_armed : Bool
  pub watchdog_session_id : ℕ
  pub watchdog_deadline : ℤ
  pub watchdog_stage : String

abbrev pub no_session : Session
no_session = record {
  handles = no_handles;
  next_session_id = 1;
  active_session_id = 0;
  data_channel = none;
  local_offer_sent = false;
  remote_description_applied = false;
  media_pipeline_started = false;
  video_push_enabled = false;
  pending_remote_ice = [];
  watchdog_armed = false;
  watchdog_session_id = 0;
  watchdog_deadline = pos 0;
  watchdog_stage = "";
}

-- What is asked of GStreamer and of the signalling: an offer to be created, the local description
-- to be set, the offer sent, an answer set as the remote description, a candidate added. An answer to be
-- applied goes to apply_remote_description first, which takes the mutex anew.
pub data Request : Type 0 where
  create_offer : ℕ → Request
  set_local_description : ℕ → Request
  send_offer : ℕ → Request
  apply_answer : ℕ → List ℕ → Request
  set_remote_description : ℕ → List ℕ → Request
  add_ice_candidate : ℕ → List ℕ → Request

abbrev pub same_object : Option ℕ → Option ℕ → Bool
same_object (some a) (some b) = a == b
same_object none none = true
same_object _ _ = false

-- isCurrentSessionLocked.
unfoldable pub is_current_session : ℕ → Option ℕ → Session → Bool
is_current_session id webrtcbin s =
    not (id == 0)
    && (id == s.active_session_id
        && (is_some s.handles.webrtcbin && same_object s.handles.webrtcbin webrtcbin))

-- kNegotiationWatchdogTimeout, in the ticks of the clock.
abbrev pub watchdog_timeout : ℕ
watchdog_timeout = 5000000000

unfoldable pub arm_negotiation_watchdog : ℕ → String → ℤ → Session → Session
arm_negotiation_watchdog id stage now s =
    if id == 0 || not (id == s.active_session_id) then s else record s {
      watchdog_armed = true;
      watchdog_session_id = id;
      watchdog_stage = stage;
      watchdog_deadline = later_by watchdog_timeout now;
    }

unfoldable pub clear_negotiation_watchdog : ℕ → Session → Session
clear_negotiation_watchdog id s =
    if s.watchdog_session_id == id
    then record s { watchdog_armed = false; watchdog_session_id = 0; watchdog_stage = "" }
    else s

-- checkNegotiationWatchdogLocked: whether it is time to close the client.
unfoldable pub check_negotiation_watchdog : ℤ → Session → Session × Bool
check_negotiation_watchdog now s =
    if not s.watchdog_armed || ltb_ℤ now s.watchdog_deadline
    then (s, false)
    else (clear_negotiation_watchdog s.watchdog_session_id s, true)

-- tearDownPipeline: the handles are dropped only with a pipeline.
unfoldable pub tear_down_pipeline : Session → Session
tear_down_pipeline s = record {
  handles = if is_some s.handles.pipeline then no_handles else s.handles;
  next_session_id = s.next_session_id;
  active_session_id = 0;
  data_channel = none;
  local_offer_sent = false;
  remote_description_applied = false;
  media_pipeline_started = false;
  video_push_enabled = false;
  pending_remote_ice = [];
  watchdog_armed = false;
  watchdog_session_id = 0;
  watchdog_deadline = s.watchdog_deadline;
  watchdog_stage = "";
}

-- What GStreamer answers while a client is set up: the pipeline it builds, whether READY was reached and
-- the video path prepared, and the data channel, when it is not disabled.
pub record Setup : Type 0 where
  pub built : PipelineHandles
  pub is_ready : Bool
  pub has_video_path : Bool
  pub is_data_channel_disabled : Bool
  pub created_data_channel : Option ℕ

abbrev pub begun : Setup → Session → Session
begun setup s = record s {
  next_session_id = inc64 s.next_session_id;
  active_session_id = s.next_session_id;
  handles = setup.built;
}

-- createLocalOffer.
unfoldable pub create_local_offer : ℕ → Session → List Request
create_local_offer id s =
    if is_current_session id s.handles.webrtcbin s then create_offer id ∷ [] else []

-- onClientConnected.
unfoldable pub on_client_connected : Setup → ℤ → Session → Session × List Request
on_client_connected setup now s =
    let id = s.next_session_id in
    let t = begun setup (tear_down_pipeline s) in
    let u = arm_negotiation_watchdog id "create-offer" now (
      if setup.is_data_channel_disabled
      then t
      else record t { data_channel = setup.created_data_channel }) in
    if not (is_some setup.built.pipeline) || not (is_some setup.built.webrtcbin)
    then (tear_down_pipeline t, [])
    else if not setup.is_ready
    then (tear_down_pipeline t, [])
    else if not setup.has_video_path
    then (tear_down_pipeline t, [])
    else if not setup.is_data_channel_disabled && not (is_some setup.created_data_channel)
    then (tear_down_pipeline t, [])
    else (u, create_local_offer id u)

-- setLocalDescriptionAndSendOffer, for the offer of a session that GStreamer created.
unfoldable pub on_offer_created : ℕ → Option ℕ → Bool → ℤ → Session → Session × List Request
on_offer_created id webrtcbin has_offer now s =
    if not has_offer
    then (if is_current_session id webrtcbin s then tear_down_pipeline s else s, [])
    else if not (is_current_session id webrtcbin s) || not (is_some s.handles.pipeline)
    then (s, [])
    else (
      record (arm_negotiation_watchdog id "set-local-description" now s) {
        remote_description_applied = false;
        media_pipeline_started = false;
        video_push_enabled = false;
      },
      set_local_description id ∷ [],
    )

-- onLocalDescriptionSet.
unfoldable pub on_local_description_set :
    ℕ → Option ℕ → Option ℕ → Bool → ℤ → Session → Session × List Request
on_local_description_set id webrtcbin pipeline replied now s =
    if not replied
    then (if is_current_session id webrtcbin s then tear_down_pipeline s else s, [])
    else if is_current_session id webrtcbin s && same_object s.handles.pipeline pipeline
    then (
      arm_negotiation_watchdog id "remote answer" now (record s { local_offer_sent = true }),
      send_offer id ∷ [],
    )
    else (s, [])

-- onAnswer.
unfoldable pub on_answer : Option DirectIpv4Link → List ℕ → ℤ → Session → Session × List Request
on_answer link sdp now s =
    if not (is_some s.handles.webrtcbin) || not s.local_offer_sent then (s, []) else (
      arm_negotiation_watchdog s.active_session_id "set-remote-description" now s,
      apply_answer s.active_session_id (filter_remote_answer_sdp link sdp) ∷ [],
    )

-- applyRemoteDescription; `parsed` says whether GStreamer made a description of the text.
unfoldable pub apply_remote_description : ℕ → List ℕ → Bool → Session → List Request
apply_remote_description id sdp parsed s =
    if not (is_current_session id s.handles.webrtcbin s)
    then []
    else if not parsed
    then []
    else set_remote_description id sdp ∷ []

-- static_cast<guint>
abbrev pub guint : ℤ → ℕ
guint (pos n) = n
guint (negsuc n) = 4294967295 - n

abbrev pub candidate_request : IceCandidate → Option ℤ → List Request
candidate_request c none = []
candidate_request c (some index) = add_ice_candidate (guint index) c.candidate ∷ []

-- The body of the loop in flushPendingRemoteIceLocked.
unfoldable pub flush_one : IceCandidate → List Request
flush_one c = elim (c.candidate) [ [] ↦ [] | x ∷ xs ↦ candidate_request c c.media_line_index ]

unfoldable pub flush_pending_remote_ice : List IceCandidate → List Request
unfolding flush_one
flush_pending_remote_ice [] = []
flush_pending_remote_ice (c ∷ cs) = flush_one c ++ flush_pending_remote_ice cs

-- onRemoteAnswerApplied; `playing` says whether the pipeline went to PLAYING.
unfoldable pub on_remote_answer_applied :
    ℕ → Option ℕ → Bool → Bool → Session → Session × List Request
on_remote_answer_applied id webrtcbin replied playing s =
    let t = clear_negotiation_watchdog id (record s { remote_description_applied = true }) in
    let u = record t { pending_remote_ice = [] } in
    if not (is_current_session id webrtcbin s) || not (is_some s.handles.pipeline)
    then (s, [])
    else if not replied
    then (tear_down_pipeline s, [])
    else (
      if u.media_pipeline_started
          then u
          else if playing
          then record u { media_pipeline_started = true }
          else tear_down_pipeline u,
      flush_pending_remote_ice s.pending_remote_ice,
    )

abbrev pub received_ice : Bool → IceCandidate → Session → List Request → Session × List Request
received_ice allowed c s [] = (s, [])
received_ice allowed c s (r ∷ rs) =
    if not allowed || not (is_some s.handles.webrtcbin)
    then (s, [])
    else if not s.remote_description_applied
    then (record s { pending_remote_ice = s.pending_remote_ice ++ c ∷ [] }, [])
    else (s, r ∷ rs)

-- onIceFromClient; one without a text or an index is dropped.
unfoldable pub on_ice_from_client :
    Option DirectIpv4Link → IceCandidate → Session → Session × List Request
on_ice_from_client link c s =
    received_ice (allow_remote_candidate link c.candidate) c s (flush_one c)

-- setVideoPushEnabledForConnectionState.
unfoldable pub set_video_push_enabled : Bool → Session → Session
set_video_push_enabled connected s = record s { video_push_enabled = connected }

-- The part of a round of pumpVideo under the mutex: the source to push to, and whether the client is
-- to be closed.
unfoldable pub pump_video : ℤ → Session → Session × (Option ℕ × Bool)
pump_video now s =
    let (t, timed_out) = check_negotiation_watchdog now s in
    let source =
      if not timed_out && (t.media_pipeline_started && t.video_push_enabled)
      then t.handles.video_app_src
      else none in
    (t, (source, timed_out))
