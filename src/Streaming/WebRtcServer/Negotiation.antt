-- ===== src/Streaming/WebRtcServer/Negotiation.antt =====
-- What every sequence of callbacks leaves true of the session in WebRtcServer.cpp.
use edge_vision.Prelude.{
  ℕ, String, ◌≡◌, refl, ◌⊎◌, inl, inr, arith, ℤ, Bool, true, false, List, [], ◌∷◌, Option,
}
use edge_vision.Streaming.IceFilter.{DirectIpv4Link, allow_remote_candidate}
use edge_vision.Streaming.WebRtcServer.{
  Session, IceCandidate, Request, Setup, arm_negotiation_watchdog, clear_negotiation_watchdog,
  check_negotiation_watchdog, tear_down_pipeline, begun, on_client_connected, on_offer_created,
  on_local_description_set, on_answer, flush_one, on_remote_answer_applied, received_ice,
  on_ice_from_client, set_video_push_enabled, pump_video,
}

-- No candidate waits once the remote description is applied; media flow only after that; and the watchdog
-- watches the active session.
pub record SessionInv (s : Session) : Type 0 where
  pub queue : (s.remote_description_applied ≡ false) ⊎ (s.pending_remote_ice ≡ [])
  pub media : (s.media_pipeline_started ≡ false) ⊎ (s.remote_description_applied ≡ true)
  pub watchdog : (s.watchdog_armed ≡ false) ⊎ (s.watchdog_session_id ≡ s.active_session_id)

torn_down : (s : Session) → SessionInv (tear_down_pipeline s)
unfolding tear_down_pipeline
torn_down s = record { queue = inl refl; media = inl refl; watchdog = inl refl }

armed :
    (id : ℕ) (stage : String) (now : ℤ) (s : Session)
    → SessionInv s
    → SessionInv (arm_negotiation_watchdog id stage now s)
unfolding arm_negotiation_watchdog
armed id stage now s v = ground (arith, v)

cleared : (id : ℕ) (s : Session) → SessionInv s → SessionInv (clear_negotiation_watchdog id s)
unfolding clear_negotiation_watchdog
cleared id s v = ground (arith, v)

checked : (now : ℤ) (s : Session) → SessionInv s → SessionInv (check_negotiation_watchdog now s).0
unfolding check_negotiation_watchdog
checked now s v = ground (arith, v, cleared s.watchdog_session_id s v)

begun-SessionInv :
    (setup : Setup) (s : Session) (channel : Option ℕ)
    → SessionInv (record (begun setup (tear_down_pipeline s)) { data_channel = channel })
unfolding tear_down_pipeline
begun-SessionInv setup s channel = record {
  queue = inl refl;
  media = inl refl;
  watchdog = inl refl;
}

connected-SessionInv :
    (setup : Setup) (now : ℤ) (s : Session) → SessionInv (on_client_connected setup now s).0
unfolding on_client_connected
connected-SessionInv setup now s =
    let t = begun setup (tear_down_pipeline s) in
    ground (
      arith,
      torn_down t,
      armed s.next_session_id "create-offer" now t (begun-SessionInv setup s t.data_channel),
      armed s.next_session_id "create-offer" now
          (record t { data_channel = setup.created_data_channel })
          (begun-SessionInv setup s setup.created_data_channel),
    )

offered-SessionInv :
    (id : ℕ) (webrtcbin : Option ℕ) (has_offer : Bool) (now : ℤ) (s : Session)
    → SessionInv s
    → SessionInv (on_offer_created id webrtcbin has_offer now s).0
unfolding on_offer_created
offered-SessionInv id webrtcbin has_offer now s v =
    let t = armed id "set-local-description" now s v in ground (arith, v, torn_down s, t)

described-SessionInv :
    (id : ℕ) (webrtcbin pipeline : Option ℕ) (replied : Bool) (now : ℤ) (s : Session)
    → SessionInv s
    → SessionInv (on_local_description_set id webrtcbin pipeline replied now s).0
unfolding on_local_description_set
described-SessionInv id webrtcbin pipeline replied now s v = ground (
  arith,
  v,
  torn_down s,
  armed id "remote answer" now (record s { local_offer_sent = true })
      (record { queue = v.queue; media = v.media; watchdog = v.watchdog }),
)

answered-SessionInv :
    (link : Option DirectIpv4Link) (sdp : List ℕ) (now : ℤ) (s : Session)
    → SessionInv s
    → SessionInv (on_answer link sdp now s).0
unfolding on_answer
answered-SessionInv link sdp now s v =
    ground (arith, v, armed s.active_session_id "set-remote-description" now s v)

clear_keeps :
    (id : ℕ) (s : Session)
    → (clear_negotiation_watchdog id s).remote_description_applied ≡ s.remote_description_applied
unfolding clear_negotiation_watchdog
clear_keeps id s = ground arith

flushed-SessionInv :
    (id : ℕ) (s : Session)
    → SessionInv s
    → SessionInv
        (record (clear_negotiation_watchdog id (record s { remote_description_applied = true })) {
          pending_remote_ice = [];
        })
unfolding clear_negotiation_watchdog
flushed-SessionInv id s v = ground (arith, v)

started-SessionInv :
    (u : Session)
    → SessionInv u
    → u.remote_description_applied ≡ true
    → SessionInv (record u { media_pipeline_started = true })
started-SessionInv u v e = record { queue = v.queue; media = inr e; watchdog = v.watchdog }

applied-SessionInv :
    (id : ℕ) (webrtcbin : Option ℕ) (replied playing : Bool) (s : Session)
    → SessionInv s
    → SessionInv (on_remote_answer_applied id webrtcbin replied playing s).0
unfolding on_remote_answer_applied
applied-SessionInv id webrtcbin replied playing s v =
    let t = clear_negotiation_watchdog id (record s { remote_description_applied = true }) in
    let u = record t { pending_remote_ice = [] } in
    let k = clear_keeps id (record s { remote_description_applied = true }) in
    let f = flushed-SessionInv id s v in
    ground (arith, v, torn_down s, torn_down u, f, started-SessionInv u f k)

received-SessionInv :
    (allowed : Bool) (c : IceCandidate) (s : Session) (requests : List Request)
    → SessionInv s
    → SessionInv (received_ice allowed c s requests).0
received-SessionInv allowed c s [] v = v
received-SessionInv allowed c s (r ∷ rs) v = ground (arith, v)

-- A callback of GStreamer, of the signalling or of the pump, with what it is given.
pub data Event : Type 0 where
  client_connects : Setup → ℤ → Event
  client_disconnects : Event
  offer_is_created : ℕ → Option ℕ → Bool → ℤ → Event
  local_description_is_set : ℕ → Option ℕ → Option ℕ → Bool → ℤ → Event
  answers : List ℕ → ℤ → Event
  answer_is_applied : ℕ → Option ℕ → Bool → Bool → Event
  gets_ice : IceCandidate → Event
  connection_changes : Bool → Event
  pumps : ℤ → Event

unfoldable pub step : Option DirectIpv4Link → Event → Session → Session
step link (client_connects setup now) s = (on_client_connected setup now s).0
step link client_disconnects s = tear_down_pipeline s
step link (offer_is_created id webrtcbin has_offer now) s =
    (on_offer_created id webrtcbin has_offer now s).0
step link (local_description_is_set id webrtcbin pipeline replied now) s =
    (on_local_description_set id webrtcbin pipeline replied now s).0
step link (answers sdp now) s = (on_answer link sdp now s).0
step link (answer_is_applied id webrtcbin replied playing) s =
    (on_remote_answer_applied id webrtcbin replied playing s).0
step link (gets_ice c) s = (on_ice_from_client link c s).0
step link (connection_changes connected) s = set_video_push_enabled connected s
step link (pumps now) s = (pump_video now s).0

step-SessionInv :
    (link : Option DirectIpv4Link) (e : Event) (s : Session)
    → SessionInv s
    → SessionInv (step link e s)
unfolding step on_ice_from_client set_video_push_enabled pump_video
step-SessionInv link (client_connects setup now) s v = connected-SessionInv setup now s
step-SessionInv link client_disconnects s v = torn_down s
step-SessionInv link (offer_is_created id webrtcbin has_offer now) s v =
    offered-SessionInv id webrtcbin has_offer now s v
step-SessionInv link (local_description_is_set id webrtcbin pipeline replied now) s v =
    described-SessionInv id webrtcbin pipeline replied now s v
step-SessionInv link (answers sdp now) s v = answered-SessionInv link sdp now s v
step-SessionInv link (answer_is_applied id webrtcbin replied playing) s v =
    applied-SessionInv id webrtcbin replied playing s v
step-SessionInv link (gets_ice c) s v =
    received-SessionInv (allow_remote_candidate link c.candidate) c s (flush_one c) v
step-SessionInv link (connection_changes connected) s v = record {
  queue = v.queue;
  media = v.media;
  watchdog = v.watchdog;
}
step-SessionInv link (pumps now) s v = checked now s v

unfoldable pub run : Option DirectIpv4Link → List Event → Session → Session
unfolding step
run link [] s = s
run link (e ∷ es) s = run link es (step link e s)

-- Whatever callbacks arrive and in whatever order, stale ones of sessions that ended included: a
-- candidate waits only while no remote description is applied, media flow only once one is applied, and
-- an armed watchdog is that of the active session.
pub run-SessionInv :
    (link : Option DirectIpv4Link) (es : List Event) (s : Session)
    → SessionInv s
    → SessionInv (run link es s)
unfolding run
run-SessionInv link [] s v = v
run-SessionInv link (e ∷ es) s v =
    run-SessionInv link es (step link e s) (step-SessionInv link e s v)
