-- ===== src/Streaming/Signalling/Addressing.antt =====
-- Runs of the signalling of SignallingHandler.cpp: whom its actions reach.
use text.Mathlib.Text.{◌==◌ as str_eq}
use edge_vision.Prelude.{
  ℕ, ◌≡◌, refl, arith, Bool, true, false, String, List, [], ◌∷◌, ◌++◌, Option, none, some, All,
  All-append, discard, if◌then◌else◌, Bool-cases, Option-cases, inl, inr,
}
use edge_vision.Model.Scene.Shared.{Result, ok, throws}
use edge_vision.Streaming.{Json}
use edge_vision.Streaming.Signalling.{
  Task, Action, SignallingHandler, locked, is_active_client, post, start_client, send_text,
  close_client, client_connected, client_disconnected, answer, ice, sends, closes, on_open,
  on_close, perform, run_posted, close_active_client, start, stop, answered, dispatch,
  handle_parsed, on_message,
}

-- What happens to the handler, one after the other: its owner's calls, the websocket server's, the
-- turn of the next posted task, a call of a send function, and the end of a connection's life.
pub data Event : Type 0 where
  starts : Event
  stops : Event
  requests_close : String → Event
  opens : ℕ → Event
  loses : ℕ → Event
  receives : ℕ → List ℕ → Event
  performs : Event
  replies : ℕ → String → Event
  expires : ℕ → Event

-- What an action says of the active client as its step leaves it. A connection may also be closed
-- because it is the active one no more.
abbrev pub Addressed : {J : Type 0} → Option ℕ → Action J → Type 0
Addressed client (client_connected h) = client ≡ some h
Addressed client client_disconnected = client ≡ none
Addressed client (answer h sdp) = client ≡ some h
Addressed client (ice h j) = client ≡ some h
Addressed client (sends h payload) = client ≡ some h
Addressed client (closes h reason) = Unit

active_is_client : (h : ℕ) (s : SignallingHandler) → is_active_client h s ≡ true → s.client ≡ some h
unfolding is_active_client
active_is_client h s e = ground (arith, e)

-- The steps of a run, each action with the client as the step leaves it. An exception ends the thread
-- that serves, and the run.
abbrev pub Log : Type 0 → Type 0
Log J = List (Option ℕ × Action J)

pub tagged : {J : Type 0} → Option ℕ → List (Action J) → Log J
tagged client [] = []
tagged client (a ∷ acts) = (client, a) ∷ tagged client acts

module _ {J : Type 0} where
  abbrev quiet : SignallingHandler → Result (SignallingHandler × List (Action J))
  quiet s = ok (s, [])

  abbrev received :
      SignallingHandler → Result (List (Action J)) → Result (SignallingHandler × List (Action J))
  received s (throws message) = throws message
  received s (ok acts) = ok (s, acts)

module _ {J : Type 0} ⦃json : Json J⦄ where
  unfoldable pub step : Event → SignallingHandler → Result (SignallingHandler × List (Action J))
  step starts s = quiet (start s)
  step stops s = quiet (stop s)
  step (requests_close reason) s = quiet (close_active_client reason s)
  step (opens h) s = ok (on_open h s)
  step (loses h) s = ok (on_close h s)
  step (receives h payload) s = received s (on_message h payload s)
  step performs s = ok (run_posted s.posted s)
  step (replies h payload) s = quiet (post (send_text h payload) s)
  step (expires h) s = quiet (record s { live = discard h s.live })

  abbrev continued :
      (SignallingHandler → Log J) → Result (SignallingHandler × List (Action J)) → Log J
  continued later (throws message) = []
  continued later (ok (s, acts)) = tagged s.client acts ++ later s

  unfoldable pub run : List Event → SignallingHandler → Log J
  unfolding step
  run [] s = []
  run (e ∷ es) s = continued (run es) (step e s)

-- An entry of the log whose action fits its client.
abbrev pub Fits : {J : Type 0} → Option ℕ × Action J → Type 0
Fits (client, a) = Addressed client a

tagged-Fits :
    {J : Type 0} (client : Option ℕ) (acts : List (Action J))
    → All (Addressed client) acts
    → All Fits (tagged client acts)
unfolding tagged
tagged-Fits client [] h = tt
tagged-Fits client (a ∷ acts) h = (h.0, tagged-Fits client acts h.1)

-- What a step gives, when it does not throw.
abbrev Addresses : {J : Type 0} → Result (SignallingHandler × List (Action J)) → Type 0
Addresses (throws message) = Unit
Addresses (ok (s, acts)) = All (Addressed s.client) acts

abbrev FromClient : {J : Type 0} → SignallingHandler → Result (List (Action J)) → Type 0
FromClient s (throws message) = Unit
FromClient s (ok acts) = All (Addressed s.client) acts

module _ (J : Type 0) where
  perform-Addressed :
      (task : Task) (s : SignallingHandler) → Addresses {J = J} (ok (perform task s))
  unfolding perform
  perform-Addressed (start_client h) s = elim (Bool-cases (is_active_client h s)) [
    | inl e ↦ rw e (active_is_client h s e, tt)
    | inr e ↦ rw e tt
  ]
  perform-Addressed (send_text h payload) s = elim (Bool-cases (is_active_client h s)) [
    | inl e ↦ rw e (active_is_client h s e, tt)
    | inr e ↦ rw e tt
  ]
  perform-Addressed (close_client h reason) s = elim (Bool-cases (is_active_client h s)) [
    | inl e ↦ rw e (tt, tt)
    | inr e ↦ rw e tt
  ]

  posted-Addressed :
      (tasks : List Task) (s : SignallingHandler) → Addresses {J = J} (ok (run_posted tasks s))
  posted-Addressed [] s = tt
  posted-Addressed (task ∷ tasks) s = perform-Addressed task (record s { posted = tasks })

  on_open-Addressed : (h : ℕ) (s : SignallingHandler) → Addresses {J = J} (ok (on_open h s))
  unfolding on_open post
  on_open-Addressed h s = elim (Option-cases (locked s.client s.live)) [
    | inl e ↦ rw e tt
    | inr (g, e) ↦ rw e (tt, tt)
  ]

  on_close-Addressed : (h : ℕ) (s : SignallingHandler) → Addresses {J = J} (ok (on_close h s))
  unfolding on_close
  on_close-Addressed h s = elim (Bool-cases (is_active_client h s)) [
    | inl e ↦ rw e (refl, tt)
    | inr e ↦ rw e tt
  ]

  answered-FromClient :
      (h : ℕ) (s : SignallingHandler) (r : Result String)
      → s.client ≡ some h
      → FromClient {J = J} s (answered h r)
  answered-FromClient h s (throws message) e = tt
  answered-FromClient h s (ok sdp) e = (e, tt)

  if_FromClient :
      (s : SignallingHandler) (b : Bool) (x y : Result (List (Action J)))
      → FromClient s x
      → FromClient s y
      → FromClient s (if b then x else y)
  if_FromClient s true x y hx hy = hx
  if_FromClient s false x y hx hy = hy

module _ (J : Type 0) ⦃json : Json J⦄ where
  dispatch-FromClient :
      (h : ℕ) (s : SignallingHandler) (j : J) (kind : Result String)
      → s.client ≡ some h
      → FromClient {J = J} s (dispatch h j kind)
  unfolding dispatch
  dispatch-FromClient h s j (throws message) e = tt
  dispatch-FromClient h s j (ok kind) e =
      if_FromClient J s (str_eq kind "answer") (answered h (json.text_value "sdp" "" j))
        (if str_eq kind "ice" then ok (ice h j ∷ []) else ok [])
        (answered-FromClient J h s (json.text_value "sdp" "" j) e)
        (if_FromClient J s (str_eq kind "ice") (ok (ice h j ∷ [])) (ok []) (e, tt) tt)

  parsed-FromClient :
      (h : ℕ) (s : SignallingHandler) (o : Option J)
      → s.client ≡ some h
      → FromClient {J = J} s (handle_parsed h o)
  parsed-FromClient h s none e = tt
  parsed-FromClient h s (some j) e = dispatch-FromClient h s j (json.text_value "type" "" j) e

  on_message-FromClient :
      (h : ℕ) (payload : List ℕ) (s : SignallingHandler)
      → FromClient {J = J} s (on_message h payload s)
  unfolding on_message
  on_message-FromClient h payload s = elim (Bool-cases (is_active_client h s)) [
    | inl e ↦ rw e (parsed-FromClient h s (json.parse payload) (active_is_client h s e))
    | inr e ↦ rw e tt
  ]

  received-Addresses :
      (s : SignallingHandler) (r : Result (List (Action J)))
      → FromClient s r
      → Addresses (received s r)
  received-Addresses s (throws message) h = tt
  received-Addresses s (ok acts) h = h

  step-Addresses : (e : Event) (s : SignallingHandler) → Addresses (step {J = J} e s)
  unfolding step
  step-Addresses starts s = tt
  step-Addresses stops s = tt
  step-Addresses (requests_close reason) s = tt
  step-Addresses (opens h) s = on_open-Addressed J h s
  step-Addresses (loses h) s = on_close-Addressed J h s
  step-Addresses (receives h payload) s =
      received-Addresses s (on_message h payload s) (on_message-FromClient h payload s)
  step-Addresses performs s = posted-Addressed J s.posted s
  step-Addresses (replies h payload) s = tt
  step-Addresses (expires h) s = tt

  continued-Fits :
      (later : SignallingHandler → Log J) (r : Result (SignallingHandler × List (Action J)))
      → ((s : SignallingHandler) → All Fits (later s))
      → Addresses r
      → All Fits (continued later r)
  continued-Fits later (throws message) f h = tt
  continued-Fits later (ok (s, acts)) f h =
      All-append Fits (tagged s.client acts) (later s) (tagged-Fits s.client acts h) (f s)

  -- In every run of the signalling, in whatever order connections open, close and expire, messages
  -- arrive and posted work gets its turn: only the active client is reported as connected, only its
  -- answers and candidates are passed on, and only to it is anything sent; a disconnection
  -- is reported only when no client is left.
  pub run-Fits : (es : List Event) (s : SignallingHandler) → All Fits (run {J = J} es s)
  unfolding run
  run-Fits [] s = tt
  run-Fits (e ∷ es) s = continued-Fits (run es) (step e s) (run-Fits es) (step-Addresses e s)
