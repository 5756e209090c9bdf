-- ===== src/Streaming/Signalling.antt =====
-- src/streaming/webrtc/src/SignallingHandler.cpp. A handle is a number; a weak handle is expired when its
-- connection is no longer live. What the handler posts to the server's io_service waits in a queue, and
-- what it does outside is a list of actions.
pub mod Addressing
use text.Mathlib.Text.{◌==◌ as str_eq}
use edge_vision.Prelude.{
  ℕ, ◌==◌, Bool, true, false, not, ◌&&◌, String, List, [], ◌∷◌, ◌++◌, Option, none, some, add,
  discard, contains, is_some, if◌then◌else◌,
}
use edge_vision.Model.Scene.Shared.{Result, ok, throws}
use edge_vision.Streaming.{Json}

-- Work posted to the io_service.
pub data Task : Type 0 where
  start_client : ℕ → Task
  send_text : ℕ → String → Task
  close_client : ℕ → String → Task

-- What the handler does: the calls of its callbacks, and of the websocket server.
pub data Action (J : Type 0) : Type 0 where
  client_connected : ℕ → Action J
  client_disconnected : Action J
  answer : ℕ → String → Action J
  ice : ℕ → J → Action J
  sends : ℕ → String → Action J
  closes : ℕ → String → Action J

pub record SignallingHandler : Type 0 where
  pub is_running : Bool
  pub is_stopping : Bool
  pub live : List ℕ
  pub client : Option ℕ
  pub posted : List Task

unfoldable pub make_handler : SignallingHandler
make_handler = record {
  is_running = false;
  is_stopping = false;
  live = [];
  client = none;
  posted = [];
}

-- The client, unless its weak handle is expired.
abbrev pub locked : Option ℕ → List ℕ → Option ℕ
locked none live = none
locked (some h) live = if contains h live then some h else none

abbrev pub is_handle : Option ℕ → ℕ → Bool
is_handle none h = false
is_handle (some g) h = g == h

-- isActiveClientLocked.
unfoldable pub is_active_client : ℕ → SignallingHandler → Bool
is_active_client h s = contains h s.live && is_handle (locked s.client s.live) h

unfoldable pub post : Task → SignallingHandler → SignallingHandler
post task s = record s { posted = s.posted ++ task ∷ [] }

-- closeActiveClient.
unfoldable pub close_active_client : String → SignallingHandler → SignallingHandler
close_active_client reason s = elim (locked s.client s.live) [
  | none ↦ s
  | some h ↦ post (close_client h reason) s
]

unfoldable pub start : SignallingHandler → SignallingHandler
start s = if s.is_running then s else record s { is_running = true; is_stopping = false }

unfoldable pub stop : SignallingHandler → SignallingHandler
stop s =
    if s.is_running
    then close_active_client "shutdown" (record s { is_running = false; is_stopping = true })
    else s

module _ {J : Type 0} where
  abbrev pub close_previous : Option ℕ → List (Action J)
  close_previous none = []
  close_previous (some h) = closes h "superseded" ∷ []

  -- onOpen; the connection is live by then.
  unfoldable pub on_open : ℕ → SignallingHandler → SignallingHandler × List (Action J)
  unfolding post
  on_open h s = (
    post (start_client h) (record s { client = some h; live = add h s.live }),
    close_previous (locked s.client s.live),
  )

  -- onClose.
  unfoldable pub on_close : ℕ → SignallingHandler → SignallingHandler × List (Action J)
  on_close h s =
      if is_active_client h s
      then (record s { client = none }, client_disconnected ∷ [])
      else (s, [])

  -- A task of the io_service, once its turn has come.
  unfoldable pub perform : Task → SignallingHandler → SignallingHandler × List (Action J)
  perform (start_client h) s = (s, if is_active_client h s then client_connected h ∷ [] else [])
  perform (send_text h payload) s = (s, if is_active_client h s then sends h payload ∷ [] else [])
  perform (close_client h reason) s = (s, if is_active_client h s then closes h reason ∷ [] else [])

  abbrev pub run_posted : List Task → SignallingHandler → SignallingHandler × List (Action J)
  run_posted [] s = (s, [])
  run_posted (task ∷ tasks) s = perform task (record s { posted = tasks })

  abbrev pub answered : ℕ → Result String → Result (List (Action J))
  answered h (ok sdp) = ok (answer h sdp ∷ [])
  answered h (throws message) = throws message

module _ {J : Type 0} ⦃json : Json J⦄ where
  -- The branch of onMessage by the type; the callbacks are set.
  unfoldable pub dispatch : ℕ → J → Result String → Result (List (Action J))
  dispatch h j (throws message) = throws message
  dispatch h j (ok kind) =
      if str_eq kind "answer"
      then answered h (json.text_value "sdp" "" j)
      else if str_eq kind "ice"
      then ok (ice h j ∷ [])
      else ok []

  abbrev pub handle_parsed : ℕ → Option J → Result (List (Action J))
  handle_parsed h none = ok []
  handle_parsed h (some j) = dispatch h j (json.text_value "type" "" j)

  -- onMessage. An exception leaves the handler, and with it the thread that serves.
  unfoldable pub on_message : ℕ → List ℕ → SignallingHandler → Result (List (Action J))
  on_message h payload s =
      if is_active_client h s then handle_parsed h (json.parse payload) else ok []
