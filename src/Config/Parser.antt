-- ===== src/Config/Parser.antt =====
-- src/config/src/CommandLineParser.cpp. The arguments are those after the program's name; a text is
-- read byte by byte as its code points, which is exact for the ASCII texts that any test accepts.
pub mod Numbers
pub mod Outcomes
use Prim.Native.Char.{code}
use Prim.Native.String.{◌++◌ as str_append}
use text.Mathlib.Text.{◌==◌ as str_eq}
use edge_vision.Prelude.{
  ℕ, ◌+◌, ◌-◌, ◌*◌, ◌%◌, ℤ, pos, negsuc, Bool, true, false, ◌&&◌, String, List, [], ◌∷◌, Option,
  none, some, leb, ltb, ◌==◌, leb_ℤ, if◌then◌else◌,
}
use edge_vision.Config.{
  AppConfig, SceneReadPolicy, ViewerLoopPolicy, greedy, balanced, event, hot_loop,
}

abbrev pub codes : String → List ℕ
codes String.[] = []
codes (String.◌∷◌ c s) = code c ∷ codes s

abbrev pub is_digit : ℕ → Bool
is_digit c = leb b'0' c && leb c b'9'

-- The decimal number that the digits spell, after `value`; `none` if another character stands there.
unfoldable pub digits_from : ℕ → List ℕ → Option ℕ
digits_from value [] = some value
digits_from value (c ∷ cs) =
    let rest = digits_from (value * 10 + (c - b'0')) cs in if is_digit c then rest else none

-- std::from_chars for an unsigned type with the largest value `bound`, when it succeeds and reads to
-- the end of the text.
unfoldable pub from_chars_unsigned : ℕ → List ℕ → Option ℕ
unfolding digits_from
from_chars_unsigned bound [] = none
from_chars_unsigned bound (c ∷ cs) = elim (digits_from 0 (c ∷ cs)) [
  | none ↦ none
  | some n ↦ if leb n bound then some n else none
]

abbrev negated : Option ℕ → Option ℤ
negated none = none
negated (some n) = some (if n == 0 then pos 0 else negsuc (n - 1))

abbrev plain : Option ℕ → Option ℤ
plain none = none
plain (some n) = some (pos n)

-- std::from_chars for a 32-bit int, likewise: a minus sign may stand in front.
unfoldable pub from_chars_int : List ℕ → Option ℤ
unfolding from_chars_unsigned
from_chars_int [] = none
from_chars_int (c ∷ cs) =
    if c == b'-'
    then negated (from_chars_unsigned 2147483648 cs)
    else plain (from_chars_unsigned 2147483647 (c ∷ cs))

abbrev pub port_in_range : Option ℤ → Option ℕ
port_in_range none = none
port_in_range (some (negsuc n)) = none
port_in_range (some (pos n)) = if n == 0 then none else if leb n 65535 then some n else none

unfoldable pub parse_port : String → Option ℕ
unfolding from_chars_int
parse_port value = port_in_range (from_chars_int (codes value))

unfoldable pub parse_read_policy : String → Option SceneReadPolicy
parse_read_policy value =
    if str_eq value "greedy"
    then some greedy
    else if str_eq value "balanced"
    then some balanced
    else none

unfoldable pub parse_viewer_policy : String → Option ViewerLoopPolicy
parse_viewer_policy value =
    if str_eq value "event"
    then some event
    else if str_eq value "hot-loop"
    then some hot_loop
    else none

abbrev positive : Option ℕ → Option ℕ
positive none = none
positive (some n) = if n == 0 then none else some n

-- std::size_t has 64 bits.
unfoldable pub parse_positive_count : String → Option ℕ
unfolding from_chars_unsigned
parse_positive_count value = positive (from_chars_unsigned 18446744073709551615 (codes value))

pub record CommandLineParseResult : Type 0 where
  pub config : AppConfig
  pub error : String

-- CommandLineParseResult::parsed.
unfoldable pub is_parsed : CommandLineParseResult → Bool
is_parsed r = str_eq r.error ""

-- What the loop carries: the configuration so far, and whether --debug-frames was given.
pub record Progress : Type 0 where
  pub config : AppConfig
  pub viewer_dump_count_explicit : Bool

-- One round of the loop: it ends the parse, or goes on behind the argument or behind its value.
pub data Round : Type 0 where
  fails : String → Round
  next : Progress → Round
  next_after_value : Progress → Round

-- A conditional that stays folded, so that a proof takes the chain of options one by one.
infix 1 when◌then◌else◌
unfoldable pub when◌then◌else◌ : Bool → Round → Round → Round
when true then x else y = x
when false then x else y = y

-- An option that takes a value.
abbrev pub with_value : Option String → String → (String → Round) → Round
with_value none missing k = fails missing
with_value (some value) missing k = k value

-- A value that must be one that `parse` accepts.
abbrev pub accepted {ℓ} : {A : Type ℓ} → Option A → String → (A → Progress) → Round
accepted none message k = fails message
accepted (some a) message k = next_after_value (k a)

module _ (p : Progress) where
  open p use {config}

  unfoldable pub disable_capture : Progress
  disable_capture = record p {
    config = record config { capture = record (config.capture) { enabled = false } };
  }

  unfoldable pub enable_debug : Progress
  enable_debug = record p {
    config = record config {
      debug = record {
        viewer_dump = record {
          enabled = true;
          max_frames =
              if p.viewer_dump_count_explicit then config.debug.viewer_dump.max_frames else 5;
        };
      };
    };
  }

  unfoldable pub set_port : ℕ → Progress
  set_port n = record p {
    config = record config {
      streaming = record (config.streaming) {
        tcp = record (config.streaming.tcp) { port = pos n };
      };
    };
  }

  unfoldable pub enable_tcp : Progress
  enable_tcp = record p {
    config = record config {
      streaming = record (config.streaming) {
        tcp = record (config.streaming.tcp) { enabled = true };
      };
    };
  }

  unfoldable pub disable_webrtc : Progress
  disable_webrtc = record p {
    config = record config {
      streaming = record (config.streaming) {
        webrtc = record (config.streaming.webrtc) { enabled = false };
      };
    };
  }

  -- static_cast<std::uint16_t>
  unfoldable pub set_webrtc_port : ℕ → Progress
  set_webrtc_port n = record p {
    config = record config {
      streaming = record (config.streaming) {
        webrtc = record (config.streaming.webrtc) { signalling_port = n % 65536 };
      };
    };
  }

  unfoldable pub set_stun : String → Progress
  set_stun value = record p {
    config = record config {
      streaming = record (config.streaming) {
        webrtc = record (config.streaming.webrtc) {
          stun_server = if str_eq value "none" then "" else value;
        };
      };
    };
  }

  unfoldable pub set_read_policy : SceneReadPolicy → Progress
  set_read_policy policy = record p {
    config = record config { scene = record { read_policy = policy } };
  }

  unfoldable pub set_viewer_policy : ViewerLoopPolicy → Progress
  set_viewer_policy policy = record p {
    config = record config { viewer = record (config.viewer) { loop_policy = policy } };
  }

  unfoldable pub set_debug_frames : ℕ → Progress
  set_debug_frames n = record {
    config = record config {
      debug = record { viewer_dump = record { enabled = true; max_frames = n } };
    };
    viewer_dump_count_explicit = true;
  }

  unfoldable pub parse_round : String → Option String → Round
  parse_round arg value =
      when str_eq arg "--disable-capture"
      then next disable_capture
      else when str_eq arg "--enable-debug"
      then next enable_debug
      else when str_eq arg "--port"
      then with_value value "Missing value for --port"
          (λ v. accepted (parse_port v) (str_append "Invalid port: " v) set_port)
      else when str_eq arg "--enable-tcp-streaming"
      then next enable_tcp
      else when str_eq arg "--disable-webrtc"
      then next disable_webrtc
      else when str_eq arg "--webrtc-port"
      then with_value value "Missing value for --webrtc-port"
          (λ v. accepted (parse_port v) (str_append "Invalid WebRTC port: " v) set_webrtc_port)
      else when str_eq arg "--webrtc-stun"
      then with_value value "Missing value for --webrtc-stun" (λ v. next_after_value (set_stun v))
      else when str_eq arg "--read-policy"
      then with_value value "Missing value for --read-policy" (λ v.
        accepted (parse_read_policy v) (str_append "Invalid read policy: " v) set_read_policy)
      else when str_eq arg "--viewer-policy"
      then with_value value "Missing value for --viewer-policy" (λ v.
        accepted (parse_viewer_policy v) (str_append "Invalid viewer policy: " v) set_viewer_policy)
      else when str_eq arg "--debug-frames"
      then with_value value "Missing value for --debug-frames" (λ v.
        accepted (parse_positive_count v) (str_append "Invalid viewer dump frame count: " v)
          set_debug_frames)
      else fails (str_append "Unknown argument: " arg)

-- The loop. `next_after_value` comes only where a value stands behind the option.
unfoldable pub parse_args : Progress → List String → CommandLineParseResult
parse_args p [] = record { config = p.config; error = "" }
parse_args p (arg ∷ []) = elim (parse_round p arg none) [
  | fails message ↦ record { config = p.config; error = message }
  | next q ↦ record { config = q.config; error = "" }
  | next_after_value q ↦ record { config = q.config; error = "" }
]
parse_args p (arg ∷ value ∷ rest) = elim (parse_round p arg (some value)) [
  | fails message ↦ record { config = p.config; error = message }
  | next q ↦ parse_args q (value ∷ rest)
  | next_after_value q ↦ parse_args q rest
]

unfoldable pub parse_command_line : List String → AppConfig → CommandLineParseResult
unfolding parse_args
parse_command_line args defaults =
    parse_args (record { config = defaults; viewer_dump_count_explicit = false }) args
