-- ===== src/Config/Parser/Outcomes.antt =====
-- What the loop of parseCommandLine keeps (CommandLineParser.cpp).
use text.Mathlib.Text.{◌==◌ as str_eq}
use edge_vision.Prelude.{
  ℕ, ◌≤◌, ◌≡◌, refl, ◌⊎◌, inl, inr, ℤ, pos, negsuc, Bool, true, false, String, List, [], ◌∷◌,
  Option, none, some, arith, if◌then◌else◌,
}
use edge_vision.Config.{AppConfig, SceneReadPolicy, ViewerLoopPolicy}
use edge_vision.Config.Parser.{
  Progress, Round, fails, next, next_after_value, parse_round, parse_args, parse_command_line,
  parse_port, parse_positive_count, disable_capture, enable_debug, set_port, enable_tcp,
  disable_webrtc, set_webrtc_port, set_stun, set_read_policy, set_viewer_policy, set_debug_frames,
  with_value, accepted, when◌then◌else◌, parse_read_policy, parse_viewer_policy,
}
use edge_vision.Config.Parser.Numbers.{parse_port_iff}

abbrev pub IsPort : ℤ → Type 0
IsPort (pos n) = (1 ≤ n) × (n ≤ 65535)
IsPort (negsuc n) = ⊥

-- The settings that the options can change are in their ranges.
pub record IsValid (c : AppConfig) : Type 0 where
  pub tcp_port : IsPort c.streaming.tcp.port
  pub webrtc_port :
      (1 ≤ c.streaming.webrtc.signalling_port) × (c.streaming.webrtc.signalling_port ≤ 65535)
  pub dump_count : 1 ≤ c.debug.viewer_dump.max_frames

-- A property of what a round leaves.
abbrev Leaves : (Progress → Type 0) → Round → Type 0
Leaves P (fails message) = Unit {0}
Leaves P (next q) = P q
Leaves P (next_after_value q) = P q

module _ (P : Progress → Type 0) where
  branch :
      (b : Bool) (x y : Round)
      → (b ≡ true → Leaves P x)
      → (b ≡ false → Leaves P y)
      → Leaves P (when b then x else y)
  unfolding when◌then◌else◌
  branch true x y hx hy = hx refl
  branch false x y hx hy = hy refl

  valued :
      (value : Option String) (missing : String) (k : String → Round)
      → ((v : String) → Leaves P (k v))
      → Leaves P (with_value value missing k)
  valued none missing k h = tt
  valued (some v) missing k h = h v

  checked :
      {A : Type 0} (o : Option A) (message : String) (k : A → Progress)
      → ((a : A) → o ≡ some a → P (k a))
      → Leaves P (accepted o message k)
  checked none message k h = tt
  checked (some a) message k h = h a refl

  -- What holds after each option holds after every round.
  round_cases :
      (p : Progress) (arg : String) (value : Option String)
      → P (disable_capture p)
      → P (enable_debug p)
      → ((s : String) (n : ℕ) → parse_port s ≡ some n → P (set_port p n))
      → P (enable_tcp p)
      → P (disable_webrtc p)
      → ((s : String) (n : ℕ) → parse_port s ≡ some n → P (set_webrtc_port p n))
      → ((s : String) → P (set_stun p s))
      → ((r : SceneReadPolicy) → P (set_read_policy p r))
      → ((r : ViewerLoopPolicy) → P (set_viewer_policy p r))
      → ((s : String) (n : ℕ)
          → str_eq arg "--debug-frames" ≡ true
          → parse_positive_count s ≡ some n
          → P (set_debug_frames p n))
      → Leaves P (parse_round p arg value)
  unfolding parse_round
  round_cases p arg value capture debug port tcp webrtc webrtc_port stun read viewer frames =
      branch _ _ _ (λ _. capture)
        λ _.
          branch _ _ _ (λ _. debug)
            λ _.
              branch _ _ _ (λ _. valued value _ _ λ s. checked (parse_port s) _ _ (port s))
                λ _.
                  branch _ _ _ (λ _. tcp)
                    λ _.
                      branch _ _ _ (λ _. webrtc)
                        λ _.
                          branch _ _ _
                            (λ _. valued value _ _ λ s. checked (parse_port s) _ _ (webrtc_port s))
                            λ _.
                              branch _ _ _ (λ _. valued value _ _ stun)
                                λ _.
                                  branch _ _ _
                                    (λ _.
                                      valued value _ _
                                        λ s. checked (parse_read_policy s) _ _ λ r _. read r)
                                    λ _.
                                      branch _ _ _
                                        (λ _.
                                          valued value _ _ λ s.
                                            checked (parse_viewer_policy s) _ _ λ r _. viewer r)
                                        λ _.
                                          branch _ _ _
                                            (λ e. valued value _ _ λ s.
                                              checked (parse_positive_count s) _ _
                                                λ n h. frames s n e h)
                                            λ _. tt

positive_count : (s : String) (n : ℕ) → parse_positive_count s ≡ some n → 1 ≤ n
unfolding parse_positive_count
positive_count s n e = ground arith

ValidProgress : Progress → Type 0
ValidProgress p = IsValid p.config

round-IsValid :
    (p : Progress) (arg : String) (value : Option String)
    → IsValid p.config
    → Leaves ValidProgress (parse_round p arg value)
unfolding ValidProgress disable_capture enable_debug set_port enable_tcp disable_webrtc
    set_webrtc_port set_stun set_read_policy set_viewer_policy set_debug_frames
round-IsValid p arg value v =
    round_cases ValidProgress p arg value (ground arith) (ground arith)
      (λ s n e. ground (arith, (parse_port_iff s n).0 e)) (ground arith) (ground arith)
      (λ s n e. ground (arith, (parse_port_iff s n).0 e)) (λ s. ground arith) (λ r. ground arith)
      (λ r. ground arith) (λ s n d e. ground (arith, positive_count s n e))

round_outcome :
    (r : Round)
    → Leaves ValidProgress r
    → ((m : String) × (r ≡ fails m))
      ⊎ ((q : Progress) × (r ≡ next q) × IsValid q.config)
      ⊎ ((q : Progress) × (r ≡ next_after_value q) × IsValid q.config)
unfolding ValidProgress
round_outcome (fails message) h = inl (message, refl)
round_outcome (next q) h = inr (inl (q, refl, h))
round_outcome (next_after_value q) h = inr (inr (q, refl, h))

parse_args-IsValid :
    (args : List String) (p : Progress) → IsValid p.config → IsValid (parse_args p args).config
unfolding ValidProgress parse_args
parse_args-IsValid [] p v = v
parse_args-IsValid (arg ∷ []) p v =
    elim (round_outcome (parse_round p arg none) (round-IsValid p arg none v)) [
      | inl (m, e) ↦ rw (e, parse_args) v
      | inr (inl (q, e, h)) ↦ rw (e, parse_args) h
      | inr (inr (q, e, h)) ↦ rw (e, parse_args) h
    ]
parse_args-IsValid (arg ∷ value ∷ rest) p v =
    elim (round_outcome (parse_round p arg (some value)) (round-IsValid p arg (some value) v)) [
      | inl (m, e) ↦ rw (e, parse_args) v
      | inr (inl (q, e, h)) ↦ rw (e, parse_args) (parse_args-IsValid (value ∷ rest) q h)
      | inr (inr (q, e, h)) ↦ rw (e, parse_args) (parse_args-IsValid rest q h)
    ]

-- Whatever the arguments are, and also when the parse fails, the ports of the resulting
-- configuration lie in 1 to 65535 and its dump count is at least 1, if the defaults are such.
pub parse_command_line-IsValid :
    (args : List String) (defaults : AppConfig)
    → IsValid defaults
    → IsValid (parse_command_line args defaults).config
unfolding parse_command_line
parse_command_line-IsValid args defaults v =
    parse_args-IsValid args (record { config = defaults; viewer_dump_count_explicit = false }) v
