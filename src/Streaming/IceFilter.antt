-- ===== src/Streaming/IceFilter.antt =====
-- src/streaming/webrtc/src/WebRtcServer.cpp: the filter that keeps the ICE candidates of one direct IPv4 link.
-- A text is the list of its bytes, `std::tolower` that of the "C" locale; the log lines are left out.
pub mod Answers
use edge_vision.Prelude.{
  ℕ, ◌+◌, Bool, true, false, not, ◌&&◌, ◌||◌, List, [], ◌∷◌, ◌++◌, map, Option, none, some, is_some,
  ◌==◌, leb, if◌then◌else◌,
}

pub record DirectIpv4Link : Type 0 where
  pub server_ip : List ℕ
  pub client_ip : List ℕ

abbrev pub to_lower : ℕ → ℕ
to_lower c = if leb 65 c && leb c 90 then c + 32 else c

abbrev pub to_lower_ascii : List ℕ → List ℕ
to_lower_ascii = map to_lower

-- `text.rfind(token, 0) == 0`
abbrev pub starts_with : List ℕ → List ℕ → Bool
starts_with [] text = true
starts_with (c ∷ token) [] = false
starts_with (c ∷ token) (d ∷ text) = c == d && starts_with token text

-- `text.find(token) != npos`
abbrev pub has_token : List ℕ → List ℕ → Bool
has_token token [] = starts_with token []
has_token token (d ∷ text) = starts_with token (d ∷ text) || has_token token text

-- The parts before and after the first comma.
abbrev pub split_at_comma : List ℕ → Option (List ℕ × List ℕ)
split_at_comma [] = none
split_at_comma (c ∷ cs) =
    if c == 44
    then some ([], cs)
    else elim (split_at_comma cs) [ none ↦ none | some (before, after) ↦ some (c ∷ before, after) ]

-- directIpv4LinkFromEnv, of the value of the variable.
unfoldable pub direct_ipv4_link : Option (List ℕ) → Option DirectIpv4Link
direct_ipv4_link none = none
direct_ipv4_link (some raw) = elim (split_at_comma raw) [
  | none ↦ none
  | some ([], after) ↦ none
  | some (c ∷ before, []) ↦ none
  | some (c ∷ before, d ∷ after) ↦ some (record { server_ip = c ∷ before; client_ip = d ∷ after })
]

pub data DropReason : Type 0 where
  not_udp : DropReason
  not_host : DropReason
  not_required_ip : List ℕ → DropReason

-- " udp ", " typ host" and "a=candidate:".
abbrev pub udp_token : List ℕ
udp_token = 32 ∷ 117 ∷ 100 ∷ 112 ∷ 32 ∷ []

abbrev pub host_token : List ℕ
host_token = 32 ∷ 116 ∷ 121 ∷ 112 ∷ 32 ∷ 104 ∷ 111 ∷ 115 ∷ 116 ∷ []

abbrev pub candidate_prefix : List ℕ
candidate_prefix = 97 ∷ 61 ∷ 99 ∷ 97 ∷ 110 ∷ 100 ∷ 105 ∷ 100 ∷ 97 ∷ 116 ∷ 101 ∷ 58 ∷ []

-- directCandidateDropReason, with `none` for the empty text.
unfoldable pub direct_candidate_drop_reason : List ℕ → List ℕ → Option DropReason
direct_candidate_drop_reason candidate required_ip =
    if not (has_token udp_token (to_lower_ascii candidate))
    then some not_udp
    else if not (has_token host_token (to_lower_ascii candidate))
    then some not_host
    else if not (has_token (32 ∷ required_ip ++ 32 ∷ []) candidate)
    then some (not_required_ip required_ip)
    else none

unfoldable pub allow_local_candidate : Option DirectIpv4Link → List ℕ → Bool
allow_local_candidate none candidate = true
allow_local_candidate (some link) candidate =
    not (is_some (direct_candidate_drop_reason candidate link.server_ip))

unfoldable pub allow_remote_candidate : Option DirectIpv4Link → List ℕ → Bool
allow_remote_candidate none candidate = true
allow_remote_candidate (some link) candidate =
    not (is_some (direct_candidate_drop_reason candidate link.client_ip))

unfoldable pub strip_line_end : List ℕ → List ℕ
strip_line_end [] = []
strip_line_end (c ∷ []) = if c == 13 then [] else c ∷ []
strip_line_end (c ∷ d ∷ cs) = c ∷ strip_line_end (d ∷ cs)

abbrev onto_line : ℕ → List (List ℕ) → List (List ℕ)
onto_line c [] = (c ∷ []) ∷ []
onto_line c (l ∷ ls) = (c ∷ l) ∷ ls

-- The lines that `std::getline` reads, until the text has no more.
unfoldable pub get_lines : List ℕ → List (List ℕ)
get_lines [] = []
get_lines (c ∷ cs) = if c == 10 then [] ∷ get_lines cs else onto_line c (get_lines cs)

-- The body of the loop, with what the later lines write.
unfoldable pub write_line : Option DirectIpv4Link → List ℕ → List ℕ → List ℕ
write_line link line rest =
    if starts_with candidate_prefix line && not (allow_remote_candidate link line)
    then rest
    else line ++ 13 ∷ 10 ∷ rest

unfoldable pub filter_lines : Option DirectIpv4Link → List (List ℕ) → List ℕ
filter_lines link [] = []
filter_lines link (l ∷ ls) = write_line link (strip_line_end l) (filter_lines link ls)

-- filterRemoteAnswerSdpForDirectIpv4.
unfoldable pub filter_remote_answer_sdp : Option DirectIpv4Link → List ℕ → List ℕ
filter_remote_answer_sdp none sdp = sdp
filter_remote_answer_sdp (some link) sdp = filter_lines (some link) (get_lines sdp)
