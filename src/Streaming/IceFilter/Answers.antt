-- ===== src/Streaming/IceFilter/Answers.antt =====
-- What the filter of WebRtcServer.cpp leaves of an answer.
use edge_vision.Prelude.{
  ℕ, ◌≡◌, refl, sym, ap, ◌∙◌, inl, inr, Bool, false, not, ◌&&◌, List, [], ◌∷◌, ◌++◌, map, Option,
  none, some, ◌==◌, All, Bool-cases, subst, if◌then◌else◌,
}
use edge_vision.Streaming.IceFilter.{
  DirectIpv4Link, starts_with, candidate_prefix, allow_remote_candidate, strip_line_end, get_lines,
  onto_line, write_line, filter_lines, filter_remote_answer_sdp,
}

abbrev IsLine : List ℕ → Type 0
IsLine = All (λ c. (c == 10) ≡ false)

abbrev pub refuses : Option DirectIpv4Link → List ℕ → Bool
refuses link line = starts_with candidate_prefix line && not (allow_remote_candidate link line)

-- The lines of an answer that are no refused candidates.
abbrev pub kept : Option DirectIpv4Link → List (List ℕ) → List (List ℕ)
kept link [] = []
kept link (l ∷ ls) = let rest = kept link ls in if refuses link l then rest else l ∷ rest

-- The lines of a text without their ends.
abbrev pub answer_lines : List ℕ → List (List ℕ)
answer_lines sdp = map strip_line_end (get_lines sdp)

onto_line-IsLine :
    (c : ℕ) (ls : List (List ℕ)) → (c == 10) ≡ false → All IsLine ls → All IsLine (onto_line c ls)
onto_line-IsLine c [] e v = ((e, tt), tt)
onto_line-IsLine c (l ∷ ls) e v = ((e, v.0), v.1)

get_lines-IsLine : (sdp : List ℕ) → All IsLine (get_lines sdp)
unfolding get_lines
get_lines-IsLine [] = tt
get_lines-IsLine (c ∷ cs) = elim (Bool-cases (c == 10)) [
  | inl e ↦ rw e (tt, get_lines-IsLine cs)
  | inr e ↦ rw e (onto_line-IsLine c (get_lines cs) e (get_lines-IsLine cs))
]

strip_line_end-IsLine : (l : List ℕ) → IsLine l → IsLine (strip_line_end l)
unfolding strip_line_end
strip_line_end-IsLine [] v = tt
strip_line_end-IsLine (c ∷ []) v = elim (Bool-cases (c == 13)) [ inl e ↦ rw e tt | inr e ↦ rw e v ]
strip_line_end-IsLine (c ∷ d ∷ cs) v = (v.0, strip_line_end-IsLine (d ∷ cs) v.1)

strip_line_end-return : (l : List ℕ) → strip_line_end (l ++ 13 ∷ []) ≡ l
unfolding strip_line_end
strip_line_end-return [] = refl
strip_line_end-return (c ∷ []) = refl
strip_line_end-return (c ∷ d ∷ cs) = ap (λ l. c ∷ l) (strip_line_end-return (d ∷ cs))

-- A written line is read again, with the carriage return.
get_lines-line :
    (l rest : List ℕ) → IsLine l → get_lines (l ++ 13 ∷ 10 ∷ rest) ≡ (l ++ 13 ∷ []) ∷ get_lines rest
unfolding get_lines
get_lines-line [] rest v = refl
get_lines-line (c ∷ cs) rest v = rw (v.0, get_lines-line cs rest v.1) refl

write_line-lines :
    (link : Option DirectIpv4Link) (l rest : List ℕ)
    → IsLine l
    → answer_lines (write_line link l rest)
      ≡ (if refuses link l then answer_lines rest else l ∷ answer_lines rest)
unfolding write_line
write_line-lines link l rest v = elim (Bool-cases (refuses link l)) [
  | inl e ↦ rw e refl
  | inr e ↦ rw (e, get_lines-line l rest v, strip_line_end-return l) refl
]

filter_lines-lines :
    (link : Option DirectIpv4Link) (ls : List (List ℕ))
    → All IsLine ls
    → answer_lines (filter_lines link ls) ≡ kept link (map strip_line_end ls)
unfolding filter_lines get_lines
filter_lines-lines link [] v = refl
filter_lines-lines link (l ∷ ls) v =
    rw
      (
        write_line-lines link (strip_line_end l) (filter_lines link ls)
            (strip_line_end-IsLine l v.0),
        filter_lines-lines link ls v.1,
      )
      refl

kept-allowed :
    (link : Option DirectIpv4Link) (ls : List (List ℕ))
    → All (λ l. refuses link l ≡ false) (kept link ls)
kept-allowed link [] = tt
kept-allowed link (l ∷ ls) = elim (Bool-cases (refuses link l)) [
  | inl e ↦ rw e (kept-allowed link ls)
  | inr e ↦ rw e (e, kept-allowed link ls)
]

kept-none : (ls : List (List ℕ)) → kept none ls ≡ ls
unfolding allow_remote_candidate
kept-none [] = refl
kept-none (l ∷ ls) = elim (Bool-cases (starts_with candidate_prefix l)) [
  | inl e ↦ rw (e, kept-none ls) refl
  | inr e ↦ rw (e, kept-none ls) refl
]

-- What is written for lines without their ends.
write_lines : Option DirectIpv4Link → List (List ℕ) → List ℕ
write_lines link [] = []
write_lines link (l ∷ ls) = write_line link l (write_lines link ls)

filter_lines-written :
    (link : Option DirectIpv4Link) (ls : List (List ℕ))
    → filter_lines link ls ≡ write_lines link (map strip_line_end ls)
unfolding filter_lines write_lines
filter_lines-written link [] = refl
filter_lines-written link (l ∷ ls) =
    ap (write_line link (strip_line_end l)) (filter_lines-written link ls)

write_lines-kept :
    (link : Option DirectIpv4Link) (ls : List (List ℕ))
    → write_lines link (kept link ls) ≡ write_lines link ls
unfolding write_lines write_line
write_lines-kept link [] = refl
write_lines-kept link (l ∷ ls) = elim (Bool-cases (refuses link l)) [
  | inl e ↦ rw (e, write_lines-kept link ls) refl
  | inr e ↦ rw (e, e, write_lines-kept link ls) refl
]

filtered_lines :
    (link : Option DirectIpv4Link) (sdp : List ℕ)
    → answer_lines (filter_remote_answer_sdp link sdp) ≡ kept link (answer_lines sdp)
unfolding filter_remote_answer_sdp
filtered_lines none sdp = sym (kept-none (answer_lines sdp))
filtered_lines (some link) sdp =
    filter_lines-lines (some link) (get_lines sdp) (get_lines-IsLine sdp)

filtered_again :
    (link : Option DirectIpv4Link) (sdp : List ℕ)
    → filter_remote_answer_sdp link (filter_remote_answer_sdp link sdp)
      ≡ filter_remote_answer_sdp link sdp
unfolding filter_remote_answer_sdp
filtered_again none sdp = refl
filtered_again (some link) sdp =
    filter_lines-written (some link) (get_lines (filter_lines (some link) (get_lines sdp)))
    ∙ ap (write_lines (some link)) (filtered_lines (some link) sdp)
    ∙ write_lines-kept (some link) (answer_lines sdp)
    ∙ sym (filter_lines-written (some link) (get_lines sdp))

-- With or without a direct link, the lines of the filtered answer are, in their order, exactly the
-- lines of the answer that are no candidate which the link refuses, none of them is such a candidate, and
-- filtering once more changes nothing.
pub filter_remote_answer_sdp-lines :
    (link : Option DirectIpv4Link) (sdp : List ℕ)
    → (answer_lines (filter_remote_answer_sdp link sdp) ≡ kept link (answer_lines sdp))
      × (All (λ l. refuses link l ≡ false) (answer_lines (filter_remote_answer_sdp link sdp))
          × (filter_remote_answer_sdp link (filter_remote_answer_sdp link sdp)
              ≡ filter_remote_answer_sdp link sdp))
filter_remote_answer_sdp-lines link sdp = (
  filtered_lines link sdp,
  (
    subst (All (λ l. refuses link l ≡ false)) (sym (filtered_lines link sdp))
        (kept-allowed link (answer_lines sdp)),
    filtered_again link sdp,
  ),
)
