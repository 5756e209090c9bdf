-- ===== src/Model/Frame/History.antt =====
-- src/model/src/frame/state/FrameHistory.cpp: the stored frames, oldest first, beside a map by id.
pub mod Order
use edge_vision.Prelude.{
  ℕ, ◌-◌, min, Bool, List, [], ◌∷◌, ◌++◌, Option, none, some, length, drop, lookup, insert, erase,
  ◌==◌, if◌then◌else◌,
}
use edge_vision.Model.Frame.{Frame, FrameTimestamp}

pub record FrameHistory : Type 0 where
  pub latest_frame : Option Frame
  pub history : List Frame
  pub frames_by_id : List (ℕ × Frame)

abbrev pub empty_history : FrameHistory
empty_history = record { latest_frame = none; history = []; frames_by_id = [] }

unfoldable pub add_frame : Frame → FrameHistory → FrameHistory
add_frame frame h = record {
  latest_frame = some frame;
  history = h.history ++ frame ∷ [];
  frames_by_id = insert frame.frame_id frame h.frames_by_id;
}

-- std::find_if and erase of the element found, if any.
unfoldable pub erase_first : ℕ → List Frame → List Frame
erase_first id [] = []
erase_first id (f ∷ fs) = let rest = f ∷ erase_first id fs in if f.frame_id == id then fs else rest

unfoldable pub remove_frame : ℕ → FrameHistory → FrameHistory
remove_frame id h = record h {
  history = erase_first id h.history;
  frames_by_id = erase id h.frames_by_id;
}

unfoldable pub latest : FrameHistory → Option Frame
latest h = h.latest_frame

unfoldable pub get : ℕ → FrameHistory → Option Frame
get id h = lookup id h.frames_by_id

-- The frames from the index `size - min(count, size)` to the end, which is what the loop copies.
unfoldable pub recent : ℕ → FrameHistory → List Frame
recent count h = drop (length h.history - min count (length h.history)) h.history

unfoldable pub size : FrameHistory → ℕ
size h = length h.history

abbrev pub id_of : Option Frame → Option ℕ
id_of none = none
id_of (some f) = some f.frame_id

abbrev pub timestamp_of : Option Frame → Option FrameTimestamp
timestamp_of none = none
timestamp_of (some f) = some f.timestamp

unfoldable pub latest_frame_id : FrameHistory → Option ℕ
latest_frame_id h = id_of h.latest_frame

unfoldable pub latest_timestamp : FrameHistory → Option FrameTimestamp
latest_timestamp h = timestamp_of h.latest_frame

unfoldable pub find_id : (ℕ → Bool) → List Frame → Option ℕ
find_id can_evict [] = none
find_id can_evict (f ∷ fs) =
    let rest = find_id can_evict fs in if can_evict f.frame_id then some f.frame_id else rest

unfoldable pub find_oldest_evictable : (ℕ → Bool) → FrameHistory → Option ℕ
unfolding find_id
find_oldest_evictable can_evict h = find_id can_evict h.history
