-- ===== src/Model/Viewer/OutputStore.antt =====
-- src/model/src/viewer/RenderOutputStore.cpp.
pub mod Log
use edge_vision.Prelude.{
  ℕ, ◌-◌, max, min, Bool, List, [], ◌∷◌, ◌++◌, Option, none, some, ltb, length, drop, if◌then◌else◌,
}
use edge_vision.Model.Viewer.{RenderOutput}

pub record RenderOutputStore : Type 0 where
  pub capacity : ℕ
  pub history : List RenderOutput
  pub latest_output : Option RenderOutput

unfoldable pub make_output_store : ℕ → RenderOutputStore
make_output_store capacity = record {
  capacity = max 1 capacity;
  history = [];
  latest_output = none;
}

-- while (m_history.size() > m_capacity) m_history.pop_front();
unfoldable pub trim : ℕ → List RenderOutput → List RenderOutput
trim capacity [] = []
trim capacity (o ∷ os) =
    let rest = trim capacity os in if ltb capacity (length (o ∷ os)) then rest else o ∷ os

unfoldable pub publish : RenderOutput → RenderOutputStore → RenderOutputStore
unfolding trim
publish output s = record s {
  history = trim s.capacity (s.history ++ output ∷ []);
  latest_output = some output;
}

unfoldable pub latest : RenderOutputStore → Option RenderOutput
latest s = s.latest_output

-- The outputs from the index `size - min(count, size)` to the end, which is what the loop copies.
unfoldable pub recent : ℕ → RenderOutputStore → List RenderOutput
recent count s = drop (length s.history - min count (length s.history)) s.history
