-- ===== src/Model/Scene/VersionStore.antt =====
-- src/model/src/scene/SceneVersionStore.cpp and state/SceneVersionHistory.cpp: the newest scene
-- versions, oldest first, beside a map by id.
pub mod Window
use edge_vision.Prelude.{
  ℕ, zero, suc, max, Bool, true, false, List, [], ◌∷◌, ◌++◌, Option, none, some, ltb, length,
  lookup, insert, erase, ◌==◌, if◌then◌else◌,
}
use edge_vision.Model.Scene.{SceneVersion}

pub record SceneVersionHistory : Type 0 where
  pub latest_version : Option SceneVersion
  pub history : List SceneVersion
  pub versions_by_id : List (ℕ × SceneVersion)

unfoldable pub add_version : SceneVersion → SceneVersionHistory → SceneVersionHistory
add_version version h = record {
  latest_version = some version;
  history = h.history ++ version ∷ [];
  versions_by_id = insert version.version_id version h.versions_by_id;
}

-- std::find_if and erase of the element found, if any.
unfoldable pub erase_first : ℕ → List SceneVersion → List SceneVersion
erase_first id [] = []
erase_first id (v ∷ vs) =
    let rest = v ∷ erase_first id vs in if v.version_id == id then vs else rest

unfoldable pub remove_version : ℕ → SceneVersionHistory → SceneVersionHistory
unfolding erase_first
remove_version id h = record h {
  history = erase_first id h.history;
  versions_by_id = erase id h.versions_by_id;
}

abbrev pub front_id : List SceneVersion → Option ℕ
front_id [] = none
front_id (v ∷ vs) = some v.version_id

unfoldable pub oldest_version_id : SceneVersionHistory → Option ℕ
oldest_version_id h = front_id h.history

unfoldable pub size : SceneVersionHistory → ℕ
size h = length h.history

pub record SceneVersionStore : Type 0 where
  pub capacity : ℕ
  pub versions : SceneVersionHistory

unfoldable pub make_version_store : ℕ → SceneVersionStore
make_version_store capacity = record {
  capacity = max 1 capacity;
  versions = record { latest_version = none; history = []; versions_by_id = [] };
}

-- The loop of SceneVersionStore::add, on fuel.
unfoldable pub trim_loop : ℕ → ℕ → SceneVersionHistory → SceneVersionHistory
unfolding remove_version oldest_version_id size
trim_loop zero capacity h = h
trim_loop (suc fuel) capacity h = elim (ltb capacity (size h)) [
  | false ↦ h
  | true ↦ elim (oldest_version_id h) [
    | none ↦ h
    | some id ↦ trim_loop fuel capacity (remove_version id h)
  ]
]

-- Each round takes the oldest version out, so as many rounds as there are versions are enough.
unfoldable pub add : SceneVersion → SceneVersionStore → SceneVersionStore
unfolding add_version
add version s =
    let h = add_version version s.versions in
    record s { versions = trim_loop (size h) s.capacity h }

unfoldable pub latest : SceneVersionStore → Option SceneVersion
latest s = s.versions.latest_version

unfoldable pub get : ℕ → SceneVersionStore → Option SceneVersion
get id s = lookup id s.versions.versions_by_id
