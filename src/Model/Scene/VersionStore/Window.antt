-- ===== src/Model/Scene/VersionStore/Window.antt =====
-- SceneVersionStore.cpp against the log of the versions that have been added.
use mathlib.Core.List.{append-nil, append_assoc}
use native.Mathlib.Decide.{dec_lt}
use edge_vision.Prelude.{
  ℕ, zero, suc, ◌-◌, ◌≤◌, ◌<◌, ◌≡◌, refl, subst, sym, ap, ◌∙◌, max, List, [], ◌∷◌, ◌++◌, Option,
  none, some, arith, All, length, drop, get_last?, inl, inr, Option-cases, length-append,
  length-drop, drop-drop, drop-append_of_le, get_last?-append, All-drop, lookup, lookup-insert,
  lookup-erase, ◌==◌, if◌then◌else◌,
}
use edge_vision.Model.Scene.{SceneVersion}
use edge_vision.Model.Scene.VersionStore.{
  SceneVersionHistory, SceneVersionStore, add_version, remove_version, trim_loop, size,
  oldest_version_id, make_version_store, add, get, latest, front_id,
}

-- The version with an id.
unfoldable pub find_version : ℕ → List SceneVersion → Option SceneVersion
find_version id [] = none
find_version id (v ∷ vs) = if v.version_id == id then some v else find_version id vs

-- Ids rise strictly along the list, from above `n`.
abbrev pub Rising : ℕ → List SceneVersion → Type 0
Rising n [] = Unit {0}
Rising n (v ∷ vs) = (n < v.version_id) × Rising v.version_id vs

Rising-mono : {m n : ℕ} (vs : List SceneVersion) → m ≤ n → Rising n vs → Rising m vs
Rising-mono [] h r = tt
Rising-mono (v ∷ vs) h r = (omega arith, r.1)

find_version-below :
    (id n : ℕ) (vs : List SceneVersion) → Rising n vs → id ≤ n → find_version id vs ≡ none
unfolding find_version
find_version-below id n [] r h = refl
find_version-below id n (v ∷ vs) r h = ground (arith, find_version-below id v.version_id vs r.1)

find_version-append :
    (id : ℕ) (vs : List SceneVersion) (v : SceneVersion)
    → All (λ w. w.version_id < v.version_id) vs
    → find_version id (vs ++ v ∷ []) ≡ (if v.version_id == id then some v else find_version id vs)
unfolding find_version
find_version-append id [] v h = refl
find_version-append id (w ∷ vs) v h = ground (arith, find_version-append id vs v h.1)

Rising-append :
    (n : ℕ) (vs : List SceneVersion) (v : SceneVersion)
    → Rising n vs
    → All (λ w. w.version_id < v.version_id) vs
    → n < v.version_id
    → Rising n (vs ++ v ∷ [])
Rising-append n [] v r h l = (l, tt)
Rising-append n (w ∷ vs) v r h l = (r.0, Rising-append w.version_id vs v r.1 h.1 h.0)

-- The ids rise, and the map has exactly the versions of the list.
pub record Indexed (h : SceneVersionHistory) (vs : List SceneVersion) : Type 0 where
  pub same : h.history ≡ vs
  pub rising : Rising 0 vs
  pub agrees : (id : ℕ) → lookup id h.versions_by_id ≡ find_version id vs

remove_front :
    (h : SceneVersionHistory) (v : SceneVersion) (vs : List SceneVersion)
    → Indexed h (v ∷ vs)
    → Indexed (remove_version v.version_id h) vs
unfolding remove_version find_version
remove_front h v vs x = record {
  same = rw (x.same) (ground arith);
  rising = Rising-mono vs (omega arith) x.rising.1;
  agrees = λ id. ground (
    arith,
    x.agrees id,
    lookup-erase id v.version_id h.versions_by_id,
    find_version-below id v.version_id vs x.rising.1,
  );
}

trim_stops :
    (fuel capacity : ℕ) (h : SceneVersionHistory)
    → length h.history ≤ capacity
    → trim_loop fuel capacity h ≡ h
unfolding trim_loop
trim_stops zero capacity h l = refl
trim_stops (suc fuel) capacity h l = ground arith

trim_goes :
    (fuel capacity : ℕ) (h : SceneVersionHistory) (v : SceneVersion) (vs : List SceneVersion)
    → h.history ≡ v ∷ vs
    → capacity < suc (length vs)
    → trim_loop (suc fuel) capacity h ≡ trim_loop fuel capacity (remove_version v.version_id h)
unfolding trim_loop
trim_goes fuel capacity h v vs e l = ground (arith, front, ap length e)
  where
    front : front_id h.history ≡ some v.version_id
    front = rw e

trim_loop-Indexed :
    (fuel capacity : ℕ) (h : SceneVersionHistory) (vs : List SceneVersion)
    → Indexed h vs
    → length vs ≤ fuel
    → Indexed (trim_loop fuel capacity h) (drop (length vs - capacity) vs)
trim_loop-Indexed fuel capacity h [] x l =
    let e : 0 - capacity ≡ 0 = omega arith in
    rw (e, trim_stops fuel capacity h (rw x.same (omega arith))) x
trim_loop-Indexed zero capacity h (v ∷ vs) x l = elim l [ ]
trim_loop-Indexed (suc fuel) capacity h (v ∷ vs) x l = elim (dec_lt capacity (suc (length vs))) [
  | yes more ↦
      let e : suc (length vs) - capacity ≡ suc (length vs - capacity) = omega arith in
      rw (e, trim_goes fuel capacity h v vs x.same more)
        (trim_loop-Indexed fuel capacity (remove_version v.version_id h) vs (remove_front h v vs x)
          (omega arith))
  | no enough ↦
      let e : suc (length vs) - capacity ≡ 0 = omega arith in
      rw (e, trim_stops (suc fuel) capacity h (rw x.same (omega arith))) x
]

trim_loop-latest :
    (fuel capacity : ℕ) (h : SceneVersionHistory)
    → (trim_loop fuel capacity h).latest_version ≡ h.latest_version
unfolding trim_loop
trim_loop-latest zero capacity h = refl
trim_loop-latest (suc fuel) capacity h = elim (Option-cases (oldest_version_id h)) [
  | inl e ↦ ground arith
  | inr (id, e) ↦ ground (arith, trim_loop-latest fuel capacity (remove_version id h))
]

-- The last `count` versions, or all of them.
abbrev pub last_of : ℕ → List SceneVersion → List SceneVersion
last_of count log = drop (length log - count) log

-- The store shows a log of versions with rising ids: it holds the log's last `capacity` versions, by
-- id too, and its last one as the latest.
pub record Shows (s : SceneVersionStore) (log : List SceneVersion) : Type 0 where
  pub capacity_pos : 1 ≤ s.capacity
  pub indexed : Indexed s.versions (last_of s.capacity log)
  pub newest : s.versions.latest_version ≡ get_last? log

last_of-append :
    (count : ℕ) (log : List SceneVersion) (v : SceneVersion)
    → last_of count (last_of count log ++ v ∷ []) ≡ last_of count (log ++ v ∷ [])
last_of-append count log v =
    let k = length log - count in
    let short = drop-append_of_le k log (v ∷ []) (omega arith) in
    rw (← short, drop-drop, length-drop, length-append)
      (ap (λ n. drop n (log ++ v ∷ [])) (omega arith))

add_version-Indexed :
    (h : SceneVersionHistory) (vs : List SceneVersion) (v : SceneVersion)
    → Indexed h vs
    → All (λ w. w.version_id < v.version_id) vs
    → 0 < v.version_id
    → Indexed (add_version v h) (vs ++ v ∷ [])
unfolding add_version
add_version-Indexed h vs v x newer f = record {
  same = ap (λ ws. ws ++ v ∷ []) x.same;
  rising = Rising-append 0 vs v x.rising newer f;
  agrees = λ id. ground (
    arith,
    x.agrees id,
    lookup-insert id v.version_id v h.versions_by_id,
    find_version-append id vs v newer,
  );
}

-- A version newer than all before joins the log, and the store still shows it.
pub add-Shows :
    (v : SceneVersion) (s : SceneVersionStore) (log : List SceneVersion)
    → Shows s log
    → All (λ w. w.version_id < v.version_id) log
    → 0 < v.version_id
    → Shows (add v s) (log ++ v ∷ [])
unfolding add size
add-Shows v s log x newer p =
    let k = length log - s.capacity in
    let before = last_of s.capacity log in
    let joined = add_version-Indexed s.versions before v x.indexed (All-drop _ k log newer) p in
    let h = add_version v s.versions in
    record {
      capacity_pos = x.capacity_pos;
      indexed =
          subst (Indexed (trim_loop (length h.history) s.capacity h))
            (last_of-append s.capacity log v)
            (trim_loop-Indexed (length h.history) s.capacity h (before ++ v ∷ []) joined
              (rw joined.same (omega arith)));
      newest =
          trim_loop-latest (length h.history) s.capacity h
          ∙ unfold add_version in sym (get_last?-append log v);
    }

make_version_store-Shows : (capacity : ℕ) → Shows (make_version_store capacity) []
unfolding make_version_store find_version lookup
make_version_store-Shows capacity =
    let e : 0 - max 1 capacity ≡ 0 = omega arith in
    record {
      capacity_pos = omega arith;
      indexed = rw e (record { same = refl; rising = tt; agrees = λ id. refl });
      newest = refl;
    }

unfoldable pub add_all : List SceneVersion → SceneVersionStore → SceneVersionStore
add_all [] s = s
add_all (v ∷ vs) s = add_all vs (add v s)

-- Every version is newer than those before it, and than those of the log.
abbrev pub Extends : List SceneVersion → List SceneVersion → Type 0
Extends log [] = Unit {0}
Extends log (v ∷ vs) =
    All (λ w. w.version_id < v.version_id) log × (0 < v.version_id) × Extends (log ++ v ∷ []) vs

add_all-Shows :
    (vs : List SceneVersion) (s : SceneVersionStore) (log : List SceneVersion)
    → Shows s log
    → Extends log vs
    → Shows (add_all vs s) (log ++ vs)
unfolding add_all
add_all-Shows [] s log x e = rw append-nil x
add_all-Shows (v ∷ vs) s log x e =
    rw (sym (append_assoc log (v ∷ []) vs))
      (add_all-Shows vs (add v s) (log ++ v ∷ []) (add-Shows v s log x e.0 e.1) e.2)

capacity-add_all :
    (vs : List SceneVersion) (s : SceneVersionStore) → (add_all vs s).capacity ≡ s.capacity
unfolding add_all add
capacity-add_all [] s = refl
capacity-add_all (v ∷ vs) s = capacity-add_all vs (add v s)

-- After any versions with rising ids, a new store finds by id the last `capacity` of them and no
-- other, at least one being kept, and its latest version is the last of them.
pub added_window :
    (capacity id : ℕ) (vs : List SceneVersion)
    → Extends [] vs
    → let s = add_all vs (make_version_store capacity) in
      (get id s ≡ find_version id (last_of (max 1 capacity) vs)) × (latest s ≡ get_last? vs)
unfolding get latest
added_window capacity id vs e =
    let x =
      add_all-Shows vs (make_version_store capacity) [] (make_version_store-Shows capacity) e in
    let c : (add_all vs (make_version_store capacity)).capacity ≡ max 1 capacity =
      unfold make_version_store in capacity-add_all vs (make_version_store capacity) in
    (x.indexed.agrees id ∙ ap (λ n. find_version id (last_of n vs)) c, x.newest)
