-- ===== src/Model/Viewer/OutputStore/Log.antt =====
-- RenderOutputStore.cpp against the whole log of what has been published: the store is a window on
-- the log's end.
use edge_vision.Prelude.{
  ℕ, suc, ◌-◌, ◌≤◌, ◌≡◌, refl, sym, ◌∙◌, max, min, List, [], ◌∷◌, ◌++◌, arith, length, drop,
  get_last?, length-append, length-drop, drop-drop, drop-append_of_le, get_last?-append, zero, ap,
}
use mathlib.Core.List.{append-nil, append_assoc}
use native.Mathlib.Decide.{dec_lt}
use edge_vision.Model.Viewer.{RenderOutput}
use edge_vision.Model.Viewer.OutputStore.{
  RenderOutputStore, make_output_store, trim, publish, latest, recent,
}

-- The last `count` elements, or all of them.
abbrev pub last_of : ℕ → List RenderOutput → List RenderOutput
last_of count log = drop (length log - count) log

trim-last_of : (capacity : ℕ) (os : List RenderOutput) → trim capacity os ≡ last_of capacity os
unfolding trim
trim-last_of capacity [] = drop_none (0 - capacity)
  where
    drop_none : (n : ℕ) → [] ≡ drop {A = RenderOutput} n []
    drop_none zero = refl
    drop_none (suc n) = refl
trim-last_of capacity (o ∷ os) = elim (dec_lt capacity (suc (length os))) [
  | yes more ↦
      let e : suc (length os) - capacity ≡ suc (length os - capacity) = omega arith in
      rw e (ground (arith, trim-last_of capacity os))
  | no enough ↦ let e : suc (length os) - capacity ≡ 0 = omega arith in rw e (ground arith)
]

pub record Shows (s : RenderOutputStore) (log : List RenderOutput) : Type 0 where
  pub capacity_pos : 1 ≤ s.capacity
  pub window : s.history ≡ last_of s.capacity log
  pub newest : s.latest_output ≡ get_last? log

unfoldable pub publish_all : List RenderOutput → RenderOutputStore → RenderOutputStore
publish_all [] s = s
publish_all (o ∷ os) s = publish_all os (publish o s)

last_of-append :
    (count : ℕ) (log : List RenderOutput) (o : RenderOutput)
    → last_of count (last_of count log ++ o ∷ []) ≡ last_of count (log ++ o ∷ [])
last_of-append count log o =
    let k = length log - count in
    let short = drop-append_of_le k log (o ∷ []) (omega arith) in
    rw (← short, drop-drop, length-drop, length-append)
      (ap (λ n. drop n (log ++ o ∷ [])) (omega arith))

-- Publishing extends the log: the history stays its last `capacity` outputs, and the latest output
-- its last one.
pub publish-Shows :
    (o : RenderOutput) (s : RenderOutputStore) (log : List RenderOutput)
    → Shows s log
    → Shows (publish o s) (log ++ o ∷ [])
unfolding publish
publish-Shows o s log v = record {
  capacity_pos = v.capacity_pos;
  window =
      trim-last_of s.capacity (s.history ++ o ∷ [])
      ∙ ap (λ h. last_of s.capacity (h ++ o ∷ [])) v.window
      ∙ last_of-append s.capacity log o;
  newest = sym (get_last?-append log o);
}

-- `recent` gives the newest outputs of the whole log, oldest first: as many as are asked for, as the
-- capacity allows, and as there are.
pub recent-Shows :
    (count : ℕ) (s : RenderOutputStore) (log : List RenderOutput)
    → Shows s log
    → recent count s ≡ last_of (min count s.capacity) log
unfolding recent
recent-Shows count s log v =
    rw (v.window, drop-drop, length-drop) (ap (λ n. drop n log) (omega arith))

pub publish_all-Shows :
    (os : List RenderOutput) (s : RenderOutputStore) (log : List RenderOutput)
    → Shows s log
    → Shows (publish_all os s) (log ++ os)
unfolding publish_all
publish_all-Shows [] s log v = rw append-nil v
publish_all-Shows (o ∷ os) s log v =
    rw (sym (append_assoc log (o ∷ []) os))
      (publish_all-Shows os (publish o s) (log ++ o ∷ []) (publish-Shows o s log v))

fresh : (capacity : ℕ) → Shows (make_output_store capacity) []
unfolding make_output_store
fresh capacity = record {
  capacity_pos = omega arith;
  window = unfold trim in trim-last_of (max 1 capacity) [];
  newest = refl;
}

capacity-publish_all :
    (os : List RenderOutput) (s : RenderOutputStore) → (publish_all os s).capacity ≡ s.capacity
unfolding publish_all publish
capacity-publish_all [] s = refl
capacity-publish_all (o ∷ os) s = capacity-publish_all os (publish o s)

kept_capacity :
    (os : List RenderOutput) (capacity : ℕ)
    → (publish_all os (make_output_store capacity)).capacity ≡ max 1 capacity
unfolding make_output_store
kept_capacity os capacity = capacity-publish_all os (make_output_store capacity)

-- A new store shows the empty log, so after any outputs it holds the last `capacity` of them, at
-- least one being kept, and gives the last of them as the latest.
pub published_window :
    (capacity count : ℕ) (os : List RenderOutput)
    → let s = publish_all os (make_output_store capacity) in
      (recent count s ≡ last_of (min count (max 1 capacity)) os) × (latest s ≡ get_last? os)
unfolding latest
published_window capacity count os =
    let v = publish_all-Shows os (make_output_store capacity) [] (fresh capacity) in
    (
      recent-Shows count _ os v ∙ ap (λ c. last_of (min count c) os) (kept_capacity os capacity),
      v.newest,
    )
