-- ===== src/Model/Scene/Shared/Exclusion.antt =====
-- What holds of a shared scene after any events of its threads.
use edge_vision.Prelude.{
  ℕ, zero, suc, ◌+◌, ◌-◌, ◌≤◌, ◌<◌, ◌≡◌, refl, subst, ◌⊎◌, inl, inr, Bool, true, false, not, List,
  [], ◌∷◌, some, arith, All, length, inc64, get_elem?, u64_mod, Bool-cases, Option-cases,
}
use native.Mathlib.Nat.{add-zero}
use edge_vision.Config.{SceneConfig}
use edge_vision.Model.Scene.Shared.{
  SceneAccessLease, SceneLockMode, read_mode, write_mode, is_write, make_state, can_acquire_read,
  can_acquire_write, arrive_read, acquire_read, arrive_write, acquire_write, release, publish, owns,
}
use edge_vision.Model.Scene.Shared.Threads.{
  Scene, Event, reader_arrives, reader_enters, writer_arrives, writer_enters, releases, publishes,
  remove, replace, reader_may_enter, writer_may_enter, publish_through, step, run,
}

abbrev one_if : Bool → ℕ
one_if true = 1
one_if false = 0

unfoldable pub readers : List SceneAccessLease → ℕ
readers [] = 0
readers (l ∷ ls) = one_if (not (is_write l.mode)) + readers ls

unfoldable pub writers : List SceneAccessLease → ℕ
writers [] = 0
writers (l ∷ ls) = one_if (is_write l.mode) + writers ls

readers-remove :
    (i : ℕ) (ls : List SceneAccessLease) (l : SceneAccessLease)
    → get_elem? ls i ≡ some l
    → readers (remove i ls) + one_if (not (is_write l.mode)) ≡ readers ls
unfolding readers remove
readers-remove i [] l e = ground arith
readers-remove zero (x ∷ ls) l e = ground arith
readers-remove (suc i) (x ∷ ls) l e = omega (arith, readers-remove i ls l e)

writers-remove :
    (i : ℕ) (ls : List SceneAccessLease) (l : SceneAccessLease)
    → get_elem? ls i ≡ some l
    → writers (remove i ls) + one_if (is_write l.mode) ≡ writers ls
unfolding writers remove
writers-remove i [] l e = ground arith
writers-remove zero (x ∷ ls) l e = ground arith
writers-remove (suc i) (x ∷ ls) l e = omega (arith, writers-remove i ls l e)

All-remove {κ} :
    (P : SceneAccessLease → Type κ) (i : ℕ) (ls : List SceneAccessLease)
    → All P ls
    → All P (remove i ls)
unfolding remove
All-remove P i [] h = h
All-remove P zero (x ∷ ls) h = h.1
All-remove P (suc i) (x ∷ ls) h = (h.0, All-remove P i ls h.1)

All-get_elem? {κ} :
    (P : SceneAccessLease → Type κ) (i : ℕ) (ls : List SceneAccessLease) {l : SceneAccessLease}
    → All P ls
    → get_elem? ls i ≡ some l
    → P l
All-get_elem? P i [] h e = ground arith
All-get_elem? P zero (x ∷ ls) h e = subst P (cc) h.0
All-get_elem? P (suc i) (x ∷ ls) h e = All-get_elem? P i ls h.1 e

length-counts : (ls : List SceneAccessLease) → length ls ≡ readers ls + writers ls
unfolding readers writers
length-counts [] = refl
length-counts (l ∷ ls) = ground (arith, length-counts ls)

replace_lone :
    (i : ℕ) (ls : List SceneAccessLease) (l new : SceneAccessLease)
    → length ls ≡ 1
    → get_elem? ls i ≡ some l
    → replace i new ls ≡ new ∷ []
unfolding replace
replace_lone i [] l new h e = absurd (omega arith)
replace_lone zero (x ∷ []) l new h e = refl
replace_lone (suc i) (x ∷ []) l new h e = cc
replace_lone i (x ∷ z ∷ zs) l new h e = absurd (omega arith)

-- After `n` events at most `n` threads wait or hold a lease.
pub record SceneInv (n : ℕ) (y : Scene) : Type 0 where
  pub readers_counted : y.state.active_reader_count ≡ readers y.leases
  pub writers_counted : one_if y.state.writer_active ≡ writers y.leases
  pub exclusive : y.state.writer_active ≡ true → readers y.leases ≡ 0
  pub asked_by_reader : y.state.blocked_priority_read_pending ≡ true → 0 < y.waiting_readers
  pub current :
      All (λ l. (l.version ≡ y.state.scene_version_id) × (l.owner ≡ y.state.identity)) y.leases
  pub few : readers y.leases + y.state.waiting_writer_count ≤ n

module _ (n : ℕ) (y : Scene) (v : SceneInv n y) (room : n + 1 < u64_mod) where
  reader_arrives-SceneInv : SceneInv (n + 1) (step reader_arrives y)
  unfolding step arrive_read
  reader_arrives-SceneInv = ground arith

  writer_arrives-SceneInv : SceneInv (n + 1) (step writer_arrives y)
  unfolding step arrive_write
  writer_arrives-SceneInv = ground arith

  later-SceneInv : SceneInv (n + 1) y
  later-SceneInv = assumption (v, few')
    where
      few' : readers y.leases + y.state.waiting_writer_count ≤ n + 1
      few' = omega (arith, v.few)

  reader_enters-SceneInv : SceneInv (n + 1) (step reader_enters y)
  unfolding step acquire_read
  reader_enters-SceneInv = elim (Bool-cases (reader_may_enter y)) [
    | inr waits ↦ rw waits later-SceneInv
    | inl may ↦ rw may (record {
      readers_counted = unfold readers in ground (arith, v.readers_counted, v.few);
      writers_counted = unfold writers in ground (arith, v.writers_counted);
      exclusive = ground (arith, reader_excluded may);
      asked_by_reader = ground arith;
      current = ((refl, refl), v.current);
      few = unfold readers in ground (arith, v.few);
    })
  ]
    where
      reader_excluded : reader_may_enter y ≡ true → y.state.writer_active ≡ false
      reader_excluded h = unfold reader_may_enter can_acquire_read in ground arith

  writer_enters-SceneInv : SceneInv (n + 1) (step writer_enters y)
  unfolding step acquire_write
  writer_enters-SceneInv = elim (Bool-cases (writer_may_enter y)) [
    | inr waits ↦ rw waits later-SceneInv
    | inl may ↦
        let h = alone may in
        rw may (record {
          readers_counted = unfold readers in ground (arith, v.readers_counted);
          writers_counted = unfold writers in ground (arith, v.writers_counted, h);
          exclusive = unfold readers in ground (arith, v.readers_counted, h);
          asked_by_reader = ground (arith, v.asked_by_reader);
          current = ((refl, refl), v.current);
          few = unfold readers in ground (arith, v.few, h);
        })
  ]
    where
      alone :
          writer_may_enter y ≡ true
          → (y.state.writer_active ≡ false)
            × (y.state.active_reader_count ≡ 0)
            × (0 < y.state.waiting_writer_count)
      alone h = unfold writer_may_enter can_acquire_write in ground arith

  -- What a held lease says of the state.
  module _ (i : ℕ) (l : SceneAccessLease) (held : get_elem? y.leases i ≡ some l) where
    counts :
        (readers (remove i y.leases) + one_if (not (is_write l.mode)) ≡ readers y.leases)
        × (writers (remove i y.leases) + one_if (is_write l.mode) ≡ writers y.leases)
    counts = (readers-remove i y.leases l held, writers-remove i y.leases l held)

    read_released :
        l.mode ≡ read_mode
        → release l y.state
          ≡ record y.state { active_reader_count = y.state.active_reader_count - 1 }
    unfolding release
    read_released m = ground (arith, counts, v.readers_counted)

    write_released :
        l.mode ≡ write_mode → release l y.state ≡ record y.state { writer_active = false }
    unfolding release
    write_released m = ground arith

    write_alone : l.mode ≡ write_mode → (y.state.writer_active ≡ true) × (length y.leases ≡ 1)
    write_alone m = ground (arith, counts, v.writers_counted, v.exclusive, length-counts y.leases)

    released :
        (mode : SceneLockMode)
        → l.mode ≡ mode
        → SceneInv (n + 1) (record y { state = release l y.state; leases = remove i y.leases })
    released read_mode m = rw (read_released m) (record {
      readers_counted = ground (arith, counts, v.readers_counted);
      writers_counted = ground (arith, counts, v.writers_counted);
      exclusive = ground (arith, counts, v.exclusive);
      asked_by_reader = v.asked_by_reader;
      current = All-remove _ i y.leases v.current;
      few = ground (arith, counts, v.few);
    })
    released write_mode m = rw (write_released m) (record {
      readers_counted = ground (arith, counts, v.readers_counted);
      writers_counted = ground (arith, counts, write_alone m, length-counts y.leases);
      exclusive = ground arith;
      asked_by_reader = v.asked_by_reader;
      current = All-remove _ i y.leases v.current;
      few = ground (arith, counts, v.few);
    })

    read_refused : l.mode ≡ read_mode → publish_through i l y ≡ y
    unfolding publish_through publish
    read_refused m = ground arith

    new_lease : SceneAccessLease
    new_lease = record l { version = inc64 y.state.scene_version_id }

    write_publishes :
        l.mode ≡ write_mode
        → publish_through i l y ≡ record y {
          state = record y.state { scene_version_id = inc64 y.state.scene_version_id };
          leases = new_lease ∷ [];
        }
    unfolding publish_through publish owns new_lease
    write_publishes m = ground (
      arith,
      All-get_elem? _ i y.leases v.current held,
      replace_lone i y.leases l (record l { version = inc64 y.state.scene_version_id })
          (write_alone m).1 held,
    )

    published : (mode : SceneLockMode) → l.mode ≡ mode → SceneInv (n + 1) (publish_through i l y)
    published read_mode m = rw (read_refused m) later-SceneInv
    published write_mode m =
        let alone = write_alone m in
        let owner = (All-get_elem? _ i y.leases v.current held).1 in
        rw (write_publishes m) (
          unfold readers writers new_lease in
          record {
            readers_counted = ground (arith, v.readers_counted, v.exclusive, alone);
            writers_counted = ground (arith, alone);
            exclusive = ground arith;
            asked_by_reader = v.asked_by_reader;
            current = ((refl, owner), tt);
            few = ground (arith, v.few);
          })

  releases-SceneInv : (i : ℕ) → SceneInv (n + 1) (step (releases i) y)
  unfolding step
  releases-SceneInv i = elim (Option-cases (get_elem? y.leases i)) [
    | inl e ↦ rw (e, step) later-SceneInv
    | inr (l, e) ↦ rw (e, step) (released i l e l.mode refl)
  ]

  publishes-SceneInv : (i : ℕ) → SceneInv (n + 1) (step (publishes i) y)
  unfolding step
  publishes-SceneInv i = elim (Option-cases (get_elem? y.leases i)) [
    | inl e ↦ rw (e, step) later-SceneInv
    | inr (l, e) ↦ rw (e, step) (published i l e l.mode refl)
  ]

-- Every event keeps the counts of readers and writers right, a writer without readers or other
-- writers, a reader's claim to be next backed by a reader that waits, and every lease at the current
-- version. The counters of the state have not wrapped while fewer than 2 ^ 64 events have happened.
pub step-SceneInv :
    (n : ℕ) (e : Event) (y : Scene) → SceneInv n y → n + 1 < u64_mod → SceneInv (n + 1) (step e y)
step-SceneInv n reader_arrives y v room = reader_arrives-SceneInv n y v room
step-SceneInv n reader_enters y v room = reader_enters-SceneInv n y v room
step-SceneInv n writer_arrives y v room = writer_arrives-SceneInv n y v room
step-SceneInv n writer_enters y v room = writer_enters-SceneInv n y v room
step-SceneInv n (releases i) y v room = releases-SceneInv n y v room i
step-SceneInv n (publishes i) y v room = publishes-SceneInv n y v room i

unfoldable pub fresh : ℕ → SceneConfig → Scene
fresh identity config = record {
  state = make_state identity config;
  leases = [];
  waiting_readers = 0;
}

fresh-SceneInv : (identity : ℕ) (config : SceneConfig) → SceneInv 0 (fresh identity config)
unfolding fresh make_state readers writers
fresh-SceneInv identity config = ground arith

run-SceneInv :
    (n : ℕ) (es : List Event) (y : Scene)
    → SceneInv n y
    → n + length es < u64_mod
    → SceneInv (n + length es) (run es y)
unfolding run
run-SceneInv n [] y v room = rw add-zero v
run-SceneInv n (e ∷ es) y v room =
    let next =
      run-SceneInv (n + 1) es (step e y) (step-SceneInv n e y v (omega arith)) (omega arith) in
    let same : n + 1 + length es ≡ n + suc (length es) = omega arith in rw same at next

idle_admits :
    {n : ℕ} (y : Scene)
    → SceneInv n y
    → y.leases ≡ []
    → 0 < y.waiting_readers + y.state.waiting_writer_count
    → (reader_may_enter y ≡ true) ⊎ (writer_may_enter y ≡ true)
unfolding reader_may_enter writer_may_enter can_acquire_read can_acquire_write
idle_admits y v e h = ground (arith, v.asked_by_reader, none_active)
  where
    none_active : (y.state.active_reader_count ≡ 0) × (y.state.writer_active ≡ false)
    none_active = unfold readers writers in ground (arith, v.readers_counted, v.writers_counted)

-- The scene admits readers or one writer, never both, whatever its threads do: while a writer holds
-- the scene its lease is the only one. Each lease that is held shows the current scene version.
pub run_excludes :
    (identity : ℕ) (config : SceneConfig) (es : List Event)
    → length es < u64_mod
    → let y = run es (fresh identity config) in
      ((y.state.writer_active ≡ false) ⊎ (length y.leases ≡ 1))
      × (y.state.active_reader_count ≡ readers y.leases)
      × (writers y.leases ≤ 1)
      × All (λ l. (l.version ≡ y.state.scene_version_id) × (l.owner ≡ y.state.identity)) y.leases
run_excludes identity config es room =
    let v =
      run-SceneInv 0 es (fresh identity config) (fresh-SceneInv identity config) (omega arith) in
    let y = run es (fresh identity config) in
    (
      elim (Bool-cases y.state.writer_active) [
        | inr free ↦ inl free
        | inl held ↦
            inr (ground (arith, held, v.writers_counted, v.exclusive, length-counts y.leases))
      ],
      v.readers_counted,
      ground (arith, v.writers_counted),
      v.current,
    )

-- No deadlock: whatever has happened, when no lease is held and some thread waits, a reader or a
-- writer may enter, under either read policy.
pub never_stuck :
    (identity : ℕ) (config : SceneConfig) (es : List Event)
    → length es < u64_mod
    → (run es (fresh identity config)).leases ≡ []
    → 0
      < (run es (fresh identity config)).waiting_readers
        + (run es (fresh identity config)).state.waiting_writer_count
    → (reader_may_enter (run es (fresh identity config)) ≡ true)
      ⊎ (writer_may_enter (run es (fresh identity config)) ≡ true)
never_stuck identity config es room e h =
    idle_admits _
      (run-SceneInv 0 es (fresh identity config) (fresh-SceneInv identity config) (omega arith)) e h
