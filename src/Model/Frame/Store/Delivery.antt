-- ===== src/Model/Frame/Store/Delivery.antt =====
-- What the consuming thread can rely on, whatever the submitting thread does in between.
use edge_vision.Prelude.{
  ℕ, ◌≤◌, ◌<◌, ◌≡◌, ◌≢◌, refl, ◌⊎◌, inl, inr, true, false, List, [], ◌∷◌, ◌++◌, Option, none, some,
  arith, All, All-map, All-append, contains, contains-add, contains-discard, is_some, length, max,
  ◌==◌, if◌then◌else◌, Option-cases,
}
use edge_vision.Model.Frame.{Frame, FrameLifecycleState, dispatched_to_consumer_state}
use edge_vision.Model.Frame.History
use edge_vision.Model.Frame.History.{FrameHistory}
use edge_vision.Model.Frame.History.Order.{Above, UpTo, Above-append, Above-mono, Above-All}
use edge_vision.Model.Frame.Lifecycle.{Tracker}
use edge_vision.Model.Frame.Lifecycle.States.{
  state_of, becomes, state_of-mark_dispatched, state_of-mark_consumed, state_of-mark_failed,
}
use edge_vision.Model.Frame.ReadyQueue.{RingBuffer, ReadyFrameQueue, mark_completed, completed_once}
use edge_vision.Model.Frame.ReadyQueue
use edge_vision.Model.Frame.Validator.{not_newer_id}
use edge_vision.Model.Frame.Store.{FrameStore, FrameStoreConfig, make_store, finish_dequeue}
use edge_vision.Model.Frame.Store.Submission.{StoreInv, newer_than_latest}
use edge_vision.Model.Frame.Store.Capacity.{
  submit_frame-StoreInv, make_store-StoreInv, mark_frame_consumed_shape, mark_frame_failed_shape,
}
use edge_vision.Model.Frame.Store.Protection.{Keeps, Held, submit_frame-Keeps}
use edge_vision.Model.Frame.Store.Interleaving.{
  Threads, Event, submits, takes, dispatches, consumes, fails, step, run,
}

-- The frame taken and not yet dispatched, and those in the queue, in the order of delivery.
abbrev pub in_line : Option Frame → List Frame → List Frame
in_line none fs = fs
in_line (some f) fs = f ∷ fs

abbrev pub IsTaken : Option Frame → ℕ → Type 0
IsTaken none id = ⊥
IsTaken (some f) id = f.frame_id ≡ id

module _ {B : Type 0} ⦃rb : RingBuffer B⦄ where
  abbrev pub waiting : Threads B → List Frame
  waiting y = in_line y.taken (rb.contents y.store.ready_queue.queue)

  -- A frame with the consumer: dispatched, with a stored copy.
  abbrev pub InHand : FrameStore B → ℕ → Type 0
  InHand s id =
      (state_of id s.tracker ≡ some dispatched_to_consumer_state)
      × (is_some (History.get id s.history) ≡ true)
      × UpTo (History.id_of s.history.latest_frame) id

  pub record DeliveryInv (y : Threads B) : Type 0 where
    pub store_inv : StoreInv y.store
    pub rising : Above 0 (waiting y)
    pub recent : All (λ f. UpTo (History.id_of y.store.history.latest_frame) f.frame_id) (waiting y)
    pub held : All (Held y.store) (waiting y)
    pub in_hand :
        (id : ℕ)
        → contains id y.store.ready_queue.in_flight_frame_ids ≡ true
        → IsTaken y.taken id ⊎ InHand y.store id

module _ {B : Type 0} (s t : FrameStore B) (keeps : Keeps s t) where
  held_kept :
      (fs : List Frame)
      → All (λ f. UpTo (History.id_of s.history.latest_frame) f.frame_id) fs
      → All (Held s) fs
      → All (Held t) fs
  held_kept [] u h = tt
  held_kept (f ∷ fs) u h = (ground (arith, keeps f.frame_id), held_kept fs u.1 h.1)

in_line-append :
    (taken : Option Frame) (fs : List Frame) (f : Frame)
    → in_line taken (fs ++ f ∷ []) ≡ in_line taken fs ++ f ∷ []
in_line-append none fs f = refl
in_line-append (some g) fs f = refl

module _ {B : Type 0} ⦃rb : RingBuffer B⦄ (y : Threads B) (v : DeliveryInv y) where
  -- The store changes, and neither the queue nor the latest frame does.
  left_out :
      (t : FrameStore B)
      → StoreInv t
      → Keeps y.store t
      → t.ready_queue ≡ y.store.ready_queue
      → t.history.latest_frame ≡ y.store.history.latest_frame
      → DeliveryInv (record y { store = t })
  left_out t i keeps q l = record {
    store_inv = i;
    rising = rw q v.rising;
    recent = rw (q, l) v.recent;
    held = rw q (held_kept y.store t keeps (waiting y) v.recent v.held);
    in_hand = λ id h. ground (arith, v.in_hand id, keeps id, l, q);
  }

  -- The frame submitted joins the line.
  joined :
      (t : FrameStore B) (f : Frame)
      → StoreInv t
      → Keeps y.store t
      → ReadyQueue.try_enqueue y.store.ready_queue f ≡ some t.ready_queue
      → not_newer_id (History.id_of y.store.history.latest_frame) f.frame_id ≡ false
      → f.frame_id ≢ 0
      → t.history.latest_frame ≡ some f
      → Held t f
      → DeliveryInv (record y { store = t })
  joined t f i keeps q n z l h =
      let (line, flight) = ReadyQueue.enqueued_last y.store.ready_queue f q in
      let before : All (λ g. g.frame_id < f.frame_id) (waiting y) =
        All-map _ (λ g. g.frame_id < f.frame_id) (waiting y)
          (λ g. newer_than_latest y.store.history.latest_frame f.frame_id g.frame_id n) v.recent in
      record {
        store_inv = i;
        rising =
            rw (line, in_line-append y.taken _ f)
              (Above-append 0 (waiting y) f v.rising before (omega arith));
        recent =
            rw (line, in_line-append y.taken _ f, l)
              (All-append _ (waiting y) (f ∷ [])
                (All-map _ (λ g. g.frame_id ≤ f.frame_id) (waiting y) (λ g p. omega arith) before)
                (omega arith));
        held =
            rw (line, in_line-append y.taken _ f)
              (All-append (Held t) (waiting y) (f ∷ [])
                (held_kept y.store t keeps (waiting y) v.recent v.held) (h, tt));
        in_hand = λ id m. ground (
          arith,
          v.in_hand id,
          keeps id,
          l,
          flight,
          newer_than_latest y.store.history.latest_frame f.frame_id id n,
        );
      }

  submits-DeliveryInv : (f : Frame) → DeliveryInv (step (submits f) y)
  unfolding step
  submits-DeliveryInv f =
      let (keeps, outcome) = submit_frame-Keeps f y.store v.store_inv in
      let i = submit_frame-StoreInv f y.store v.store_inv in
      elim outcome [
        | inl (q, l) ↦ left_out _ i keeps q l
        | inr (q, n, z, l, h) ↦ joined _ f i keeps q n z l h
      ]

module _ {B : Type 0} ⦃rb : RingBuffer B⦄ (s : FrameStore B) where
  abbrev with_taken : Option Frame → Threads B
  with_taken taken = record { store = s; taken = taken }

  takes-DeliveryInv :
      (taken : Option Frame)
      → DeliveryInv (with_taken taken)
      → DeliveryInv (step takes (with_taken taken))
  unfolding step
  takes-DeliveryInv (some f) v = v
  takes-DeliveryInv none v = elim (Option-cases (ReadyQueue.try_dequeue s.ready_queue)) [
    | inl e ↦ rw e v
    | inr ((f, q), e) ↦
        let (line, flight) = ReadyQueue.dequeued_first s.ready_queue e in
        rw e (record {
          store_inv = assumption v.store_inv;
          rising = rw line at v.rising;
          recent = rw line at v.recent;
          held = rw line at v.held;
          in_hand = λ id m. ground (
            arith,
            flight,
            v.in_hand id,
            contains-add id f.frame_id s.ready_queue.in_flight_frame_ids,
          );
        })
  ]

  held_after :
      (t : FrameStore B) (fs : List Frame)
      → All (λ g. state_of g.frame_id t.tracker ≡ state_of g.frame_id s.tracker) fs
      → t.history ≡ s.history
      → All (Held s) fs
      → All (Held t) fs
  held_after t [] same h held = tt
  held_after t (f ∷ fs) same h held = (ground arith, held_after t fs same.1 h held.1)

  dispatches-DeliveryInv :
      (taken : Option Frame)
      → DeliveryInv (with_taken taken)
      → DeliveryInv (step dispatches (with_taken taken))
  unfolding step finish_dequeue
  dispatches-DeliveryInv none v = v
  dispatches-DeliveryInv (some f) v =
      let fs = rb.contents s.ready_queue.queue in
      record {
        store_inv = assumption v.store_inv;
        rising = Above-mono fs (omega arith) v.rising.1;
        recent = v.recent.1;
        held =
            held_after (finish_dequeue f.frame_id s) fs
              (All-map (λ g. f.frame_id < g.frame_id) _ fs
                (λ g h. ground (arith, state_of-mark_dispatched f.frame_id g.frame_id s.tracker))
                (Above-All f.frame_id f.frame_id fs (omega arith) v.rising.1))
              refl v.held.1;
        in_hand = λ id m. inr (handed id (v.in_hand id m));
      }
    where
      handed :
          (id : ℕ) → IsTaken (some f) id ⊎ InHand s id → InHand (finish_dequeue f.frame_id s) id
      handed id h =
          ground (arith, v.held.0, v.recent.0, h, state_of-mark_dispatched f.frame_id id s.tracker)

  -- A frame in hand is done with: its state changes to one that does not guard it, and no other's.
  done_with :
      (id : ℕ) (new : FrameLifecycleState) (tracker : Tracker)
      → DeliveryInv (with_taken none)
      → (mark_completed id s.ready_queue).1 ≡ true
      → let t = record s { ready_queue = (mark_completed id s.ready_queue).0; tracker = tracker } in
        StoreInv t
        → ((j : ℕ)
            → state_of j tracker
              ≡ (if id == j then becomes new (state_of j s.tracker) else state_of j s.tracker))
        → DeliveryInv (record { store = t; taken = none })
  done_with id new tracker v known i states =
      let (flight, left, line) = completed_once id s.ready_queue known in
      let fs = rb.contents s.ready_queue.queue in
      record {
        store_inv = i;
        rising = rw line v.rising;
        recent = rw line v.recent;
        held = rw line (
            held_after
              (record s { ready_queue = (mark_completed id s.ready_queue).0; tracker = tracker }) fs
              (All-map (Held s) _ fs (λ g h. ground (arith, states g.frame_id, v.in_hand id flight))
                v.held)
              refl v.held);
        in_hand = λ j m. ground (
          arith,
          left,
          v.in_hand j,
          states j,
          contains-discard j id s.ready_queue.in_flight_frame_ids,
        );
      }

  consumes-DeliveryInv :
      (taken : Option Frame) (id : ℕ)
      → DeliveryInv (with_taken taken)
      → DeliveryInv (step (consumes id) (with_taken taken))
  unfolding step
  consumes-DeliveryInv (some f) id v = v
  consumes-DeliveryInv none id v = elim (mark_frame_consumed_shape id s v.store_inv) [
    | inl (_, e) ↦ rw e v
    | inr (known, e) ↦ rw e (
        done_with id _ _ v known (assumption v.store_inv)
          (λ j. state_of-mark_consumed id j s.tracker))
  ]

  fails-DeliveryInv :
      (taken : Option Frame) (id : ℕ)
      → DeliveryInv (with_taken taken)
      → DeliveryInv (step (fails id) (with_taken taken))
  unfolding step
  fails-DeliveryInv (some f) id v = v
  fails-DeliveryInv none id v = elim (mark_frame_failed_shape id s v.store_inv) [
    | inl (_, e) ↦ rw e v
    | inr (known, e) ↦ rw e (
        done_with id _ _ v known (assumption v.store_inv)
          (λ j. state_of-mark_failed id j s.tracker))
  ]

module _ {B : Type 0} ⦃rb : RingBuffer B⦄ where
  -- Whichever thread comes next, and wherever the consumer is in a dequeue: the frames that wait keep
  -- rising ids, none above the latest one; each of them is ready, with its stored copy; and each frame
  -- that the consumer has is dispatched, with a stored copy.
  pub step-DeliveryInv : (e : Event) (y : Threads B) → DeliveryInv y → DeliveryInv (step e y)
  step-DeliveryInv (submits f) y v = submits-DeliveryInv y v f
  step-DeliveryInv takes y v = takes-DeliveryInv y.store y.taken v
  step-DeliveryInv dispatches y v = dispatches-DeliveryInv y.store y.taken v
  step-DeliveryInv (consumes id) y v = consumes-DeliveryInv y.store y.taken id v
  step-DeliveryInv (fails id) y v = fails-DeliveryInv y.store y.taken id v

  unfoldable pub fresh : FrameStoreConfig → Threads B
  fresh config = record { store = make_store config; taken = none }

  fresh-DeliveryInv : (config : FrameStoreConfig) → DeliveryInv (fresh config)
  unfolding fresh make_store ReadyQueue.make_ready_queue contains
  fresh-DeliveryInv config =
      let e = rb.contents-make (max 1 (max 1 config.max_ready_frames)) in
      record {
        store_inv = make_store-StoreInv config;
        rising = rw e tt;
        recent = rw e tt;
        held = rw e tt;
        in_hand = λ id m. absurd (ground (arith));
      }

  run-DeliveryInv : (es : List Event) (y : Threads B) → DeliveryInv y → DeliveryInv (run es y)
  unfolding run
  run-DeliveryInv [] y v = v
  run-DeliveryInv (e ∷ es) y v = run-DeliveryInv es (step e y) (step-DeliveryInv e y v)

  pub run-fresh-DeliveryInv :
      (config : FrameStoreConfig) (es : List Event) → DeliveryInv (run es (fresh config))
  run-fresh-DeliveryInv config es = run-DeliveryInv es (fresh config) (fresh-DeliveryInv config)

module _ (B : Type 0) ⦃rb : RingBuffer B⦄ where
  -- Whatever the two threads do with a new store, the frames that wait for the consumer are delivered
  -- with rising ids; each of them is marked ready and still has its stored copy; and the store is
  -- within its capacity.
  pub waiting_frames_held :
      (config : FrameStoreConfig) (es : List Event)
      → let y = run es (fresh {B = B} config) in
        Above 0 (waiting y)
        × All (Held y.store) (waiting y)
        × (length y.store.history.history ≤ y.store.config.max_stored_frames)
  waiting_frames_held config es =
      let v = run-fresh-DeliveryInv {B = B} config es in (v.rising, v.held, v.store_inv.bounded)

  -- Whatever the two threads do with a new store, a frame that is in flight is either the one taken
  -- a moment ago, or it is marked as dispatched and its copy is still stored.
  pub in_flight_frames_held :
      (config : FrameStoreConfig) (es : List Event) (id : ℕ)
      → contains id (run es (fresh {B = B} config)).store.ready_queue.in_flight_frame_ids ≡ true
      → IsTaken (run es (fresh {B = B} config)).taken id
        ⊎ InHand (run es (fresh {B = B} config)).store id
  in_flight_frames_held config es id m = (run-fresh-DeliveryInv {B = B} config es).in_hand id m
