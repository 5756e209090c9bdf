-- ===== src/App/FrameDumper/Waiting.antt =====
-- What a wait of ViewerFrameDumper.cpp for its outputs has done when it ends.
use edge_vision.Prelude.{
  ℕ, ◌-◌, ◌≡◌, refl, sym, subst, ap, ◌∙◌, ◌⊎◌, inl, inr, arith, Bool, true, false, not, ◌&&◌, ◌||◌,
  String, List, [], ◌∷◌, ◌++◌, inc64, u64_mod, ◌==◌, leb, leb_ℤ, if◌then◌else◌,
}
use edge_vision.Model.Viewer.{RenderOutput, has_rgb}
use edge_vision.Model.Viewer.OutputStore.{RenderOutputStore, recent}
use edge_vision.App.{FileSystem}
use edge_vision.App.FrameDumper.{
  ViewerFrameDumper, keep_written, handle_output, process_output, process_all, process_new_outputs,
  has_configured_outputs, wait_for_configured_outputs, write_output, hash_output, is_writable,
  header, bytes_of, expected_byte_count, make_output_name,
}
use edge_vision.App.FrameDumper.Processing.{DumpInv, processed_all}

-- Some element has the property.
abbrev pub Any {ℓ} : {A : Type ℓ} → (A → Type 0) → List A → Type 0
Any P [] = ⊥
Any P (x ∷ xs) = P x ⊎ Any P xs

-- An output with pixels that is not marked as cached.
abbrev pub IsFresh : RenderOutput → Type 0
IsFresh o = (has_rgb o ≡ true) × (o.cached ≡ false)

-- What the test that ends a wait says.
abbrev Counted : ViewerFrameDumper → Type 0
Counted d =
    ((d.config.enabled ≡ true) × (d.dumped_output_count ≡ d.config.max_frames))
    ⊎ ((d.config.enabled ≡ false) × (d.observed_non_cached_output ≡ true))

configured_Counted :
    (d : ViewerFrameDumper) → DumpInv d → has_configured_outputs d ≡ true → Counted d
unfolding has_configured_outputs
configured_Counted d v e = ground (arith, v, e)

if_cases {ℓ} :
    {A : Type ℓ} (P : A → Type 0) (b : Bool) (x y : A)
    → (b ≡ true → P x)
    → (b ≡ false → P y)
    → P (if b then x else y)
if_cases P true x y f g = f refl
if_cases P false x y f g = g refl

module _ {F : Type 0} ⦃fs : FileSystem F⦄ where
  -- The file of an output was written: the directory was made, the file with this number opened, and the
  -- header and the pixels went into it.
  pub record IsWritten (directory : String) (o : RenderOutput) (number : ℕ) (disk later : F)
      : Type 0 where
    pub made : F
    pub opened : F
    pub makes : fs.create_directories directory disk ≡ (true, made)
    pub opens : fs.open_truncated directory (make_output_name number) made ≡ (true, opened)
    pub writes :
        fs.write (header o.image_size ++ bytes_of o.rgb (expected_byte_count o.image_size)) opened
        ≡ (true, later)

  -- The disk from one state to another, with the numbers of written files counted up; in between, files
  -- fail to be written and `on_tick` has its turns.
  pub data Dumps (on_tick : ViewerFrameDumper → F → F) (directory : String)
      : ℕ → ℕ → F → F → Type 0 where
    done : {n : ℕ} {disk : F} → Dumps on_tick directory n n disk disk
    dumps :
        {n m : ℕ} {disk later last : F} (o : RenderOutput)
        → IsWritten directory o (inc64 n) disk later
        → Dumps on_tick directory (inc64 n) m later last
        → Dumps on_tick directory n m disk last
    fails :
        {n m : ℕ} {disk last : F} (o : RenderOutput)
        → (write_output directory o (inc64 n) disk).0 ≡ false
        → Dumps on_tick directory n m (write_output directory o (inc64 n) disk).1 last
        → Dumps on_tick directory n m disk last
    ticks :
        {n m : ℕ} {disk last : F} (d : ViewerFrameDumper)
        → Dumps on_tick directory n m (on_tick d disk) last
        → Dumps on_tick directory n m disk last

  Dumps-trans :
      (on_tick : ViewerFrameDumper → F → F) (directory : String) {n m k : ℕ} {disk later last : F}
      → Dumps on_tick directory n m disk later
      → Dumps on_tick directory m k later last
      → Dumps on_tick directory n k disk last
  Dumps-trans on_tick directory done g = g
  Dumps-trans on_tick directory (dumps o w f) g = dumps o w (Dumps-trans on_tick directory f g)
  Dumps-trans on_tick directory (fails o e f) g = fails o e (Dumps-trans on_tick directory f g)
  Dumps-trans on_tick directory (ticks d f) g = ticks d (Dumps-trans on_tick directory f g)

  paired : (r : Bool × F) → r.0 ≡ true → r ≡ (true, r.1)
  paired r e = ap (λ b. (b, r.1)) e

  write_parts :
      (directory : String) (o : RenderOutput) (number : ℕ) (disk : F)
      → (write_output directory o number disk).0 ≡ true
      → let made = (fs.create_directories directory disk).1 in
        let opened = (fs.open_truncated directory (make_output_name number) made).1 in
        let content = header o.image_size ++ bytes_of o.rgb (expected_byte_count o.image_size) in
        ((fs.create_directories directory disk).0 ≡ true)
        × ((fs.open_truncated directory (make_output_name number) made).0 ≡ true)
        × ((fs.write content opened).0 ≡ true)
        × ((write_output directory o number disk).1 ≡ (fs.write content opened).1)
  unfolding write_output
  write_parts directory o number disk e = ground (arith, e)

  written :
      (directory : String) (o : RenderOutput) (number : ℕ) (disk later : F)
      → write_output directory o number disk ≡ (true, later)
      → IsWritten directory o number disk later
  written directory o number disk later e =
      let (makes, opens, writes, ends) = write_parts directory o number disk (ap (λ r. r.0) e) in
      record {
        made = _;
        opened = _;
        makes = paired (fs.create_directories directory disk) makes;
        opens = paired (fs.open_truncated directory (make_output_name number) _) opens;
        writes = paired (fs.write _ _) writes ∙ ap (λ k. (true, k)) (sym ends ∙ ap (λ r. r.1) e);
      }

  -- What the dumper did on the way from one state to another: files were written as the counter says,
  -- and if it has observed an output, it had before, or the run does not dump and there was one.
  record Traced (on_tick : ViewerFrameDumper → F → F) (S : Type 0) (d : ViewerFrameDumper)
      (disk : F) (d' : ViewerFrameDumper) (disk' : F) : Type 0 where
    directory : d'.output_directory ≡ d.output_directory
    config : d'.config ≡ d.config
    files : Dumps on_tick d.output_directory d.dumped_output_count d'.dumped_output_count disk disk'
    observed : d'.observed_non_cached_output ≡ true → (d.observed_non_cached_output ≡ true) ⊎ S

  module _ (on_tick : ViewerFrameDumper → F → F) where
    abbrev Reaches : Type 0 → ViewerFrameDumper → F → Bool × ViewerFrameDumper × F → Type 0
    Reaches S d disk r = Traced on_tick S d disk r.1 r.2

    Traced-self : (S : Type 0) (d : ViewerFrameDumper) (disk : F) → Traced on_tick S d disk d disk
    Traced-self S d disk = record {
      directory = refl;
      config = refl;
      files = done;
      observed = λ e. inl e;
    }

    Traced-trans :
        (S : Type 0) (a b c : ViewerFrameDumper) (i j k : F)
        → Traced on_tick S a i b j
        → Traced on_tick S b j c k
        → Traced on_tick S a i c k
    Traced-trans S a b c i j k f g = record {
      directory = g.directory ∙ f.directory;
      config = g.config ∙ f.config;
      files = Dumps-trans on_tick a.output_directory f.files (
          subst (λ dir. Dumps on_tick dir b.dumped_output_count c.dumped_output_count j k)
            f.directory g.files);
      observed = λ e. elim (g.observed e) [ inl h ↦ f.observed h | inr s ↦ inr s ];
    }

    Traced-map :
        (S T : Type 0) (a b : ViewerFrameDumper) (i j : F)
        → (S → T)
        → Traced on_tick S a i b j
        → Traced on_tick T a i b j
    Traced-map S T a b i j h f = record {
      directory = f.directory;
      config = f.config;
      files = f.files;
      observed = λ e. elim (f.observed e) [ inl o ↦ inl o | inr s ↦ inr (h s) ];
    }

    kept :
        (S : Type 0) (o : RenderOutput) (d : ViewerFrameDumper) (disk : F) (hash : ℕ) (w : Bool × F)
        → write_output d.output_directory o (inc64 d.dumped_output_count) disk ≡ w
        → Reaches S d disk (keep_written d hash w)
    kept S o d disk hash (false, later) e = record {
      directory = refl;
      config = refl;
      files = fails o (ap (λ r. r.0) e) (
          subst
            (λ k.
              Dumps on_tick d.output_directory d.dumped_output_count d.dumped_output_count k later)
            (sym (ap (λ r. r.1) e)) done);
      observed = λ h. inl h;
    }
    kept S o d disk hash (true, later) e = record {
      directory = refl;
      config = refl;
      files =
          dumps o (written d.output_directory o (inc64 d.dumped_output_count) disk later e) done;
      observed = λ h. inl h;
    }

    handled_Traced :
        (S : Type 0) (o : RenderOutput) (d : ViewerFrameDumper) (disk : F)
        → (d.config.enabled ≡ false → S)
        → Reaches S d disk (handle_output o d disk)
    unfolding handle_output
    handled_Traced S o d disk fresh =
        let P = Reaches S d disk in
        if_cases P (not d.config.enabled) _ _
          (λ off. record {
            directory = refl;
            config = refl;
            files = done;
            observed = λ e. inr (fresh (ground (arith, off)));
          })
          (λ on.
            if_cases P (leb d.config.max_frames d.dumped_output_count) _ _
              (λ full. Traced-self S d disk)
              (λ room.
                if_cases P (not (is_writable o)) _ _ (λ bad. Traced-self S d disk)
                  (λ fine.
                    if_cases P (d.has_last_dumped_hash && hash_output o == d.last_dumped_hash) _ _
                      (λ same. record {
                        directory = refl;
                        config = refl;
                        files = done;
                        observed = λ e. inl e;
                      })
                      (λ other.
                        kept S o d disk (hash_output o)
                          (write_output d.output_directory o (inc64 d.dumped_output_count) disk)
                          refl))))

    processed_Traced :
        (o : RenderOutput) (d : ViewerFrameDumper) (disk : F)
        → Reaches ((d.config.enabled ≡ false) × IsFresh o) d disk (process_output o d disk)
    unfolding process_output
    processed_Traced o d disk =
        let S = (d.config.enabled ≡ false) × IsFresh o in
        let P = Reaches S d disk in
        if_cases P (leb_ℤ o.render_timestamp d.last_processed_timestamp) _ _
          (λ old. Traced-self S d disk)
          (λ new.
            if_cases P (not (has_rgb o) || (not d.config.enabled && o.cached)) _ _
              (λ skipped. record {
                directory = refl;
                config = refl;
                files = done;
                observed = λ e. inl e;
              })
              (λ wanted.
                let h =
                  handled_Traced S o (record d { last_processed_timestamp = o.render_timestamp })
                    disk (λ off. (off, (ground (arith, wanted), ground (arith, wanted, off)))) in
                record {
                  directory = h.directory;
                  config = h.config;
                  files = h.files;
                  observed = h.observed;
                }))

    processed_all_Traced :
        (os : List RenderOutput) (d : ViewerFrameDumper) (disk : F)
        → Reaches ((d.config.enabled ≡ false) × Any IsFresh os) d disk (process_all os d disk)
    unfolding process_all
    processed_all_Traced [] d disk = Traced-self _ d disk
    processed_all_Traced (o ∷ os) d disk =
        let S = (d.config.enabled ≡ false) × Any IsFresh (o ∷ os) in
        let r = process_output o d disk in
        let p = processed_Traced o d disk in
        let first =
          Traced-map ((d.config.enabled ≡ false) × IsFresh o) S d r.1 disk r.2
            (λ (off, f). (off, inl f)) p in
        let later = process_all os r.1 r.2 in
        let rest =
          Traced-map ((r.1.config.enabled ≡ false) × Any IsFresh os) S r.1 later.1 r.2 later.2
            (λ (off, f). (subst (λ c. c.enabled ≡ false) p.config off, inr f))
            (processed_all_Traced os r.1 r.2) in
        if_cases (Reaches S d disk) r.0 later (false, r.1, r.2)
          (λ went. Traced-trans S d r.1 later.1 disk r.2 later.2 first rest) (λ failed. first)

    -- Some poll found a fresh output in its store.
    abbrev pub SomeFresh : List RenderOutputStore → Type 0
    SomeFresh stores = Any (λ store. Any IsFresh (recent (u64_mod - 1) store)) stores

    ticked :
        (S : Type 0) (a b : ViewerFrameDumper) (i j : F)
        → Traced on_tick S a i b j
        → Traced on_tick S a i b (on_tick b j)
    ticked S a b i j f =
        Traced-trans S a b b i j (on_tick b j) f
          (record { directory = refl; config = refl; files = ticks b done; observed = λ e. inl e })

    waited_Traced :
        (stores : List RenderOutputStore) (d : ViewerFrameDumper) (disk : F)
        → Reaches
            ((d.config.enabled ≡ false) × SomeFresh stores)
            d
            disk
            (wait_for_configured_outputs on_tick stores d disk)
    unfolding wait_for_configured_outputs process_new_outputs
    waited_Traced [] d disk = Traced-self _ d disk
    waited_Traced (store ∷ stores) d disk =
        let S = (d.config.enabled ≡ false) × SomeFresh (store ∷ stores) in
        let os = recent (u64_mod - 1) store in
        let r = process_new_outputs store d disk in
        let p = processed_all_Traced os d disk in
        let first =
          Traced-map ((d.config.enabled ≡ false) × Any IsFresh os) S d r.1 disk r.2
            (λ (off, f). (off, inl f)) p in
        let tick = ticked S d r.1 disk r.2 first in
        let later = wait_for_configured_outputs on_tick stores r.1 (on_tick r.1 r.2) in
        let rest =
          Traced-map ((r.1.config.enabled ≡ false) × SomeFresh stores) S r.1 later.1
            (on_tick r.1 r.2) later.2
            (λ (off, f). (subst (λ c. c.enabled ≡ false) p.config off, inr f))
            (waited_Traced stores r.1 (on_tick r.1 r.2)) in
        if_cases (Reaches S d disk) (not r.0) _ _ (λ failed. first)
          (λ went.
            if_cases (Reaches S d disk) (has_configured_outputs r.1) _ _ (λ enough. tick)
              (λ again. Traced-trans S d r.1 later.1 disk (on_tick r.1 r.2) later.2 tick rest))

    waited_Got :
        (stores : List RenderOutputStore) (d : ViewerFrameDumper) (disk : F)
        → DumpInv d
        → let r = wait_for_configured_outputs on_tick stores d disk in
          DumpInv r.1 × ((r.0 ≡ false) ⊎ Counted r.1)
    unfolding wait_for_configured_outputs process_new_outputs
    waited_Got [] d disk v = (v, inl refl)
    waited_Got (store ∷ stores) d disk v =
        let r = process_new_outputs store d disk in
        let w = (processed_all (recent (u64_mod - 1) store) d disk v).0.inv in
        ground (arith, w, configured_Counted r.1 w, waited_Got stores r.1 (on_tick r.1 r.2) w)

    -- What a wait has done and got: no more files than the limit; as many as it counts, in the directory of
    -- the dumper, under the numbers that follow; and if it ended well, either files up to the limit or,
    -- when it does not dump, a fresh output in the store of some poll or before.
    pub record Got (stores : List RenderOutputStore) (d : ViewerFrameDumper) (disk : F)
        (r : Bool × ViewerFrameDumper × F) : Type 0 where
      pub config : r.1.config ≡ d.config
      pub inv : DumpInv r.1
      pub files :
          Dumps on_tick d.output_directory d.dumped_output_count r.1.dumped_output_count disk r.2
      pub got :
          (r.0 ≡ false)
          ⊎ ((d.config.enabled ≡ true) × (r.1.dumped_output_count ≡ d.config.max_frames))
          ⊎ ((d.config.enabled ≡ false)
              × ((d.observed_non_cached_output ≡ true) ⊎ SomeFresh stores))

    got_of :
        (stores : List RenderOutputStore) (d d' : ViewerFrameDumper) (disk disk' : F)
        → Traced on_tick ((d.config.enabled ≡ false) × SomeFresh stores) d disk d' disk'
        → Counted d'
        → ((d.config.enabled ≡ true) × (d'.dumped_output_count ≡ d.config.max_frames))
          ⊎ ((d.config.enabled ≡ false)
              × ((d.observed_non_cached_output ≡ true) ⊎ SomeFresh stores))
    got_of stores d d' disk disk' f (inl (on, n)) =
        inl (subst (λ c. c.enabled ≡ true) f.config on, n ∙ ap (λ c. c.max_frames) f.config)
    got_of stores d d' disk disk' f (inr (off, e)) = inr (
      subst (λ c. c.enabled ≡ false) f.config off,
      elim (f.observed e) [ inl before ↦ inl before | inr s ↦ inr s.1 ],
    )

    -- A wait for the configured outputs, whatever the polls find and the disk does, counts exactly the files
    -- that were written, in order, and never writes more than the limit. When it reports success,
    -- a dumping run has written files up to its limit, and any other has found, in a poll or before, an output
    -- with pixels that is not marked as cached.
    pub wait_for_configured_outputs-Got :
        (stores : List RenderOutputStore) (d : ViewerFrameDumper) (disk : F)
        → DumpInv d
        → Got stores d disk (wait_for_configured_outputs on_tick stores d disk)
    wait_for_configured_outputs-Got stores d disk v =
        let r = wait_for_configured_outputs on_tick stores d disk in
        let f = waited_Traced stores d disk in
        let g = waited_Got stores d disk v in
        record {
          config = f.config;
          inv = g.0;
          files = f.files;
          got = elim g.1 [ inl e ↦ inl e | inr c ↦ inr (got_of stores d r.1 disk r.2 f c) ];
        }
