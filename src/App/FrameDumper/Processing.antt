-- ===== src/App/FrameDumper/Processing.antt =====
-- What processNewOutputs in ViewerFrameDumper.cpp guarantees.
use edge_vision.Prelude.{
  ℕ, ◌-◌, ◌<◌, ◌≤◌, ◌≡◌, refl, sym, subst, ◌∙◌, ◌⊎◌, inl, inr, arith, ℤ, pos, negsuc, Bool, true,
  false, not, ◌&&◌, ◌||◌, List, [], ◌∷◌, All, leb_ℤ, inc64, u64_mod, Bool-cases, if_true, if_false,
}
use edge_vision.Model.Viewer.{RenderOutput, has_rgb}
use edge_vision.Model.Viewer.OutputStore.{RenderOutputStore, recent}
use edge_vision.App.{FileSystem}
use edge_vision.App.FrameDumper.{
  ViewerFrameDumper, keep_written, handle_output, process_output, process_all, process_new_outputs,
  write_output, hash_output,
}

leb_ℤ_trans : (a b c : ℤ) → leb_ℤ a b ≡ true → leb_ℤ b c ≡ true → leb_ℤ a c ≡ true
leb_ℤ_trans (pos a) (pos b) (pos c) p q = ground (arith, p, q)
leb_ℤ_trans (pos a) (pos b) (negsuc c) p q = ground (arith, p, q)
leb_ℤ_trans (pos a) (negsuc b) c p q = ground (arith, p)
leb_ℤ_trans (negsuc a) (pos b) (pos c) p q = ground (arith, p, q)
leb_ℤ_trans (negsuc a) (pos b) (negsuc c) p q = ground (arith, q)
leb_ℤ_trans (negsuc a) (negsuc b) (pos c) p q = ground (arith, p, q)
leb_ℤ_trans (negsuc a) (negsuc b) (negsuc c) p q = ground (arith, p, q)

leb_ℤ_self : (a : ℤ) → leb_ℤ a a ≡ true
leb_ℤ_self (pos a) = ground arith
leb_ℤ_self (negsuc a) = ground arith

leb_ℤ_other : (a b : ℤ) → leb_ℤ a b ≡ false → leb_ℤ b a ≡ true
leb_ℤ_other (pos a) (pos b) e = ground (arith, e)
leb_ℤ_other (pos a) (negsuc b) e = ground (arith, e)
leb_ℤ_other (negsuc a) (pos b) e = ground (arith, e)
leb_ℤ_other (negsuc a) (negsuc b) e = ground (arith, e)

-- An output that the dumper has been past.
abbrev pub Seen : ViewerFrameDumper → RenderOutput → Type 0
Seen d o = leb_ℤ o.render_timestamp d.last_processed_timestamp ≡ true

-- The limit on the dumped outputs, which no counter overflows.
pub record DumpInv (d : ViewerFrameDumper) : Type 0 where
  pub limit_fits : d.config.max_frames < u64_mod
  pub dumped_le : d.dumped_output_count ≤ d.config.max_frames

-- What a step of the dumper leaves true.
pub record Moved (d d' : ViewerFrameDumper) : Type 0 where
  pub config : d'.config ≡ d.config
  pub later : leb_ℤ d.last_processed_timestamp d'.last_processed_timestamp ≡ true
  pub inv : DumpInv d'

Moved-trans : (a b c : ViewerFrameDumper) → Moved a b → Moved b c → Moved a c
Moved-trans a b c f g = record {
  config = g.config ∙ f.config;
  later =
      leb_ℤ_trans a.last_processed_timestamp b.last_processed_timestamp c.last_processed_timestamp
        f.later g.later;
  inv = g.inv;
}

Moved-self : (d : ViewerFrameDumper) → DumpInv d → Moved d d
Moved-self d v = record { config = refl; later = leb_ℤ_self d.last_processed_timestamp; inv = v }

Seen-later : (d d' : ViewerFrameDumper) (o : RenderOutput) → Moved d d' → Seen d o → Seen d' o
Seen-later d d' o m s =
    leb_ℤ_trans o.render_timestamp d.last_processed_timestamp d'.last_processed_timestamp s m.later

abbrev pub Settles :
    {F : Type 0} → ViewerFrameDumper → List RenderOutput → Bool × ViewerFrameDumper × F → Type 0
Settles d os r = Moved d r.1 × ((r.0 ≡ false) ⊎ All (Seen r.1) os)

stamped :
    (o : RenderOutput) (d d' : ViewerFrameDumper)
    → leb_ℤ o.render_timestamp d.last_processed_timestamp ≡ false
    → d'.last_processed_timestamp ≡ o.render_timestamp
    → d'.config ≡ d.config
    → DumpInv d'
    → Moved d d' × Seen d' o
stamped o d d' new time config inv = (
  record {
    config = config;
    later = rw time (leb_ℤ_other o.render_timestamp d.last_processed_timestamp new);
    inv = inv;
  },
  rw time (leb_ℤ_self o.render_timestamp),
)

module _ {F : Type 0} ⦃fs : FileSystem F⦄ where
  kept :
      (d : ViewerFrameDumper) (hash : ℕ) (w : Bool × F)
      → ((keep_written d hash w).1.last_processed_timestamp ≡ d.last_processed_timestamp)
        × ((keep_written d hash w).1.config ≡ d.config)
        × (((keep_written d hash w).1.dumped_output_count ≡ d.dumped_output_count)
            ⊎ ((keep_written d hash w).1.dumped_output_count ≡ inc64 d.dumped_output_count))
  kept d hash (false, disk) = (refl, refl, inl refl)
  kept d hash (true, disk) = (refl, refl, inr refl)

  handled :
      (o : RenderOutput) (d : ViewerFrameDumper) (disk : F)
      → DumpInv d
      → ((handle_output o d disk).1.last_processed_timestamp ≡ d.last_processed_timestamp)
        × ((handle_output o d disk).1.config ≡ d.config)
        × DumpInv (handle_output o d disk).1
  unfolding handle_output
  handled o d disk v = ground (
    arith,
    v,
    kept d (hash_output o) (write_output d.output_directory o (inc64 d.dumped_output_count) disk),
  )

  pub processed :
      (o : RenderOutput) (d : ViewerFrameDumper) (disk : F)
      → DumpInv d
      → Moved d (process_output o d disk).1 × Seen (process_output o d disk).1 o
  unfolding process_output
  processed o d disk v =
      let w : DumpInv (record d { last_processed_timestamp = o.render_timestamp }) = record {
        limit_fits = v.limit_fits;
        dumped_le = v.dumped_le;
      } in
      let h = handled o (record d { last_processed_timestamp = o.render_timestamp }) disk w in
      elim (Bool-cases (leb_ℤ o.render_timestamp d.last_processed_timestamp)) [
        | inl e ↦ rw e (Moved-self d v, e)
        | inr e ↦ rw e (elim (Bool-cases (not (has_rgb o) || (not d.config.enabled && o.cached))) [
          | inl f ↦ rw f (stamped o d _ e refl refl w)
          | inr f ↦ rw f (stamped o d _ e h.0 h.1 h.2)
        ])
      ]

  unprocessed :
      (o : RenderOutput) (d : ViewerFrameDumper) (disk : F)
      → Seen d o
      → process_output o d disk ≡ (true, d, disk)
  unfolding process_output
  unprocessed o d disk s = rw s refl

  pub processed_all :
      (os : List RenderOutput) (d : ViewerFrameDumper) (disk : F)
      → DumpInv d
      → Settles d os (process_all os d disk)
  unfolding process_all
  processed_all [] d disk v = (Moved-self d v, inr tt)
  processed_all (o ∷ os) d disk v =
      let r = process_output o d disk in
      let p = processed o d disk v in
      let later = process_all os r.1 r.2 in
      let q = processed_all os r.1 r.2 p.0.inv in
      elim (Bool-cases r.0) [
        | inl e ↦ subst (Settles d (o ∷ os)) (sym (if_true r.0 later (false, r.1, r.2) e)) (
          Moved-trans d r.1 later.1 p.0 q.0,
          elim q.1 [ inl f ↦ inl f | inr s ↦ inr (Seen-later r.1 later.1 o q.0 p.1, s) ],
        )
        | inr e ↦
            subst (Settles d (o ∷ os)) (sym (if_false r.0 later (false, r.1, r.2) e))
              (p.0, inl refl)
      ]

  unprocessed_all :
      (os : List RenderOutput) (d : ViewerFrameDumper) (disk : F)
      → All (Seen d) os
      → process_all os d disk ≡ (true, d, disk)
  unfolding process_all
  unprocessed_all [] d disk s = refl
  unprocessed_all (o ∷ os) d disk s = rw (unprocessed o d disk s.0) (unprocessed_all os d disk s.1)

  -- Once the outputs of a store were all processed, processing the same store again does nothing: no
  -- output is looked at twice, so none is dumped twice.
  pub process_new_outputs_again :
      (store : RenderOutputStore) (d : ViewerFrameDumper) (disk : F)
      → DumpInv d
      → (process_new_outputs store d disk).0 ≡ true
      → let r = process_new_outputs store d disk in
        process_new_outputs store r.1 r.2 ≡ (true, r.1, r.2)
  unfolding process_new_outputs
  process_new_outputs_again store d disk v e =
      let r = process_all (recent (u64_mod - 1) store) d disk in
      unprocessed_all (recent (u64_mod - 1) store) r.1 r.2
        (elim (processed_all (recent (u64_mod - 1) store) d disk v).1 [
          | inl f ↦ ground (arith, e, f)
          | inr s ↦ s
        ])
