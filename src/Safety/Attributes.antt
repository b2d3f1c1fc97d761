-- ===== src/Safety/Attributes.antt =====
-- Every attribute keeps the invariant, read or written.
use beagle_logic.Base.{
  ℕ, zero, suc, ◌+◌, ◌-◌, ◌*◌, Option, none, some, List, ◌==◌, not, ltb, if◌then◌else◌, u32, word,
  length,
}
use beagle_logic.Device.{
  BeagleLogicDev, Ret, ret, err, is_failure, is_running, is_unmapped, einval, state_code,
}
use beagle_logic.System.{Platform, M, pure, ◌>>=◌, read_dev, element, ignoring}
use beagle_logic.System.Keeps.{
  Keeps, Keeps-bind, Keeps-pure, Keeps-if, Keeps-read_dev, Keeps-ignoring,
}
use beagle_logic.Attributes.{get_samplerate, get_sampleunit, get_triggerflags}
use beagle_logic.Sysfs.{
  Text, Shown, print, with_value, count_or, unit_name, flags_line, resize, submit_new, reallocate,
  buffer_lines, bl_bufunitsize_show, bl_bufunitsize_store, bl_memalloc_show, bl_memalloc_store,
  bl_samplerate_show, bl_samplerate_store, bl_sampleunit_show, bl_sampleunit_store,
  bl_triggerflags_show, bl_triggerflags_store, bl_state_show, bl_state_store, bl_buffers_show,
  bl_lasterror_show, bl_testpattern_store, bufunitsize, memalloc_size, samplerate, sampleunit,
  triggerflags, state, buffers, lasterror, filltestpattern, Attribute, show_attr, store_attr,
  page_size, print_at,
}
use beagle_logic.Safety.{SoundIn, Anything}
use beagle_logic.Safety.Store.{Keeps-look}
use beagle_logic.Safety.Locks.{Keeps-set_samplerate, Keeps-set_sampleunit, Keeps-set_triggerflags}
use beagle_logic.Safety.Irq.{Keeps-wait_event}
use beagle_logic.Safety.Buffers.{Keeps-replace, Keeps-map_and_submit, Keeps-testpattern}
use beagle_logic.Safety.Capture.{Keeps-start, Keeps-stop}
use beagle_logic.Safety.Calls.{Keeps-resized}

abbrev Kept : {A : Type 0} → M A → Type 0
Kept m = Keeps (SoundIn Anything) m

Keeps-parsed :
    (x : Text) (text : List ℕ) (f : ℕ → M Ret)
    → ((n : ℕ) → Keeps (SoundIn Anything) (f n))
    → Keeps (SoundIn Anything) (with_value (x.kstrtouint text) f)
Keeps-parsed x text f h = by_value (x.kstrtouint text)
  where
    by_value : (o : Option ℕ) → Keeps (SoundIn Anything) (with_value o f)
    by_value none = Keeps-pure (err einval)
    by_value (some n) = h n

Keeps-submit_new : (k : Platform) (count : ℕ) (rc : Ret) → Kept (submit_new k count rc)
Keeps-submit_new k count rc =
    Keeps-if (is_failure rc) _ _ (Keeps-pure rc)
      (Keeps-bind _ _ (Keeps-ignoring _ (Keeps-map_and_submit k)) (λ _. Keeps-pure (ret count)))

module _ (x : Text) (page : List ℕ) where
  Keeps-shown :
      (f : BeagleLogicDev → Shown) → Keeps (SoundIn Anything) (read_dev >>= λ d. pure (f d))
  Keeps-shown f = Keeps-bind _ _ Keeps-read_dev (λ d. Keeps-pure (f d))

  Keeps-optional :
      {B : Type 0} (o : Option B) (a : Shown) (f : B → Shown)
      → Keeps {A = Shown} (SoundIn Anything) (elim o [ none ↦ pure a | some b ↦ pure (f b) ])
  Keeps-optional none a f = Keeps-pure a
  Keeps-optional (some b) a f = Keeps-pure (f b)

  Keeps-sampleunit_show : Kept (bl_sampleunit_show x page)
  unfolding bl_sampleunit_show
  Keeps-sampleunit_show =
      Keeps-bind _ _ Keeps-read_dev (λ d. Keeps-optional (unit_name (get_sampleunit d)) _ _)

  Keeps-triggerflags_show : Kept (bl_triggerflags_show x page)
  unfolding bl_triggerflags_show
  Keeps-triggerflags_show =
      Keeps-bind _ _ Keeps-read_dev (λ d. Keeps-optional (flags_line (get_triggerflags d)) _ _)

  Keeps-buffer_lines : (n i cnt : ℕ) (shown : List ℕ) → Kept (buffer_lines x n i cnt shown)
  unfolding buffer_lines
  Keeps-buffer_lines zero i cnt shown = Keeps-pure (cnt, shown)
  Keeps-buffer_lines (suc n) i cnt shown = Keeps-bind _ _ Keeps-read_dev (λ d.
      Keeps-look Anything (element d i) _ (λ b.
        let line = x.x_u_line b.phys_addr b.size in
        Keeps-if (ltb page_size (cnt + length line + 1)) _ _ (record { at = λ s h. tt })
          (Keeps-buffer_lines n (i + 1) (cnt + length line) (print_at cnt shown line))))

  module _ (k : Platform) where
    Keeps-state_show : Kept (bl_state_show x k page)
    unfolding bl_state_show
    Keeps-state_show = Keeps-bind _ _ Keeps-read_dev (λ d.
        Keeps-if (is_running d.state) _ _
          (Keeps-bind _ _
            (Keeps-ignoring _ (
              Keeps-wait_event Anything k (λ _ _ _. tt) _
                (Keeps-look Anything d.bufbeingread _ (λ b. Keeps-pure (is_unmapped b.state)))))
            (λ _.
              Keeps-look Anything d.bufbeingread _
                (λ b. Keeps-pure (print page (x.d_line b.index)))))
          (Keeps-pure (print page (x.minus_d_line (u32 (word - state_code d.state))))))

    Keeps-lasterror_show : Kept (bl_lasterror_show x k page)
    unfolding bl_lasterror_show
    Keeps-lasterror_show =
        Keeps-bind _ _
          (Keeps-ignoring _ (
            Keeps-wait_event Anything k (λ _ _ _. tt) _
              (Keeps-bind _ _ Keeps-read_dev (λ d. Keeps-pure (not (is_running d.state))))))
          (λ _. Keeps-shown (λ d. print page (x.d_line d.lasterror)))

-- A read or a write of an attribute's file; one that is NULL does nothing.
abbrev pub read_file : List ℕ → Option (List ℕ → M Shown) → M (Unit {0})
read_file page none = pure tt
read_file page (some show) = ignoring (show page)

abbrev pub write_file : List ℕ → ℕ → Option (List ℕ → ℕ → M Ret) → M (Unit {0})
write_file text count none = pure tt
write_file text count (some store) = ignoring (store text count)

module _ (x : Text) (k : Platform) where
  pub Keeps-read_file :
      (page : List ℕ) (a : Attribute) → Keeps (SoundIn Anything) (read_file page (show_attr x k a))
  unfolding show_attr bl_bufunitsize_show bl_memalloc_show bl_samplerate_show bl_buffers_show
  Keeps-read_file page bufunitsize =
      Keeps-ignoring _ (Keeps-shown x page (λ d. print page (x.d_line d.bufunitsize)))
  Keeps-read_file page memalloc_size =
      Keeps-ignoring _
        (Keeps-shown x page (λ d. print page (x.d_line (u32 (d.bufcount * d.bufunitsize)))))
  Keeps-read_file page samplerate =
      Keeps-ignoring _ (Keeps-shown x page (λ d. print page (x.d_line (get_samplerate d))))
  Keeps-read_file page sampleunit = Keeps-ignoring _ (Keeps-sampleunit_show x page)
  Keeps-read_file page triggerflags = Keeps-ignoring _ (Keeps-triggerflags_show x page)
  Keeps-read_file page state = Keeps-ignoring _ (Keeps-state_show x page k)
  Keeps-read_file page buffers =
      Keeps-ignoring _
        (Keeps-bind _ _ Keeps-read_dev (λ d. Keeps-buffer_lines x page d.bufcount 0 0 page))
  Keeps-read_file page lasterror = Keeps-ignoring _ (Keeps-lasterror_show x page k)
  Keeps-read_file page filltestpattern = Keeps-pure tt

  module _ (text : List ℕ) (count : ℕ) where
    Keeps-state_store : Kept (bl_state_store x k text count)
    unfolding bl_state_store
    Keeps-state_store = Keeps-parsed x text _ (λ n.
        Keeps-if (ltb 1 n) _ _ (Keeps-pure (err einval)) (
          Keeps-if (n == 1) _ _
            (Keeps-bind _ _ (Keeps-ignoring _ (Keeps-start k)) (λ _. Keeps-pure (ret count)))
            (Keeps-bind _ _ (Keeps-stop k) (λ _. Keeps-pure (ret count)))))

    Keeps-testpattern_store : Kept (bl_testpattern_store x text count)
    unfolding bl_testpattern_store
    Keeps-testpattern_store = Keeps-parsed x text _ (λ n.
        Keeps-if (n == 12_345_678) _ _
          (Keeps-bind _ _ Keeps-testpattern (λ _. Keeps-pure (ret count))) (Keeps-pure (ret count)))

    Keeps-memalloc_store : Kept (bl_memalloc_store x k text count)
    unfolding bl_memalloc_store reallocate
    Keeps-memalloc_store = Keeps-parsed x text _ (λ n. Keeps-bind _ _ Keeps-read_dev (λ d.
        Keeps-if (ltb (u32 (d.maxbufcount * d.bufunitsize)) n) _ _ (Keeps-pure (err einval))
          (Keeps-replace k n _ (λ rc. Keeps-submit_new k count rc))))

    pub Keeps-write_file :
        (a : Attribute) → Keeps (SoundIn Anything) (write_file text count (store_attr x k a))
    unfolding store_attr bl_bufunitsize_store resize bl_samplerate_store bl_sampleunit_store
        bl_triggerflags_store
    Keeps-write_file bufunitsize = Keeps-ignoring _ (
        Keeps-parsed x text _
          (λ n. Keeps-if (ltb n 32) _ _ (Keeps-pure (err einval)) (Keeps-resized n (ret count))))
    Keeps-write_file memalloc_size = Keeps-ignoring _ Keeps-memalloc_store
    Keeps-write_file samplerate = Keeps-ignoring _ (
        Keeps-parsed x text _ (λ n.
          Keeps-bind _ _ (Keeps-set_samplerate n)
            (λ rc. Keeps-pure (if is_failure rc then err einval else ret count))))
    Keeps-write_file sampleunit = Keeps-ignoring _ (
        Keeps-parsed x text _
          (λ n. Keeps-bind _ _ (Keeps-set_sampleunit n) (λ rc. Keeps-pure (count_or count rc))))
    Keeps-write_file triggerflags = Keeps-ignoring _ (
        Keeps-parsed x text _
          (λ n. Keeps-bind _ _ (Keeps-set_triggerflags n) (λ rc. Keeps-pure (count_or count rc))))
    Keeps-write_file state = Keeps-ignoring _ Keeps-state_store
    Keeps-write_file buffers = Keeps-pure tt
    Keeps-write_file lasterror = Keeps-pure tt
    Keeps-write_file filltestpattern = Keeps-ignoring _ Keeps-testpattern_store
