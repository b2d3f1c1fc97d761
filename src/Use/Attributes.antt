-- ===== src/Use/Attributes.antt =====
-- The attributes' files, less the two whose writes replace the buffers.
use native.Mathlib.Nat.{suc-mul}
use beagle_logic.Base.{
  ℕ, zero, suc, ◌+◌, ◌-◌, ◌≤◌, Option, none, some, List, ◌==◌, not, ltb, u32, word, arith, length,
  ◌*◌, if◌then◌else◌, ◌<◌, ◌≡◌, true, ap,
}
use beagle_logic.Device.{
  BeagleLogicDev, Ret, ret, err, is_failure, is_running, is_unmapped, einval, state_code,
}
use beagle_logic.System.{Platform, M, pure, ◌>>=◌, read_dev, element, undefined}
use beagle_logic.Attributes.{get_samplerate, get_sampleunit, get_triggerflags}
use beagle_logic.Sysfs.{
  Text, Shown, print, with_value, count_or, unit_name, flags_line, buffer_lines,
  bl_bufunitsize_show, bl_memalloc_show, bl_samplerate_show, bl_samplerate_store,
  bl_sampleunit_show, bl_sampleunit_store, bl_triggerflags_show, bl_triggerflags_store,
  bl_state_show, bl_state_store, bl_buffers_show, bl_lasterror_show, bl_testpattern_store,
  bufunitsize, memalloc_size, samplerate, sampleunit, triggerflags, state, buffers, lasterror,
  filltestpattern, Attribute, show_attr, store_attr, page_size, print_at,
}
use beagle_logic.Safety.Attributes.{read_file, write_file}
use beagle_logic.Use.{OnOpened}
use beagle_logic.Use.Rules.{
  Safe-bind, Safe-pure, Safe-ignoring, Safe-read_dev, Safe-if, Safe-load, InRing-element, Safe-when,
}
use beagle_logic.Use.Driver.{Safe-wait_event, Safe-start, Safe-stop}
use beagle_logic.Use.Settings.{
  Safe-set_samplerate, Safe-set_sampleunit, Safe-set_triggerflags, Safe-testpattern,
}

-- The attributes whose files can be written without a new allocation.
unfoldable pub KeepsRing : Attribute → Type 0
KeepsRing bufunitsize = ⊥
KeepsRing memalloc_size = ⊥
KeepsRing samplerate = Unit
KeepsRing sampleunit = Unit
KeepsRing triggerflags = Unit
KeepsRing state = Unit
KeepsRing buffers = Unit
KeepsRing lasterror = Unit
KeepsRing filltestpattern = Unit

-- The attributes whose files can be read on a device of `cnt` buffers, where the line of a buffer
-- has at most `width` bytes: the list of the buffers and its end mark have to fit in a page.
unfoldable pub FitsPage : ℕ → ℕ → Attribute → Type 0
FitsPage cnt width buffers = cnt * width < page_size
FitsPage cnt width a = Unit

module _ (x : Text) (k : Platform) (cnt size id : ℕ) where
  Safe-parsed :
      (text : List ℕ) (f : ℕ → M Ret)
      → ((n : ℕ) → OnOpened cnt size id (f n))
      → OnOpened cnt size id (with_value (x.kstrtouint text) f)
  Safe-parsed text f h = by_value (x.kstrtouint text)
    where
      by_value : (o : Option ℕ) → OnOpened cnt size id (with_value o f)
      by_value none = Safe-pure (err einval)
      by_value (some n) = h n

  Safe-shown : (f : BeagleLogicDev → Shown) → OnOpened cnt size id (read_dev >>= λ d. pure (f d))
  Safe-shown f = Safe-read_dev _ (λ d _. Safe-pure (f d))

  Safe-optional :
      {B : Type 0} (o : Option B) (a : Shown) (f : B → Shown)
      → OnOpened cnt size id {A = Shown} (elim o [ none ↦ pure a | some b ↦ pure (f b) ])
  Safe-optional none a f = Safe-pure a
  Safe-optional (some b) a f = Safe-pure (f b)

  module _ (page : List ℕ) where
    Safe-sampleunit_show : OnOpened cnt size id (bl_sampleunit_show x page)
    unfolding bl_sampleunit_show
    Safe-sampleunit_show =
        Safe-read_dev
          (λ d.
            let number = print page (x.d_colon (get_sampleunit d)) in
            elim (unit_name (get_sampleunit d)) [
              | none ↦ pure number
              | some name ↦ pure (number.0 + length name, (print number.1 name).1)
            ])
          (λ d _. Safe-optional (unit_name (get_sampleunit d)) _ _)

    Safe-triggerflags_show : OnOpened cnt size id (bl_triggerflags_show x page)
    unfolding bl_triggerflags_show
    Safe-triggerflags_show =
        Safe-read_dev
          (λ d. elim (flags_line (get_triggerflags d)) [
            | none ↦ pure (0, page)
            | some line ↦ pure (print page line)
          ])
          (λ d _. Safe-optional (flags_line (get_triggerflags d)) _ _)

    -- The lines of `n` buffers fit in what is left of the page.
    Safe-buffer_lines :
        (width n i off : ℕ) (shown : List ℕ)
        → ((a : ℕ) → length (x.x_u_line a size) ≤ width)
        → i + n ≤ cnt
        → off + n * width < page_size
        → OnOpened cnt size id (buffer_lines x n i off shown)
    unfolding buffer_lines
    Safe-buffer_lines width zero i off shown short fits room = Safe-pure (off, shown)
    Safe-buffer_lines width (suc n) i off shown short fits room = Safe-read_dev _ (λ d h.
        Safe-load (element d i) _ (InRing-element d i h (omega arith)) (λ _ _ _ b placed.
          let line = x.x_u_line b.phys_addr b.size in
          let narrow : length line ≤ width = rw placed.size_eq (short b.phys_addr) in
          Safe-when (ltb page_size (off + length line + 1)) undefined _
            (λ e. absurd (past width n off (length line) e narrow room))
            (λ _.
              Safe-buffer_lines width n (i + 1) (off + length line) (print_at off shown line) short
                (omega arith) (omega (arith, narrow, room, suc-mul n width)))))
      where
        past :
            (width n off line : ℕ)
            → ltb page_size (off + line + 1) ≡ true
            → line ≤ width
            → off + suc n * width < page_size
            → ⊥
        past width n off line e narrow room = ground (arith, e, narrow, room, suc-mul n width)

    Safe-state_show : OnOpened cnt size id (bl_state_show x k page)
    unfolding bl_state_show
    Safe-state_show = Safe-read_dev _ (λ d h.
        Safe-if (is_running d.state) _ _
          (Safe-bind _ _
            (Safe-ignoring _ (
              Safe-wait_event k cnt size id _ _ (
                Safe-load d.bufbeingread _ h.reading
                  (λ _ _ _ b _. Safe-pure (is_unmapped b.state)))))
            (λ _.
              Safe-load d.bufbeingread _ h.reading
                (λ _ _ _ b _. Safe-pure (print page (x.d_line b.index)))))
          (Safe-pure (print page (x.minus_d_line (u32 (word - state_code d.state))))))

    Safe-lasterror_show : OnOpened cnt size id (bl_lasterror_show x k page)
    unfolding bl_lasterror_show
    Safe-lasterror_show =
        Safe-bind _ _
          (Safe-ignoring _ (
            Safe-wait_event k cnt size id _ _
              (Safe-read_dev _ (λ d _. Safe-pure (not (is_running d.state))))))
          (λ _. Safe-shown (λ d. print page (x.d_line d.lasterror)))

    Safe-buffers_show :
        (width : ℕ)
        → ((a : ℕ) → length (x.x_u_line a size) ≤ width)
        → cnt * width < page_size
        → OnOpened cnt size id (bl_buffers_show x page)
    unfolding bl_buffers_show
    Safe-buffers_show width short room = Safe-read_dev _ (λ d h.
        Safe-buffer_lines width d.bufcount 0 0 page short (omega (arith, h.ring.count_eq))
          (omega (arith, room, ap (λ m. m * width) h.ring.count_eq)))

    pub Safe-read_file :
        (width : ℕ)
        → ((a : ℕ) → length (x.x_u_line a size) ≤ width)
        → (a : Attribute) → FitsPage cnt width a
        → OnOpened cnt size id (read_file page (show_attr x k a))
    unfolding FitsPage show_attr bl_bufunitsize_show bl_memalloc_show bl_samplerate_show
    Safe-read_file width short bufunitsize _ =
        Safe-ignoring _ (Safe-shown (λ d. print page (x.d_line d.bufunitsize)))
    Safe-read_file width short memalloc_size _ =
        Safe-ignoring _ (Safe-shown (λ d. print page (x.d_line (u32 (d.bufcount * d.bufunitsize)))))
    Safe-read_file width short samplerate _ =
        Safe-ignoring _ (Safe-shown (λ d. print page (x.d_line (get_samplerate d))))
    Safe-read_file width short sampleunit _ = Safe-ignoring _ Safe-sampleunit_show
    Safe-read_file width short triggerflags _ = Safe-ignoring _ Safe-triggerflags_show
    Safe-read_file width short state _ = Safe-ignoring _ Safe-state_show
    Safe-read_file width short buffers room = Safe-ignoring _ (Safe-buffers_show width short room)
    Safe-read_file width short lasterror _ = Safe-ignoring _ Safe-lasterror_show
    Safe-read_file width short filltestpattern _ = Safe-pure tt

  module _ (text : List ℕ) (count : ℕ) where
    Safe-state_store : OnOpened cnt size id (bl_state_store x k text count)
    unfolding bl_state_store
    Safe-state_store = Safe-parsed text _ (λ n. Safe-if (ltb 1 n) _ _ (Safe-pure (err einval)) (
        Safe-if (n == 1) _ _
          (Safe-bind _ _ (Safe-ignoring _ (Safe-start k cnt size id _))
            (λ _. Safe-pure (ret count)))
          (Safe-bind _ _ (Safe-stop k cnt size id _) (λ _. Safe-pure (ret count)))))

    Safe-testpattern_store : OnOpened cnt size id (bl_testpattern_store x text count)
    unfolding bl_testpattern_store
    Safe-testpattern_store = Safe-parsed text _ (λ n.
        Safe-if (n == 12_345_678) _ _ (Safe-bind _ _ Safe-testpattern (λ _. Safe-pure (ret count)))
          (Safe-pure (ret count)))

    pub Safe-write_file :
        (a : Attribute)
        → KeepsRing a
        → OnOpened cnt size id (write_file text count (store_attr x k a))
    unfolding KeepsRing store_attr bl_samplerate_store bl_sampleunit_store bl_triggerflags_store
    Safe-write_file bufunitsize impossible = absurd impossible
    Safe-write_file memalloc_size impossible = absurd impossible
    Safe-write_file samplerate _ = Safe-ignoring _ (
        Safe-parsed text _ (λ n.
          Safe-bind _ _ (Safe-set_samplerate n)
            (λ rc. Safe-pure (if is_failure rc then err einval else ret count))))
    Safe-write_file sampleunit _ = Safe-ignoring _ (
        Safe-parsed text _
          (λ n. Safe-bind _ _ (Safe-set_sampleunit n) (λ rc. Safe-pure (count_or count rc))))
    Safe-write_file triggerflags _ = Safe-ignoring _ (
        Safe-parsed text _
          (λ n. Safe-bind _ _ (Safe-set_triggerflags n) (λ rc. Safe-pure (count_or count rc))))
    Safe-write_file state _ = Safe-ignoring _ Safe-state_store
    Safe-write_file buffers _ = Safe-pure tt
    Safe-write_file lasterror _ = Safe-pure tt
    Safe-write_file filltestpattern _ = Safe-ignoring _ Safe-testpattern_store
