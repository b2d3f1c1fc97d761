-- ===== src/Use/Opening.antt =====
-- Opening and closing the device file, seeking, polling and mapping.
use beagle_logic.Base.{
  ℕ, zero, suc, ◌+◌, ◌*◌, ◌/◌, ◌^◌, ◌≤◌, ◌<◌, ◌≡◌, refl, inl, inr, Bool, true, false, Option, none,
  some, List, [], ◌∷◌, ◌==◌, ltb, if◌then◌else◌, u32, pos, arith,
}
use beagle_logic.Device.{
  BufPtr, LogicBufferReader, BufferArray, BeagleLogicDev, Ret, ret, err, is_running, is_unmapped,
  enomem, einval, enoexec,
}
use beagle_logic.System.{
  Platform, M, pure, ◌>>=◌, ◌>>◌, ignoring, update_reader, load, element, devm_kzalloc,
  remap_pfn_range, undefined,
}
use beagle_logic.Buffers.{map_buffer}
use beagle_logic.File.{
  f_open, f_release, f_llseek, f_poll, f_mmap, remap_from, UserMapping, map_pages, seek_set,
  seek_cur, poll_readable, sizeof_logic_buffer_reader,
}
use beagle_logic.Use.{InRing, DeviceInUse, InUse, Fresh, Opened, Safe, OnFile, OnOpened}
use beagle_logic.Use.Rules.{
  Safe-bind, Safe-pure, Safe-ignoring, Safe-read_dev, Safe-read_reader, Safe-if, Safe-load,
  Safe-update_reader, Safe-filed, InRing-element,
}
use beagle_logic.Use.Writes.{Safe-counted}
use beagle_logic.Use.Driver.{Safe-map_buffer, Safe-stop}
use beagle_logic.Use.Files.{Safe-seek_loop}

module _ (k : Platform) (cnt size id : ℕ) where
  -- The reader that a file is opened with.
  abbrev ToFresh : {A : Type 0} → M A → Type 0
  ToFresh m =
      Safe (InUse cnt size id (Opened cnt size id)) (InUse cnt size id (Fresh cnt size id)) m

  Safe-map_first :
      (F : LogicBufferReader → Type 0) (d : BeagleLogicDev)
      → DeviceInUse cnt size id d
      → Safe (InUse cnt size id F) (InUse cnt size id F) (ignoring (map_buffer k (element d 0)))
  Safe-map_first F d h = Safe-ignoring _ (
      Safe-map_buffer k cnt size id F (element d 0)
        (InRing-element d 0 h (omega (arith, h.ring.two))))

  Safe-granted :
      {A : Type 0} (n : ℕ) (f : Option ℕ → M A)
      → ((c m : ℕ) → k.devm_kzalloc c m ≡ true)
      → ((a : ℕ) → OnOpened cnt size id (f (some a)))
      → OnOpened cnt size id (devm_kzalloc k n >>= f)
  unfolding devm_kzalloc
  Safe-granted n f grants next = record {
    at = λ s h. rw (grants s.calls n) (
        (next s.calls).at (record s { calls = s.calls + 1 })
          (record { device = h.device; file = h.file }));
  }

  Safe-opened :
      (o : Option BufferArray) (d : BeagleLogicDev)
      → DeviceInUse cnt size id d
      → ToFresh (
          update_reader (λ x. record { buf = none; pos = 0; remaining = 0 }) >> elim o [
            | none ↦ pure (err enomem)
            | some arr ↦ ignoring (map_buffer k (element d 0)) >> pure (ret 0)
          ])
  Safe-opened none d h =
      Safe-update_reader (λ x. record { buf = none; pos = 0; remaining = 0 }) _
        (λ _ _. record { no_buf = refl; at_start = refl }) (Safe-pure (err enomem))
  Safe-opened (some arr) d h =
      Safe-update_reader (λ x. record { buf = none; pos = 0; remaining = 0 }) _
        (λ _ _. record { no_buf = refl; at_start = refl })
        (Safe-bind _ _ (Safe-map_first _ d h) (λ _. Safe-pure (ret 0)))

  pub Safe-f_open : ((c m : ℕ) → k.devm_kzalloc c m ≡ true) → OnOpened cnt size id (f_open k)
  unfolding f_open
  Safe-f_open grants = Safe-read_dev _ (λ d h.
      Safe-if (d.bufcount == 0) _ _ (Safe-pure (err enomem)) (
        Safe-granted sizeof_logic_buffer_reader
          (λ block. elim block [
            | none ↦ undefined
            | some id ↦
                (update_reader (λ x. record { buf = none; pos = 0; remaining = 0 })
                  >> elim d.buffers [
                    | none ↦ pure (err enomem)
                    | some arr ↦ ignoring (map_buffer k (element d 0)) >> pure (ret 0)
                  ])
          ])
          grants (λ a. Safe-filed _ (λ _ g. inr g) (Safe-opened d.buffers d h))))

  pub Safe-f_release : OnOpened cnt size id (f_release k)
  unfolding f_release
  Safe-f_release = Safe-bind _ _ (Safe-stop k cnt size id _) (λ _. Safe-pure (ret 0))

  pub Safe-seek_forward :
      (fuel n : ℕ) → n ≤ fuel → n < 2 ^ 32 → OnFile cnt size id (f_llseek k fuel (pos n) seek_cur)
  unfolding f_llseek
  Safe-seek_forward fuel n enough small =
      Safe-bind _ _ (Safe-seek_loop cnt size id fuel n enough small) (λ _. Safe-pure (inl (pos n)))

  pub Safe-seek_start : (fuel : ℕ) → OnOpened cnt size id (f_llseek k fuel (pos zero) seek_set)
  unfolding f_llseek
  Safe-seek_start fuel =
      Safe-filed _ (λ _ g. inr g)
        (Safe-update_reader (λ x. record x { buf = none; pos = 0; remaining = 0 }) _
          (λ _ _. record { no_buf = refl; at_start = refl })
          (Safe-bind _ _ (Safe-stop k cnt size id (Fresh cnt size id)) (λ _.
            Safe-read_dev _
              (λ d h. Safe-bind _ _ (Safe-map_first _ d h) (λ _. Safe-pure (inl (pos 0)))))))

  Safe-polled :
      (o : Option BufPtr) (d : BeagleLogicDev)
      → InRing cnt size id o
      → OnFile cnt size id {A = Ret} (elim o [
        | none ↦ if is_running d.state then undefined else pure (err enoexec)
        | some p ↦ do
          b ← load (some p)
          pure (ret (if is_unmapped b.state then poll_readable else 0))
      ])
  Safe-polled none d (j, e, lt) = cc
  Safe-polled (some p) d there = Safe-load (some p) _ there (λ _ _ _ b _. Safe-pure _)

  pub Safe-f_poll : OnFile cnt size id f_poll
  unfolding f_poll
  Safe-f_poll = Safe-read_dev _ (λ d _. Safe-read_reader _ (λ r h. Safe-polled r.buf d h.buf_in))

  Safe-remapped :
      (fine : Bool) (m : M (Ret × List UserMapping))
      → OnOpened cnt size id m
      → OnOpened cnt size id {A = Ret × List UserMapping}
          (elim fine [ true ↦ m | false ↦ pure (err einval, []) ])
  Safe-remapped true m h = h
  Safe-remapped false m h = Safe-pure (err einval, [])

  Safe-remap_from : (n i addr : ℕ) → i + n ≤ cnt → OnOpened cnt size id (remap_from k n i addr)
  unfolding remap_from remap_pfn_range
  Safe-remap_from zero i addr fits = Safe-pure (ret 0, [])
  Safe-remap_from (suc n) i addr fits = Safe-read_dev _ (λ d h.
      Safe-load (element d i) _ (InRing-element d i h (omega arith)) (λ _ _ _ b _.
        Safe-bind _ _
          (Safe-counted (λ t. k.remap_pfn_range t.calls addr (b.phys_addr / 4096) b.size))
          (λ fine. Safe-remapped fine _ (
            Safe-bind _ _ (Safe-remap_from n (i + 1) (addr + b.size) (omega arith))
              (λ r. Safe-pure (r.0, map_pages addr (b.phys_addr / 4096) b.size ∷ r.1))))))

  pub Safe-f_mmap : (addr len : ℕ) → OnOpened cnt size id (f_mmap k addr len)
  unfolding f_mmap
  Safe-f_mmap addr len = Safe-read_dev _ (λ d h.
      Safe-if (ltb (u32 (d.bufunitsize * d.bufcount)) len) _ _ (Safe-pure (err einval, []))
        (Safe-remap_from d.bufcount 0 addr (omega (arith, h.ring.count_eq))))
