-- ===== src/Safety/File.antt =====
-- The file operations.
use beagle_logic.Base.{
  ℕ, zero, suc, ◌+◌, ◌-◌, ◌*◌, ◌/◌, refl, min, Bool, true, false, Option, none, some, List, [], ◌∷◌,
  ◌==◌, ◌&&◌, not, ltb, if◌then◌else◌, u32, ℤ, pos, negsuc, take, drop, Bool-cases, inl, inr,
}
use beagle_logic.Device.{
  BufPtr, Ret, ret, err, is_failure, is_running, is_error, is_initialized, is_unmapped, is_mapped,
  same_ptr, enomem, einval, efault, eagain, eio, enoexec, erestartsys, BeagleLogicDev, BufferArray,
}
use beagle_logic.Device.BufState.{dropped}
use beagle_logic.System.{
  Platform, System, M, done, pure, ◌>>=◌, ◌>>◌, update_dev, update_reader, ignoring, load, store,
  element, devm_kzalloc, copy_to_user, remap_pfn_range, undefined,
}
use beagle_logic.System.Keeps.{
  After, Keeps, After-bind, Keeps-bind, Keeps-pure, Keeps-if, Keeps-read_dev, Keeps-read_reader,
  Keeps-undefined, Keeps-spinning, Keeps-ignoring,
}
use beagle_logic.Irq.{next_ptr}
use beagle_logic.File.{
  detect_drop, pass_bytes, advance, f_open, perform_copy, await_buffer, first_read, begin_buffer,
  f_read, remap_from, f_mmap, f_release, seek_loop, Whence, f_llseek, f_poll, seek_set, seek_cur,
  seek_end, UserMapping, map_pages, poll_readable,
}
use beagle_logic.Safety.{SoundIn, Anything, Sound-rest}
use beagle_logic.Safety.Frame.{Keeps-fields, Keeps-update_reader}
use beagle_logic.Safety.Store.{
  Keeps-load, Keeps-look, store-SoundIn, same-Replaces, Keeps-map_buffer,
}
use beagle_logic.Safety.Irq.{Keeps-wait_event}
use beagle_logic.Safety.Capture.{Keeps-start, Keeps-stop}
use beagle_logic.Buffers.{map_buffer}

-- A call outside the driver counts, and changes nothing else.
Keeps-counted :
    {A : Type 0} (f : System → A)
    → Keeps (SoundIn Anything) (λ s. done (f s) (record s { calls = s.calls + 1 }))
Keeps-counted f = record { at = λ s (h, _). (Sound-rest s.reader (s.calls + 1) s.events s h, tt) }

pub Keeps-copy_to_user : (k : Platform) (n : ℕ) → Keeps (SoundIn Anything) (copy_to_user k n)
unfolding copy_to_user
Keeps-copy_to_user k n = Keeps-counted _

Keeps-detect_drop : (p : Option BufPtr) → Keeps (SoundIn Anything) (detect_drop p)
unfolding detect_drop
Keeps-detect_drop p = Keeps-load Anything p _ (λ b s e g. elim (Bool-cases (is_mapped b.state)) [
  | inr f ↦ rw (f, After) g
  | inl f ↦ rw f (
      After-bind (SoundIn Anything) (SoundIn Anything) (SoundIn Anything)
        (store p (record b { state = dropped }) s)
        (λ _. update_dev (λ d. record d { lasterror = 0x10000 + b.index }))
        (store-SoundIn Anything p b _ s e (same-Replaces b dropped b.phys_addr) g)
        (λ _ t h.
          (Keeps-fields Anything (λ d. record d { lasterror = 0x10000 + b.index }) (λ d. refl)).at t
            h))
])

Keeps-advance : (n : ℕ) → Keeps (SoundIn Anything) (advance n)
unfolding advance pass_bytes
Keeps-advance n = Keeps-bind _ _ Keeps-read_reader (λ r. Keeps-look Anything r.buf _ (λ b.
    Keeps-if (r.remaining - n == 0) _ _
      (Keeps-look Anything (next_ptr r.buf b) _ (λ c. Keeps-update_reader Anything _))
      (Keeps-update_reader Anything _)))

module _ (k : Platform) where
  Keeps-perform_copy : (sz : ℕ) → Keeps (SoundIn Anything) (perform_copy k sz)
  unfolding perform_copy
  Keeps-perform_copy sz = Keeps-bind _ _ Keeps-read_reader (λ r. Keeps-look Anything r.buf _ (λ b.
      Keeps-bind _ _ (Keeps-copy_to_user k (min r.remaining sz)) (λ copied.
        Keeps-if copied _ _
          (Keeps-bind _ _ (Keeps-detect_drop r.buf) (λ _.
            Keeps-bind _ _ (Keeps-advance (min r.remaining sz)) (λ _.
              Keeps-pure (ret (min r.remaining sz), take (min r.remaining sz) (drop r.pos b.mem)))))
          (Keeps-pure (err efault, [])))))

  Keeps-await_buffer :
      (nonblock : Bool) (sz : ℕ) → Keeps (SoundIn Anything) (await_buffer k nonblock sz)
  unfolding await_buffer
  Keeps-await_buffer true sz = Keeps-bind _ _ Keeps-read_reader (λ r.
      Keeps-look Anything r.buf _ (λ b.
        Keeps-if (is_unmapped b.state) _ _ (Keeps-perform_copy sz) (Keeps-pure (err eagain, []))))
  Keeps-await_buffer false sz =
      Keeps-bind _ _
        (Keeps-wait_event Anything k (λ _ _ _. tt) _
          (Keeps-bind _ _ Keeps-read_reader
            (λ r. Keeps-look Anything r.buf _ (λ b. Keeps-pure (is_unmapped b.state)))))
        (λ woken. Keeps-if woken _ _ (Keeps-perform_copy sz) (Keeps-pure (err erestartsys, [])))

  Keeps-first_read : Keeps (SoundIn Anything) (first_read k)
  unfolding first_read
  Keeps-first_read = Keeps-bind _ _ Keeps-read_dev (λ d. Keeps-look Anything (element d 0) _ (λ b.
      Keeps-bind _ _
        (Keeps-update_reader Anything (λ x. record x { buf = element d 0; remaining = b.size }))
        (λ _. Keeps-if (is_running d.state) _ _ (Keeps-pure (ret 0)) (Keeps-start k))))

  Keeps-begin_buffer :
      (nonblock : Bool) (sz : ℕ) (p : Option BufPtr)
      → Keeps (SoundIn Anything) (begin_buffer k nonblock sz p)
  unfolding begin_buffer
  Keeps-begin_buffer nonblock sz none = Keeps-bind _ _ Keeps-first_read (λ rc.
      Keeps-if (is_failure rc) _ _ (Keeps-pure (err enoexec, [])) (Keeps-await_buffer nonblock sz))
  Keeps-begin_buffer nonblock sz (some p) = Keeps-bind _ _ Keeps-read_dev (λ d.
      Keeps-if (same_ptr (some p) (element d 0) && is_initialized d.state) _ _
        (Keeps-pure (ret 0, [])) (Keeps-await_buffer nonblock sz))

  pub Keeps-f_read : (nonblock : Bool) (sz : ℕ) → Keeps (SoundIn Anything) (f_read k nonblock sz)
  unfolding f_read
  Keeps-f_read nonblock sz = Keeps-bind _ _ Keeps-read_dev (λ d.
      Keeps-bind _ _ Keeps-read_reader (λ r.
        Keeps-if (is_error d.state) _ _ (Keeps-pure (err eio, [])) (
          Keeps-if (not (r.pos == 0)) _ _ (Keeps-perform_copy sz)
            (Keeps-begin_buffer nonblock sz r.buf))))

  Keeps-remapped :
      (fine : Bool) (m : M (Ret × List UserMapping))
      → Keeps (SoundIn Anything) m
      → Keeps {A = Ret × List UserMapping}
          (SoundIn Anything)
          (elim fine [ true ↦ m | false ↦ pure (err einval, []) ])
  Keeps-remapped true m h = h
  Keeps-remapped false m h = Keeps-pure (err einval, [])

  Keeps-remap_from : (n i addr : ℕ) → Keeps (SoundIn Anything) (remap_from k n i addr)
  unfolding remap_from remap_pfn_range
  Keeps-remap_from zero i addr = Keeps-pure (ret 0, [])
  Keeps-remap_from (suc n) i addr = Keeps-bind _ _ Keeps-read_dev (λ d.
      Keeps-look Anything (element d i) _ (λ b. Keeps-bind _ _ (Keeps-counted _) (λ fine.
        Keeps-remapped fine _ (
          Keeps-bind _ _ (Keeps-remap_from n (i + 1) (addr + b.size))
            (λ r. Keeps-pure (r.0, map_pages addr (b.phys_addr / 4096) b.size ∷ r.1))))))

  pub Keeps-f_mmap : (addr len : ℕ) → Keeps (SoundIn Anything) (f_mmap k addr len)
  unfolding f_mmap
  Keeps-f_mmap addr len = Keeps-bind _ _ Keeps-read_dev (λ d.
      Keeps-if (ltb (u32 (d.bufunitsize * d.bufcount)) len) _ _ (Keeps-pure (err einval, []))
        (Keeps-remap_from d.bufcount 0 addr))

  pub Keeps-f_release : Keeps (SoundIn Anything) (f_release k)
  unfolding f_release
  Keeps-f_release = Keeps-bind _ _ (Keeps-stop k) (λ _. Keeps-pure (ret 0))

-- The loop of a seek.
Keeps-seek_loop : (fuel n : ℕ) → Keeps (SoundIn Anything) (seek_loop fuel n)
unfolding seek_loop
Keeps-seek_loop fuel zero = Keeps-pure tt
Keeps-seek_loop zero (suc i) = Keeps-spinning
Keeps-seek_loop (suc fuel) (suc i) = Keeps-bind _ _ Keeps-read_reader (λ r.
    Keeps-bind _ _ (Keeps-detect_drop r.buf) (λ _.
      Keeps-bind _ _ (Keeps-advance (min (u32 (suc i)) r.remaining))
        (λ _. Keeps-seek_loop fuel (suc i - min (u32 (suc i)) r.remaining))))

module _ (k : Platform) where
  pub Keeps-f_llseek :
      (fuel : ℕ) (offset : ℤ) (whence : Whence)
      → Keeps (SoundIn Anything) (f_llseek k fuel offset whence)
  unfolding f_llseek
  Keeps-f_llseek fuel (pos n) seek_cur = Keeps-bind _ _ (Keeps-seek_loop fuel n) (λ _. Keeps-pure _)
  Keeps-f_llseek fuel (negsuc n) seek_cur = Keeps-pure _
  Keeps-f_llseek fuel (pos zero) seek_set =
      Keeps-bind _ _
        (Keeps-update_reader Anything (λ x. record x { buf = none; pos = 0; remaining = 0 }))
        (λ _. Keeps-bind _ _ (Keeps-stop k) (λ _. Keeps-bind _ _ Keeps-read_dev (λ d.
          Keeps-bind _ _ (Keeps-ignoring _ (Keeps-map_buffer Anything k (element d 0)))
            (λ _. Keeps-pure (inl (pos 0))))))
  Keeps-f_llseek fuel (pos (suc n)) seek_set = Keeps-pure _
  Keeps-f_llseek fuel (negsuc n) seek_set = Keeps-pure _
  Keeps-f_llseek fuel (pos n) seek_end = Keeps-pure _
  Keeps-f_llseek fuel (negsuc n) seek_end = Keeps-pure _

  opened :
      (block : Option ℕ) (found : Option BufferArray) (d : BeagleLogicDev)
      → Keeps {A = Ret} (SoundIn Anything) (elim block [
        | none ↦ undefined
        | some id ↦ do
          update_reader (λ x. record { buf = none; pos = 0; remaining = 0 })
          elim found [
            | none ↦ pure (err enomem)
            | some arr ↦ ignoring (map_buffer k (element d 0)) >> pure (ret 0)
          ]
      ])
  opened none found d = Keeps-undefined
  opened (some id) none d =
      Keeps-bind _ _
        (Keeps-update_reader Anything (λ x. record { buf = none; pos = 0; remaining = 0 }))
        (λ _. Keeps-pure (err enomem))
  opened (some id) (some arr) d =
      Keeps-bind _ _
        (Keeps-update_reader Anything (λ x. record { buf = none; pos = 0; remaining = 0 }))
        (λ _.
          Keeps-bind _ _ (Keeps-ignoring _ (Keeps-map_buffer Anything k (element d 0)))
            (λ _. Keeps-pure (ret 0)))

  pub Keeps-f_open : Keeps (SoundIn Anything) (f_open k)
  unfolding f_open devm_kzalloc
  Keeps-f_open = Keeps-bind _ _ Keeps-read_dev (λ d.
      Keeps-if (d.bufcount == 0) _ _ (Keeps-pure (err enomem))
        (Keeps-bind _ _ (Keeps-counted _) (λ block. opened block d.buffers d)))

polled :
    (p : Option BufPtr) (d : BeagleLogicDev)
    → Keeps {A = Ret} (SoundIn Anything) (elim p [
      | none ↦ if is_running d.state then undefined else pure (err enoexec)
      | some p ↦ do b ← load (some p); pure (ret (if is_unmapped b.state then poll_readable else 0))
    ])
polled none d = Keeps-if (is_running d.state) _ _ Keeps-undefined (Keeps-pure (err enoexec))
polled (some p) d = Keeps-look Anything (some p) _ (λ b. Keeps-pure _)

pub Keeps-f_poll : Keeps (SoundIn Anything) f_poll
unfolding f_poll
Keeps-f_poll =
    Keeps-bind _ _ Keeps-read_dev (λ d. Keeps-bind _ _ Keeps-read_reader (λ r. polled r.buf d))
