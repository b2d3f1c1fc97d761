-- ===== src/Safety/Buffers.antt =====
-- The buffers as a whole: freed, allocated, mapped and submitted.
use beagle_logic.Base.{
  ℕ, zero, suc, ◌+◌, ◌≡◌, refl, sym, inl, inr, Bool, true, false, Bool-cases, Option, none, some,
  ◌==◌, arith, count, ap, u32,
}
use native.Mathlib.Decide.{dec_lt}
use beagle_logic.Device.{
  DeviceState, Ret, is_failure, armed, error, BeagleLogicDev, ret, is_running,
}
use beagle_logic.System.{Platform, System, M, ◌>>=◌, ◌>>◌, update_dev, element, Run, sleeps}
use beagle_logic.System.Mutex.{lock_taken, trylock_free, trylock_taken}
use beagle_logic.System.Returns.{Returns, returns, weaken}
use beagle_logic.System.Keeps.{
  After, Keeps, After-weaken, Keeps-bind, Keeps-pure, Keeps-if, Keeps-read_dev, After-bind_weaken,
}
use beagle_logic.Buffers.{memalloc, memfree, memalloc_locked}
use beagle_logic.Buffers.Alloc.{
  Outcome, busy, too_large, no_list, no_block, allocated, memalloc-Outcome,
}
use beagle_logic.Buffers.Free.{memfree-Released, memfree_null}
use beagle_logic.Submit.{
  map_from, unmap_from, write_table, submit, map_and_submit_all_buffers, put_entry, go_on_or_fail,
  fill_from, fill_buffer_testpattern,
}
use beagle_logic.Safety.{Sound, SoundIn, Anything, Critical, held}
use beagle_logic.Safety.Frame.{Sound-dev, Keeps-fields}
use beagle_logic.Safety.Store.{Keeps-look, Keeps-map_buffer, Keeps-unmap_buffer, Keeps-fill_from}
use beagle_logic.Buffers.Ring.{HoldsRing}
use mathlib.Core.Path.{subst}
use beagle_logic.Safety.Locks.{Keeps-critical, unlock-Sound}

-- A sound state without buffers.
abbrev pub Empty : System → Type 0
Empty s = Sound s × (s.dev.buffers ≡ none)

Returns-After :
    {A : Type 0} (P Q : System → Type 0) (r : Run A) → Returns (λ _ t. Q t) r → After P Q r
Returns-After P Q r (returns h) = h

memfree_taken : (s : System) → s.dev.mutex ≡ true → memfree s ≡ sleeps s
unfolding memfree
memfree_taken s e = rw (lock_taken s e) refl

pub memfree-Empty : (s : System) → Sound s → After Sound Empty (memfree s)
memfree-Empty s h = elim (Bool-cases s.dev.mutex) [
  | inl e ↦ rw (memfree_taken s e) h
  | inr e ↦ freed s h e h.ring
]
  where
    freed :
        (s : System)
        → Sound s
        → s.dev.mutex ≡ false
        → HoldsRing s.dev
        → After Sound Empty (memfree s)
    freed s h e (inl none_there) = rw (memfree_null s e none_there) (h, none_there)
    freed s h e (inr (arr, cnt, size, ring)) = Returns-After Sound Empty (memfree s) (
        weaken (memfree-Released arr cnt size s e ring) (λ _ t f. (
          record {
            ring = inl (ground (arith, f.frame));
            owned = λ a. omega (
              arith,
              f.heap_shrinks a,
              h.owned a,
              ap (λ o. count a (held o)) ring.present,
              ap (λ (u : System). count a (held u.dev.buffers)) f.frame,
            );
            rate_pos = ground (arith, f.frame, h.rate_pos);
            rate_le = ground (arith, f.frame, h.rate_le);
            unit_le = ground (arith, f.frame, h.unit_le);
            flags_le = ground (arith, f.frame, h.flags_le);
            running_locked = λ r. ground (arith, f.frame, h.running_locked, r);
          },
          ground (arith, f.frame),
        )))

-- How an allocation ends that starts without buffers.
Outcome-Sound :
    (k : Platform) (bufsize : ℕ) (s t : System) (r : Ret)
    → Empty s
    → Outcome k s bufsize r t
    → Sound t
Outcome-Sound k bufsize s t r (h, e) (busy _ _ f) = subst Sound (sym f) h
Outcome-Sound k bufsize s t r (h, e) (too_large _ _ _ f) = subst Sound (sym f) h
Outcome-Sound k bufsize s t r (h, e) (no_list free _ f) = record {
  ring = inl (ground (arith, f));
  owned = λ a. omega (
    arith,
    ap (λ (u : System). count a u.heap) f,
    ap (λ (u : System). count a (held u.dev.buffers)) f,
    h.owned a,
    ap (λ o. count a (held o)) e,
  );
  rate_pos = ground (arith, f, h.rate_pos);
  rate_le = ground (arith, f, h.rate_le);
  unit_le = ground (arith, f, h.unit_le);
  flags_le = ground (arith, f, h.flags_le);
  running_locked = λ q. ground (arith, f, h.running_locked, q);
}
Outcome-Sound k bufsize s t r (h, e) (no_block free _ f heap_same) = record {
  ring = inl (ground (arith, f));
  owned = λ a. omega (
    arith,
    heap_same a,
    ap (λ (u : System). count a (held u.dev.buffers)) f,
    h.owned a,
    ap (λ o. count a (held o)) e,
  );
  rate_pos = ground (arith, f, h.rate_pos);
  rate_le = ground (arith, f, h.rate_le);
  unit_le = ground (arith, f, h.unit_le);
  flags_le = ground (arith, f, h.flags_le);
  running_locked = λ q. ground (arith, f, h.running_locked, q);
}
Outcome-Sound k bufsize s t r (h, e) (allocated free _ _ arr ring f grown) = record {
  ring = inr (arr, _, _, ring);
  owned = λ a. omega (
    arith,
    grown a,
    ap (λ (u : System). count a (held u.dev.buffers)) f,
    h.owned a,
    ap (λ o. count a (held o)) e,
  );
  rate_pos = ground (arith, f, h.rate_pos);
  rate_le = ground (arith, f, h.rate_le);
  unit_le = ground (arith, f, h.unit_le);
  flags_le = ground (arith, f, h.flags_le);
  running_locked = λ q. ground (arith, f, h.running_locked, q);
}

memalloc_zero :
    (k : Platform) (bufsize : ℕ) (s : System)
    → s.dev.bufunitsize ≡ 0
    → Sound s
    → After Sound Sound (memalloc k bufsize s)
unfolding memalloc memalloc_locked
memalloc_zero k bufsize s e h = elim (Bool-cases s.dev.mutex) [
  | inl f ↦ rw (trylock_taken s f, After) h
  | inr f ↦ rw (trylock_free s f) (rw (e, After) tt)
]

-- From a sound state without buffers an allocation leads to a sound state.
pub memalloc-Sound :
    (k : Platform) (bufsize : ℕ) (s : System) → Empty s → After Sound Sound (memalloc k bufsize s)
memalloc-Sound k bufsize s (h, e) = elim (dec_lt 0 s.dev.bufunitsize) [
  | yes p ↦
      Returns-After _ _ (memalloc k bufsize s)
        (weaken (memalloc-Outcome k s bufsize p) (λ r t o. Outcome-Sound k bufsize s t r (h, e) o))
  | no p ↦ memalloc_zero k bufsize s (omega arith) h
]

-- A device state other than running.
idle_state :
    (st : DeviceState) (s : System)
    → is_running st ≡ false
    → SoundIn Anything s
    → SoundIn Anything (record s { dev = record s.dev { state = st } })
idle_state st s c (h, _) = (
  Sound-dev s.dev.mutex s.dev.lastbufready s.dev.bufbeingread s.dev.cxt_pru s.dev.maxbufcount
      s.dev.bufunitsize s.dev.lasterror st s (λ r. absurd (ground (arith, c, r))) h,
  tt,
)

abbrev set_state : DeviceState → BeagleLogicDev → BeagleLogicDev
set_state st d = record d { state = st }

Keeps-set_state :
    (st : DeviceState)
    → is_running st ≡ false
    → Keeps (SoundIn Anything) (update_dev (set_state st))
Keeps-set_state st c = record { at = λ s h. idle_state st s c h }

module _ (R : Bool → DeviceState → Type 0) where
  pub Keeps-unmap_from : (n j : ℕ) → Keeps (SoundIn R) (unmap_from n j)
  unfolding unmap_from
  Keeps-unmap_from zero j = Keeps-pure tt
  Keeps-unmap_from (suc n) j =
      Keeps-bind _ _ Keeps-read_dev
        (λ d. Keeps-bind _ _ (Keeps-unmap_buffer R (element d j)) (λ _. Keeps-unmap_from n (j + 1)))

  Keeps-write_table : (n i : ℕ) → Keeps (SoundIn R) (write_table n i)
  unfolding write_table
  Keeps-write_table zero i = Keeps-pure tt
  Keeps-write_table (suc n) i = Keeps-bind _ _ Keeps-read_dev (λ d.
      Keeps-look R (element d i) _ (λ b.
        Keeps-bind _ _
          (Keeps-fields R (put_entry i b.phys_addr (u32 (b.phys_addr + b.size))) (λ e. refl))
          (λ _. Keeps-write_table n (i + 1))))

  Keeps-go_on_or_fail :
      (failed : Bool) (i : ℕ) (rest : M (Option ℕ))
      → Keeps (SoundIn R) rest
      → Keeps (SoundIn R) (go_on_or_fail failed i rest)
  Keeps-go_on_or_fail true i rest h = Keeps-pure (some i)
  Keeps-go_on_or_fail false i rest h = h

  Keeps-map_from : (k : Platform) (n i : ℕ) → Keeps (SoundIn R) (map_from k n i)
  unfolding map_from
  Keeps-map_from k zero i = Keeps-pure none
  Keeps-map_from k (suc n) i = Keeps-bind _ _ Keeps-read_dev (λ d.
      Keeps-bind _ _ (Keeps-map_buffer R k (element d i))
        (λ rc. Keeps-go_on_or_fail (is_failure rc) i _ (Keeps-map_from k n (i + 1))))

Keeps-submit : (k : Platform) (o : Option ℕ) → Keeps (SoundIn Anything) (submit k o)
unfolding submit
Keeps-submit k none = Keeps-bind _ _ Keeps-read_dev (λ d.
    Keeps-bind _ _ (Keeps-write_table Anything d.bufcount 0) (λ _.
      Keeps-bind _ _ (Keeps-fields Anything (put_entry d.bufcount 0 0) (λ e. refl)) (λ _.
        Keeps-bind _ _ (Keeps-if (d.bufcount == 0) _ _ (Keeps-pure tt) (Keeps-set_state armed refl))
          (λ _. Keeps-pure (ret 0)))))
Keeps-submit k (some i) =
    Keeps-bind _ _ (Keeps-unmap_from Anything i 0)
      (λ _. Keeps-bind _ _ (Keeps-set_state error refl) (λ _. Keeps-pure (ret 1)))

pub Keeps-map_and_submit : (k : Platform) → Keeps (SoundIn Anything) (map_and_submit_all_buffers k)
unfolding map_and_submit_all_buffers
Keeps-map_and_submit k =
    Keeps-bind _ _ Keeps-read_dev
      (λ d. Keeps-bind _ _ (Keeps-map_from Anything k d.bufcount 0) (λ o. Keeps-submit k o))

pub Keeps-testpattern : Keeps (SoundIn Anything) fill_buffer_testpattern
unfolding fill_buffer_testpattern
Keeps-testpattern = Keeps-critical _ (λ s h.
    After-bind_weaken _ _ _ _ (fill_from s.dev.bufcount 0 0 s) _
      ((Keeps-fill_from Critical s.dev.bufcount 0 0).at s h) (λ t g. (g.0, tt))
      (λ _ t g. unlock-Sound t (g.0, g.1.1)))

-- Freeing keeps the invariant.
pub Keeps-memfree : Keeps (SoundIn Anything) memfree
Keeps-memfree = record {
  at = λ s (h, _).
      After-weaken _ _ _ _ (memfree s) (memfree-Empty s h) (λ t g. (g, tt)) (λ t (g, _). (g, tt));
}

-- The buffers are replaced: freed, allocated, and what follows the allocation.
pub Keeps-replace :
    {A : Type 0} (k : Platform) (bufsize : ℕ) (f : Ret → M A)
    → ((rc : Ret) → Keeps (SoundIn Anything) (f rc))
    → Keeps (SoundIn Anything) (memfree >> (memalloc k bufsize >>= f))
Keeps-replace k bufsize f h = record {
  at = λ s (g, _).
      After-bind_weaken Sound (SoundIn Anything) Empty (SoundIn Anything) (memfree s) _
        (memfree-Empty s g) (λ t q. (q, tt))
        (λ _ t q.
          After-bind_weaken Sound (SoundIn Anything) Sound (SoundIn Anything) (memalloc k bufsize t)
            _ (memalloc-Sound k bufsize t q) (λ u r. (r, tt)) (λ rc u r. (h rc).at u (r, tt)));
}
