-- ===== src/Submit/Table.antt =====
-- The table that the PRU is given, and the whole of `beaglelogic_map_and_submit_all_buffers`.
use mathlib.Core.Option.{some-injective}
use native.Mathlib.Decide.{ℕ_discrete}
use beagle_logic.Base.{
  ℕ, zero, suc, ◌+◌, ◌≤◌, ◌<◌, ◌≡◌, refl, sym, ap, ◌∙◌, inl, inr, ◌⊎◌, Option, none, some, List,
  arith, length, get_elem?, get_elem?-some, get_elem?_lt, set, length-set, get_elem?-set_self,
  get_elem?-set_ne, u32, ==_false,
}
use beagle_logic.Device.{LogicBuffer, BufferArray, BufList, Ret, ret, armed, error}
use beagle_logic.Device.BufState.{mapped, unmapped}
use beagle_logic.System.{Platform, System}
use beagle_logic.System.Returns.{Returns, returns, bind, weaken}
use beagle_logic.Buffers.Ring.{IsRing, load-element}
use beagle_logic.Irq.Ring.{MapsAlways}
use beagle_logic.Submit.{write_table, put_entry, submit, map_and_submit_all_buffers}
use beagle_logic.Submit.Mapping.{
  Swept, Mapped, all, up_to, map_from-Mapped, unmap_from-Swept, Refuses,
}

-- The entry for a buffer.
abbrev pub entry_of : LogicBuffer → BufList
entry_of b = record { dma_start_addr = b.phys_addr; dma_end_addr = u32 (b.phys_addr + b.size) }

-- The entry that ends the table.
abbrev pub end_mark : BufList
end_mark = record { dma_start_addr = 0; dma_end_addr = 0 }

-- From `s` to `t` the entries from `i` up to `m` of the table have been written.
record Written (items : List LogicBuffer) (i m : ℕ) (s t : System) : Type 0 where
  list : List BufList
  frame : t ≡ record s { dev = record s.dev { cxt_pru = record s.dev.cxt_pru { list = list } } }
  length_same : length list ≡ length s.dev.cxt_pru.list
  entries :
      (j : ℕ) (b : LogicBuffer)
      → i ≤ j
      → j < m
      → get_elem? items j ≡ some b
      → get_elem? list j ≡ some (entry_of b)
  others : (j : ℕ) → (j < i) ⊎ (m ≤ j) → get_elem? list j ≡ get_elem? s.dev.cxt_pru.list j

Written-cons :
    (items : List LogicBuffer) (i m : ℕ) (s t : System) (b : LogicBuffer)
    → get_elem? items i ≡ some b
    → i < m
    → m ≤ length s.dev.cxt_pru.list
    → Written items
        (i + 1)
        m
        (record s { dev = put_entry i b.phys_addr (u32 (b.phys_addr + b.size)) s.dev })
        t
    → Written items i m s t
Written-cons items i m s t b found lt room w = record {
  list = w.list;
  frame = w.frame;
  length_same = w.length_same ∙ length-set old i (entry_of b);
  entries = λ j c le lt' e. by_place j c le lt' e (ℕ_discrete i j);
  others = λ j out. outside j out;
}
  where
    old : List BufList
    old = s.dev.cxt_pru.list

    written : get_elem? w.list i ≡ some (entry_of b)
    written = w.others i (inl (omega arith)) ∙ get_elem?-set_self old i (entry_of b) (omega arith)

    by_place :
        (j : ℕ) (c : LogicBuffer)
        → i ≤ j
        → j < m
        → get_elem? items j ≡ some c
        → Dec (i ≡ j)
        → get_elem? w.list j ≡ some (entry_of c)
    by_place j c le lt' e (yes q) =
        ap (get_elem? w.list) (sym q)
        ∙ written
        ∙ ap (λ x. some (entry_of x)) (some-injective _ _ (sym found ∙ ap (get_elem? items) q ∙ e))
    by_place j c le lt' e (no q) = w.entries j c (omega arith) lt' e

    outside : (j : ℕ) → (j < i) ⊎ (m ≤ j) → get_elem? w.list j ≡ get_elem? old j
    outside j (inl h) =
        w.others j (inl (omega arith)) ∙ get_elem?-set_ne old (entry_of b) (omega arith)
    outside j (inr h) = w.others j (inr h) ∙ get_elem?-set_ne old (entry_of b) (omega arith)

module _ (arr : BufferArray) where
  write_table-Written :
      (n i m : ℕ) (s : System)
      → i + n ≡ m
      → m ≤ length arr.items
      → m ≤ length s.dev.cxt_pru.list
      → s.dev.buffers ≡ some arr
      → Returns (λ _ t. Written arr.items i m s t) (write_table n i s)
  unfolding write_table
  write_table-Written zero i m s e le room here = returns (record {
    list = s.dev.cxt_pru.list;
    frame = refl;
    length_same = refl;
    entries = λ j b le' lt' _. absurd (omega arith);
    others = λ j _. refl;
  })
  write_table-Written (suc n) i m s e le room here =
      let (b, found) = get_elem?-some arr.items i (omega arith) in
      rw (load-element s arr i here found) (
        weaken
          (write_table-Written n (i + 1) m _ (omega arith) le
            (omega (arith, length-set s.dev.cxt_pru.list i (entry_of b))) here)
          (λ _ t w. Written-cons arr.items i m s t b found (omega arith) (omega arith) w))

-- The end mark behind a written table.
module _ (items : List LogicBuffer) (cnt : ℕ) (u v : System) (w : Written items 0 cnt u v)
    (n : u.dev.bufcount ≡ cnt) (room : cnt < length u.dev.cxt_pru.list) where
  table_length : cnt < length v.dev.cxt_pru.list
  table_length = ground (arith, w.frame, w.length_same)

  marked_entry :
      (j : ℕ) (b : LogicBuffer)
      → j < cnt
      → get_elem? items j ≡ some b
      → get_elem? (set v.dev.cxt_pru.list u.dev.bufcount end_mark) j ≡ some (entry_of b)
  marked_entry j b lt e =
      get_elem?-set_ne v.dev.cxt_pru.list end_mark (omega arith)
      ∙ ap (λ (x : System). get_elem? x.dev.cxt_pru.list j) w.frame
      ∙ w.entries j b (omega arith) lt e

  end_marked : get_elem? (set v.dev.cxt_pru.list u.dev.bufcount end_mark) cnt ≡ some end_mark
  end_marked = rw n (get_elem?-set_self v.dev.cxt_pru.list cnt end_mark table_length)

-- How `map_and_submit_all_buffers` ends on the ring `old` of `cnt` buffers of `size` bytes.
pub data Submitted (cnt size id : ℕ) (old : List LogicBuffer) (k : Platform) (r : Ret) (t : System)
    : Type 0 where
  submitted :
      r ≡ ret 0
      → t.dev.state ≡ armed
      → (items : List LogicBuffer) → IsRing t.dev (record { id = id; items = items }) cnt size
      → ((j : ℕ) (b : LogicBuffer)
          → get_elem? items j ≡ some b
          → (b.state ≡ mapped) × (get_elem? t.dev.cxt_pru.list j ≡ some (entry_of b)))
      → get_elem? t.dev.cxt_pru.list cnt ≡ some end_mark
      → Submitted cnt size id old k r t
  undone :
      ¬ MapsAlways k
      → r ≡ ret 1
      → t.dev.state ≡ error
      → (m : ℕ) → m < cnt
      → Refuses cnt size id k old m
      → (items : List LogicBuffer) → IsRing t.dev (record { id = id; items = items }) cnt size
      → ((j : ℕ) (b : LogicBuffer) → j < m → get_elem? items j ≡ some b → b.state ≡ unmapped)
      → ((j : ℕ) → m ≤ j → get_elem? items j ≡ get_elem? old j)
      → Submitted cnt size id old k r t

module _ (k : Platform) (cnt size id : ℕ) (old : List LogicBuffer) (s : System)
    (ring : IsRing s.dev (record { id = id; items = old }) cnt size)
    (room : cnt < length s.dev.cxt_pru.list) where
  submit_all :
      (u : System)
      → Swept cnt size id old mapped 0 cnt s u
      → Returns (Submitted cnt size id old k) (submit k none u)
  unfolding submit
  submit_all u sw =
      let n : u.dev.bufcount ≡ cnt = sw.ring.count_eq in
      bind
        (write_table-Written (record { id = id; items = sw.items }) u.dev.bufcount 0 cnt u
          (omega arith) (omega (arith, sw.ring.length_eq)) (ground (arith, sw.frame))
          sw.ring.present)
        (λ _ v w. rw (==_false u.dev.bufcount 0 (omega (arith, ring.two))) (
          returns (
            submitted refl refl sw.items (ground (arith, w.frame, sw.ring))
              (λ j b e. (
                sw.swept j b (omega arith)
                    (omega (arith, get_elem?_lt sw.items j e, sw.ring.length_eq)) e,
                marked_entry sw.items cnt u v w n (ground (arith, sw.frame)) j b
                    (omega (arith, get_elem?_lt sw.items j e, sw.ring.length_eq)) e,
              ))
              (end_marked sw.items cnt u v w n (ground (arith, sw.frame))))))

  submit_undone :
      (m : ℕ) (u : System)
      → Refuses cnt size id k old m
      → m < cnt
      → Swept cnt size id old mapped 0 m s u
      → Returns (Submitted cnt size id old k) (submit k (some m) u)
  unfolding submit
  submit_undone m u refuses lt sw =
      bind (unmap_from-Swept cnt size id m 0 m sw.items u (omega arith) (omega arith) sw.ring)
        (λ _ t v. returns (
          undone (λ always. always _ _ _ refuses.3) refl refl m lt refuses v.items
            (ground (arith, v.ring)) (λ j b lt' e. v.swept j b (omega arith) lt' e)
            (λ j le. v.others j (inr le) ∙ sw.others j (inr le))))

  -- On a ring of buffers, with room for one entry more than buffers, the call returns. Either all
  -- buffers are mapped, the table lists their bus addresses in order and ends in the mark, and the
  -- device is armed; or the platform has refused to map one buffer, those before it are all unmapped,
  -- that one and those after it are as they were, and the device is in the error state.
  pub map_and_submit-Submitted :
      Returns (Submitted cnt size id old k) (map_and_submit_all_buffers k s)
  unfolding map_and_submit_all_buffers
  map_and_submit-Submitted =
      bind
        (map_from-Mapped cnt size id k s.dev.bufcount 0 old s (omega (arith, ring.count_eq)) ring)
        (λ o u m. finish o u m)
    where
      finish :
          (o : Option ℕ) (u : System)
          → Mapped cnt size id k old 0 s o u
          → Returns (Submitted cnt size id old k) (submit k o u)
      finish o u (all e sw) = rw e (submit_all u sw)
      finish o u (up_to m no_map e le lt sw) = rw e (submit_undone m u no_map lt sw)
