-- ===== src/Tests/Driver.antt =====
-- The theorems on the driver at the small device.
use beagle_logic.Base.{
  ℕ, ◌+◌, ◌/◌, ◌%◌, ◌≤◌, ◌≡◌, refl, inl, true, false, none, some, List, [], ◌∷◌, arith, count, pos,
}
use beagle_logic.Device.{initialized, running}
use beagle_logic.System.{System, spins, Event, irq, signal, ◌>>=◌, oops}
use beagle_logic.System.Returns.{Returns}
use beagle_logic.Buffers.{memalloc, memfree}
use beagle_logic.Buffers.Alloc.{Outcome, memalloc-Outcome}
use beagle_logic.Buffers.Free.{memfree-memalloc}
use beagle_logic.Buffers.Ring.{IsRing, content}
use beagle_logic.Submit.{map_and_submit_all_buffers}
use beagle_logic.Submit.Table.{Submitted, map_and_submit-Submitted}
use beagle_logic.Attributes.{nearest_rate, set_samplerate, set_sampleunit, set_triggerflags}
use beagle_logic.Attributes.Rates.{Setting, nearest_rate_bounds, setters-Setting}
use beagle_logic.Irq.Progress.{
  serve_all, Progress, LastFilled, FilledSoFar, serve_all_continuous, serve_all_one_shot,
}
use beagle_logic.Capture.{start, stop}
use beagle_logic.Capture.Session.{Started, start-Started}
use beagle_logic.Capture.Stop.{IsCapturing, stop-Initialized}
use beagle_logic.Irq.{serve_irq}
use beagle_logic.Capture.Freed.{stop-memfree-serve_irq}
use beagle_logic.File.{f_llseek, seek_cur}
use beagle_logic.File.Walk.{Position, walk, bytes_from}
use beagle_logic.File.Reader.{IsAt}
use beagle_logic.File.Read.{read_all, read_all-bytes_from, f_read-Outcome, ReadOutcome}
use beagle_logic.File.{f_read}
use beagle_logic.File.Seek.{f_llseek-IsAt, f_llseek_hangs}
use beagle_logic.Tests.{granting, idle, loaded, pair, loaded-IsRing}

memalloc-Outcome_example : Returns (Outcome granting idle 64) (memalloc granting 64 idle)
memalloc-Outcome_example = memalloc-Outcome granting idle 64 (omega arith)

memfree-memalloc_example :
    Returns
      (λ _ t.
        (t.dev.buffers ≡ none)
        × (t.dev.mutex ≡ false)
        × ((a : ℕ) → count a t.heap ≡ count a idle.heap))
      ((memalloc granting 64 >>= λ _. memfree) idle)
memfree-memalloc_example = memfree-memalloc granting idle 64 refl refl (omega arith)

map_and_submit-Submitted_example :
    Returns (Submitted 2 32 5 pair granting) (map_and_submit_all_buffers granting loaded)
map_and_submit-Submitted_example =
    map_and_submit-Submitted granting 2 32 5 pair loaded loaded-IsRing (omega arith)

nearest_rate_bounds_example :
    (30_000_000 ≤ nearest_rate 200_000_000 30_000_000)
    × (nearest_rate 200_000_000 30_000_000 ≤ 100_000_000)
    × (200_000_000 / 2 / nearest_rate 200_000_000 30_000_000 ≡ 3)
nearest_rate_bounds_example = nearest_rate_bounds 200_000_000 30_000_000 (omega arith) (omega arith)

setters-Setting_example :
    Setting
      ((1 ≤ 2) × (2 ≤ 200_000_000 / 2))
      (λ d. record d { samplerate = nearest_rate d.coreclockfreq 2 })
      idle
      (set_samplerate 2 idle)
    × Setting (2 ≤ 2) (λ d. record d { sampleunit = 2 }) idle (set_sampleunit 2 idle)
    × Setting (2 ≤ 1) (λ d. record d { triggerflags = 2 }) idle (set_triggerflags 2 idle)
setters-Setting_example = setters-Setting 2 idle

-- Two buffers in a one-shot capture: the first is being filled.
abbrev capturing : System
capturing = record loaded {
  dev = record loaded.dev {
    mutex = true;
    state = running;
    bufbeingread = some (record { array = 5; index = 0 });
  };
}

capturing-Ring : IsRing capturing.dev (record { id = 5; items = pair }) 2 32
capturing-Ring = ground (arith, loaded-IsRing)

abbrev continuous : System
continuous = record capturing { dev = record capturing.dev { triggerflags = 1 } }

at_start :
    (Done : ℕ → Type 0) (s : System)
    → IsRing s.dev (record { id = 5; items = pair }) 2 32
    → s.dev.bufbeingread ≡ some (record { array = 5; index = 0 })
    → ((j : ℕ) → ¬ Done j)
    → Progress 2 32 5 0 Done s s
at_start Done s ring e none_done = record {
  items = pair;
  ring = ring;
  reading = e;
  flags_same = refl;
  irq_same = refl;
  handed_over = λ j b d _. absurd (none_done j d);
}

serve_all_continuous_example :
    Returns
      (λ _ t. Progress 2 32 5 ((0 + 5) % 2) (LastFilled 2 0 5) continuous t)
      (serve_all granting 21 5 continuous)
serve_all_continuous_example =
    serve_all_continuous granting 2 32 5 0 21 continuous 5 refl (omega arith) (omega arith)
      (at_start _ continuous (ground (arith, loaded-IsRing)) refl (λ j (m, e, _). omega arith))

serve_all_one_shot_example :
    Returns
      (λ _ t. Progress 2 32 5 1 (FilledSoFar 2 0 3) capturing t)
      (serve_all granting 21 3 capturing)
serve_all_one_shot_example =
    serve_all_one_shot granting 2 32 5 0 21 capturing 3 refl refl (omega arith)
      (at_start _ capturing capturing-Ring refl (λ j (le, lt). omega arith))

start-Started_example : Returns (Started loaded) (start granting loaded)
start-Started_example = start-Started granting loaded refl (omega arith)

abbrev ending : List Event
ending = irq 21 ∷ irq 21 ∷ irq 22 ∷ []

abbrev breaking : List Event
breaking = irq 21 ∷ signal ∷ irq 22 ∷ []

capturing-IsCapturing : (es : List Event) → IsCapturing 2 32 5 0 (record capturing { events = es })
capturing-IsCapturing es = record {
  items = pair;
  ring = capturing-Ring;
  reading = refl;
  p_lt = omega arith;
  two_irqs = omega arith;
  taken = refl;
  is_on = refl;
}

stop-Initialized_example :
    Returns
      (λ _ t. (t.dev.mutex ≡ false) × (t.dev.state ≡ initialized))
      (stop granting (record capturing { events = ending }))
stop-Initialized_example =
    stop-Initialized granting 2 32 5 0 2 [] (record capturing { events = ending })
      (capturing-IsCapturing ending) refl

stop-memfree-serve_irq_example :
    (stop granting >>= λ _. memfree >>= λ _. serve_irq granting 21)
      (record capturing { events = breaking })
    ≡ oops
stop-memfree-serve_irq_example =
    stop-memfree-serve_irq granting 2 32 5 0 1 (irq 22 ∷ [])
      (record capturing { events = breaking }) (capturing-IsCapturing breaking) refl

-- A reader 30 bytes into the first buffer.
abbrev partway : Position
partway = record { buffer = 0; offset = 30 }

abbrev opened : System
opened = record loaded {
  reader = record { buf = some (record { array = 5; index = 0 }); pos = 30; remaining = 2 };
}

opened-IsAt : IsAt 2 32 5 (content pair) partway opened
opened-IsAt = record {
  items = pair;
  ring = loaded-IsRing;
  same_bytes = λ j. refl;
  buf_eq = refl;
  pos_eq = refl;
  remaining_eq = refl;
  buffer_lt = omega arith;
  offset_lt = omega arith;
}

f_read-Outcome_example :
    Returns (ReadOutcome 2 32 5 (content pair) partway 10 opened) (f_read granting true 10 opened)
f_read-Outcome_example = f_read-Outcome 2 32 5 (content pair) partway granting 10 opened opened-IsAt

read_all-bytes_from_example :
    Returns
      (λ r t.
        (r.1 ≡ bytes_from 2 32 (content pair) r.0 partway)
        × IsAt 2 32 5 (content pair) (walk 2 32 r.0 partway) t)
      (read_all granting (10 ∷ 20 ∷ 40 ∷ []) opened)
read_all-bytes_from_example =
    read_all-bytes_from 2 32 5 (content pair) granting (10 ∷ 20 ∷ 40 ∷ []) partway opened
      opened-IsAt

f_llseek-IsAt_example :
    Returns
      (λ r t. (r ≡ inl (pos 5)) × IsAt 2 32 5 (content pair) (walk 2 32 5 partway) t)
      (f_llseek granting 6 (pos 5) seek_cur opened)
f_llseek-IsAt_example =
    f_llseek-IsAt granting 2 32 5 (content pair) 6 5 partway opened opened-IsAt (omega arith)
      (omega arith)

f_llseek_hangs_example : f_llseek granting 9 (pos 4_294_967_301) seek_cur opened ≡ spins
f_llseek_hangs_example =
    f_llseek_hangs granting 2 32 5 (content pair) 9 4_294_967_301 partway opened opened-IsAt
      (omega arith)
