-- ===== src/Pru0/Routing.antt =====
-- The table by which the firmware asks for its interrupts to be routed,
-- firmware/resource_table_0.h, with the event numbers of firmware/pru_defs.h.
use beagle_logic.Base.{
  ℕ, zero, suc, ◌≤◌, ◌≡◌, Option, none, some, List, [], ◌∷◌, ◌==◌, if◌then◌else◌, length, get_elem?,
  arith,
}

-- The system events, from `SYSEV_PRU0_TO_ARM` on.
abbrev pub pru0_to_arm : ℕ
pru0_to_arm = 16

abbrev pub arm_to_pru0 : ℕ
arm_to_pru0 = 17

abbrev pub pru1_to_pru0 : ℕ
pru1_to_pru0 = 20

abbrev pub pru0_to_arm_a : ℕ
pru0_to_arm_a = 22

abbrev pub arm_to_pru0_a : ℕ
arm_to_pru0_a = 23

abbrev pub pru0_to_arm_b : ℕ
pru0_to_arm_b = 24

abbrev pub host_unused : ℕ
host_unused = 255

-- `struct ch_map`
pub record ChMap : Type 0 where
  pub sysevt : ℕ
  pub channel : ℕ

abbrev maps : ℕ → ℕ → ChMap
maps event ch = record { sysevt = event; channel = ch }

abbrev pub pru_intc_map : List ChMap
pru_intc_map =
    maps pru0_to_arm 2
    ∷ maps arm_to_pru0 0
    ∷ maps pru1_to_pru0 0
    ∷ maps pru0_to_arm_a 4
    ∷ maps pru0_to_arm_b 5
    ∷ maps arm_to_pru0_a 1
    ∷ []

-- The interrupt controller's part of `resourceTable`.
pub record PruInts : Type 0 where
  pub ints_version : ℕ
  pub channel_host : List ℕ
  pub num_evts : ℕ
  pub event_channel : List ChMap

abbrev pub pru_ints : PruInts
pru_ints = record {
  ints_version = 0;
  channel_host =
      0 ∷ 1 ∷ 2 ∷ host_unused ∷ 4 ∷ 5 ∷ host_unused ∷ host_unused ∷ host_unused ∷ host_unused ∷ [];
  num_evts = length pru_intc_map;
  event_channel = pru_intc_map;
}

-- The host interrupt that the table gives to a channel, and to an event, if any.
abbrev pub host_of_channel : Option ℕ → Option ℕ
host_of_channel none = none
host_of_channel (some h) = if h == host_unused then none else some h

abbrev pub host_in : PruInts → ℕ → List ChMap → ℕ → Option ℕ
host_in t event ms zero = none
host_in t event [] (suc n) = none
host_in t event (m ∷ ms) (suc n) =
    if m.sysevt == event
    then host_of_channel (get_elem? t.channel_host m.channel)
    else host_in t event ms n

unfoldable pub host_of : ℕ → Option ℕ
host_of event = host_in pru_ints event pru_ints.event_channel pru_ints.num_evts

-- The events that PRU0 receives come in on the host interrupts 0 and 1, bits 30 and 31 of its R31,
-- and those for the driver on others; and each interrupt but 0 has one event alone, so that who
-- receives it knows what has happened.
pub host_of_unique : (a b h : ℕ) → host_of a ≡ some h → host_of b ≡ some h → 1 ≤ h → a ≡ b
unfolding host_of
host_of_unique a b h p q positive = ground (arith, p, q)
