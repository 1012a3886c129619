-- ===== src/Examples/Ticks.antt =====
-- The scheduler's turns on the small daemon.
use oxdm.Prelude.{
  subst, sym, ==→eq, inl, inr, List, filter, not, ◌==◌, Bool-cases, arith, ℕ, ◌≡◌, refl, true,
  false, none, [], ◌∷◌, All, contains,
}
use oxdm.Queue.{new_main}
use oxdm.State.Engine.{engine}
use oxdm.Scheduler.Tick.{
  QueueControl, Readings, TickMemory, turn, ids, get, get_or, has_trigger, probe_needed,
}
use oxdm.Scheduler.Tick.Memory.{Remembers, Distinct}
use oxdm.Scheduler.Tick.Turns.{turn-Remembers, turn_twice, turn_spares}
use oxdm.Examples.Data.{both_queues, at_night, daemon, roomy}

abbrev night : Readings
night = record {
  now = at_night;
  monotonic = 0;
  available = [];
  network_unmetered = none;
  on_ac_power = none;
  idle_for = none;
  check_command = λ cmd. true;
}

abbrev first_tick : TickMemory
first_tick = record { last_active = []; cmd_polls = [] }

distinct : Distinct both_queues
unfolding new_main
distinct = (refl, (refl, tt))

untriggered : All (λ q. has_trigger q.schedule ≡ false) both_queues
unfolding new_main
untriggered = (refl, (refl, tt))

turn-Remembers_example :
    let m' = (turn (engine 0 roomy) night both_queues first_tick daemon).0 in
    All (Remembers night (probe_needed night both_queues) m'.cmd_polls m'.last_active) both_queues
    × ((k : ℕ)
        → contains (ids both_queues) k ≡ false
        → (get k m'.last_active ≡ none) × (get k m'.cmd_polls ≡ none))
turn-Remembers_example =
    turn-Remembers (engine 0 roomy) night both_queues first_tick daemon distinct

turn_twice_example :
    let (m', s') = turn (engine 0 roomy) night both_queues first_tick daemon in
    (turn (engine 0 roomy) night both_queues m' s').1 ≡ s'
turn_twice_example =
    turn_twice (engine 0 roomy) night both_queues first_tick daemon distinct untriggered

-- A daemon of which only the queues under way are kept.
abbrev running_queues : QueueControl (List ℕ)
running_queues = record {
  start_queue = λ j s. j ∷ s;
  stop_queue = λ j s. filter (λ i. not (i == j)) s;
  is_queue_active = λ j s. contains s j;
}

not_filtered :
    (j k : ℕ) (s : List ℕ)
    → (j == k) ≡ false
    → contains s k ≡ true
    → contains (filter (λ i. not (i == j)) s) k ≡ true
not_filtered j k [] h c = c
not_filtered j k (i ∷ s) h c = elim (Bool-cases (i == j)) [
  | inl e ↦ rw (e) (
      not_filtered j k s h (ground (arith, c, subst (λ n. (n == k) ≡ false) (sym (==→eq i j e)) h)))
  | inr e ↦ ground (arith, e, c, not_filtered j k s h)
]

kept_nothing : get_or (get 1 first_tick.last_active) false ≡ false
unfolding get
kept_nothing = refl

turn_spares_example :
    contains (turn running_queues night both_queues first_tick (1 ∷ [])).1 1 ≡ true
turn_spares_example =
    turn_spares running_queues night 1 (λ s. contains s 1 ≡ true) (λ j s c. ground (arith, c))
      (λ j s h c. not_filtered j 1 s h c) both_queues first_tick (1 ∷ []) distinct
      (λ e. untriggered.0, (λ e. untriggered.1.0, tt)) kept_nothing refl
