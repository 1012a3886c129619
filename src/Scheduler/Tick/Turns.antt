-- ===== src/Scheduler/Tick/Turns.antt =====
-- Whole turns of the scheduler's loop: what is remembered, what a turn repeated does, and which
-- queues a turn never stops.
use oxdm.Prelude.{
  ℕ, ◌≡◌, inl, inr, Bool, true, false, none, List, [], ◌∷◌, arith, ◌==◌, ==→eq, contains,
  Bool-cases, All, ap, ◌∙◌,
}
use oxdm.Queue.{Queue}
use oxdm.Queue.Conditions.{CondSnapshot}
use oxdm.Scheduler.Tick.{
  get, insert, retain, CmdPoll, QueueControl, Readings, TickMemory, ids, due_polls, probe_needed,
  visit, visit_all, turn, has_trigger, decide, get_or,
}
use oxdm.Scheduler.Tick.Memory.{
  get-insert, get-retain, Distinct, verdict_at, Remembers, visit_all-Remembers, visit_all_settled,
}
use oxdm.Scheduler.Tick.Polls.{Live, ids-Live, due_polls_twice}

module _ (r : Readings) (conds : CondSnapshot) (live : List ℕ) (polls : List (ℕ × CmdPoll))
    (last : List (ℕ × Bool)) where
  retain-Remembers :
      (qs : List Queue)
      → All (Live live) qs
      → All (Remembers r conds polls last) qs
      → All (Remembers r conds (retain live polls) (retain live last)) qs
  retain-Remembers [] h k = tt
  retain-Remembers (q ∷ qs) h k = (
    rw (get-retain q.id live polls, get-retain q.id live last, h.0) k.0,
    retain-Remembers qs h.1 k.1,
  )

module _ {S : Type 0} (control : QueueControl S) (r : Readings) (qs : List Queue) where
  -- After a turn over queues with distinct ids the scheduler remembers, for each queue, the verdict
  -- that it reached, and holds neither a verdict nor a command poll of any other queue.
  pub turn-Remembers :
      (m : TickMemory) (s : S)
      → Distinct qs
      → let m' = (turn control r qs m s).0 in
        All (Remembers r (probe_needed r qs) m'.cmd_polls m'.last_active) qs
        × ((k : ℕ)
            → contains (ids qs) k ≡ false
            → (get k m'.last_active ≡ none) × (get k m'.cmd_polls ≡ none))
  unfolding turn
  turn-Remembers m s d =
      let polls = due_polls r qs m.cmd_polls in
      let last = (visit_all control r (probe_needed r qs) polls qs (m.last_active, s)).0 in
      (
        retain-Remembers r (probe_needed r qs) (ids qs) polls last qs (ids-Live qs)
            (visit_all-Remembers control r (probe_needed r qs) polls qs m.last_active s d),
        λ k h. (get-retain k (ids qs) last ∙ rw h, get-retain k (ids qs) polls ∙ rw h),
      )

  -- Ticks are edge-triggered: a turn repeated at the same readings, over queues with distinct ids
  -- of which none is triggered by arrivals, starts and stops nothing.
  pub turn_twice :
      (m : TickMemory) (s : S)
      → Distinct qs
      → All (λ q. has_trigger q.schedule ≡ false) qs
      → let (m', s') = turn control r qs m s in (turn control r qs m' s').1 ≡ s'
  unfolding turn
  turn_twice m s d h = rw (due_polls_twice r qs m.cmd_polls d) (
      visit_all_settled control r (probe_needed r qs) _ qs _ _ h
        (unfold turn in (turn-Remembers m s d).0))

-- Queue `k` is not started by the arrival of a download.
abbrev pub IsUntriggered : ℕ → Queue → Type 0
IsUntriggered k q = (q.id == k) ≡ true → has_trigger q.schedule ≡ false

module _ {S : Type 0} (control : QueueControl S) (r : Readings) (k : ℕ) (P : S → Type 0)
    (starts : (j : ℕ) (s : S) → P s → P (control.start_queue j s))
    (stops : (j : ℕ) (s : S) → (j == k) ≡ false → P s → P (control.stop_queue j s)) where
  decide_other :
      (q : Queue) (active continues prev : Bool) (s : S)
      → (q.id == k) ≡ false
      → P s
      → P (decide control q active continues prev s)
  unfolding decide
  decide_other q active continues prev s h p = ground (arith, starts q.id s p, stops q.id s h p)

  decide_unstarted :
      (q : Queue) (active continues : Bool) (s : S)
      → has_trigger q.schedule ≡ false
      → P s
      → P (decide control q active continues false s)
  unfolding decide
  decide_unstarted q active continues s h p = ground (arith, starts q.id s p)

  unstarted_kept :
      (q : Queue) (qs : List Queue) (last : List (ℕ × Bool)) (v : Bool)
      → contains (ids qs) q.id ≡ false
      → (contains (ids (q ∷ qs)) k ≡ true → get_or (get k last) false ≡ false)
      → contains (ids qs) k ≡ true
      → get_or (get k (insert q.id v last)) false ≡ false
  unstarted_kept q qs last v d h c = elim (Bool-cases (q.id == k)) [
    | inl e ↦ cc (d, c, ==→eq q.id k e)
    | inr e ↦ rw (get-insert q.id k v last, e) (h (ground arith))
  ]

  module _ (conds : CondSnapshot) (polls : List (ℕ × CmdPoll)) where
    visit_spares :
        (q : Queue) (last : List (ℕ × Bool)) (s : S)
        → IsUntriggered k q
        → ((q.id == k) ≡ true → get_or (get k last) false ≡ false)
        → P s
        → P (visit control r conds polls q (last, s)).1
    unfolding visit
    visit_spares q last s u h p = elim (Bool-cases (q.id == k)) [
      | inl e ↦
          rw (ap (λ j. get_or (get j last) false) (==→eq q.id k e) ∙ h e)
            (decide_unstarted q _ _ s (u e) p)
      | inr e ↦ decide_other q _ _ _ s e p
    ]

    visit_all_spares :
        (qs : List Queue) (last : List (ℕ × Bool)) (s : S)
        → Distinct qs
        → All (IsUntriggered k) qs
        → (contains (ids qs) k ≡ true → get_or (get k last) false ≡ false)
        → P s
        → P (visit_all control r conds polls qs (last, s)).1
    unfolding visit_all visit
    visit_all_spares [] last s d u h p = p
    visit_all_spares (q ∷ qs) last s d u h p =
        let v = verdict_at r conds polls q in
        visit_all_spares qs (insert q.id v last) _ d.1 u.1 (unstarted_kept q qs last v d.0 h)
          (unfold visit in visit_spares q last s u.0 (λ e. h (ground arith)) p)

  -- A queue that was not meant to run at the last tick, and that no arrival triggers, is not
  -- stopped by a turn: what holds of the daemon, and is kept by every call but a stop of that
  -- queue, still holds. So a queue that the user started by hand goes on.
  pub turn_spares :
      (qs : List Queue) (m : TickMemory) (s : S)
      → Distinct qs
      → All (IsUntriggered k) qs
      → get_or (get k m.last_active) false ≡ false
      → P s
      → P (turn control r qs m s).1
  unfolding turn
  turn_spares qs m s d u h p = visit_all_spares _ _ qs m.last_active s d u (λ _. h) p
