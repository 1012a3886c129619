-- ===== src/State/Queues/Ends.antt =====
-- What a stopped queue is left with.
use oxdm.Prelude.{
  ℕ, zero, suc, ◌+◌, ◌≡◌, refl, Bool, true, false, ◌&&◌, none, some, List, [], ◌∷◌, ◌++◌, arith,
  ==_refl, ◌⊎◌, inl, inr, Option-cases, Bool-cases, count, any, ◌∙◌, ap, subst, length,
}
use oxdm.Entry.{JobEntry}
use oxdm.Table.Keyed.{IsKeyed, has_id}
use oxdm.Admission.{running_in, queue_stop_targets, clear_queue_deferrals}
use oxdm.State.{AppState, QueueRunTally, get_tally, put_tally, remove_tally, is_queue_active}
use oxdm.State.Pause.{pause, checked}
use oxdm.State.Fill.{Pass}
use oxdm.State.Queues.{
  pause_each, untried, stop_sweep, stop_begun, stop_queue, closed_off, has_tally,
}
use oxdm.State.Queues.Stops.{swept}
use oxdm.Table.{job_entry}

pub List-cases : (xs : List ℕ) → (xs ≡ []) ⊎ ((x : ℕ) × (rest : List ℕ) × (xs ≡ x ∷ rest))
List-cases [] = inl refl
List-cases (x ∷ rest) = inr (x, rest, refl)

pub untried-nil : (ids : List ℕ) → untried [] ids ≡ ids
untried-nil [] = refl
untried-nil (id ∷ ids) = ground (arith, untried-nil ids)

untried_none : (tried ids : List ℕ) → ids ≡ [] → untried tried ids ≡ []
untried_none tried ids h = rw h refl

stop_sweep_done :
    (now q fuel : ℕ) (p : Pass)
    → untried p.tried (queue_stop_targets p.state.jobs q) ≡ []
    → stop_sweep now q (suc fuel) p ≡ p
unfolding stop_sweep
stop_sweep_done now q fuel p h = rw (h, stop_sweep)

abbrev swept_pass : ℕ → Pass → List ℕ → Pass
swept_pass now p ids = record { tried = ids ++ p.tried; state = pause_each now ids p.state }

stop_sweep_more :
    (now q fuel : ℕ) (p : Pass) (id : ℕ) (ids : List ℕ)
    → untried p.tried (queue_stop_targets p.state.jobs q) ≡ id ∷ ids
    → stop_sweep now q (suc fuel) p ≡ stop_sweep now q fuel (swept_pass now p (id ∷ ids))
unfolding stop_sweep
stop_sweep_more now q fuel p id ids h = rw (h, stop_sweep)

stop_sweep_idle :
    (now q fuel : ℕ) (p : Pass)
    → queue_stop_targets p.state.jobs q ≡ []
    → stop_sweep now q fuel p ≡ p
unfolding stop_sweep
stop_sweep_idle now q zero p h = refl
stop_sweep_idle now q (suc fuel) p h = stop_sweep_done now q fuel p (untried_none p.tried _ h)

sweep_round :
    (now q fuel : ℕ) (s : AppState) (ids : List ℕ)
    → IsKeyed s.jobs
    → queue_stop_targets s.jobs q ≡ ids
    → queue_stop_targets
        (stop_sweep now q (suc fuel) (record { tried = []; state = s })).state.jobs
        q
      ≡ []
sweep_round now q fuel s [] keyed h =
    rw
      (stop_sweep_done now q fuel (record { tried = []; state = s })
        (untried-nil (queue_stop_targets s.jobs q) ∙ h))
      h
sweep_round now q fuel s (id ∷ ids) keyed h =
    rw
      (stop_sweep_more now q fuel (record { tried = []; state = s }) id ids
        (untried-nil (queue_stop_targets s.jobs q) ∙ h))
      (rw
        (stop_sweep_idle now q fuel (swept_pass now (record { tried = []; state = s }) (id ∷ ids))
          left_none)
        left_none)
  where
    left_none : queue_stop_targets (pause_each now (id ∷ ids) s).jobs q ≡ []
    left_none =
        subst (λ l. queue_stop_targets (pause_each now l s).jobs q ≡ []) h (swept q now s keyed)

-- A pause writes no run of a queue.
tallies-pause : (now id : ℕ) (s : AppState) → (pause now id s).0.active_queues ≡ s.active_queues
unfolding pause
tallies-pause now id s = elim (Option-cases (checked (job_entry id s.jobs))) [
  | inl went ↦ rw went
  | inr (err, h) ↦ rw h
]

tallies-pause_each :
    (now : ℕ) (ids : List ℕ) (s : AppState) → (pause_each now ids s).active_queues ≡ s.active_queues
unfolding pause_each
tallies-pause_each now [] s = refl
tallies-pause_each now (id ∷ ids) s =
    tallies-pause_each now ids (pause now id s).0 ∙ tallies-pause now id s

tallies-stop_sweep :
    (now q fuel : ℕ) (p : Pass)
    → (stop_sweep now q fuel p).state.active_queues ≡ p.state.active_queues
unfolding stop_sweep
tallies-stop_sweep now q zero p = refl
tallies-stop_sweep now q (suc fuel) p =
    elim (List-cases (untried p.tried (queue_stop_targets p.state.jobs q))) [
      | inl h ↦ rw (stop_sweep_done now q fuel p h)
      | inr (id, ids, h) ↦ rw (stop_sweep_more now q fuel p id ids h) (
          tallies-stop_sweep now q fuel (swept_pass now p (id ∷ ids))
          ∙ tallies-pause_each now (id ∷ ids) p.state)
    ]

get-put_tally :
    (q : ℕ) (t : QueueRunTally) (m : List (ℕ × QueueRunTally))
    → get_tally q (put_tally q t m) ≡ some t
unfolding get_tally put_tally
get-put_tally q t [] = ground (arith, ==_refl q)
get-put_tally q t ((j, u) ∷ m) = ground (arith, ==_refl q, get-put_tally q t m)

get-remove_tally : (q : ℕ) (m : List (ℕ × QueueRunTally)) → get_tally q (remove_tally q m) ≡ none
unfolding get_tally remove_tally
get-remove_tally q [] = refl
get-remove_tally q ((j, u) ∷ m) = ground (arith, get-remove_tally q m)

switched_off_inactive : (q : ℕ) (s : AppState) → is_queue_active q (stop_begun q s) ≡ false
unfolding is_queue_active stop_begun
switched_off_inactive q s = elim (Option-cases (get_tally q s.active_queues)) [
  | inl none_there ↦ rw none_there (rw none_there)
  | inr (t, h) ↦ rw h (rw (get-put_tally q (record t { queue_run = false }) s.active_queues))
]

pub inactive_by_tallies :
    (q : ℕ) (s s' : AppState)
    → s'.active_queues ≡ s.active_queues
    → is_queue_active q s ≡ false
    → is_queue_active q s' ≡ false
unfolding is_queue_active
inactive_by_tallies q s s' e h = rw e h

closed_off_inactive :
    (q : ℕ) (had : Bool) (s : AppState)
    → is_queue_active q s ≡ false
    → is_queue_active q (closed_off q had s) ≡ false
unfolding is_queue_active
closed_off_inactive q false s h = h
closed_off_inactive q true s h =
    elim (Bool-cases (any (λ e. running_in q e && e.manual_run) s.jobs)) [
      | inl going ↦ rw going h
      | inr still ↦ rw still (rw (get-remove_tally q s.active_queues))
    ]

closed_off_jobs : (q : ℕ) (had : Bool) (s : AppState) → (closed_off q had s).jobs ≡ s.jobs
closed_off_jobs q false s = refl
closed_off_jobs q true s = ground arith

count-clear :
    (q k : ℕ) (es : List JobEntry)
    → count (has_id k) (clear_queue_deferrals es q) ≡ count (has_id k) es
unfolding clear_queue_deferrals
count-clear q k [] = refl
count-clear q k (e ∷ es) = ground (arith, count-clear q k es)

IsKeyed-clear_deferrals :
    (q : ℕ) (es : List JobEntry) → IsKeyed es → IsKeyed (clear_queue_deferrals es q)
IsKeyed-clear_deferrals q es keyed k = omega (arith, keyed k, count-clear q k es)

stop_begun-IsKeyed : (q : ℕ) (s : AppState) → IsKeyed s.jobs → IsKeyed (stop_begun q s).jobs
unfolding stop_begun
stop_begun-IsKeyed q s keyed = IsKeyed-clear_deferrals q s.jobs keyed

abbrev pub sweep_of : ℕ → ℕ → AppState → ℕ → Pass
sweep_of now q s n = stop_sweep now q n (record { tried = []; state = stop_begun q s })

pub stop_queue_inactive :
    (now q : ℕ) (s : AppState) → is_queue_active q (stop_queue now q s) ≡ false
unfolding stop_queue
stop_queue_inactive now q s =
    let fuel = length s.jobs + 1 in
    closed_off_inactive q (has_tally (get_tally q s.active_queues)) (sweep_of now q s fuel).state (
      inactive_by_tallies q (stop_begun q s) (sweep_of now q s fuel).state
        (tallies-stop_sweep now q fuel (record { tried = []; state = stop_begun q s }))
        (switched_off_inactive q s))

-- Once a queue is stopped, none of its runs that a stop may take is left, whatever the order of the
-- table, and its own run is off, so that nothing feeds it; the table's ids are distinct.
pub stop_queue_takes_all :
    (now q : ℕ) (s : AppState)
    → IsKeyed s.jobs
    → (queue_stop_targets (stop_queue now q s).jobs q ≡ [])
      × (is_queue_active q (stop_queue now q s) ≡ false)
unfolding stop_queue
stop_queue_takes_all now q s keyed = (
  ap (λ es. queue_stop_targets es q)
        (closed_off_jobs q (has_tally (get_tally q s.active_queues))
          (sweep_of now q s (length s.jobs + 1)).state)
      ∙ subst (λ n. queue_stop_targets (sweep_of now q s n).state.jobs q ≡ []) one_more
          (sweep_round now q (length s.jobs) (stop_begun q s) _ (stop_begun-IsKeyed q s keyed)
            refl),
  stop_queue_inactive now q s,
)
  where
    one_more : suc (length s.jobs) ≡ length s.jobs + 1
    one_more = omega arith
