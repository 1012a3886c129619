-- ===== src/State/Fill/Deferred.antt =====
-- Handing free slots to the downloads that wait for one stays within the global cap.
use oxdm.Prelude.{
  ℕ, zero, suc, ◌≤◌, ◌<◌, ◌≡◌, refl, Bool, true, false, Option, none, some, [], ◌∷◌, arith,
  if◌then◌else◌, inl, inr, ◌∙◌, Option-cases, Bool-cases, max, count, length,
}
use oxdm.Job.{JobError, deferred}
use oxdm.Table.{update}
use oxdm.Table.Laws.{count-update_same}
use oxdm.Admission.{running_global, phase_running, next_deferred}
use oxdm.Admission.Slots.{slots_free_iff}
use oxdm.State.{AppState, mark_run_intent, queue_limit, queue_of, queue_halted}
use oxdm.State.Start.{Host, slots_full_for}
use oxdm.State.Kept.{start_automatically-IsKept}
use oxdm.State.Caps.{phase_running-IsRunTest}
use oxdm.State.Fill.{
  start_automatically, Pass, try_deferred, deferred_loop, fill_deferred_slots, settle,
}
use oxdm.State.Fill.Within.{count-start_automatically, mark_count}

-- The runs over all the queues, and the cap on them.
abbrev pub runs : AppState → ℕ
runs s = count phase_running s.jobs

abbrev pub run_cap : AppState → ℕ
run_cap s = max s.max_concurrent_downloads 1

-- What goes from one state to another runs no more downloads than ran before or the cap allows,
-- and leaves the cap.
pub record IsWithin (s s' : AppState) : Type 0 where
  pub bound : runs s' ≤ max (runs s) (run_cap s)
  pub cap : s'.max_concurrent_downloads ≡ s.max_concurrent_downloads

pub IsWithin-trans : (a b c : AppState) → IsWithin a b → IsWithin b c → IsWithin a c
IsWithin-trans a b c h k = record {
  bound = ground (arith, h.bound, k.bound, h.cap);
  cap = k.cap ∙ h.cap;
}

-- A step that runs no more than before.
pub IsWithin-of_le :
    (s s' : AppState)
    → runs s' ≤ runs s
    → s'.max_concurrent_downloads ≡ s.max_concurrent_downloads
    → IsWithin s s'
IsWithin-of_le s s' h k = record { bound = ground (arith, h); cap = k }

runs-settle : (id : ℕ) (s : AppState) (o : Option JobError) → runs (settle id (s, o)) ≡ runs s
runs-settle id s none = refl
runs-settle id s (some deferred) = refl
runs-settle id s (some err) =
    count-update_same phase_running id (λ e. record e { deferred_by_cap = false }) s.jobs
      (λ e. refl)

cap-settle :
    (id : ℕ) (s : AppState) (o : Option JobError)
    → (settle id (s, o)).max_concurrent_downloads ≡ s.max_concurrent_downloads
cap-settle id s none = refl
cap-settle id s (some deferred) = refl
cap-settle id s (some err) = refl

-- A slot that is free is below the global cap.
slot_below :
    (id q : ℕ) (s : AppState)
    → slots_full_for q (mark_run_intent id false s) ≡ false
    → runs s < run_cap s
unfolding slots_full_for running_global mark_run_intent queue_limit
slot_below id q s free = omega (
  arith,
  mark_count phase_running phase_running-IsRunTest id s,
  ((slots_free_iff (update id (λ e. record e { manual_run = false }) s.jobs)
        s.max_concurrent_downloads q (queue_limit q s)).0
      free).0,
)

pub runs-start_automatically :
    (now : ℕ) (h : Host) (id : ℕ) (s : AppState)
    → runs (start_automatically now h id s).0 ≤ max (runs s) (run_cap s)
runs-start_automatically now h id s =
    count-start_automatically phase_running phase_running-IsRunTest now h id (run_cap s) s
      (λ e m free. slot_below id e.job.queue_id s free)

-- A turn of the loop.
try_deferred-IsWithin :
    (now : ℕ) (h : Host) (id : ℕ) (s : AppState) → IsWithin s (try_deferred now h id s)
unfolding try_deferred
try_deferred-IsWithin now h id s = elim (Bool-cases (slots_full_for (queue_of id s) s)) [
  | inl full ↦ rw full (IsWithin-of_le s s (omega arith) refl)
  | inr free ↦ elim (Bool-cases (queue_halted (queue_of id s) s)) [
    | inl halted ↦ rw (free, halted) (IsWithin-of_le s s (omega arith) refl)
    | inr going ↦
        let (s', o) = start_automatically now h id s in
        rw (free, going)
          (record {
            bound = ground (arith, runs-settle id s' o, runs-start_automatically now h id s);
            cap = cap-settle id s' o ∙ (start_automatically-IsKept now h id s).cap;
          })
  ]
]

pub if_state :
    (b : Bool) (s t u : AppState) → IsWithin s t → IsWithin s u → IsWithin s (if b then t else u)
if_state true s t u h k = h
if_state false s t u h k = k

if_IsWithin :
    (b : Bool) (s : AppState) (p p' : Pass)
    → IsWithin s p.state
    → IsWithin s p'.state
    → IsWithin s (if b then p else p').state
if_IsWithin true s p p' h k = h
if_IsWithin false s p p' h k = k

deferred_loop-IsWithin :
    (now : ℕ) (h : Host) (fuel : ℕ) (p : Pass) → IsWithin p.state (deferred_loop now h fuel p).state
unfolding deferred_loop
deferred_loop-IsWithin now h zero p = IsWithin-of_le p.state p.state (omega arith) refl
deferred_loop-IsWithin now h (suc fuel) p =
    let done = IsWithin-of_le p.state p.state (omega arith) refl in
    if_IsWithin p.state.exiting p.state p _ done
      (elim (Option-cases (next_deferred p.state.jobs p.tried)) [
        | inl none_left ↦ rw none_left done
        | inr (id, picked) ↦ rw picked (
            IsWithin-trans p.state (try_deferred now h id p.state) _
              (try_deferred-IsWithin now h id p.state)
              (deferred_loop-IsWithin now h fuel
                (record { tried = id ∷ p.tried; state = try_deferred now h id p.state })))
      ])

pub fill_deferred_slots-IsWithin :
    (now : ℕ) (h : Host) (s : AppState) → IsWithin s (fill_deferred_slots now h s)
unfolding fill_deferred_slots
fill_deferred_slots-IsWithin now h s =
    deferred_loop-IsWithin now h (length s.jobs) (record { tried = []; state = s })
