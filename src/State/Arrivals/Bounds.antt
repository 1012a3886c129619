-- ===== src/State/Arrivals/Bounds.antt =====
-- What an arrival sets off stays within the global cap.
use oxdm.Prelude.{
  subst, sym, max, count, ◌&&◌, ◌-◌, ℕ, ◌≡◌, refl, Bool, true, false, ◌||◌, ◌==◌, not, Option, none,
  some, List, [], ◌∷◌, arith, inl, inr, Bool-cases, if◌then◌else◌,
}
use oxdm.Job.{Phase, is_startable, is_running, JobError, deferred}
use oxdm.Queue.{Queue, LocalTime}
use oxdm.State.{AppState, queue, is_queue_active, get_tally, put_tally}
use oxdm.State.Start.{Host, refuse_if_short_on_space}
use oxdm.State.Kept.{start_automatically-IsKept}
use oxdm.State.Fill.{or_global, start_automatically, fill_queue_slots}
use oxdm.State.Fill.Deferred.{
  IsWithin, IsWithin-trans, IsWithin-of_le, if_state, runs-start_automatically,
}
use oxdm.State.Run.Bounds.{fill_queue_slots-IsWithin}
use oxdm.State.Queues.{
  in_snapshot, snapshot, was_running, opened, Starting, counted, start_each, start_queue, begun,
  fits_queue, found_queue, concluded, space_needs,
}
use oxdm.State.Arrivals.{Readings, arrival_starts, arrived, queue_took_a_job}

same-IsWithin : (s : AppState) → IsWithin s s
same-IsWithin s = IsWithin-of_le s s (omega arith) refl

start_automatically-IsWithin :
    (now : ℕ) (h : Host) (id : ℕ) (s : AppState) → IsWithin s (start_automatically now h id s).0
start_automatically-IsWithin now h id s = record {
  bound = runs-start_automatically now h id s;
  cap = (start_automatically-IsKept now h id s).cap;
}

counted_state : (st : Starting) (t : AppState) (o : Option JobError) → (counted st (t, o)).state ≡ t
counted_state st t none = refl
counted_state st t (some deferred) = refl
counted_state st t (some err) = refl

tried-IsWithin :
    (now : ℕ) (h : Host) (id : ℕ) (st : Starting)
    → IsWithin st.state (counted st (start_automatically now h id st.state)).state
tried-IsWithin now h id st =
    let (t, o) = start_automatically now h id st.state in
    subst (λ x. IsWithin st.state x) (sym (counted_state st t o))
      (start_automatically-IsWithin now h id st.state)

either_of :
    (b : Bool) (s : AppState) (t u : Starting)
    → IsWithin s t.state
    → IsWithin s u.state
    → IsWithin s (if b then t else u).state
either_of true s t u h k = h
either_of false s t u h k = k

start_each-IsWithin :
    (now : ℕ) (h : Host) (rows : List (ℕ × Phase)) (st : Starting)
    → IsWithin st.state (start_each now h rows st).state
unfolding start_each
start_each-IsWithin now h [] st = same-IsWithin st.state
start_each-IsWithin now h ((id, phase) ∷ rows) st =
    let tried = counted st (start_automatically now h id st.state) in
    let skip = st.budget == 0 || not (is_startable phase) in
    let next = if skip then st else tried in
    IsWithin-trans st.state next.state _
      (either_of skip st.state st tried (same-IsWithin st.state) (tried-IsWithin now h id st))
      (start_each-IsWithin now h rows next)

concluded-IsWithin :
    (q : ℕ) (already : Bool) (st : Starting) → IsWithin st.state (concluded q already st)
concluded-IsWithin q already st = elim (Bool-cases st.started_any) [
  | inl any ↦ elim (Bool-cases already) [
    | inl on ↦ rw any (rw on (same-IsWithin st.state))
    | inr off ↦ rw any (rw off (IsWithin-of_le st.state _ (omega arith) refl))
  ]
  | inr nothing ↦ elim (Bool-cases already) [
    | inl on ↦ rw nothing (rw on (same-IsWithin st.state))
    | inr off ↦ rw nothing (rw off (IsWithin-of_le st.state _ (omega arith) refl))
  ]
]

begun-IsWithin : (now : ℕ) (h : Host) (q : Queue) (s : AppState) → IsWithin s (begun now h q s)
begun-IsWithin now h q s =
    let tally = get_tally q.id s.active_queues in
    let cap = max (or_global q.max_concurrent s.max_concurrent_downloads) 1 in
    let running_now = count (λ e. in_snapshot q.id e && is_running e.live_phase) s.jobs in
    let first : Starting = record {
      budget = cap - running_now;
      started_any = false;
      state = record s { active_queues = put_tally q.id (opened tally) s.active_queues };
    } in
    let last = start_each now h (snapshot q.id s.jobs) first in
    IsWithin-trans s first.state (begun now h q s) (IsWithin-of_le s first.state (omega arith) refl)
      (IsWithin-trans first.state last.state (begun now h q s)
        (start_each-IsWithin now h (snapshot q.id s.jobs) first)
        (concluded-IsWithin q.id (was_running tally) last))

fits_queue-IsWithin :
    (now : ℕ) (h : Host) (q : Queue) (o : Option JobError) (s : AppState)
    → IsWithin s (fits_queue now h q o s).0
fits_queue-IsWithin now h q none s = begun-IsWithin now h q s
fits_queue-IsWithin now h q (some err) s = same-IsWithin s

found_queue-IsWithin :
    (now : ℕ) (h : Host) (o : Option Queue) (s : AppState) → IsWithin s (found_queue now h o s).0
found_queue-IsWithin now h none s = same-IsWithin s
found_queue-IsWithin now h (some q) s =
    fits_queue-IsWithin now h q (refuse_if_short_on_space h (space_needs q.id s)) s

pub start_queue-IsWithin :
    (now : ℕ) (h : Host) (id : ℕ) (s : AppState) → IsWithin s (start_queue now h id s).0
unfolding start_queue
start_queue-IsWithin now h id s = found_queue-IsWithin now h (queue id s) s

arrived-IsWithin :
    (now_ms : ℕ) (h : Host) (r : Readings) (now : LocalTime) (o : Option Queue) (s : AppState)
    → IsWithin s (arrived now_ms h r now o s)
unfolding arrived
arrived-IsWithin now_ms h r now none s = same-IsWithin s
arrived-IsWithin now_ms h r now (some q) s =
    if_state (arrival_starts r now q q.schedule) s (start_queue now_ms h q.id s).0 s
      (start_queue-IsWithin now_ms h q.id s) (same-IsWithin s)

-- Whatever the schedule of a queue and the answers of the system are, what the arrival of a download
-- sets off runs no more downloads than ran before or the global cap allows, and leaves the cap.
pub queue_took_a_job-IsWithin :
    (now_ms : ℕ) (h : Host) (r : Readings) (now : LocalTime) (q : ℕ) (s : AppState)
    → IsWithin s (queue_took_a_job now_ms h r now q s)
unfolding queue_took_a_job
queue_took_a_job-IsWithin now_ms h r now q s = if_state s.exiting s s _ (same-IsWithin s) (
    if_state (is_queue_active q s) s (fill_queue_slots now_ms h q none s) _
      (fill_queue_slots-IsWithin now_ms h q none s) (arrived-IsWithin now_ms h r now (queue q s) s))
