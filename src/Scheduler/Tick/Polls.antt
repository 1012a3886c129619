-- ===== src/Scheduler/Tick/Polls.antt =====
-- The cached verdicts of the condition commands: a poll just taken is fresh, so polling again at
-- the same moment runs nothing.
use oxdm.Prelude.{
  ℕ, ◌≡◌, refl, inl, inr, Bool, true, false, Option, none, some, List, [], ◌∷◌, arith, ◌==◌,
  contains, Bool-cases, All, ◌∙◌, ==_refl, same_text_refl,
}
use oxdm.Queue.{Queue}
use oxdm.Queue.Conditions.{CondCommand, contains_kind, command}
use oxdm.Scheduler.Tick.{
  get, retain, CmdPoll, Readings, ids, fresh, poll_queue, poll_each, schedule_command,
  poll_due_commands, due_polls,
}
use oxdm.Scheduler.Tick.Memory.{get-insert, get-retain, Distinct}

module _ (r : Readings) where
  -- Nothing is due for a queue with no command, or with a fresh poll of it.
  abbrev pub IsFresh : Option CondCommand → Option CmdPoll → Type 0
  IsFresh none p = Unit {0}
  IsFresh (some cc) p = fresh r.monotonic cc p ≡ true

  abbrev pub IsPolled : List (ℕ × CmdPoll) → Queue → Type 0
  IsPolled polls q = IsFresh (schedule_command q.schedule) (get q.id polls)

  fresh_now :
      (cc : CondCommand) (ok : Bool)
      → fresh r.monotonic cc (some (record { cmd = cc.cmd; checked = r.monotonic; ok = ok })) ≡ true
  unfolding fresh
  fresh_now cc ok = ground (arith, same_text_refl cc.cmd)

  poll_queue_fresh :
      (c : Option CondCommand) (id : ℕ) (polls out : List (ℕ × CmdPoll))
      → IsFresh c (get id polls)
      → poll_queue r c id polls out ≡ out
  poll_queue_fresh none id polls out h = refl
  poll_queue_fresh (some cc) id polls out h = rw h

  poll_each_fresh :
      (polls : List (ℕ × CmdPoll)) (qs : List Queue) (out : List (ℕ × CmdPoll))
      → All (IsPolled polls) qs
      → poll_each r polls qs out ≡ out
  unfolding poll_each
  poll_each_fresh polls [] out h = refl
  poll_each_fresh polls (q ∷ qs) out h =
      rw (poll_queue_fresh (schedule_command q.schedule) q.id polls out h.0)
        (poll_each_fresh polls qs out h.1)

  get-poll_queue_other :
      (c : Option CondCommand) (id k : ℕ) (polls out : List (ℕ × CmdPoll))
      → (id == k) ≡ false
      → get k (poll_queue r c id polls out) ≡ get k out
  get-poll_queue_other none id k polls out h = refl
  get-poll_queue_other (some cc) id k polls out h =
      elim (Bool-cases (fresh r.monotonic cc (get id polls))) [
        | inl e ↦ rw e
        | inr e ↦ rw e (get-insert id k _ out ∙ rw h)
      ]

  get-poll_each_other :
      (polls : List (ℕ × CmdPoll)) (qs : List Queue) (out : List (ℕ × CmdPoll)) (k : ℕ)
      → contains (ids qs) k ≡ false
      → get k (poll_each r polls qs out) ≡ get k out
  unfolding poll_each
  get-poll_each_other polls [] out k h = refl
  get-poll_each_other polls (q ∷ qs) out k h =
      get-poll_each_other polls qs (poll_queue r (schedule_command q.schedule) q.id polls out) k
        (ground arith)
      ∙ get-poll_queue_other (schedule_command q.schedule) q.id k polls out (ground arith)

  poll_queue-IsFresh :
      (c : Option CondCommand) (id : ℕ) (polls out : List (ℕ × CmdPoll))
      → get id out ≡ get id polls
      → IsFresh c (get id (poll_queue r c id polls out))
  poll_queue-IsFresh none id polls out h = tt
  poll_queue-IsFresh (some cc) id polls out h =
      elim (Bool-cases (fresh r.monotonic cc (get id polls))) [
        | inl e ↦ rw e (rw h e)
        | inr e ↦ rw e (rw (get-insert id id _ out) (rw (==_refl id) (fresh_now cc _)))
      ]

  -- A queue whose own poll is untouched so far.
  Agrees : List (ℕ × CmdPoll) → List (ℕ × CmdPoll) → Queue → Type 0
  Agrees polls out q = get q.id out ≡ get q.id polls

  All-Agrees_kept :
      (polls : List (ℕ × CmdPoll)) (q : Queue) (qs : List Queue) (out : List (ℕ × CmdPoll))
      → contains (ids qs) q.id ≡ false
      → All (Agrees polls out) qs
      → All (Agrees polls (poll_queue r (schedule_command q.schedule) q.id polls out)) qs
  unfolding Agrees
  All-Agrees_kept polls q [] out d h = tt
  All-Agrees_kept polls q (p ∷ qs) out d h = (
    get-poll_queue_other (schedule_command q.schedule) q.id p.id polls out (ground arith) ∙ h.0,
    All-Agrees_kept polls q qs out (ground arith) h.1,
  )

  poll_each-IsPolled :
      (polls : List (ℕ × CmdPoll)) (qs : List Queue) (out : List (ℕ × CmdPoll))
      → Distinct qs
      → All (Agrees polls out) qs
      → All (IsPolled (poll_each r polls qs out)) qs
  unfolding poll_each Agrees
  poll_each-IsPolled polls [] out d h = tt
  poll_each-IsPolled polls (q ∷ qs) out d h =
      let c = schedule_command q.schedule in
      let out' = poll_queue r c q.id polls out in
      (
        rw (get-poll_each_other polls qs out' q.id d.0) (poll_queue-IsFresh c q.id polls out h.0),
        poll_each-IsPolled polls qs out' d.1 (All-Agrees_kept polls q qs out d.0 h.1),
      )

  Agrees-refl : (polls : List (ℕ × CmdPoll)) (qs : List Queue) → All (Agrees polls polls) qs
  unfolding Agrees
  Agrees-refl polls [] = tt
  Agrees-refl polls (q ∷ qs) = (refl, Agrees-refl polls qs)

  -- After the commands that are due have run, no queue's command is due.
  poll_due_commands-IsPolled :
      (qs : List Queue) (polls : List (ℕ × CmdPoll))
      → Distinct qs
      → All (IsPolled (poll_due_commands r qs polls)) qs
  unfolding poll_due_commands
  poll_due_commands-IsPolled qs polls d = poll_each-IsPolled polls qs polls d (Agrees-refl polls qs)

abbrev pub Live : List ℕ → Queue → Type 0
Live live q = contains live q.id ≡ true

Live-weaken :
    (q : Queue) (live : List ℕ) (qs : List Queue) → All (Live live) qs → All (Live (q.id ∷ live)) qs
Live-weaken q live [] h = tt
Live-weaken q live (p ∷ qs) h = (ground (arith, h.0), Live-weaken q live qs h.1)

pub ids-Live : (qs : List Queue) → All (Live (ids qs)) qs
ids-Live [] = tt
ids-Live (q ∷ qs) = (ground (arith, ==_refl q.id), Live-weaken q (ids qs) qs (ids-Live qs))

module _ (r : Readings) (live : List ℕ) (polls : List (ℕ × CmdPoll)) where
  retain-IsPolled :
      (qs : List Queue)
      → All (Live live) qs
      → All (IsPolled r polls) qs
      → All (IsPolled r (retain live polls)) qs
  retain-IsPolled [] h k = tt
  retain-IsPolled (q ∷ qs) h k =
      (rw (get-retain q.id live polls, h.0) k.0, retain-IsPolled qs h.1 k.1)

-- A second poll at the same moment finds nothing due, and leaves the verdicts as they are.
pub due_polls_twice :
    (r : Readings) (qs : List Queue) (polls : List (ℕ × CmdPoll))
    → Distinct qs
    → due_polls r qs (retain (ids qs) (due_polls r qs polls))
      ≡ retain (ids qs) (due_polls r qs polls)
unfolding due_polls
due_polls_twice r qs polls d = elim (Bool-cases (contains_kind r.available command)) [
  | inl on ↦ rw on (
      unfold poll_due_commands in
      poll_each_fresh r _ qs _
        (retain-IsPolled r (ids qs) _ qs (ids-Live qs) (poll_due_commands-IsPolled r qs polls d)))
  | inr off ↦ rw off
]
