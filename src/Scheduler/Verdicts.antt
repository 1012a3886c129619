-- ===== src/Scheduler/Verdicts.antt =====
-- How the readings of a schedule relate: what starts a queue, what lets it go on, and what the
-- arrival of a download is asked.
use oxdm.Prelude.{
  ℕ, ◌≡◌, refl, Bool, true, false, Option, none, some, List, [], ◌∷◌, arith, any, all, any_mono,
  all_mono,
}
use oxdm.Queue.{Queue, QueueSchedule, manual, daily, once, condition, LocalTime}
use oxdm.Queue.Conditions.{
  CondKind, job_added, CondSet, CondSnapshot, judge, combine_verdicts, all_of, any_of, CondCombine,
  no_readings,
}
use oxdm.Scheduler.{once_due, condition_holds, schedule_verdict, should_run, may_continue}

combine_verdicts_mono :
    (c : CondCombine) (p q : CondKind → Bool) (ks : List CondKind)
    → ((k : CondKind) → p k ≡ true → q k ≡ true)
    → combine_verdicts c p ks ≡ true
    → combine_verdicts c q ks ≡ true
combine_verdicts_mono all_of p q ks f h = all_mono p q ks f h
combine_verdicts_mono any_of p q ks f h = any_mono p q ks f h

judge_mono :
    (c : CondCombine) (p q : CondKind → Bool) (live : List CondKind)
    → ((k : CondKind) → p k ≡ true → q k ≡ true)
    → judge c p live ≡ true
    → judge c q live ≡ true
judge_mono c p q [] f h = h
judge_mono c p q (k ∷ ks) f h = combine_verdicts_mono c p q (k ∷ ks) f h

condition_holds_mono :
    (set : CondSet) (conds : CondSnapshot) (cmd_ok : Option Bool) (k : CondKind)
    → condition_holds set conds cmd_ok false k ≡ true
    → condition_holds set conds cmd_ok true k ≡ true
unfolding condition_holds
condition_holds_mono set conds cmd_ok job_added h = refl
condition_holds_mono set conds cmd_ok k h = h

once_due_mono :
    (start : ℕ) (stop : Option ℕ) (now : ℕ)
    → once_due start stop false now ≡ true
    → once_due start stop true now ≡ true
unfolding once_due
once_due_mono start none now h = ground arith
once_due_mono start (some stop) now h = h

schedule_verdict_mono :
    (s : QueueSchedule) (now : LocalTime) (available : List CondKind) (conds : CondSnapshot)
    (cmd_ok : Option Bool)
    → schedule_verdict s now available conds cmd_ok false ≡ true
    → schedule_verdict s now available conds cmd_ok true ≡ true
unfolding schedule_verdict
schedule_verdict_mono manual now available conds cmd_ok h = h
schedule_verdict_mono (daily start none days) now available conds cmd_ok h = refl
schedule_verdict_mono (daily start (some stop) days) now available conds cmd_ok h = h
schedule_verdict_mono (once start stop) now available conds cmd_ok h =
    once_due_mono start stop now.instant h
schedule_verdict_mono (condition set) now available conds cmd_ok h =
    judge_mono set.combine _ _ _ (condition_holds_mono set conds cmd_ok) h

-- A queue that the scheduler would start at some reading of the clock and the conditions is one
-- that it lets go on at the same reading.
pub may_continue_of_should_run :
    (q : Queue) (now : LocalTime) (available : List CondKind) (conds : CondSnapshot)
    (cmd_ok : Option Bool)
    → should_run q now available conds cmd_ok ≡ true
    → may_continue q now available conds cmd_ok ≡ true
unfolding should_run may_continue
may_continue_of_should_run q now available conds cmd_ok h =
    schedule_verdict_mono q.schedule now available conds cmd_ok h

all-false :
    (p : CondKind → Bool) (k : CondKind) (ks : List CondKind)
    → ((j : CondKind) → p j ≡ false)
    → all p (k ∷ ks) ≡ false
all-false p k ks f = ground (arith, f k)

any-false :
    (p : CondKind → Bool) (ks : List CondKind) → ((j : CondKind) → p j ≡ false) → any p ks ≡ false
any-false p [] f = refl
any-false p (k ∷ ks) f = ground (arith, f k, any-false p ks f)

judge-false :
    (c : CondCombine) (p : CondKind → Bool) (ks : List CondKind)
    → ((j : CondKind) → p j ≡ false)
    → judge c p ks ≡ false
judge-false c p [] f = refl
judge-false all_of p (k ∷ ks) f = all-false p k ks f
judge-false any_of p (k ∷ ks) f = any-false p (k ∷ ks) f

unread_false : (set : CondSet) (k : CondKind) → condition_holds set no_readings none false k ≡ false
unfolding condition_holds
unread_false set job_added = refl
unread_false set k = refl

-- The conditions fail closed: with no probe answered and no command polled, a queue scheduled by
-- conditions is not started, under either combination and whatever the host can evaluate.
pub should_run_closed :
    (q : Queue) (set : CondSet) (now : LocalTime) (available : List CondKind)
    → q.schedule ≡ condition set
    → should_run q now available no_readings none ≡ false
unfolding should_run
should_run_closed q set now available e = rw e (judge-false set.combine _ _ (unread_false set))
