-- ===== src/Scheduler/Tick/Memory.antt =====
-- What the scheduler remembers of a tick, and what a tick does to a queue that it did not start.
use oxdm.Prelude.{
  ℕ, ◌≡◌, refl, inl, inr, Bool, false, none, some, List, [], ◌∷◌, arith, ◌==◌, ==→eq, ==_refl, sym,
  ap, ◌∙◌, if◌then◌else◌, contains, Bool-cases, All,
}
use oxdm.Queue.{Queue}
use oxdm.Queue.Conditions.{CondSnapshot}
use oxdm.Scheduler.{should_run}
use oxdm.Scheduler.Verdicts.{may_continue_of_should_run}
use oxdm.Scheduler.Tick.{
  get, insert, retain, CmdPoll, QueueControl, Readings, ids, cmd_verdict, decide, visit, visit_all,
  has_trigger,
}

module _ {ℓ} {V : Type ℓ} where
  pub get-insert :
      (k j : ℕ) (v : V) (m : List (ℕ × V))
      → get j (insert k v m) ≡ (if k == j then some v else get j m)
  unfolding get insert
  get-insert k j v [] = refl
  get-insert k j v ((i, w) ∷ m) = ground (arith, get-insert k j v m)

  pub get-retain :
      (k : ℕ) (live : List ℕ) (m : List (ℕ × V))
      → get k (retain live m) ≡ (if contains live k then get k m else none)
  unfolding get retain
  get-retain k live [] = ground arith
  get-retain k live ((i, w) ∷ m) = elim (Bool-cases (i == k)) [
    | inl e ↦ rw (==→eq i k e) (ground (arith, get-retain k live m))
    | inr e ↦ ground (arith, get-retain k live m)
  ]

abbrev pub Distinct : List Queue → Type 0
Distinct [] = Unit {0}
Distinct (q ∷ qs) = (contains (ids qs) q.id ≡ false) × Distinct qs

-- The verdict that a tick at these readings reaches on a queue.
abbrev pub verdict_at : Readings → CondSnapshot → List (ℕ × CmdPoll) → Queue → Bool
verdict_at r conds polls q = should_run q r.now r.available conds (cmd_verdict (get q.id polls))

-- The verdict reached on a queue is on record.
abbrev pub Remembers :
    Readings → CondSnapshot → List (ℕ × CmdPoll) → List (ℕ × Bool) → Queue → Type 0
Remembers r conds polls last q = get q.id last ≡ some (verdict_at r conds polls q)

module _ {S : Type 0} (control : QueueControl S) (r : Readings) (conds : CondSnapshot)
    (polls : List (ℕ × CmdPoll)) where
  -- A queue that is not visited keeps its entry.
  get-visit_all_other :
      (qs : List Queue) (k : ℕ) (last : List (ℕ × Bool)) (s : S)
      → contains (ids qs) k ≡ false
      → get k (visit_all control r conds polls qs (last, s)).0 ≡ get k last
  unfolding visit_all visit
  get-visit_all_other [] k last s h = refl
  get-visit_all_other (q ∷ qs) k last s h = ground (
    arith,
    get-visit_all_other qs k (insert q.id (verdict_at r conds polls q) last)
        (visit control r conds polls q (last, s)).1,
    get-insert q.id k (verdict_at r conds polls q) last,
  )

  pub visit_all-Remembers :
      (qs : List Queue) (last : List (ℕ × Bool)) (s : S)
      → Distinct qs
      → All (Remembers r conds polls (visit_all control r conds polls qs (last, s)).0) qs
  unfolding visit_all visit
  visit_all-Remembers [] last s d = tt
  visit_all-Remembers (q ∷ qs) last s d =
      let v = verdict_at r conds polls q in
      let s' = (visit control r conds polls q (last, s)).1 in
      (
        get-visit_all_other qs q.id (insert q.id v last) s' d.0
            ∙ (get-insert q.id q.id v last ∙ rw ==_refl),
        visit_all-Remembers qs (insert q.id v last) s' d.1,
      )

  -- A visit to a queue whose verdict is already recorded, and that no arrival triggers, makes no
  -- call and leaves every entry as it was.
  visit_settled :
      (q : Queue) (last : List (ℕ × Bool)) (s : S)
      → has_trigger q.schedule ≡ false
      → Remembers r conds polls last q
      → (visit control r conds polls q (last, s)).1 ≡ s
  unfolding visit decide
  visit_settled q last s h m =
      ground
        (arith, may_continue_of_should_run q r.now r.available conds (cmd_verdict (get q.id polls)))

  Remembers-kept :
      (q p : Queue) (last : List (ℕ × Bool))
      → Remembers r conds polls last q
      → Remembers r conds polls last p
      → Remembers r conds polls (insert q.id (verdict_at r conds polls q) last) p
  Remembers-kept q p last hq hp =
      get-insert q.id p.id (verdict_at r conds polls q) last ∙ elim (Bool-cases (q.id == p.id)) [
        | inl e ↦ rw e (sym hq ∙ (ap (λ k. get k last) (==→eq q.id p.id e) ∙ hp))
        | inr e ↦ rw e hp
      ]

  All-Remembers_kept :
      (q : Queue) (qs : List Queue) (last : List (ℕ × Bool))
      → Remembers r conds polls last q
      → All (Remembers r conds polls last) qs
      → All (Remembers r conds polls (insert q.id (verdict_at r conds polls q) last)) qs
  All-Remembers_kept q [] last hq h = tt
  All-Remembers_kept q (p ∷ qs) last hq h =
      (Remembers-kept q p last hq h.0, All-Remembers_kept q qs last hq h.1)

  pub visit_all_settled :
      (qs : List Queue) (last : List (ℕ × Bool)) (s : S)
      → All (λ q. has_trigger q.schedule ≡ false) qs
      → All (Remembers r conds polls last) qs
      → (visit_all control r conds polls qs (last, s)).1 ≡ s
  unfolding visit_all visit
  visit_all_settled [] last s h m = refl
  visit_all_settled (q ∷ qs) last s h m =
      visit_all_settled qs (insert q.id (verdict_at r conds polls q) last) _ h.1
        (All-Remembers_kept q qs last m.0 m.1)
      ∙ visit_settled q last s h.0 m.0
