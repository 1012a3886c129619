-- ===== src/State/Queues/Capped.antt =====
-- What a trimmed queue is left with.
use oxdm.Prelude.{
  ℕ, zero, suc, ◌≤◌, ◌≡◌, refl, Bool, true, false, ◌&&◌, not, leb, none, some, List, [], ◌∷◌, map,
  find_last, arith, ==→eq, ◌⊎◌, inl, inr, sym, subst, ap, Option-cases, Bool-cases, max, count,
  contains, length, left, left-cons_lt, left-le-length,
}
use oxdm.Entry.{JobEntry}
use oxdm.Queue.{Queue}
use oxdm.Table.{job_ids}
use oxdm.Table.Keyed.{IsKeyed, has_id, filter-none}
use oxdm.Admission.{next_over_cap, running_here, is_stop_target, queue_stop_targets}
use oxdm.State.{AppState, queue, is_queue_active}
use oxdm.State.Fill.{Pass, or_global}
use oxdm.State.Fill.Ends.{length-job_ids}
use oxdm.State.Queues.{trim_loop, trim_to_queue_cap}
use oxdm.State.Queues.Stops.{targets}
use oxdm.State.Queues.Trimmed.{
  IsTrimming, IsTrimming-trim_pass, trim_pass, ids_in_place, find_last-holds, find_last-none,
}

abbrev left_over : ℕ → List ℕ → JobEntry → Bool
left_over q tried e = is_stop_target q e && not (contains tried e.job.id)

over_cap_listed :
    (jobs : List JobEntry) (q limit : ℕ) (tried : List ℕ) (id : ℕ)
    → next_over_cap jobs q limit tried ≡ some id
    → (contains (job_ids jobs) id ≡ true) × (contains tried id ≡ false)
unfolding next_over_cap
over_cap_listed jobs q limit tried id h =
    elim (Bool-cases (leb (running_here q jobs) (max limit 1))) [
      | inl within ↦ ground (arith, h, within)
      | inr over ↦ elim (Option-cases (find_last (left_over q tried) jobs)) [
        | inl m ↦ ground (arith, h, over, m)
        | inr (e, m) ↦ ground (arith, h, over, m, find_last-holds (left_over q tried) jobs e m)
      ]
    ]

trim_loop_more :
    (now q limit fuel : ℕ) (p : Pass) (id : ℕ)
    → next_over_cap p.state.jobs q limit p.tried ≡ some id
    → trim_loop now q limit (suc fuel) p ≡ trim_loop now q limit fuel (trim_pass now p id)
unfolding trim_loop
trim_loop_more now q limit fuel p id h = rw (h, trim_loop)

trim_loop_stop :
    (now q limit fuel : ℕ) (p : Pass)
    → next_over_cap p.state.jobs q limit p.tried ≡ none
    → trim_loop now q limit fuel p ≡ p
unfolding trim_loop
trim_loop_stop now q limit zero p h = refl
trim_loop_stop now q limit (suc fuel) p h = rw (h, trim_loop)

-- The loop ends for want of a run to take, and keeps its invariant.
record IsTrimmed (q limit : ℕ) (p : Pass) : Type 0 where
  trimming : IsTrimming q p
  ends : next_over_cap p.state.jobs q limit p.tried ≡ none

trim_loop-IsTrimmed :
    (now q limit fuel : ℕ) (p : Pass)
    → IsTrimming q p
    → left p.tried (job_ids p.state.jobs) ≤ fuel
    → IsTrimmed q limit (trim_loop now q limit fuel p)
unfolding trim_loop
trim_loop-IsTrimmed now q limit zero p t enough =
    elim (Option-cases (next_over_cap p.state.jobs q limit p.tried)) [
      | inl e ↦ record { trimming = t; ends = e }
      | inr (id, picked) ↦
          let (listed, new) = over_cap_listed p.state.jobs q limit p.tried id picked in
          absurd (omega (arith, enough, left-cons_lt p.tried (job_ids p.state.jobs) id listed new))
    ]
trim_loop-IsTrimmed now q limit (suc fuel) p t enough =
    elim (Option-cases (next_over_cap p.state.jobs q limit p.tried)) [
      | inl e ↦
          subst (IsTrimmed q limit) (sym (trim_loop_stop now q limit (suc fuel) p e))
            (record { trimming = t; ends = e })
      | inr (id, picked) ↦
          let (listed, new) = over_cap_listed p.state.jobs q limit p.tried id picked in
          subst (IsTrimmed q limit) (sym (trim_loop_more now q limit fuel p id picked)) (
            trim_loop-IsTrimmed now q limit fuel (trim_pass now p id)
              (IsTrimming-trim_pass q now id p t)
              (rw (ids_in_place now id p.state)
                (omega (arith, enough, left-cons_lt p.tried (job_ids p.state.jobs) id listed new))))
    ]

untried_targets :
    (q k : ℕ) (tried : List ℕ) (es : List JobEntry)
    → contains tried k ≡ false
    → targets q k es ≤ count (left_over q tried) es
untried_targets q k tried [] h = omega arith
untried_targets q k tried (e ∷ es) h = elim (Bool-cases (has_id k e)) [
  | inl hit ↦
      let new = subst (λ j. contains tried j ≡ false) (sym (==→eq e.job.id k hit)) h in
      ground (arith, new, hit, untried_targets q k tried es h)
  | inr miss ↦ ground (arith, miss, untried_targets q k tried es h)
]

trimmed_enough :
    (q limit : ℕ) (p : Pass)
    → IsTrimmed q limit p
    → (running_here q p.state.jobs ≤ max limit 1) ⊎ (queue_stop_targets p.state.jobs q ≡ [])
unfolding next_over_cap queue_stop_targets
trimmed_enough q limit p t = elim (Bool-cases (leb (running_here q p.state.jobs) (max limit 1))) [
  | inl within ↦ inl (ground (arith, within))
  | inr over ↦ inr (ap (map (λ e. e.job.id)) (filter-none (is_stop_target q) _ (gone over)))
]
  where
    nothing_over :
        leb (running_here q p.state.jobs) (max limit 1) ≡ false
        → find_last (left_over q p.tried) p.state.jobs ≡ none
    nothing_over over = elim (Option-cases (find_last (left_over q p.tried) p.state.jobs)) [
      | inl m ↦ m
      | inr (e, m) ↦ ground (arith, t.ends, over, m)
    ]

    gone :
        leb (running_here q p.state.jobs) (max limit 1) ≡ false
        → (k : ℕ) → targets q k p.state.jobs ≡ 0
    gone over k = elim (Bool-cases (contains p.tried k)) [
      | inl tried ↦ t.trimming.taken k tried
      | inr new ↦ omega (
        arith,
        untried_targets q k p.tried p.state.jobs new,
        find_last-none (left_over q p.tried) p.state.jobs (nothing_over over),
      )
    ]

-- Trimming the run of a queue to its cap leaves it within the cap, or with no run at all that a trim
-- may take: those left were started by hand, or are being assembled. The table's ids are distinct;
-- the queue is running; a cap of 0 counts as 1, and a queue with no cap has the global one.
pub trim_to_queue_cap_suffices :
    (now id : ℕ) (s : AppState) (q : Queue)
    → IsKeyed s.jobs
    → is_queue_active id s ≡ true
    → queue id s ≡ some q
    → let s' = trim_to_queue_cap now id s in
      (running_here q.id s'.jobs ≤ max (or_global q.max_concurrent s.max_concurrent_downloads) 1)
      ⊎ (queue_stop_targets s'.jobs q.id ≡ [])
unfolding trim_to_queue_cap
trim_to_queue_cap_suffices now id s q keyed active there =
    rw (active, there)
      (at_limit (
        trimmed_enough q.id limit _ (
          trim_loop-IsTrimmed now q.id limit (length s.jobs) begin
            (record { keyed = keyed; taken = λ k c. cc })
            (omega (arith, left-le-length [] (job_ids s.jobs), length-job_ids s.jobs)))))
  where
    limit : ℕ
    limit = max (or_global q.max_concurrent s.max_concurrent_downloads) 1

    begin : Pass
    begin = record { tried = []; state = s }

    at_limit : {n : ℕ} {P : Type 0} → (n ≤ max limit 1) ⊎ P → (n ≤ limit) ⊎ P
    at_limit (inl h) = inl (ground (arith, h))
    at_limit (inr h) = inr h
