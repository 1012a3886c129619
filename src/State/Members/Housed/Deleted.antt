-- ===== src/State/Members/Housed/Deleted.antt =====
-- A queue that is deleted leaves its downloads to the main queue.
use oxdm.Prelude.{
  Distinct, ℕ, ◌≡◌, refl, true, false, List, [], ◌∷◌, filter, contains, ◌==◌, ==→eq, ==_refl, not,
  Option, none, some, arith, ap, sym, subst, ◌∙◌, inl, inr, Bool-cases, Option-cases, All,
}
use oxdm.Queue.{Queue}
use oxdm.Entry.{JobEntry}
use oxdm.Table.{job_ids, job_entry, update}
use oxdm.Table.Laws.{job_ids-update, update_missing}
use oxdm.State.{AppState}
use oxdm.State.Members.{rebuild_entry, rehome, dropped, delete_queue, in_queue_ids}
use oxdm.State.Members.Housed.{has_queue, IsHoused, moved-IsHoused}

-- Of an entry of the queue that goes: its turn to be moved is still to come.
abbrev Awaits : ℕ → List ℕ → JobEntry → Type 0
Awaits q left e = (e.job.queue_id == q) ≡ true → contains left e.job.id ≡ true

others_wait :
    (q k : ℕ) (left : List ℕ) (jobs : List JobEntry)
    → contains (job_ids jobs) k ≡ false
    → All (Awaits q (k ∷ left)) jobs
    → All (Awaits q left) jobs
others_wait q k left [] off h = tt
others_wait q k left (e ∷ jobs) off h =
    ((λ here. ground (arith, h.0 here, off)), others_wait q k left jobs (ground (arith, off)) h.1)

module _ (q main k : ℕ) (left : List ℕ) (apart : (main == q) ≡ false) where
  moved_waits :
      (jobs : List JobEntry)
      → Distinct (job_ids jobs)
      → All (Awaits q (k ∷ left)) jobs
      → All
          (Awaits q left)
          (update k (λ e. record e { job = record (e.job) { queue_id = main } }) jobs)
  unfolding update
  moved_waits [] d h = tt
  moved_waits (e ∷ jobs) d h = elim (Bool-cases (e.job.id == k)) [
    | inl hit ↦
        let gone : contains (job_ids jobs) k ≡ false =
          subst (λ i. contains (job_ids jobs) i ≡ false) (==→eq e.job.id k hit) d.0 in
        rw hit ((λ here. ground (arith, here, apart)), others_wait q k left jobs gone h.1)
    | inr miss ↦ rw miss ((λ here. ground (arith, h.0 here, miss)), moved_waits jobs d.1 h.1)
  ]

-- The state after the downloads were moved, all of them where nothing was refused.
pub record IsRehomed (q : ℕ) (s s' : AppState) (refused : Option (List ℕ)) : Type 0 where
  pub housed : IsHoused s'
  pub queues : s'.queues ≡ s.queues
  pub main : s'.main_queue_id ≡ s.main_queue_id
  pub emptied : refused ≡ none → All (Awaits q []) s'.jobs

rehome_lem :
    (saved : ℕ → Option (List ℕ)) (q : ℕ) (ids : List ℕ) (s : AppState)
    → (s.main_queue_id == q) ≡ false
    → Distinct (job_ids s.jobs)
    → IsHoused s
    → All (Awaits q ids) s.jobs
    → let (s', refused) = rehome saved s.main_queue_id ids s in IsRehomed q s s' refused
unfolding rehome rebuild_entry
rehome_lem saved q [] s apart d h waits = record {
  housed = h;
  queues = refl;
  main = refl;
  emptied = λ e. waits;
}
rehome_lem saved q (k ∷ ids) s apart d h waits =
    let main = s.main_queue_id in
    let g : JobEntry → JobEntry = λ e. record e { job = record (e.job) { queue_id = main } } in
    let moved = rebuild_entry k (λ j. record j { queue_id = main }) s in
    let housed = moved-IsHoused k main s h.main h in
    let later = moved_waits q main k ids apart s.jobs d waits in
    let all = rehome saved main (k ∷ ids) s in
    elim (Option-cases (job_entry k s.jobs)) [
      | inl none_such ↦
          let same : all ≡ rehome saved main ids s = rw (none_such, rehome) refl in
          subst (λ p. IsRehomed q s p.0 p.1) (sym same)
            (rehome_lem saved q ids s apart d h
              (subst (All (Awaits q ids)) (update_missing k g s.jobs none_such) later))
      | inr (e, found) ↦ elim (Option-cases (saved k)) [
        | inl taken ↦
            let same : all ≡ rehome saved main ids moved = rw (found, taken, rehome) refl in
            let rest =
              rehome_lem saved q ids moved apart
                (subst Distinct (sym (job_ids-update k g s.jobs (λ x. refl))) d) housed later in
            subst (λ p. IsRehomed q s p.0 p.1) (sym same)
              (record {
                housed = rest.housed;
                queues = rest.queues;
                main = rest.main;
                emptied = rest.emptied;
              })
        | inr (err, refused) ↦
            let same : all ≡ (moved, some err) = rw (found, refused, rehome) refl in
            subst (λ p. IsRehomed q s p.0 p.1) (sym same)
              (record { housed = housed; queues = refl; main = refl; emptied = λ x. cc })
      ]
    ]

has_queue-without :
    (q k : ℕ) (qs : List Queue)
    → (k == q) ≡ false
    → has_queue (filter (λ p. not (p.id == q)) qs) k ≡ has_queue qs k
has_queue-without q k [] off = refl
has_queue-without q k (p ∷ qs) off = elim (Bool-cases (p.id == q)) [
  | inl gone ↦ rw gone (has_queue-without q k qs off ∙ ground (arith, gone, off))
  | inr stays ↦ ground (arith, stays, has_queue-without q k qs off)
]

All-elsewhere :
    (q : ℕ) (qs : List Queue) (jobs : List JobEntry)
    → All (Awaits q []) jobs
    → All (λ (e : JobEntry). has_queue qs e.job.queue_id ≡ true) jobs
    → All
        (λ (e : JobEntry). has_queue (filter (λ p. not (p.id == q)) qs) e.job.queue_id ≡ true)
        jobs
All-elsewhere q qs [] a h = tt
All-elsewhere q qs (e ∷ jobs) a h = (
  has_queue-without q e.job.queue_id qs (ground (arith, a.0)) ∙ h.0,
  All-elsewhere q qs jobs a.1 h.1,
)

one_more :
    (q i : ℕ) (left : List ℕ) (jobs : List JobEntry)
    → All (Awaits q left) jobs
    → All (Awaits q (i ∷ left)) jobs
one_more q i left [] h = tt
one_more q i left (e ∷ jobs) h = ((λ here. ground (arith, h.0 here)), one_more q i left jobs h.1)

All-await : (q : ℕ) (jobs : List JobEntry) → All (Awaits q (in_queue_ids q jobs)) jobs
All-await q [] = tt
All-await q (e ∷ jobs) = elim (Bool-cases (e.job.queue_id == q)) [
  | inl here ↦
      let ids : in_queue_ids q (e ∷ jobs) ≡ e.job.id ∷ in_queue_ids q jobs = rw here refl in
      subst (λ l. All (Awaits q l) (e ∷ jobs)) (sym ids)
        (
          (λ h. ground (arith, ==_refl e.job.id)),
          one_more q e.job.id (in_queue_ids q jobs) jobs (All-await q jobs),
        )
  | inr away ↦
      let ids : in_queue_ids q (e ∷ jobs) ≡ in_queue_ids q jobs = rw away refl in
      subst (λ l. All (Awaits q l) (e ∷ jobs)) (sym ids)
        ((λ h. absurd (ground (arith, away, h))), All-await q jobs)
]

dropped-IsHoused :
    (q : ℕ) (kept_by : Option (List ℕ)) (s s' : AppState) (refused : Option (List ℕ))
    → (s.main_queue_id == q) ≡ false
    → IsRehomed q s s' refused
    → IsHoused (dropped q kept_by (s', refused)).0
unfolding dropped
dropped-IsHoused q kept_by s s' (some err) apart r = r.housed
dropped-IsHoused q (some err) s s' none apart r = r.housed
dropped-IsHoused q none s s' none apart r = record {
  jobs = All-elsewhere q s'.queues s'.jobs (r.emptied refl) r.housed.jobs;
  main =
      has_queue-without q s'.main_queue_id s'.queues (ap (λ k. k == q) r.main ∙ apart)
      ∙ r.housed.main;
}

-- No download is left without a queue when a queue is deleted, wherever the database refuses a row
-- on the way, and the main queue stays.
pub delete_queue-IsHoused :
    (saved : ℕ → Option (List ℕ)) (kept_by : Option (List ℕ)) (q : ℕ) (s : AppState)
    → Distinct (job_ids s.jobs)
    → IsHoused s
    → IsHoused (delete_queue saved kept_by q s).0
unfolding delete_queue
delete_queue-IsHoused saved kept_by q s d h = elim (Bool-cases (q == s.main_queue_id)) [
  | inl main ↦ rw main h
  | inr other ↦
      let (s', refused) = rehome saved s.main_queue_id (in_queue_ids q s.jobs) s in
      let apart : (s.main_queue_id == q) ≡ false = ground (arith, other) in
      rw other (
        dropped-IsHoused q kept_by s s' refused apart
          (rehome_lem saved q (in_queue_ids q s.jobs) s apart d h (All-await q s.jobs)))
]
