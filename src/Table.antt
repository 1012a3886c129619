-- ===== src/Table.antt =====
-- The job table of src/data/state.rs, an `IndexMap<JobId, Arc<JobEntry>>` in list order: the keys
-- are the ids of the entries' jobs.
pub mod Laws
pub mod Keyed
pub mod Moves
use oxdm.Prelude.{
  ℕ, ◌≡◌, Bool, true, false, Option, none, some, List, [], ◌∷◌, ◌++◌, map, ◌==◌, if◌then◌else◌,
  contains,
}
use oxdm.Entry.{JobEntry}

abbrev pub job_ids : List JobEntry → List ℕ
job_ids = map (λ e. e.job.id)

-- `jobs.get(&id)`.
unfoldable pub job_entry : ℕ → List JobEntry → Option JobEntry
job_entry k [] = none
job_entry k (e ∷ es) = if e.job.id == k then some e else job_entry k es

-- What a write to the entry of `id` makes of the table.
unfoldable pub update : ℕ → (JobEntry → JobEntry) → List JobEntry → List JobEntry
update k f [] = []
update k f (e ∷ es) = if e.job.id == k then f e ∷ es else e ∷ update k f es

unfoldable pub shift_remove : ℕ → List JobEntry → List JobEntry
shift_remove k [] = []
shift_remove k (e ∷ es) = if e.job.id == k then es else e ∷ shift_remove k es

put_back : Option JobEntry → List JobEntry → List JobEntry → List JobEntry
put_back none rest es = es
put_back (some e) rest es = rest ++ e ∷ []

-- `if let Some(entry) = jobs.shift_remove(&id) { jobs.insert(id, entry); }`
unfoldable pub move_to_back : ℕ → List JobEntry → List JobEntry
unfolding put_back
move_to_back k es = put_back (job_entry k es) (shift_remove k es) es
