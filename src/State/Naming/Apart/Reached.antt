-- ===== src/State/Naming/Apart/Reached.antt =====
-- What the operations that name downloads reach, in whatever order they come: all that write
-- `job.filename` in src/data/state.rs.
use oxdm.Prelude.{ℕ, ◌≡◌, ◌⊎◌, List, [], Option, none, some, subst, sym}
use oxdm.Filename.{sanitize}
use oxdm.Category.{Settings}
use oxdm.Job.{JobError}
use oxdm.State.{AppState}
use oxdm.State.Naming.{Platform, and_sanitize, apply_resolved_filename, set_job_source}
use oxdm.State.Naming.Probed.{ProbeResult, apply_probe_result}
use oxdm.State.Naming.Added.{Addition, add_job}
use oxdm.State.Naming.Apart.{AreNamedApart}
use oxdm.State.Naming.Apart.Steps.{IsRoomy, apply_resolved_filename-apart, set_job_source-apart}
use oxdm.State.Naming.Apart.Others.{add_job-apart, apply_probe_result-apart}
use oxdm.State.Naming.Apart.Written.{IsNew, update_job_location-apart, adopt_final_path-apart}
use oxdm.State.Naming.Edited.{JobEdit, update_job_location, adopt_final_path}

-- One operation that names a download; `add_from_capture` and the updates name theirs by `add_job`.
pub data NamingStep (os : Platform) (s : AppState) : AppState → Type 0 where
  added :
      (settings : Settings) (id : ℕ) (a : Addition) (sealed stored : Option JobError) {t : AppState}
      → t ≡ (add_job os settings id a sealed stored s).0
      → NamingStep os s t
  resolved :
      (settings : Settings) (id : ℕ) (filename : List ℕ) {t : AppState}
      → t ≡ (apply_resolved_filename os settings id filename s).0
      → NamingStep os s t
  sourced :
      (refused : Option (List ℕ)) (id : ℕ) (url save_dir : List ℕ) (filename : Option (List ℕ))
      {t : AppState}
      → t ≡ (set_job_source os refused id url save_dir filename s).0
      → NamingStep os s t
  edited :
      (sealed : Option JobError) (refused : Option (List ℕ)) (id : ℕ) (edit : JobEdit)
      (seen : AppState) {t : AppState}
      → t ≡ (update_job_location os sealed refused id edit seen s).0
      → NamingStep os s t
  probed :
      (settings : Settings) (id : ℕ) (probe : ProbeResult) {t : AppState}
      → t ≡ apply_probe_result os settings id probe s
      → NamingStep os s t
  adopted :
      (id : ℕ) (name dir : Option (List ℕ)) {t : AppState}
      → t ≡ adopt_final_path os id name dir s
      → NamingStep os s t

pub data Reached (os : Platform) (s : AppState) : AppState → Type 0 where
  start : Reached os s s
  later : {t u : AppState} → Reached os s t → NamingStep os t u → Reached os s u

module _ (os : Platform) where
  -- What a step asks of its moment. Where a name is numbered, some number below 10,000 is left. An edit
  -- asks about its name before the secrets are sealed: the table is still the same when the name is
  -- stored, or the name is still free. The path that a run has written brings a name that no other
  -- download has. A new source asks for nothing.
  abbrev pub HasRoom : (s t : AppState) → NamingStep os s t → Type 0
  HasRoom s t (added settings id a sealed stored e) =
      (n : List ℕ) → and_sanitize a.filename ≡ some n → IsRoomy os s.jobs n none
  HasRoom s t (resolved settings id filename e) =
      (n : List ℕ) → sanitize filename ≡ some n → IsRoomy os s.jobs n (some id)
  HasRoom s t (sourced refused id url save_dir filename e) = Unit
  HasRoom s t (edited sealed refused id edit seen e) =
      IsNew os s.jobs id (and_sanitize edit.filename) ⊎ (seen.jobs ≡ s.jobs)
  HasRoom s t (probed settings id probe e) = IsRoomy os s.jobs probe.filename (some id)
  HasRoom s t (adopted id name dir e) = IsNew os s.jobs id name

  abbrev pub AllHaveRoom : (s t : AppState) → Reached os s t → Type 0
  AllHaveRoom s t start = Unit
  AllHaveRoom s u (later {t} r step) = AllHaveRoom s t r × HasRoom t u step

module _ (os : Platform) (lower : os.to_lowercase [] ≡ []) where
  step-apart :
      (s t : AppState) (step : NamingStep os s t)
      → HasRoom os s t step
      → AreNamedApart os.to_lowercase s.jobs
      → AreNamedApart os.to_lowercase t.jobs
  step-apart s t (added settings id a sealed stored e) room h =
      subst (λ (x : AppState). AreNamedApart os.to_lowercase x.jobs) (sym e)
        (add_job-apart os settings id a sealed stored s lower room h)
  step-apart s t (resolved settings id filename e) room h =
      subst (λ (x : AppState). AreNamedApart os.to_lowercase x.jobs) (sym e)
        (apply_resolved_filename-apart os settings id filename s lower room h)
  step-apart s t (sourced refused id url save_dir filename e) room h =
      subst (λ (x : AppState). AreNamedApart os.to_lowercase x.jobs) (sym e)
        (set_job_source-apart os refused id url save_dir filename s lower h)
  step-apart s t (edited sealed refused id edit seen e) room h =
      subst (λ (x : AppState). AreNamedApart os.to_lowercase x.jobs) (sym e)
        (update_job_location-apart os sealed refused id edit seen s lower room h)
  step-apart s t (probed settings id probe e) room h =
      subst (λ (x : AppState). AreNamedApart os.to_lowercase x.jobs) (sym e)
        (apply_probe_result-apart os settings id probe s lower room h)
  step-apart s t (adopted id name dir e) room h =
      subst (λ (x : AppState). AreNamedApart os.to_lowercase x.jobs) (sym e)
        (adopt_final_path-apart os id name dir s room h)

  -- One name stays one download: where no two downloads share a name, none do after any sequence of
  -- additions, names found by a run or a probe, new sources, edits, and paths adopted from runs,
  -- refused or not. The conditions are that some of the 9,999 numbered names is free whenever one is
  -- looked for; that the table does not change between an edit's question and its insert, or the name
  -- is still free then; and that no other download has the name of an adopted path.
  pub names_stay_apart :
      (s t : AppState) (r : Reached os s t)
      → AllHaveRoom os s t r
      → AreNamedApart os.to_lowercase s.jobs
      → AreNamedApart os.to_lowercase t.jobs
  names_stay_apart s t start room h = h
  names_stay_apart s u (later {t} r step) room h =
      step-apart t u step room.1 (names_stay_apart s t r room.0 h)
