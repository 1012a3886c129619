-- ===== src/Examples/Names.antt =====
-- Names, categories and rows of the small daemon.
use oxdm.Prelude.{
  ℕ, ◌+◌, ◌≤◌, ◌≡◌, ◌≢◌, refl, arith, Bool, true, false, List, [], ◌∷◌, ◌++◌, map, all, ◌==◌,
  same_text, none, some, codes, All, if◌then◌else◌, Option, false, subst, sym,
}
use mathlib.Core.Option
use oxdm.Text.{trim, trim_start_matches, trim_end_matches, ascii_lower}
use oxdm.Text.Utf8.{utf8_len}
use oxdm.Filename.{
  sanitize, is_empty, max_name_bytes, is_dot_or_space, is_reserved, truncate_bytes, at_last_dot,
  after_last, before_dot, is_kept, is_deceptive_format,
}
use oxdm.Filename.Cleaned.{AreSafe}
use oxdm.Filename.Sizes.{sanitize_leaf}
use oxdm.Filename.Sizes.Short.{sanitize_short}
use oxdm.Filename.Names.{unique_name, name_is_taken, name_key}
use oxdm.Filename.Names.Long.{utf8_len-unique_name}
use oxdm.Category.{
  Settings, Category, videos, others, classify, behind_dot, normalize_categories, category_deleted,
  get, has_category, all_visible, rank,
}
use oxdm.Category.Sorted.{IsPicked}
use oxdm.Category.Ranked.{classify_lem, would_take}
use oxdm.Category.Canonical.{IsProper, normalize_categories_lem}
use oxdm.Checksum.{Checksum, md5, user, server, verified, unverified}
use oxdm.Entry.{JobEntry}
use oxdm.Table.{job_entry}
use oxdm.State.{AppState}
use oxdm.State.Rows.{merge_checksums}
use oxdm.State.Rows.Effects.{merge_checksums_lem, IsLonger, knows}
use oxdm.State.Naming.{Platform}
use oxdm.State.Naming.Apart.{AreNamedApart, found-All}
use oxdm.State.Naming.Apart.Reached.{
  Reached, names_stay_apart, start, later, sourced, edited, adopted,
}
use oxdm.State.Naming.Edited.{JobEdit, update_job_location, adopt_final_path}
use oxdm.State.Naming.Leaves.{IsSafelyNamed}
use oxdm.State.Naming.Leaves.Kept.{safe_names_stay}
use oxdm.State.Naming.Probed.{ProbeResult, apply_probe_result}
use oxdm.State.Naming.Probed.Raw.{apply_probe_result_raw}
use oxdm.State.Naming.{set_job_source}
use oxdm.Examples.Data.{daemon, waiting}

abbrev dotted_name : List ℕ
dotted_name = codes "../a:b. "

cleaned_name : sanitize dotted_name ≡ some (codes "a_b")
unfolding sanitize after_last before_dot trim trim_start_matches trim_end_matches truncate_bytes
    is_kept is_deceptive_format
cleaned_name = refl

sanitize_leaf_example :
    (codes "a_b" ≢ []) × (utf8_len (codes "a_b") ≤ max_name_bytes) × AreSafe (codes "a_b")
sanitize_leaf_example = sanitize_leaf dotted_name (codes "a_b") cleaned_name

sanitize_short_example :
    (trim_end_matches is_dot_or_space (codes "a_b") ≡ codes "a_b")
    × (is_reserved (codes "a_b") ≡ false)
    × (all (λ c. c == b'.') (codes "a_b") ≡ false)
sanitize_short_example = sanitize_short dotted_name (codes "a_b") (omega arith) cleaned_name

abbrev is_zip : List ℕ → Bool
is_zip = same_text (codes "a.zip")

utf8_len-unique_name_example :
    utf8_len (trim (codes "a.zip")) + 2 ≤ utf8_len (unique_name (codes "a.zip") is_zip)
unfolding trim trim_start_matches trim_end_matches
utf8_len-unique_name_example = utf8_len-unique_name (codes "a.zip") is_zip refl refl

abbrev some_settings : Settings
some_settings = record {
  category_extensions = [];
  category_folders = (videos, codes "/films") ∷ [];
  category_queues = (videos, 2) ∷ [];
  deleted_categories = videos ∷ others ∷ videos ∷ [];
  agent_category_created = false;
}

classify_lem_example :
    let ext = behind_dot (at_last_dot (codes "a.MP3")) in
    let low = map ascii_lower ext in
    IsPicked some_settings low (classify (codes "a.MP3") some_settings)
    × (is_empty ext ≡ true → classify (codes "a.MP3") some_settings ≡ others)
    × (is_empty ext ≡ false
        → (d : Category) → has_category all_visible d ≡ true
        → would_take some_settings low d ≡ true
        → rank (classify (codes "a.MP3") some_settings) ≤ rank d)
classify_lem_example = classify_lem (codes "a.MP3") some_settings

normalize_categories_lem_example :
    let n = normalize_categories some_settings in
    IsProper n.deleted_categories
    × ((c : Category)
        → (category_deleted n c ≡ category_deleted some_settings c)
          × (get c n.category_extensions ≡ (
              if category_deleted some_settings c
              then none
              else get c some_settings.category_extensions))
          × (get c n.category_folders ≡ (
              if category_deleted some_settings c
              then none
              else get c some_settings.category_folders))
          × (get c n.category_queues ≡ (
              if category_deleted some_settings c
              then none
              else get c some_settings.category_queues)))
normalize_categories_lem_example = normalize_categories_lem some_settings

abbrev row : Checksum
row = record { algo = md5; hash = codes "ab"; source = user; status = verified; expected = none }

abbrev served : Checksum
served = record {
  algo = md5;
  hash = codes "CD";
  source = server;
  status = unverified;
  expected = none;
}

merge_checksums_lem_example :
    let (more, added) = merge_checksums (row ∷ []) (served ∷ []) in
    IsLonger (row ∷ []) more added
    × All (λ c. knows more c ≡ true) (served ∷ [])
    × (merge_checksums more (served ∷ []) ≡ (more, false))
merge_checksums_lem_example = merge_checksums_lem (row ∷ []) (served ∷ [])

abbrev a_platform : Platform
a_platform = record {
  to_lowercase = map ascii_lower;
  download_dir = codes "/home";
  join = λ base part. base ++ (b'/' ∷ part);
  same_path = same_text;
}

abbrev sourced_once : AppState
sourced_once =
    (set_job_source a_platform none 11 (codes "https://host/x") (codes "/home") (some dotted_name)
      daemon).0

abbrev cleaned_twice : JobEdit
cleaned_twice = record {
  url = codes "https://host/y";
  save_dir = codes "/home";
  filename = some dotted_name;
  max_connections = none;
}

-- An edit that asks for the name that another download has.
abbrev given : AppState
given = (update_job_location a_platform none none 12 cleaned_twice sourced_once sourced_once).0

abbrev one_given : Reached a_platform daemon sourced_once
one_given =
    later start (sourced none 11 (codes "https://host/x") (codes "/home") (some dotted_name) refl)

-- A run that has written its file under a number.
abbrev written : AppState
written = adopt_final_path a_platform 12 (some (codes "a (1)")) none sourced_once

abbrev two_given : Reached a_platform daemon written
two_given = later one_given (adopted 12 (some (codes "a (1)")) none refl)

fresh : (n : List ℕ) → ◌≡◌ {A = Option (List ℕ)} (some (codes "a (1)")) (some n) → n ≡ codes "a (1)"
fresh n e = cc

number_free : name_is_taken (map ascii_lower) sourced_once.jobs (codes "a (1)") (some 12) ≡ false
unfolding name_is_taken name_key trim trim_start_matches trim_end_matches set_job_source is_kept
number_free = refl

nameless : All (λ (e : JobEntry). e.job.filename ≡ none) daemon.jobs
nameless = (refl, (refl, (refl, tt)))

daemon_apart : AreNamedApart (map ascii_lower) daemon.jobs
daemon_apart j k e f he hf off m n hm hn =
    let bare = found-All (λ (x : JobEntry). x.job.filename ≡ none) j daemon.jobs e he nameless in cc

names_stay_apart_example : AreNamedApart (map ascii_lower) written.jobs
names_stay_apart_example =
    names_stay_apart a_platform refl daemon written two_given
      (
        (tt, tt),
        λ n e.
            subst (λ x. name_is_taken (map ascii_lower) sourced_once.jobs x (some 12) ≡ false)
              (sym (fresh n e)) number_free,
      )
      daemon_apart

daemon_safe : All IsSafelyNamed daemon.jobs
daemon_safe = ((λ n e. cc), ((λ n e. cc), ((λ n e. cc), tt)))

safe_names_stay_example : All IsSafelyNamed given.jobs
safe_names_stay_example =
    safe_names_stay a_platform daemon given
      (later one_given (edited none none 12 cleaned_twice sourced_once refl)) refl daemon_safe

abbrev hostile : ProbeResult
hostile = record {
  filename = codes "../.bashrc";
  size = some 10;
  is_resumable = true;
  checksums = [];
}

apply_probe_result_raw_example :
    Option.map
      (λ (e : JobEntry). e.job.filename)
      (job_entry 11 (apply_probe_result a_platform some_settings 11 hostile daemon).jobs)
    ≡ some (some (trim (codes "../.bashrc")))
unfolding job_entry trim trim_start_matches trim_end_matches name_is_taken name_key
apply_probe_result_raw_example =
    apply_probe_result_raw a_platform some_settings 11 hostile daemon waiting refl refl refl refl
      refl
