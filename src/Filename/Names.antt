-- ===== src/Filename/Names.antt =====
-- Names that no two downloads share: `name_key` and `unique_name` of src/domain/filename.rs, and
-- `name_is_taken` and `free_name` of src/data/state.rs.
pub mod Free
pub mod Long
use oxdm.Prelude.{
  ◌||◌, ℕ, zero, suc, ◌+◌, ◌-◌, ◌/◌, ◌%◌, Bool, true, false, ◌&&◌, List, [], ◌∷◌, ◌++◌, any,
  same_text, ltb, ◌==◌, not, Option, none, some, if◌then◌else◌,
}
use oxdm.Text.{trim}
use oxdm.Filename.{split_extension, is_empty}
use oxdm.Entry.{JobEntry}

-- `format!("{n}")` of an `i32` that is not negative: ten digits are enough.
abbrev pub digits : ℕ → ℕ → List ℕ
digits zero n = []
digits (suc left) n =
    let more = digits left (n / 10) in
    if ltb n 10 then (b'0' + n) ∷ [] else more ++ ((b'0' + n % 10) ∷ [])

abbrev pub decimal : ℕ → List ℕ
decimal = digits 10

-- `{stem}_{n}{ext}`.
unfoldable pub numbered : List ℕ → ℕ → List ℕ
unfolding split_extension
numbered desired n =
    let (stem, ext) = split_extension desired in stem ++ (b'_' ∷ (decimal n ++ ext))

-- The ceiling of the numbers.
abbrev pub last_number : ℕ
last_number = 10_000

-- The loop from a number on, with so many numbers left below the ceiling.
unfoldable pub first_free : (List ℕ → Bool) → List ℕ → ℕ → ℕ → List ℕ
unfolding numbered
first_free taken desired zero n = numbered desired n
first_free taken desired (suc left) n = elim (taken (numbered desired n)) [
  | true ↦ first_free taken desired left (n + 1)
  | false ↦ numbered desired n
]

unfoldable pub unique_name : List ℕ → (List ℕ → Bool) → List ℕ
unfolding trim first_free
unique_name desired taken =
    let wanted = trim desired in
    if is_empty wanted || not (taken wanted)
    then wanted
    else first_free taken wanted (last_number - 1) 1

abbrev pub is_other : Option ℕ → JobEntry → Bool
is_other none e = true
is_other (some id) e = not (e.job.id == id)

module _ (to_lowercase : List ℕ → List ℕ) where
  unfoldable pub name_key : List ℕ → List ℕ
  unfolding trim
  name_key name = to_lowercase (trim name)

  abbrev pub has_key : List ℕ → Option (List ℕ) → Bool
  has_key key none = false
  has_key key (some name) = same_text (name_key name) key

  unfoldable pub name_is_taken : List JobEntry → List ℕ → Option ℕ → Bool
  unfolding name_key
  name_is_taken jobs name except =
      let key = name_key name in
      if is_empty key
      then false
      else any (λ e. is_other except e && has_key key e.job.filename) jobs

  unfoldable pub free_name : List JobEntry → List ℕ → Option ℕ → List ℕ
  unfolding unique_name name_is_taken
  free_name jobs name except = unique_name name (λ candidate. name_is_taken jobs candidate except)
