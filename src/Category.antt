-- ===== src/Category.antt =====
-- src/domain/category.rs, and the fields of `Settings` about categories with their methods in
-- src/domain/settings.rs. The folder that the system downloads to and how it joins a path are
-- parameters.
pub mod Sorted
pub mod Ranked
pub mod Canonical
use oxdm.Prelude.{
  ℕ, Bool, true, false, ◌&&◌, ◌||◌, List, [], ◌∷◌, ◌++◌, map, filter, find, any, same_text, ◌==◌,
  not, Option, none, some, codes, if◌then◌else◌,
}
use oxdm.Text.{ascii_lower}
use oxdm.Filename.{at_last_dot, is_empty}

pub data Category : Type 0 where
  compressed programs videos music pictures documents agent others : Category

abbrev pub all_visible : List Category
all_visible = compressed ∷ programs ∷ videos ∷ music ∷ pictures ∷ documents ∷ []

abbrev pub all_assignable : List Category
all_assignable = compressed ∷ programs ∷ videos ∷ music ∷ pictures ∷ documents ∷ agent ∷ others ∷ []

abbrev pub slug : Category → List ℕ
slug compressed = codes "compressed"
slug programs = codes "programs"
slug videos = codes "videos"
slug music = codes "music"
slug pictures = codes "pictures"
slug documents = codes "documents"
slug agent = codes "agent"
slug others = codes "other"

abbrev pub label : Category → List ℕ
label compressed = codes "Compressed"
label programs = codes "Programs"
label videos = codes "Videos"
label music = codes "Music"
label pictures = codes "Pictures"
label documents = codes "Documents"
label agent = codes "Agent"
label others = codes "Other"

unfoldable pub from_slug : List ℕ → Option Category
from_slug s = find (λ c. same_text (slug c) s) all_assignable

-- The derived equality.
abbrev pub rank : Category → ℕ
rank compressed = 0
rank programs = 1
rank videos = 2
rank music = 3
rank pictures = 4
rank documents = 5
rank agent = 6
rank others = 7

abbrev pub same_category : Category → Category → Bool
same_category c d = rank c == rank d

abbrev pub default_extensions : Category → List (List ℕ)
default_extensions compressed = map codes (
    "zip" ∷ "rar" ∷ "7z" ∷ "tar" ∷ "gz" ∷ "bz2" ∷ "xz" ∷ "zst" ∷ "lz" ∷ "lzma" ∷ "tgz" ∷ "tbz2"
    ∷ "txz" ∷ [])
default_extensions programs = map codes (
    "exe" ∷ "msi" ∷ "msix" ∷ "appx" ∷ "dmg" ∷ "pkg" ∷ "deb" ∷ "rpm" ∷ "apk" ∷ "appimage" ∷ "snap"
    ∷ "flatpak" ∷ "bin" ∷ "run" ∷ "sh" ∷ [])
default_extensions videos = map codes (
    "mp4" ∷ "mkv" ∷ "avi" ∷ "mov" ∷ "wmv" ∷ "flv" ∷ "webm" ∷ "m4v" ∷ "mpg" ∷ "mpeg" ∷ "ts" ∷ "vob"
    ∷ "ogv" ∷ [])
default_extensions music =
    map codes (
      "mp3" ∷ "flac" ∷ "wav" ∷ "aac" ∷ "m4a" ∷ "ogg" ∷ "opus" ∷ "wma" ∷ "ape" ∷ "alac" ∷ "aiff"
      ∷ [])
default_extensions pictures = map codes (
    "jpg" ∷ "jpeg" ∷ "png" ∷ "gif" ∷ "webp" ∷ "bmp" ∷ "tiff" ∷ "tif" ∷ "svg" ∷ "heic" ∷ "heif"
    ∷ "ico" ∷ "raw" ∷ "cr2" ∷ "nef" ∷ "arw" ∷ [])
default_extensions documents = map codes (
    "pdf" ∷ "doc" ∷ "docx" ∷ "xls" ∷ "xlsx" ∷ "ppt" ∷ "pptx" ∷ "odt" ∷ "ods" ∷ "odp" ∷ "rtf" ∷ "txt"
    ∷ "md" ∷ "epub" ∷ "mobi" ∷ "azw" ∷ "azw3" ∷ "csv" ∷ [])
default_extensions agent = []
default_extensions others = []

-- The fields of `Settings` about categories; the maps are lists in order of insertion.
pub record Settings : Type 0 where
  pub category_extensions : List (Category × List (List ℕ))
  pub category_folders : List (Category × List ℕ)
  pub category_queues : List (Category × ℕ)
  pub deleted_categories : List Category
  pub agent_category_created : Bool

module _ {A : Type 0} where
  -- The first value of a key.
  abbrev pub get : Category → List (Category × A) → Option A
  get c [] = none
  get c ((d, v) ∷ m) = let rest = get c m in if same_category c d then some v else rest

abbrev pub has_category : List Category → Category → Bool
has_category cs c = any (same_category c) cs

unfoldable pub category_deleted : Settings → Category → Bool
category_deleted s c = not (same_category c others) && has_category s.deleted_categories c

-- Whether a category claims an extension in lower case: the user's list, or else the built-in one.
abbrev pub claims : List ℕ → Category → Option (List (List ℕ)) → Bool
claims ext c (some list) = any (λ e. same_text (map ascii_lower e) ext) list
claims ext c none = any (λ e. same_text e ext) (default_extensions c)

-- The loop of `classify`.
abbrev pub first_claim : Settings → List ℕ → List Category → Category
first_claim s ext [] = others
first_claim s ext (c ∷ cs) =
    let rest = first_claim s ext cs in
    if category_deleted s c
    then rest
    else if claims ext c (get c s.category_extensions)
    then c
    else rest

-- `rsplit_once('.')`, of which the part behind the dot is kept.
abbrev pub behind_dot : Option (List ℕ × List ℕ) → List ℕ
behind_dot none = []
behind_dot (some (stem, [])) = []
behind_dot (some (stem, c ∷ ext)) = ext

unfoldable pub classify : List ℕ → Settings → Category
unfolding at_last_dot category_deleted
classify filename s =
    let ext = behind_dot (at_last_dot filename) in
    if is_empty ext then others else first_claim s (map ascii_lower ext) all_visible

unfoldable pub agent_category_active : Settings → Bool
unfolding category_deleted
agent_category_active s = s.agent_category_created && not (category_deleted s agent)

unfoldable pub visible_categories : Settings → List Category
unfolding category_deleted agent_category_active
visible_categories s =
    filter (λ c. not (category_deleted s c)) all_visible
    ++ (if agent_category_active s then agent ∷ [] else [])

unfoldable pub assignable_categories : Settings → List Category
unfolding visible_categories
assignable_categories s = visible_categories s ++ (others ∷ [])

-- The loop of `normalize_categories`, with what it has seen so far.
unfoldable pub deleted_once : List Category → List Category → List Category
deleted_once seen [] = seen
deleted_once seen (c ∷ cs) =
    deleted_once
      (if not (same_category c others) && not (has_category seen c) then seen ++ (c ∷ []) else seen)
      cs

unfoldable pub normalize_categories : Settings → Settings
unfolding deleted_once
normalize_categories s =
    let gone = deleted_once [] s.deleted_categories in
    record s {
      deleted_categories = gone;
      category_extensions = filter (λ entry. not (has_category gone entry.0)) s.category_extensions;
      category_folders = filter (λ entry. not (has_category gone entry.0)) s.category_folders;
      category_queues = filter (λ entry. not (has_category gone entry.0)) s.category_queues;
    }

module _ (download_dir : List ℕ) (join : List ℕ → List ℕ → List ℕ) where
  unfoldable pub default_category_folder : Category → List ℕ
  default_category_folder others = download_dir
  default_category_folder c = join download_dir (label c)

  abbrev pub folder_or : Category → Option (List ℕ) → List ℕ
  unfolding default_category_folder
  folder_or c none = default_category_folder c
  folder_or c (some path) = if is_empty path then default_category_folder c else path

  unfoldable pub category_folder : Settings → Category → List ℕ
  unfolding default_category_folder folder_or
  category_folder s c = folder_or c (get c s.category_folders)
