-- ===== src/Checksum.antt =====
-- src/domain/checksum.rs: the integrity rows of a download and the verdicts on them. A hash is its
-- code points.
pub mod Laws
use oxdm.Prelude.{
  ℕ, Bool, true, false, ◌&&◌, Option, none, some, List, [], ◌∷◌, map, if◌then◌else◌, get_elem?,
  same_text,
}
use oxdm.Text.{trim, ascii_lower}

pub data Algo : Type 0 where
  md5 sha1 sha256 sha384 sha512 : Algo

-- `Algo::hex_len`.
unfoldable pub hex_len : Algo → ℕ
hex_len md5 = 32
hex_len sha1 = 40
hex_len sha256 = 64
hex_len sha384 = 96
hex_len sha512 = 128

abbrev pub same_algo : Algo → Algo → Bool
same_algo md5 md5 = true
same_algo sha1 sha1 = true
same_algo sha256 sha256 = true
same_algo sha384 sha384 = true
same_algo sha512 sha512 = true
same_algo _ _ = false

pub data CsSource : Type 0 where
  server computed user : CsSource

pub data CsStatus : Type 0 where
  verified mismatch unverified : CsStatus

pub record Checksum : Type 0 where
  pub algo : Algo
  pub hash : List ℕ
  pub source : CsSource
  pub status : CsStatus
  pub expected : Option (List ℕ)

-- The form in which two hashes are compared.
unfoldable pub digest_key : List ℕ → List ℕ
unfolding trim
digest_key s = map ascii_lower (trim s)

-- `Checksum::same_digest`.
unfoldable pub same_digest : Checksum → Algo → List ℕ → Bool
unfolding digest_key
same_digest c algo hash = same_algo c.algo algo && same_text (digest_key c.hash) (digest_key hash)

pub record Verdict : Type 0 where
  pub algo : Algo
  pub hash : List ℕ
  pub status : CsStatus
  pub computed : Option (List ℕ)

abbrev name_row : CsStatus → Option (List ℕ) → Option Checksum → List Verdict → List Verdict
name_row status found none out = out
name_row status found (some r) out =
    record { algo = r.algo; hash = r.hash; status = status; computed = found } ∷ out

-- `verdicts`: each result is named by the row that it was produced from; an index past the rows
-- names nothing.
unfoldable pub verdicts : List Checksum → List (ℕ × CsStatus × Option (List ℕ)) → List Verdict
verdicts rows [] = []
verdicts rows ((i, status, found) ∷ rest) =
    name_row status found (get_elem? rows i) (verdicts rows rest)

-- The inner loop of `apply_verdicts`.
unfoldable pub apply_verdict : List Checksum → Verdict → List Checksum
apply_verdict [] v = []
apply_verdict (row ∷ rows) v =
    (if same_digest row v.algo v.hash
      then record row { status = v.status; expected = v.computed }
      else row)
    ∷ apply_verdict rows v

unfoldable pub apply_verdicts : List Checksum → List Verdict → List Checksum
apply_verdicts rows [] = rows
apply_verdicts rows (v ∷ vs) = apply_verdicts (apply_verdict rows v) vs
