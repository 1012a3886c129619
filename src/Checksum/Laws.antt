-- ===== src/Checksum/Laws.antt =====
-- Verdicts land on the rows that they are about, and on no others.
use oxdm.Prelude.{◌≡◌, refl, Bool, List, [], ◌∷◌, map, ◌∙◌, ap, if◌then◌else◌}
use oxdm.Checksum.{Checksum, Verdict, same_digest, apply_verdict, apply_verdicts}

-- Is the verdict about this row?
abbrev pub about : Checksum → Verdict → Bool
about row v = same_digest row v.algo v.hash

-- What a list of verdicts makes of one row: the last one about it decides.
unfoldable pub judged : Checksum → List Verdict → Checksum
judged row [] = row
judged row (v ∷ vs) =
    judged (if about row v then record row { status = v.status; expected = v.computed } else row) vs

apply_verdict-map :
    (rows : List Checksum) (v : Verdict)
    → apply_verdict rows v
      ≡ map
          (λ row.
            if about row v then record row { status = v.status; expected = v.computed } else row)
          rows
unfolding apply_verdict
apply_verdict-map [] v = refl
apply_verdict-map (row ∷ rows) v = rw (apply_verdict-map rows v)

apply_verdicts-nil : (vs : List Verdict) → apply_verdicts [] vs ≡ []
unfolding apply_verdicts apply_verdict
apply_verdicts-nil [] = refl
apply_verdicts-nil (v ∷ vs) = apply_verdicts-nil vs

apply_verdicts-cons :
    (vs : List Verdict) (row : Checksum) (rows : List Checksum)
    → apply_verdicts (row ∷ rows) vs ≡ judged row vs ∷ apply_verdicts rows vs
unfolding apply_verdicts apply_verdict judged
apply_verdicts-cons [] row rows = refl
apply_verdicts-cons (v ∷ vs) row rows = apply_verdicts-cons vs _ (apply_verdict rows v)

-- Recording verdicts keeps the rows and their order, and treats each row by itself: it gets the
-- last verdict about its digest, whichever position it holds, and nothing where there is none.
pub apply_verdicts-map :
    (rows : List Checksum) (vs : List Verdict)
    → apply_verdicts rows vs ≡ map (λ row. judged row vs) rows
apply_verdicts-map [] vs = apply_verdicts-nil vs
apply_verdicts-map (row ∷ rows) vs =
    apply_verdicts-cons vs row rows ∙ ap (◌∷◌ (judged row vs)) (apply_verdicts-map rows vs)
