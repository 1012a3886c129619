-- ===== src/Transfer/Parts.antt =====
-- The table of parts under the events of a run.
use oxdm.Prelude.{ℕ, ◌≡◌, false, List, [], ◌∷◌, map}
use oxdm.Entry.{JobEntry, PartCounters}
use oxdm.Transfer.{has_text}

-- No text stands twice.
abbrev pub AreDistinct : List (List ℕ) → Type 0
AreDistinct [] = Unit {0}
AreDistinct (t ∷ ts) = (has_text ts t ≡ false) × AreDistinct ts

abbrev pub ulids : List PartCounters → List (List ℕ)
ulids = map (λ p. p.ulid)

-- Each part has a ulid of its own, and none is marked twice as being retried.
pub record IsKeyedByPart (e : JobEntry) : Type 0 where
  pub parts : AreDistinct (ulids e.parts)
  pub retrying : AreDistinct e.retrying_parts
