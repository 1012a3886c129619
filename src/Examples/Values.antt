-- ===== src/Examples/Values.antt =====
-- The smaller parts.
use oxdm.Prelude.{
  ℕ, ◌≡◌, ◌==◌, arith, true, none, some, [], ◌∷◌, map, if◌then◌else◌, codes, List, Option,
}
use oxdm.Queue.Weekdays.{contains_day, set_day, contains_day-set_day, weekdays}
use oxdm.Checksum.{Checksum, Verdict, apply_verdicts, md5, sha256, user, unverified, mismatch}
use oxdm.Checksum.Laws.{judged, apply_verdicts-map}
use oxdm.Space.{Need, Demand, Short, required_by_volume, shortfall}
use oxdm.Space.Required.{charged, capped, wanted_by_all, charged-required_by_volume}
use oxdm.Space.Shortfall.{AreCovered, IsAmong, shortfall_worst}

contains_day-set_day_example :
    contains_day (set_day weekdays 5 true) 5 ≡ (if 5 == 5 then true else contains_day weekdays 5)
contains_day-set_day_example =
    contains_day-set_day weekdays 5 5 true (omega arith) (omega arith) (omega arith)

abbrev a_row : Checksum
a_row = record {
  algo = md5;
  hash = codes "ab";
  source = user;
  status = unverified;
  expected = none;
}

abbrev a_verdict : Verdict
a_verdict = record {
  algo = md5;
  hash = codes " AB";
  status = mismatch;
  computed = some (codes "cd");
}

apply_verdicts-map_example :
    apply_verdicts (a_row ∷ record a_row { algo = sha256 } ∷ []) (a_verdict ∷ [])
    ≡ map (λ row. judged row (a_verdict ∷ [])) (a_row ∷ record a_row { algo = sha256 } ∷ [])
apply_verdicts-map_example =
    apply_verdicts-map (a_row ∷ record a_row { algo = sha256 } ∷ []) (a_verdict ∷ [])

abbrev a_need : Need
a_need = record {
  work_dir = codes "/cache";
  save_dir = codes "/home";
  total = some 5000;
  downloaded = 2000;
}

abbrev one_volume : List ℕ → ℕ
one_volume path = 7

charged-required_by_volume_example :
    charged 7 (required_by_volume one_volume (a_need ∷ a_need ∷ []))
    ≡ capped (wanted_by_all one_volume 7 (a_need ∷ a_need ∷ []))
charged-required_by_volume_example = charged-required_by_volume one_volume 7 (a_need ∷ a_need ∷ [])

abbrev a_demand : Demand
a_demand = record { volume = 7; path = codes "/home"; bytes = 8000 }

abbrev little_room : List ℕ → Option ℕ
little_room path = some 100

shortfall_worst_example :
    AreCovered little_room (shortfall little_room (a_demand ∷ [])) (a_demand ∷ [])
    × ((s : Short)
        → shortfall little_room (a_demand ∷ []) ≡ some s
        → IsAmong little_room s (a_demand ∷ []))
shortfall_worst_example = shortfall_worst little_room (a_demand ∷ [])
