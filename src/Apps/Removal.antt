-- ===== src/Apps/Removal.antt =====
-- The removal of an app whose deactivation has failed.
use rugix.Common.{◌≡◌, ◌⊎◌, List, []}
use rugix.Apps.{absent, Turn, World, Result, ok}
use rugix.Apps.Manager.{deactivate_app}

-- Nothing is called; the app is gone, or as it was.
abbrev Uncalled : World → Result (Unit {0}) × World → Type 0
Uncalled w r =
    (r.1.calls ≡ w.calls)
    × ((r.0 ≡ ok tt) × (r.1.state ≡ absent) × (r.1.generations ≡ [])
        ⊎ (r.1.state ≡ w.state) × (r.1.generations ≡ w.generations))

-- What a deactivation leaves, for a run under the schedule.
abbrev pub after_deactivation : World → List Turn → World
after_deactivation w turns = record (deactivate_app w).1 { schedule = turns }
