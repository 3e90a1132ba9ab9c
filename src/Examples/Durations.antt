-- ===== src/Examples/Durations.antt =====
-- Two texts read as durations.
use consent_manager.Base.{◌+◌, ◌*◌, ◌≡◌, refl, some, none}
use consent_manager.Duration.{iso_duration_to_timedelta}

year_and_a_half :
    iso_duration_to_timedelta " P1Y6MT12H "
    ≡ some ((365 + 180) * 86400 * 1000000 + 12 * 3600 * 1000000)
unfolding iso_duration_to_timedelta
year_and_a_half = refl

no_designator : iso_duration_to_timedelta "P12" ≡ none
unfolding iso_duration_to_timedelta
no_designator = refl
