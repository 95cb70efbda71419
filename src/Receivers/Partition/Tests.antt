-- ===== src/Receivers/Partition/Tests.antt =====
-- A profile for two receivers (server/internal/app/runtime.go), and the theorem at it.
use gp_sdr.Prelude.{ℕ, ◌+◌, ◌<◌, ◌≡◌, refl, arith, true, false, none, some, [], ◌∷◌}
use gp_sdr.Prelude.Int.{pos, ◌+ℤ◌, ◌-ℤ◌}
use gp_sdr.Prelude.Text.{Text, codes}
use gp_sdr.Profiles.Profile.{ScanRange, ScanProfile, items}
use gp_sdr.Receivers.Partition.{
  steps_between, range_part, range_parts, enabled_channels, partition_scan_profile,
}
use gp_sdr.Receivers.Partition.Laws.{visited, all_visited}
use gp_sdr.Receivers.Partition.Whole.{
  shares_visited, visited_by, channels_of, partition_scan_profile-visited,
}

abbrev five_steps : ScanRange
five_steps = record {
  range_id = codes "r";
  range_name = [];
  start = pos 100;
  end = pos 145;
  step = pos 10;
  dwell = pos 20;
  range_enabled = true;
}

abbrev two_sided : ScanProfile
two_sided = record {
  schema_version = pos 1;
  id = codes "p";
  name = codes "P";
  reference_area = none;
  ranges = some (five_steps ∷ []);
  channels = none;
  assignments = none;
  systems = none;
  p25_rate = pos 0;
  settings = [];
  built_in = false;
}

abbrev digit : ℕ → Text
digit n = (48 + n) ∷ []

-- The second receiver has the last three of the five frequencies.
second_half :
    all_visited (items (partition_scan_profile digit two_sided 1 2).ranges)
    ≡ pos 120 ∷ pos 130 ∷ pos 140 ∷ []
unfolding partition_scan_profile range_parts range_part steps_between enabled_channels ◌+ℤ◌ ◌-ℤ◌
second_half = refl

partition_scan_profile-visited_example :
    (channels_of digit two_sided 2 2 ≡ enabled_channels (items two_sided.channels))
    × ((index : ℕ)
        → index < 2
        → all_visited (items (partition_scan_profile digit two_sided index 2).ranges)
          ≡ shares_visited index 2 (items two_sided.ranges))
    × ((r : ScanRange) → visited_by 2 2 r ≡ visited r)
partition_scan_profile-visited_example =
    partition_scan_profile-visited digit two_sided 2 (omega arith)
