-- ===== src/Receivers/Partition.antt =====
-- server/internal/app/runtime.go, lines 875-918: the part of a profile that each of several receivers
-- scans. `number_text` prints a number; frequencies are in thousandths of a Hz.
pub mod Slices
pub mod Laws
pub mod Whole
mod Tests
use gp_sdr.Prelude.{
  ℕ, suc, ◌+◌, ◌-◌, ◌*◌, ◌/◌, Bool, true, false, Option, none, some, List, [], ◌∷◌, ◌++◌, ltb, leb,
  if◌then◌else◌, length, take, drop,
}
use gp_sdr.Prelude.Int.{ℤ, pos, negsuc, ◌+ℤ◌, ◌-ℤ◌, ltb_ℤ, pos_part}
use gp_sdr.Prelude.Text.{Text, codes}
use gp_sdr.Profiles.Profile.{ScanRange, ChannelDefinition, ScanProfile, items}

-- xs[from:to]
abbrev pub slice {ℓ} : {A : Type ℓ} → ℕ → ℕ → List A → List A
slice from to xs = take (to - from) (drop from xs)

-- The elements from `index` of `total` shares.
abbrev pub share {ℓ} : {A : Type ℓ} → ℕ → ℕ → List A → List A
share index total xs = slice (index * length xs / total) (suc index * length xs / total) xs

unfoldable pub enabled_channels : List ChannelDefinition → List ChannelDefinition
enabled_channels [] = []
enabled_channels (c ∷ channels) =
    let rest = enabled_channels channels in if c.channel_enabled then c ∷ rest else rest

-- The number of frequencies of a range, 0 for one that is skipped.
unfoldable pub steps_between : ℤ → ℤ → ℤ → ℕ
steps_between (negsuc n) start end = 0
steps_between (pos n) start end =
    if leb n 0 then 0 else if ltb_ℤ end start then 0 else suc (pos_part (end -ℤ start) / n)

abbrev pub step_count : ScanRange → ℕ
step_count r = steps_between r.step r.start r.end

-- A step is positive where it is used.
abbrev pub step_at : ScanRange → ℕ → ℤ
step_at r k = r.start +ℤ pos (k * pos_part r.step)

abbrev pub piece_of : (ℕ → Text) → ℕ → ℕ → ℕ → ScanRange → ScanRange
piece_of number_text index first end_step r = record r {
  range_id = r.range_id ++ codes "-part-" ++ number_text (suc index);
  start = step_at r first;
  end = step_at r (end_step - 1);
}

-- The steps from `first` up to `end_step`, which is one more than the last; none if that is not above.
unfoldable pub range_part : (ℕ → Text) → ℕ → ℕ → ScanRange → List ScanRange → List ScanRange
range_part number_text index total r parts =
    let steps = step_count r in
    let first = index * steps / total in
    let end_step = suc index * steps / total in
    if r.range_enabled
    then (if ltb first end_step then piece_of number_text index first end_step r ∷ parts else parts)
    else parts

unfoldable pub range_parts : (ℕ → Text) → ℕ → ℕ → List ScanRange → List ScanRange
unfolding range_part
range_parts number_text index total [] = []
range_parts number_text index total (r ∷ ranges) =
    range_part number_text index total r (range_parts number_text index total ranges)

-- A slice that is built from nil by appending.
abbrev pub or_nil {ℓ} : {A : Type ℓ} → List A → Option (List A)
or_nil [] = none
or_nil (x ∷ xs) = some (x ∷ xs)

unfoldable pub partition_scan_profile : (ℕ → Text) → ScanProfile → ℕ → ℕ → ScanProfile
unfolding enabled_channels range_parts
partition_scan_profile number_text p index total = if leb total 1 then p else record p {
  id = p.id ++ codes "-receiver-" ++ number_text (suc index);
  channels = or_nil (share index total (enabled_channels (items p.channels)));
  ranges = or_nil (range_parts number_text index total (items p.ranges));
  assignments = none;
}
