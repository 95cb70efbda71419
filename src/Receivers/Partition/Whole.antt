-- ===== src/Receivers/Partition/Whole.antt =====
-- Several receivers together scan a profile as one receiver would (server/internal/app/runtime.go,
-- lines 875-918).
use gp_sdr.Prelude.{
  ℕ, zero, suc, ◌<◌, ◌≡◌, refl, sym, ap, ap₂, ◌∙◌, inl, inr, false, Bool-cases, List, [], ◌∷◌, ◌++◌,
  map, arith, leb, if◌then◌else◌,
}
use gp_sdr.Prelude.Int.{ℤ}
use gp_sdr.Prelude.Text.{Text}
use gp_sdr.Profiles.Profile.{ScanRange, ChannelDefinition, ScanProfile, items}
use gp_sdr.Receivers.Partition.{
  share, enabled_channels, step_count, step_at, range_part, range_parts, or_nil,
  partition_scan_profile,
}
use gp_sdr.Receivers.Partition.Slices.{first_shares, first_shares_all}
use gp_sdr.Receivers.Partition.Laws.{
  numbers_from, visited, own_steps, all_visited, all_visited-range_part,
}

items-or_nil : {A : Type 0} (xs : List A) → items (or_nil xs) ≡ xs
items-or_nil [] = refl
items-or_nil (x ∷ xs) = refl

map-append : {A B : Type 0} (f : A → B) (xs ys : List A) → map f (xs ++ ys) ≡ map f xs ++ map f ys
map-append f [] ys = refl
map-append f (x ∷ xs) ys = ap (λ l. f x ∷ l) (map-append f xs ys)

-- What a receiver visits of a range.
abbrev pub share_visited : ℕ → ℕ → ScanRange → List ℤ
share_visited index total r = map (step_at r) (own_steps index total r)

-- What a receiver visits of the enabled ranges.
unfoldable pub shares_visited : ℕ → ℕ → List ScanRange → List ℤ
shares_visited index total [] = []
shares_visited index total (r ∷ ranges) =
    let rest = shares_visited index total ranges in
    if r.range_enabled then share_visited index total r ++ rest else rest

-- What the first `n` receivers visit of a range.
abbrev pub visited_by : ℕ → ℕ → ScanRange → List ℤ
visited_by zero total r = []
visited_by (suc n) total r = visited_by n total r ++ share_visited n total r

-- The channels of the first `n` receivers.
abbrev pub channels_of : (ℕ → Text) → ScanProfile → ℕ → ℕ → List ChannelDefinition
channels_of number_text p zero total = []
channels_of number_text p (suc n) total =
    channels_of number_text p n total
    ++ items (partition_scan_profile number_text p n total).channels

visited_by-first_shares :
    (n total : ℕ) (r : ScanRange)
    → visited_by n total r ≡ map (step_at r) (first_shares n total (numbers_from 0 (step_count r)))
visited_by-first_shares zero total r = refl
visited_by-first_shares (suc n) total r =
    ap (λ l. l ++ share_visited n total r) (visited_by-first_shares n total r)
    ∙ sym (
        map-append (step_at r) (first_shares n total (numbers_from 0 (step_count r)))
          (own_steps n total r))

partition_channels :
    (number_text : ℕ → Text) (p : ScanProfile) (index total : ℕ)
    → leb total 1 ≡ false
    → items (partition_scan_profile number_text p index total).channels
      ≡ share index total (enabled_channels (items p.channels))
unfolding partition_scan_profile
partition_channels number_text p index total h =
    rw h (items-or_nil (share index total (enabled_channels (items p.channels))))

partition_ranges :
    (number_text : ℕ → Text) (p : ScanProfile) (index total : ℕ)
    → leb total 1 ≡ false
    → items (partition_scan_profile number_text p index total).ranges
      ≡ range_parts number_text index total (items p.ranges)
unfolding partition_scan_profile
partition_ranges number_text p index total h =
    rw h (items-or_nil (range_parts number_text index total (items p.ranges)))

channels_of-first_shares :
    (number_text : ℕ → Text) (p : ScanProfile) (n total : ℕ)
    → leb total 1 ≡ false
    → channels_of number_text p n total ≡ first_shares n total (enabled_channels (items p.channels))
channels_of-first_shares number_text p zero total h = refl
channels_of-first_shares number_text p (suc n) total h =
    ap₂ (λ a b. a ++ b) (channels_of-first_shares number_text p n total h)
      (partition_channels number_text p n total h)

range_part_off :
    (number_text : ℕ → Text) (index total : ℕ) (r : ScanRange) (parts : List ScanRange)
    → r.range_enabled ≡ false
    → range_part number_text index total r parts ≡ parts
unfolding range_part
range_part_off number_text index total r parts h = rw h refl

all_visited-range_parts :
    (number_text : ℕ → Text) (index total : ℕ) (ranges : List ScanRange)
    → index < total
    → all_visited (range_parts number_text index total ranges) ≡ shares_visited index total ranges
unfolding range_parts shares_visited
all_visited-range_parts number_text index total [] h = refl
all_visited-range_parts number_text index total (r ∷ ranges) h =
    let rest = range_parts number_text index total ranges in
    let ih = all_visited-range_parts number_text index total ranges h in
    let tail = shares_visited index total ranges in
    let own = share_visited index total r in
    elim (Bool-cases (r.range_enabled)) [
      | inl on ↦
          all_visited-range_part number_text index total r rest h on
          ∙ ap (λ l. own ++ l) ih
          ∙ sym (ap (λ b. if b then own ++ tail else tail) on)
      | inr off ↦
          ap all_visited (range_part_off number_text index total r rest off)
          ∙ ih
          ∙ sym (ap (λ b. if b then own ++ tail else tail) off)
    ]

-- With two or more receivers, the receivers' channels, one receiver after the other, are the enabled
-- channels of the profile; each receiver visits its share of every enabled range; and the shares of a
-- range, one receiver after the other, are all the frequencies of the range.
pub partition_scan_profile-visited :
    (number_text : ℕ → Text) (p : ScanProfile) (total : ℕ)
    → 1 < total
    → (channels_of number_text p total total ≡ enabled_channels (items p.channels))
      × ((index : ℕ)
          → index < total
          → all_visited (items (partition_scan_profile number_text p index total).ranges)
            ≡ shares_visited index total (items p.ranges))
      × ((r : ScanRange) → visited_by total total r ≡ visited r)
partition_scan_profile-visited number_text p total h =
    let several : leb total 1 ≡ false = ground (arith, h) in
    let one : 0 < total = omega (arith, h) in
    (
      channels_of-first_shares number_text p total total several
          ∙ first_shares_all total (enabled_channels (items p.channels)) one,
      λ index below.
          ap all_visited (partition_ranges number_text p index total several)
          ∙ all_visited-range_parts number_text index total (items p.ranges) below,
      λ r.
          visited_by-first_shares total total r
          ∙ ap (map (step_at r)) (first_shares_all total (numbers_from 0 (step_count r)) one),
    )
