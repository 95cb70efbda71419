-- ===== src/Receivers/Partition/Laws.antt =====
-- The parts of a profile that several receivers scan (server/internal/app/runtime.go, lines 875-918)
-- make up the profile.
use native.Mathlib.Nat.{
  div-lt_iff_lt-mul, mul-le-mul_right, mul-sub, mul_comm, add-mul, mul-div_cancel_left,
}
use gp_sdr.Prelude.{
  ℕ, zero, suc, ◌+◌, ◌-◌, ◌*◌, ◌/◌, ◌≤◌, ◌<◌, ◌≡◌, refl, sym, ap, ap₂, ◌∙◌, inl, inr, true, false,
  Bool-cases, List, [], ◌∷◌, ◌++◌, map, length, take, drop, arith, ltb, leb, subst, ltb→lt,
}
use gp_sdr.Prelude.Int.{ℤ, pos, negsuc, ◌+ℤ◌, ◌-ℤ◌, ltb_ℤ, pos_part}
use gp_sdr.Prelude.Text.{Text}
use gp_sdr.Profiles.Profile.{ScanRange}
use gp_sdr.Receivers.Partition.{
  slice, share, steps_between, step_count, step_at, piece_of, range_part,
}
use gp_sdr.Receivers.Partition.Slices.{next_bound}

-- The numbers from `first`, as many as `n`.
abbrev pub numbers_from : ℕ → ℕ → List ℕ
numbers_from first zero = []
numbers_from first (suc n) = first ∷ numbers_from (suc first) n

-- The frequencies that the scan of a range visits.
abbrev pub visited : ScanRange → List ℤ
visited r = map (step_at r) (numbers_from 0 (step_count r))

take-numbers_from : (k first n : ℕ) → k ≤ n → take k (numbers_from first n) ≡ numbers_from first k
take-numbers_from zero first n h = refl
take-numbers_from (suc k) first zero h = absurd (omega (arith, h))
take-numbers_from (suc k) first (suc n) h =
    ap (λ l. first ∷ l) (take-numbers_from k (suc first) n (omega (arith, h)))

drop-numbers_from :
    (k first n : ℕ) → k ≤ n → drop k (numbers_from first n) ≡ numbers_from (first + k) (n - k)
drop-numbers_from zero first n h =
    let e : first ≡ first + 0 = omega arith in
    let f : n ≡ n - 0 = omega arith in
    ap (λ a. numbers_from a n) e ∙ ap (numbers_from (first + 0)) f
drop-numbers_from (suc k) first zero h = absurd (omega (arith, h))
drop-numbers_from (suc k) first (suc n) h =
    let e : suc first + k ≡ first + suc k = omega arith in
    let f : n - k ≡ suc n - suc k = omega arith in
    drop-numbers_from k (suc first) n (omega (arith, h))
    ∙ ap (λ a. numbers_from a (n - k)) e
    ∙ ap (numbers_from (first + suc k)) f

distance : (s : ℤ) (x y : ℕ) → x ≤ y → pos_part ((s +ℤ pos y) -ℤ (s +ℤ pos x)) ≡ y - x
unfolding ◌+ℤ◌ ◌-ℤ◌
distance (pos m) x y h = ground (arith, h)
distance (negsuc m) x y h = ground (arith, h)

in_order : (s : ℤ) (x y : ℕ) → x ≤ y → ltb_ℤ (s +ℤ pos y) (s +ℤ pos x) ≡ false
unfolding ◌+ℤ◌
in_order (pos m) x y h = ground (arith, h)
in_order (negsuc m) x y h = ground (arith, h)

plus_steps : (s : ℤ) (x y : ℕ) → (s +ℤ pos x) +ℤ pos y ≡ s +ℤ pos (x + y)
unfolding ◌+ℤ◌
plus_steps (pos m) x y = ground arith
plus_steps (negsuc m) x y = ground arith

multiple : (a b n : ℕ) → 0 < n → (b * n - a * n) / n ≡ b - a
multiple a b n h =
    let e : b * n - a * n ≡ n * (b - a) =
      sym (mul-sub n b a ∙ ap₂ (λ x y. x - y) (mul_comm n b) (mul_comm n a)) in
    ap (λ x. x / n) e ∙ mul-div_cancel_left (b - a) h

steps_between-multiples :
    (s : ℤ) (n first last : ℕ)
    → 0 < n
    → first ≤ last
    → steps_between (pos n) (s +ℤ pos (first * n)) (s +ℤ pos ((suc last - 1) * n))
      ≡ suc (last - first)
unfolding steps_between
steps_between-multiples s n first last one h =
    let same : suc last - 1 ≡ last = omega arith in
    let below : first * n ≤ last * n = mul-le-mul_right n h in
    let positive : leb n 0 ≡ false = ground (arith, one) in
    ap (λ l. steps_between (pos n) (s +ℤ pos (first * n)) (s +ℤ pos (l * n))) same
    ∙ rw (positive, in_order s (first * n) (last * n) below)
        (ap suc
          (ap (λ d. d / n) (distance s (first * n) (last * n) below) ∙ multiple first last n one))

-- The steps of a piece, from `first` up to below `last + 1`.
step_count-piece_of :
    (number_text : ℕ → Text) (index first last n : ℕ) (r : ScanRange)
    → r.step ≡ pos n
    → 0 < n
    → first ≤ last
    → step_count (piece_of number_text index first (suc last) r) ≡ suc (last - first)
step_count-piece_of number_text index first last n r e one h =
    let count : ℤ → ℕ = λ st.
      steps_between st (r.start +ℤ pos (first * pos_part st))
        (r.start +ℤ pos ((suc last - 1) * pos_part st)) in
    ap count e ∙ steps_between-multiples r.start n first last one h

map-numbers_from :
    (r : ScanRange) (first a m : ℕ)
    → map (λ k. step_at r (first + k)) (numbers_from a m)
      ≡ map (step_at r) (numbers_from (first + a) m)
map-numbers_from r first a zero = refl
map-numbers_from r first a (suc m) =
    let e : first + suc a ≡ suc (first + a) = omega arith in
    ap (λ l. step_at r (first + a) ∷ l)
      (map-numbers_from r first (suc a) m ∙ ap (λ b. map (step_at r) (numbers_from b m)) e)

step_at-piece_of :
    (number_text : ℕ → Text) (index first end_step k : ℕ) (r : ScanRange)
    → step_at (piece_of number_text index first end_step r) k ≡ step_at r (first + k)
step_at-piece_of number_text index first end_step k r =
    plus_steps r.start (first * pos_part r.step) (k * pos_part r.step)
    ∙ ap (λ x. r.start +ℤ pos x) (sym (add-mul first k (pos_part r.step)))

map_same : {A B : Type 0} (f g : A → B) (xs : List A) → ((x : A) → f x ≡ g x) → map f xs ≡ map g xs
map_same f g [] h = refl
map_same f g (x ∷ xs) h = ap₂ (λ y ys. y ∷ ys) (h x) (map_same f g xs h)

-- A piece visits the frequencies of its steps.
visited-piece_of :
    (number_text : ℕ → Text) (index first last n : ℕ) (r : ScanRange)
    → r.step ≡ pos n
    → 0 < n
    → first ≤ last
    → visited (piece_of number_text index first (suc last) r)
      ≡ map (step_at r) (numbers_from first (suc last - first))
visited-piece_of number_text index first last n r e one h =
    let piece = piece_of number_text index first (suc last) r in
    let start : first + 0 ≡ first = omega arith in
    let count : suc (last - first) ≡ suc last - first = omega (arith, h) in
    ap (λ m. map (step_at piece) (numbers_from 0 m))
      (step_count-piece_of number_text index first last n r e one h)
    ∙ map_same (step_at piece) (λ k. step_at r (first + k)) (numbers_from 0 (suc (last - first)))
        (λ k. step_at-piece_of number_text index first (suc last) k r)
    ∙ map-numbers_from r first 0 (suc (last - first))
    ∙ ap₂ (λ a m. map (step_at r) (numbers_from a m)) start count

length-numbers_from : (first n : ℕ) → length (numbers_from first n) ≡ n
length-numbers_from first zero = refl
length-numbers_from first (suc n) = ap suc (length-numbers_from (suc first) n)

slice-numbers_from :
    (a b n : ℕ) → a ≤ b → b ≤ n → slice a b (numbers_from 0 n) ≡ numbers_from a (b - a)
slice-numbers_from a b n h k =
    let there : a ≤ n = omega (arith, h, k) in
    let front : 0 + a ≡ a = omega arith in
    let within : b - a ≤ n - a = omega (arith, k) in
    ap (take (b - a)) (drop-numbers_from a 0 n there)
    ∙ take-numbers_from (b - a) (0 + a) (n - a) within
    ∙ ap (λ x. numbers_from x (b - a)) front

-- The steps of the range that the receiver with `index` scans.
abbrev pub own_steps : ℕ → ℕ → ScanRange → List ℕ
own_steps index total r = share index total (numbers_from 0 (step_count r))

-- The frequencies that the scan of several ranges visits.
abbrev pub all_visited : List ScanRange → List ℤ
all_visited [] = []
all_visited (r ∷ ranges) = visited r ++ all_visited ranges

share_bound : (index l total : ℕ) → index < total → suc index * l / total ≤ l
share_bound index l total h =
    let one : 0 < total = omega (arith, h) in
    let most : suc index * l ≤ total * l = mul-le-mul_right l h in
    let room : suc index * l < suc l * total = omega (arith, most, mul_comm total l, one) in
    omega (arith, (div-lt_iff_lt-mul one).1 room)

steps_positive :
    (step start end : ℤ) → 0 < steps_between step start end → (n : ℕ) × (step ≡ pos n) × (0 < n)
unfolding steps_between
steps_positive (negsuc n) start end h = absurd (omega (arith, h))
steps_positive (pos n) start end h = (n, refl, ground (arith, h))

-- The steps of a share, by their bounds.
own_steps_bounds :
    (index total : ℕ) (r : ScanRange)
    → index < total
    → let first = index * step_count r / total in
      own_steps index total r ≡ numbers_from first (suc index * step_count r / total - first)
own_steps_bounds index total r h =
    let steps = step_count r in
    let one : 0 < total = omega (arith, h) in
    ap (λ l. slice (index * l / total) (suc index * l / total) (numbers_from 0 steps))
      (length-numbers_from 0 steps)
    ∙ slice-numbers_from (index * steps / total) (suc index * steps / total) steps
        (next_bound index steps total one) (share_bound index steps total h)

range_part_none :
    (number_text : ℕ → Text) (index total : ℕ) (r : ScanRange) (parts : List ScanRange)
    → ltb (index * step_count r / total) (suc index * step_count r / total) ≡ false
    → range_part number_text index total r parts ≡ parts
unfolding range_part
range_part_none number_text index total r parts h = elim (Bool-cases (r.range_enabled)) [
  | inl on ↦ rw (on, h) refl
  | inr off ↦ rw off refl
]

range_part_some :
    (number_text : ℕ → Text) (index total : ℕ) (r : ScanRange) (parts : List ScanRange)
    → r.range_enabled ≡ true
    → ltb (index * step_count r / total) (suc index * step_count r / total) ≡ true
    → range_part number_text index total r parts
      ≡ piece_of number_text index
          (index * step_count r / total)
          (suc index * step_count r / total)
          r
        ∷ parts
unfolding range_part
range_part_some number_text index total r parts on h = rw (on, h) refl

visited-piece_of_share :
    (number_text : ℕ → Text) (index total : ℕ) (r : ScanRange)
    → index < total
    → let first = index * step_count r / total in
      let end_step = suc index * step_count r / total in
      first < end_step
      → visited (piece_of number_text index first end_step r)
        ≡ map (step_at r) (numbers_from first (end_step - first))
visited-piece_of_share number_text index total r h some_steps =
    let first = index * step_count r / total in
    let end_step = suc index * step_count r / total in
    let many : 0 < step_count r =
      omega (arith, some_steps, share_bound index (step_count r) total h) in
    let (n, e, one) = steps_positive r.step r.start r.end many in
    let last : suc (end_step - 1) ≡ end_step = omega (arith, some_steps) in
    let order : first ≤ end_step - 1 = omega (arith, some_steps) in
    subst
      (λ x.
        visited (piece_of number_text index first x r)
        ≡ map (step_at r) (numbers_from first (x - first)))
      last (visited-piece_of number_text index first (end_step - 1) n r e one order)

pub all_visited-range_part :
    (number_text : ℕ → Text) (index total : ℕ) (r : ScanRange) (parts : List ScanRange)
    → index < total
    → r.range_enabled ≡ true
    → all_visited (range_part number_text index total r parts)
      ≡ map (step_at r) (own_steps index total r) ++ all_visited parts
all_visited-range_part number_text index total r parts h on =
    let first = index * step_count r / total in
    let end_step = suc index * step_count r / total in
    let own = ap (map (step_at r)) (own_steps_bounds index total r h) in
    elim (Bool-cases (ltb first end_step)) [
      | inl some_steps ↦
          ap all_visited (range_part_some number_text index total r parts on some_steps)
          ∙ ap (λ l. l ++ all_visited parts)
              (visited-piece_of_share number_text index total r h (ltb→lt first end_step some_steps)
                ∙ sym own)
      | inr no_steps ↦
          let empty : end_step - first ≡ 0 = ground (arith, no_steps) in
          ap all_visited (range_part_none number_text index total r parts no_steps)
          ∙ ap (λ l. l ++ all_visited parts)
              (sym (own ∙ ap (λ m. map (step_at r) (numbers_from first m)) empty))
    ]
