-- ===== src/Receivers/Partition/Slices.antt =====
-- The shares of a list (server/internal/app/runtime.go, lines 890-892 and 904-905): together they are the
-- list.
use native.Mathlib.Nat.{div-mul-le_self, le-div_iff_mul-le, zero-div, mul-div_cancel_left}
use gp_sdr.Prelude.{
  ℕ, zero, suc, ◌-◌, ◌*◌, ◌/◌, ◌≤◌, ◌<◌, ◌≡◌, refl, sym, ap, ◌∙◌, List, [], ◌∷◌, ◌++◌, length, take,
  drop, arith,
}
use gp_sdr.Receivers.Partition.{slice, share}

pub next_bound : (n l total : ℕ) → 0 < total → n * l / total ≤ suc n * l / total
next_bound n l total h = (le-div_iff_mul-le h).1 (omega (arith, div-mul-le_self (n * l) total))

module _ {ℓ} {A : Type ℓ} where
  take-nil : (n : ℕ) → take {A = A} n [] ≡ []
  take-nil zero = refl
  take-nil (suc n) = refl

  take_all : (xs : List A) → take (length xs) xs ≡ xs
  take_all [] = refl
  take_all (x ∷ xs) = ap (λ l. x ∷ l) (take_all xs)

  take-slice : (a b : ℕ) (xs : List A) → a ≤ b → take a xs ++ slice a b xs ≡ take b xs
  take-slice zero b xs h = let e : b - 0 ≡ b = omega arith in ap (λ k. take k xs) e
  take-slice (suc a) zero xs h = absurd (omega (arith, h))
  take-slice (suc a) (suc b) [] h = take-nil (suc b - suc a)
  take-slice (suc a) (suc b) (x ∷ xs) h =
      let e : suc b - suc a ≡ b - a = omega arith in
      ap (λ n. x ∷ (take a xs ++ take n (drop a xs))) e
      ∙ ap (λ l. x ∷ l) (take-slice a b xs (omega (arith, h)))

  -- The first shares, in order.
  abbrev pub first_shares : ℕ → ℕ → List A → List A
  first_shares zero total xs = []
  first_shares (suc n) total xs = first_shares n total xs ++ share n total xs

  first_shares-take :
      (n total : ℕ) (xs : List A)
      → 0 < total
      → first_shares n total xs ≡ take (n * length xs / total) xs
  first_shares-take zero total xs h =
      let e : 0 * length xs ≡ 0 = omega arith in
      ap (λ k. take k xs) (sym (ap (λ k. k / total) e ∙ zero-div total))
  first_shares-take (suc n) total xs h =
      ap (λ l. l ++ share n total xs) (first_shares-take n total xs h)
      ∙ take-slice (n * length xs / total) (suc n * length xs / total) xs
          (next_bound n (length xs) total h)

  pub first_shares_all : (total : ℕ) (xs : List A) → 0 < total → first_shares total total xs ≡ xs
  first_shares_all total xs h =
      first_shares-take total total xs h
      ∙ ap (λ k. take k xs) (mul-div_cancel_left (length xs) h)
      ∙ take_all xs
