-- ===== src/Prelude/Text.antt =====
-- Text as the program reads it: whole texts compared by `==`, ASCII case folding and trimming.
use Prim.Native.Char.{code}
use Prim.Native.String.{String}
use mathlib.Core.Bool.{Bool, true, false, ◌&&◌, ◌||◌}
use mathlib.Core.List.{List, [], ◌∷◌, map, reverse}
use mathlib.Core.Logic.{◌↔◌}
use mathlib.Core.Path.{◌≡◌, refl}
use native.Mathlib.Omega.{arith}
use Prim.Native.Nat.{ℕ, ◌+◌}
use gp_sdr.Prelude.Tests.{leb, ◌==◌, if◌then◌else◌}

-- The code points of a text.
abbrev pub codes : String → List ℕ
codes String.[] = []
codes (String.◌∷◌ c s) = code c ∷ codes s

-- Equality of two lists of code points.
unfoldable pub codes_eq : List ℕ → List ℕ → Bool
codes_eq [] [] = true
codes_eq (a ∷ s) (b ∷ t) = (a == b) && codes_eq s t
codes_eq _ _ = false

unfoldable pub to_lower : ℕ → ℕ
to_lower c = if leb b'A' c && leb c b'Z' then c + 32 else c

-- strings.EqualFold on ASCII texts.
unfoldable pub equal_fold : String → String → Bool
unfolding codes_eq to_lower
equal_fold s t = codes_eq (map to_lower (codes s)) (map to_lower (codes t))

-- strings.HasPrefix.
unfoldable pub has_prefix : List ℕ → List ℕ → Bool
has_prefix s [] = true
has_prefix [] (b ∷ t) = false
has_prefix (a ∷ s) (b ∷ t) = (a == b) && has_prefix s t

-- strings.Contains.
unfoldable pub contains : List ℕ → List ℕ → Bool
unfolding has_prefix
contains [] t = has_prefix [] t
contains (a ∷ s) t = has_prefix (a ∷ s) t || contains s t

-- strings.HasSuffix.
unfoldable pub has_suffix : List ℕ → List ℕ → Bool
unfolding codes_eq
has_suffix [] t = codes_eq [] t
has_suffix (a ∷ s) t = codes_eq (a ∷ s) t || has_suffix s t

-- Texts whose characters the program reads.
abbrev pub Text : Type 0
Text = List ℕ

unfoldable pub is_space : ℕ → Bool
is_space c = (c == 32) || (leb 9 c && leb c 13)

unfoldable pub trim_left : Text → Text
unfolding is_space
trim_left [] = []
trim_left (c ∷ s) = if is_space c then trim_left s else c ∷ s

-- strings.TrimSpace.
unfoldable pub trim_space : Text → Text
unfolding trim_left
trim_space s = reverse (trim_left (reverse (trim_left s)))

pub codes_eq_iff : (s t : Text) → (codes_eq s t ≡ true) ↔ (s ≡ t)
unfolding codes_eq
codes_eq_iff [] [] = (λ h. refl, λ e. refl)
codes_eq_iff [] (b ∷ t) = (λ h. cc, λ e. cc)
codes_eq_iff (a ∷ s) [] = (λ h. cc, λ e. cc)
codes_eq_iff (a ∷ s) (b ∷ t) =
    (λ h. ground (arith, (codes_eq_iff s t).0), λ e. ground (arith, (codes_eq_iff s t).1))

pub codes_eq_refl : (s : Text) → codes_eq s s ≡ true
codes_eq_refl s = (codes_eq_iff s s).1 refl
