-- ===== src/Mapper/Config/Words.antt =====
-- The words and defaults of a Mapper configuration (server/internal/app/mapper.go, lines 409-575).
use gp_sdr.Prelude.{
  ◌≡◌, refl, sym, ap, ◌∙◌, inl, inr, Bool, true, false, ◌&&◌, Bool-cases, none, List, [], ◌∷◌,
  arith,
}
use gp_sdr.Prelude.Int.{ℤ, pos, eqb_ℤ}
use gp_sdr.Prelude.Text.{
  Text, codes, codes_eq, codes_eq_iff, to_lower, trim_space, trim_left, is_space,
}
use gp_sdr.Mapper.Config.{
  ConfigError, cleaned, or_text, or_number, is_one_of, normal_decoder, normal_hits, decoder_words,
  mode_words, analysis_words, rejected_words, modulation_words, source_words, order_words,
  gain_words, amp_words, sensitivity_words, normal_mode, normal_analysis, first_error,
  default_mapper_concurrent_channels,
}

-- Every word of the list is left as it is.
unfoldable pub are_fixed : (Text → Text) → List Text → Bool
unfolding codes_eq
are_fixed f [] = true
are_fixed f (word ∷ words) = codes_eq (f word) word && are_fixed f words

pub fixed_word :
    (f : Text → Text) (words : List Text) (s : Text)
    → are_fixed f words ≡ true
    → is_one_of words s ≡ true
    → f s ≡ s
unfolding is_one_of are_fixed
fixed_word f [] s h found = absurd (ground (arith, found))
fixed_word f (word ∷ words) s h found = elim (Bool-cases (codes_eq s word)) [
  | inl same ↦
      let e = (codes_eq_iff s word).0 same in
      ap f e ∙ (codes_eq_iff (f word) word).0 (ground (arith, h)) ∙ sym e
  | inr other ↦ fixed_word f words s (ground (arith, h)) (ground (arith, found, other))
]

pub mode_words_fixed : are_fixed (normal_mode) mode_words ≡ true
unfolding are_fixed codes_eq trim_space trim_left is_space to_lower
mode_words_fixed = refl

pub analysis_words_fixed : (mode : Text) → are_fixed (normal_analysis mode) analysis_words ≡ true
unfolding are_fixed codes_eq trim_space trim_left is_space to_lower
analysis_words_fixed mode = refl

pub rejected_words_fixed :
    are_fixed (λ s. or_text (codes "delete") (cleaned s)) rejected_words ≡ true
unfolding are_fixed codes_eq trim_space trim_left is_space to_lower
rejected_words_fixed = refl

pub modulation_words_fixed :
    are_fixed (λ s. or_text (codes "auto") (cleaned s)) modulation_words ≡ true
unfolding are_fixed codes_eq trim_space trim_left is_space to_lower
modulation_words_fixed = refl

pub decoder_words_fixed : are_fixed (normal_decoder) decoder_words ≡ true
unfolding are_fixed codes_eq trim_space trim_left is_space to_lower
decoder_words_fixed = refl

pub source_words_fixed :
    are_fixed (λ s. or_text (codes "discovery") (cleaned s)) source_words ≡ true
unfolding are_fixed codes_eq trim_space trim_left is_space to_lower
source_words_fixed = refl

pub order_words_fixed : are_fixed (λ s. or_text (codes "hits") (cleaned s)) order_words ≡ true
unfolding are_fixed codes_eq trim_space trim_left is_space to_lower
order_words_fixed = refl

pub gain_words_fixed : are_fixed (λ s. or_text (codes "auto") (cleaned s)) gain_words ≡ true
unfolding are_fixed codes_eq trim_space trim_left is_space to_lower
gain_words_fixed = refl

pub amp_words_fixed : are_fixed (λ s. or_text (codes "auto") (cleaned s)) amp_words ≡ true
unfolding are_fixed codes_eq trim_space trim_left is_space to_lower
amp_words_fixed = refl

pub sensitivity_words_fixed :
    are_fixed (λ s. or_text (codes "auto") (cleaned s)) sensitivity_words ≡ true
unfolding are_fixed codes_eq trim_space trim_left is_space to_lower
sensitivity_words_fixed = refl

pub or_text_again : (d s : Text) → codes_eq d [] ≡ false → or_text d (or_text d s) ≡ or_text d s
or_text_again d s h = elim (Bool-cases (codes_eq s [])) [
  | inl e ↦ rw (e, h) refl
  | inr n ↦ rw (n, n) refl
]

pub or_number_again :
    (d n : ℤ) → eqb_ℤ d (pos 0) ≡ false → or_number d (or_number d n) ≡ or_number d n
or_number_again d n h = elim (Bool-cases (eqb_ℤ n (pos 0))) [
  | inl e ↦ rw (e, h) refl
  | inr m ↦ rw (m, m) refl
]

pub normal_hits_again :
    (mode : Text) (hits : ℤ) → normal_hits mode (normal_hits mode hits) ≡ normal_hits mode hits
normal_hits_again mode hits = elim (Bool-cases (codes_eq mode (codes "decipher"))) [
  | inl e ↦ rw e (or_number_again (pos 2) hits refl)
  | inr n ↦ rw n refl
]

-- The number of channels that a mode has by default is not zero.
pub default_channels_positive :
    (mode : Text) → eqb_ℤ (default_mapper_concurrent_channels mode) (pos 0) ≡ false
default_channels_positive mode = ground arith

-- Every check of the list passes.
abbrev pub AllPass : List (Bool × ConfigError) → Type 0
AllPass [] = Unit
AllPass ((failed, e) ∷ rest) = (failed ≡ false) × AllPass rest

pub first_error-AllPass : (l : List (Bool × ConfigError)) → first_error l ≡ none → AllPass l
unfolding first_error
first_error-AllPass [] h = tt
first_error-AllPass ((failed, e) ∷ rest) h = elim (Bool-cases failed) [
  | inl bad ↦ absurd (ground (arith, h, bad))
  | inr good ↦ (good, first_error-AllPass rest (ground (arith, h, good)))
]
