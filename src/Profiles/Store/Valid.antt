-- ===== src/Profiles/Store/Valid.antt =====
-- A profile that is stored again is still valid (server/internal/app/store.go).
use mathlib.Core.List.{reverse-append, reverse-reverse}
use gp_sdr.Prelude.{
  ℕ, ◌+◌, ◌-◌, ◌≤◌, ◌≡◌, refl, sym, ap, ◌∙◌, inl, inr, Bool, true, false, not, Bool-cases, Option,
  none, [], ◌∷◌, ◌++◌, arith, length, length-append, length-take, take, ltb, if◌then◌else◌, reverse,
  append_assoc,
}
use gp_sdr.Prelude.Int.{pos, eqb_ℤ}
use gp_sdr.Prelude.Text.{Text, codes, codes_eq, trim_left, trim_space, is_space}
use gp_sdr.Profiles.Profile.{
  ScanProfile, ProfileError, bad_id, bad_version, bad_name, check_content, is_refused_id,
  is_refused_name, is_bad_id, max_name, or_else, fail_if, validate_profile, normalize_profile,
}
use gp_sdr.Profiles.Store.{as_user, copy_name, copy_of}

pub as_user-validate : (p : ScanProfile) → validate_profile (as_user p) ≡ validate_profile p
unfolding validate_profile normalize_profile
as_user-validate p = refl

or_else-none :
    (b : Bool) (e : ProfileError) (rest : Option ProfileError)
    → or_else (fail_if b e) rest ≡ none
    → (b ≡ false) × (rest ≡ none)
or_else-none true e rest h = absurd (ground (arith, h))
or_else-none false e rest h = (refl, h)

-- What a valid profile passes.
pub record Passes (p : ScanProfile) : Type 0 where
  pub good_id : is_refused_id p.id ≡ false
  pub version : not (eqb_ℤ p.schema_version (pos 1)) ≡ false
  pub good_name : is_refused_name p.name ≡ false
  pub content : check_content p ≡ none

pub validate_profile-Passes : (p : ScanProfile) → validate_profile p ≡ none → Passes p
unfolding validate_profile
validate_profile-Passes p h =
    let name_on = or_else (fail_if (is_refused_name p.name) bad_name) (check_content p) in
    let version_on = or_else (fail_if (not (eqb_ℤ p.schema_version (pos 1))) bad_version) name_on in
    let (a, h1) = or_else-none (is_refused_id p.id) bad_id version_on h in
    let (b, h2) = or_else-none (not (eqb_ℤ p.schema_version (pos 1))) bad_version name_on h1 in
    let (c, d) = or_else-none (is_refused_name p.name) bad_name (check_content p) h2 in
    record { good_id = a; version = b; good_name = c; content = d }

pub Passes-validate_profile : (p : ScanProfile) → Passes p → validate_profile p ≡ none
unfolding validate_profile
Passes-validate_profile p h = rw (h.good_id, h.version, h.good_name) h.content

pub validate_rename :
    (p : ScanProfile) (id : Text)
    → validate_profile p ≡ none
    → is_bad_id id ≡ false
    → validate_profile (record p { id = id }) ≡ none
unfolding check_content
validate_rename p id h good =
    let q = validate_profile-Passes p h in
    Passes-validate_profile (record p { id = id })
      (record {
        good_id = ground (arith, good);
        version = q.version;
        good_name = q.good_name;
        content = q.content;
      })

-- A text that ends in a letter keeps its end when it is trimmed.
trim_left-end :
    (s : Text) (c : ℕ) → is_space c ≡ false → (t : Text) × (trim_left (s ++ c ∷ []) ≡ t ++ c ∷ [])
unfolding trim_left
trim_left-end [] c h = ([], rw h refl)
trim_left-end (a ∷ s) c h = elim (Bool-cases (is_space a)) [
  | inl space ↦ let (t, e) = trim_left-end s c h in (t, rw space e)
  | inr letter ↦ (a ∷ s, rw letter refl)
]

trim_left_letter : (c : ℕ) (s : Text) → is_space c ≡ false → trim_left (c ∷ s) ≡ c ∷ s
unfolding trim_left
trim_left_letter c s h = rw h refl

trim_space-end :
    (s : Text) (c : ℕ) → is_space c ≡ false → (t : Text) × (trim_space (s ++ c ∷ []) ≡ t ++ c ∷ [])
unfolding trim_space
trim_space-end s c h =
    let (t, e) = trim_left-end s c h in
    let turned = reverse-append t (c ∷ []) in
    (
      t,
      ap (λ x. reverse (trim_left (reverse x))) e
          ∙ ap (λ x. reverse (trim_left x)) turned
          ∙ ap reverse (trim_left_letter c (reverse t) h ∙ sym turned)
          ∙ reverse-reverse (t ++ c ∷ []),
    )

ends-ne-nil : (t : Text) (c : ℕ) → codes_eq (t ++ c ∷ []) [] ≡ false
unfolding codes_eq
ends-ne-nil [] c = refl
ends-ne-nil (a ∷ t) c = refl

cut_fits : (cut : Text) → length cut ≤ 155 → ltb max_name (length (cut ++ codes " Copy")) ≡ false
cut_fits cut h =
    let e = length-append cut (codes " Copy") in
    let short : length cut + 5 ≤ 160 = omega (arith, h) in rw e (ground (arith, short))

length-take-le : (n : ℕ) (s : Text) → length (take n s) ≤ n
length-take-le n s = omega (arith, length-take n s)

copy_name-fits : (name : Text) → ltb max_name (length (copy_name name)) ≡ false
copy_name-fits name = elim (Bool-cases (ltb (max_name - 5) (length name))) [
  | inl long ↦ rw long (cut_fits (take 155 name) (length-take-le 155 name))
  | inr short ↦ rw short (cut_fits name (ground (arith, short)))
]

copy_name-is_refused_name : (name : Text) → is_refused_name (copy_name name) ≡ false
copy_name-is_refused_name name =
    let cut = if ltb (max_name - 5) (length name) then take (max_name - 5) name else name in
    let (t, e) = trim_space-end (cut ++ codes " Cop") b'y' (unfold is_space in refl) in
    let whole : copy_name name ≡ (cut ++ codes " Cop") ++ b'y' ∷ [] =
      sym (append_assoc cut (codes " Cop") (b'y' ∷ [])) in
    ground (
      arith,
      copy_name-fits name,
      ap (λ x. codes_eq (trim_space x) []) whole ∙ ap (λ x. codes_eq x []) e ∙ ends-ne-nil t b'y',
    )

pub validate_copy :
    (p : ScanProfile) (id : Text)
    → validate_profile p ≡ none
    → is_bad_id id ≡ false
    → validate_profile (copy_of id p) ≡ none
unfolding check_content
validate_copy p id h good =
    let q = validate_profile-Passes p h in
    Passes-validate_profile (copy_of id p) (record {
      good_id = ground (arith, good);
      version = q.version;
      good_name = copy_name-is_refused_name p.name;
      content = q.content;
    })
