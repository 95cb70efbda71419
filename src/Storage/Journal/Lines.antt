-- ===== src/Storage/Journal/Lines.antt =====
-- The pieces of server/internal/app/storage_policy.go's journal: where lines end, and how many the
-- backward loop keeps.
use gp_sdr.Prelude.{
  ℕ, zero, suc, ◌+◌, ◌≤◌, ◌<◌, ◌≡◌, ◌≢◌, refl, ap, sym, subst, ◌∙◌, true, false, Bool-cases, ==_iff,
  List, [], ◌∷◌, ◌++◌, append_assoc, leb, ◌==◌, length, length-append, get_or, take, drop, arith,
  inl, inr,
}
use gp_sdr.Storage.Journal.{push_front, split_after, without_last, kept_start, join}

-- The size of the lines from position `k` on.
abbrev pub size_from : List (List ℕ) → ℕ → ℕ
size_from lines k = length (join (drop k lines))

drop-all : {A : Type 0} (xs : List A) → drop (length xs) xs ≡ []
drop-all [] = refl
drop-all (x ∷ xs) = drop-all xs

pub size_from_all : (lines : List (List ℕ)) → size_from lines (length lines) ≡ 0
unfolding join
size_from_all lines = rw (drop-all lines)

size_from-suc :
    (lines : List (List ℕ)) (k : ℕ)
    → k < length lines
    → size_from lines k ≡ size_from lines (suc k) + length (get_or lines k [])
unfolding join
size_from-suc [] k h = elim h [ ]
size_from-suc (line ∷ lines) zero h = omega (arith, length-append line (join lines))
size_from-suc (line ∷ lines) (suc k) h = size_from-suc lines k (omega arith)

-- The loop's answer `r`, started at `k`: the lines from `r` on fit, and one line more does not.
pub record IsKept (lines : List (List ℕ)) (cap k r : ℕ) : Type 0 where
  pub within : r ≤ k
  pub fits : size_from lines r ≤ cap
  pub tight : (j : ℕ) → suc j ≡ r → cap < size_from lines j

pub kept_start-IsKept :
    (lines : List (List ℕ)) (cap k size : ℕ)
    → k ≤ length lines
    → size ≡ size_from lines k
    → size ≤ cap
    → IsKept lines cap k (kept_start lines cap k size)
unfolding kept_start
kept_start-IsKept lines cap zero size h e fits = record {
  within = omega arith;
  fits = omega arith;
  tight = λ j q. absurd (omega arith);
}
kept_start-IsKept lines cap (suc k) size h e fits =
    let step = size_from-suc lines k h in
    elim (Bool-cases (leb (size + length (get_or lines k [])) cap)) [
      | inl fit ↦
          let kept =
            kept_start-IsKept lines cap k (size + length (get_or lines k [])) (omega arith)
              (omega arith) (ground arith) in
          rw fit
            (record { within = omega (arith, kept.within); fits = kept.fits; tight = kept.tight })
      | inr over ↦ rw over (record {
        within = omega arith;
        fits = omega arith;
        tight = λ j q.
            let same : j ≡ k = omega arith in
            subst (λ n. cap < size_from lines n) (sym same) (ground arith);
      })
    ]

abbrev pub HasNoNewline : List ℕ → Type 0
HasNoNewline [] = Unit
HasNoNewline (c ∷ cs) = (c ≢ b'\n') × HasNoNewline cs

-- One line: it ends with its newline, and has no other.
abbrev pub EndsLine : List ℕ → Type 0
EndsLine line = (start : List ℕ) × HasNoNewline start × (line ≡ start ++ b'\n' ∷ [])

abbrev pub All : (List ℕ → Type 0) → List (List ℕ) → Type 0
All P [] = Unit
All P (line ∷ lines) = P line × All P lines

join-push_front : (c : ℕ) (lines : List (List ℕ)) → join (push_front c lines) ≡ c ∷ join lines
unfolding join push_front
join-push_front c [] = refl
join-push_front c (line ∷ lines) = refl

-- The pieces are the file.
pub join-split_after : (bytes : List ℕ) → join (split_after bytes) ≡ bytes
unfolding split_after join
join-split_after [] = refl
join-split_after (c ∷ rest) = elim (Bool-cases (c == b'\n')) [
  | inl nl ↦ rw nl (ap (◌∷◌ c) (join-split_after rest))
  | inr other ↦ rw other (join-push_front c (split_after rest) ∙ ap (◌∷◌ c) (join-split_after rest))
]

push_front-EndsLine :
    (c : ℕ) (lines : List (List ℕ))
    → c ≢ b'\n'
    → All EndsLine (without_last lines)
    → All EndsLine (without_last (push_front c lines))
unfolding without_last push_front
push_front-EndsLine c [] n h = tt
push_front-EndsLine c (line ∷ []) n h = tt
push_front-EndsLine c (line ∷ next ∷ lines) n h = ((c ∷ h.0.0, (n, h.0.1), ap (◌∷◌ c) h.0.2), h.1)

newline-EndsLine :
    (c : ℕ) (lines : List (List ℕ))
    → (c == b'\n') ≡ true
    → All EndsLine (without_last lines)
    → All EndsLine (without_last ((c ∷ []) ∷ lines))
unfolding without_last
newline-EndsLine c [] nl h = tt
newline-EndsLine c (line ∷ lines) nl h = (([], tt, ap (λ d. d ∷ []) ((==_iff c b'\n').0 nl)), h)

other_char : (c : ℕ) → (c == b'\n') ≡ false → c ≢ b'\n'
other_char c other = λ e. ground (arith, ==_iff c b'\n')

-- What is left after the last piece is cut are whole lines.
pub split_after-EndsLine : (bytes : List ℕ) → All EndsLine (without_last (split_after bytes))
unfolding split_after
split_after-EndsLine [] = unfold without_last in tt
split_after-EndsLine (c ∷ rest) = elim (Bool-cases (c == b'\n')) [
  | inl nl ↦ rw nl (newline-EndsLine c (split_after rest) nl (split_after-EndsLine rest))
  | inr other ↦
      rw other
        (push_front-EndsLine c (split_after rest) (other_char c other) (split_after-EndsLine rest))
]

-- The piece that is cut stood at the end, and has no newline.
abbrev pub EndsOpen : List (List ℕ) → Type 0
EndsOpen lines =
    (tail : List ℕ) × HasNoNewline tail × (join lines ≡ join (without_last lines) ++ tail)

push_front-EndsOpen :
    (c : ℕ) (lines : List (List ℕ)) → c ≢ b'\n' → EndsOpen lines → EndsOpen (push_front c lines)
unfolding without_last push_front join
push_front-EndsOpen c [] n h = (c ∷ [], (n, tt), refl)
push_front-EndsOpen c (line ∷ []) n h = (c ∷ h.0, (n, h.1), ap (◌∷◌ c) h.2)
push_front-EndsOpen c (line ∷ next ∷ lines) n h = (h.0, h.1, ap (◌∷◌ c) h.2)

newline-EndsOpen :
    (c : ℕ) (lines : List (List ℕ)) → lines ≢ [] → EndsOpen lines → EndsOpen ((c ∷ []) ∷ lines)
unfolding without_last join
newline-EndsOpen c [] some_lines h = absurd (some_lines refl)
newline-EndsOpen c (line ∷ lines) some_lines h = (h.0, h.1, ap (◌∷◌ c) h.2)

push_front-nil : (c : ℕ) (lines : List (List ℕ)) → push_front c lines ≢ []
unfolding push_front
push_front-nil c [] = λ e. cc
push_front-nil c (line ∷ lines) = λ e. cc

split_after-nil : (bytes : List ℕ) → split_after bytes ≢ []
unfolding split_after
split_after-nil [] = λ e. cc
split_after-nil (c ∷ rest) = elim (Bool-cases (c == b'\n')) [
  | inl nl ↦ rw nl (λ e. cc)
  | inr other ↦ rw other (push_front-nil c (split_after rest))
]

pub split_after-EndsOpen : (bytes : List ℕ) → EndsOpen (split_after bytes)
unfolding split_after
split_after-EndsOpen [] = unfold without_last join in ([], tt, refl)
split_after-EndsOpen (c ∷ rest) = elim (Bool-cases (c == b'\n')) [
  | inl nl ↦
      rw nl
        (newline-EndsOpen c (split_after rest) (split_after-nil rest) (split_after-EndsOpen rest))
  | inr other ↦
      rw other
        (push_front-EndsOpen c (split_after rest) (other_char c other) (split_after-EndsOpen rest))
]

pub join-append : (xs ys : List (List ℕ)) → join (xs ++ ys) ≡ join xs ++ join ys
unfolding join
join-append [] ys = refl
join-append (x ∷ xs) ys = ap (λ r. x ++ r) (join-append xs ys) ∙ sym (append_assoc x _ _)

module _ (P : List ℕ → Type 0) where
  pub All-take : (k : ℕ) (lines : List (List ℕ)) → All P lines → All P (take k lines)
  All-take zero lines h = tt
  All-take (suc k) [] h = tt
  All-take (suc k) (line ∷ lines) h = (h.0, All-take k lines h.1)

  pub All-drop : (k : ℕ) (lines : List (List ℕ)) → All P lines → All P (drop k lines)
  All-drop zero lines h = h
  All-drop (suc k) [] h = tt
  All-drop (suc k) (line ∷ lines) h = All-drop k lines h.1

-- The position of a line that stands before the kept ones.
pub size_from_before :
    (before : List (List ℕ)) (line : List ℕ) (rest : List (List ℕ))
    → size_from ((before ++ line ∷ []) ++ rest) (length before) ≡ length line + length (join rest)
unfolding join
size_from_before [] line rest = length-append line (join rest)
size_from_before (x ∷ before) line rest = size_from_before before line rest

pub size_from_last :
    (before : List (List ℕ)) (line : List ℕ)
    → size_from (before ++ line ∷ []) (length before) ≡ length line
unfolding join
size_from_last [] line = omega (arith, length-append line [])
size_from_last (x ∷ before) line = size_from_last before line
