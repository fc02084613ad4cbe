-- ===== src/Text/Plain.antt =====
-- Texts of ASCII bytes that are neither white space nor controls.
use mathlib.Core.List.{reverse-append, reverse-reverse}
use orka_gateway_telegram.Prelude.{
  ℕ, ◌≡◌, refl, ◌≤◌, [], ◌∷◌, ◌++◌, reverse, arith, Text, eqb, false,
}
use orka_gateway_telegram.Text.Space.{space_len, space_len_rev, strip_by, trim_space}
use orka_gateway_telegram.Text.Split.{split}

-- Every byte of the text satisfies `P`.
abbrev pub All : (ℕ → Type 0) → Text → Type 0
All P [] = Unit
All P (b ∷ s) = P b × All P s

pub All-append : (P : ℕ → Type 0) (s t : Text) → All P s → All P t → All P (s ++ t)
All-append P [] t h k = k
All-append P (b ∷ s) t h k = (h.0, All-append P s t h.1 k)

All-reverse : (P : ℕ → Type 0) (s : Text) → All P s → All P (reverse s)
All-reverse P [] h = tt
All-reverse P (b ∷ s) h =
    rw (reverse-append (b ∷ []) s)
      (All-append P (reverse s) (b ∷ []) (All-reverse P s h.1) (h.0, tt))

pub All-map : (P Q : ℕ → Type 0) → ((b : ℕ) → P b → Q b) → (s : Text) → All P s → All Q s
All-map P Q f [] h = tt
All-map P Q f (b ∷ s) h = (f b h.0, All-map P Q f s h.1)

abbrev pub Plain : ℕ → Type 0
Plain b = (33 ≤ b) × (b ≤ 126)

space_len-Plain : (s : Text) → All Plain s → space_len s ≡ 0
unfolding space_len
space_len-Plain [] h = refl
space_len-Plain (a ∷ []) h = ground arith
space_len-Plain (a ∷ b ∷ []) h = ground arith
space_len-Plain (a ∷ b ∷ c ∷ s) h = ground arith

space_len_rev-Plain : (s : Text) → All Plain s → space_len_rev s ≡ 0
unfolding space_len_rev
space_len_rev-Plain [] h = refl
space_len_rev-Plain (a ∷ []) h = ground arith
space_len_rev-Plain (a ∷ b ∷ []) h = ground arith
space_len_rev-Plain (a ∷ b ∷ c ∷ s) h = ground arith

strip_by-kept : (len : Text → ℕ) (s : Text) → len s ≡ 0 → strip_by len 0 s ≡ s
unfolding strip_by
strip_by-kept len [] h = refl
strip_by-kept len (a ∷ s) h = ground arith

-- TrimSpace leaves such a text as it is.
pub trim_space-Plain : (s : Text) → All Plain s → trim_space s ≡ s
unfolding trim_space
trim_space-Plain s h = rw (strip_by-kept space_len s (space_len-Plain s h)) (
    rw
      (strip_by-kept space_len_rev (reverse s)
        (space_len_rev-Plain (reverse s) (All-reverse Plain s h)))
      (reverse-reverse s))

-- Split at a byte that the first part does not hold.
pub split-part :
    (sep : ℕ) (p s : Text)
    → All (λ b. eqb b sep ≡ false) p
    → split sep (p ++ sep ∷ s) ≡ p ∷ split sep s
unfolding split
split-part sep [] s h = ground arith
split-part sep (b ∷ p) s h = rw (h.0, split-part sep p s h.1) refl

pub split_one : (sep : ℕ) (p : Text) → All (λ b. eqb b sep ≡ false) p → split sep p ≡ p ∷ []
unfolding split
split_one sep [] h = refl
split_one sep (b ∷ p) h = rw (h.0, split_one sep p h.1) refl
