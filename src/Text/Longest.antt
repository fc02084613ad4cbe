-- ===== src/Text/Longest.antt =====
-- The part of a message that a byte limit leaves.
use orka_gateway_telegram.Prelude.{
  ℕ, zero, suc, ◌≡◌, ◌≤◌, refl, ap, true, [], ◌∷◌, ◌++◌, Text, length, take, arith, Bool-cases, inl,
  inr, leb,
}
use orka_gateway_telegram.Text.Utf8.{valid_string}
use orka_gateway_telegram.Text.Sanitize.{longest_valid}

-- `p` is the beginning of `s`.
pub record Begins (p s : Text) : Type 0 where
  pub rest : Text
  pub joined : p ++ rest ≡ s

take-Begins : (n : ℕ) (s : Text) → Begins (take n s) s
take-Begins zero s = record { rest = s; joined = refl }
take-Begins (suc n) [] = record { rest = []; joined = refl }
take-Begins (suc n) (b ∷ s) =
    let h = take-Begins n s in record { rest = h.rest; joined = ap (λ x. b ∷ x) h.joined }

length-take : (n : ℕ) (s : Text) → n ≤ length s → length (take n s) ≡ n
length-take zero s h = refl
length-take (suc n) [] h = omega arith
length-take (suc n) (b ∷ s) h = let e = length-take n s (omega arith) in omega arith

pub longest_valid-Begins : (n : ℕ) (s : Text) → Begins (longest_valid n s) s
unfolding longest_valid
longest_valid-Begins zero s = record { rest = s; joined = refl }
longest_valid-Begins (suc n) s = elim (Bool-cases (valid_string (take (suc n) s))) [
  | inl e ↦ rw e (take-Begins (suc n) s)
  | inr e ↦ rw e (longest_valid-Begins n s)
]

pub valid_string-longest_valid : (n : ℕ) (s : Text) → valid_string (longest_valid n s) ≡ true
unfolding longest_valid valid_string
valid_string-longest_valid zero s = refl
valid_string-longest_valid (suc n) s = elim (Bool-cases (valid_string (take (suc n) s))) [
  | inl e ↦ rw e e
  | inr e ↦ rw e (valid_string-longest_valid n s)
]

pub length-longest_valid-le : (n : ℕ) (s : Text) → n ≤ length s → length (longest_valid n s) ≤ n
unfolding longest_valid
length-longest_valid-le zero s h = omega arith
length-longest_valid-le (suc n) s h = elim (Bool-cases (valid_string (take (suc n) s))) [
  | inl e ↦ rw e (omega (arith, length-take (suc n) s h))
  | inr e ↦ rw e (omega (arith, length-longest_valid-le n s (omega arith)))
]

-- No valid prefix within the limit is longer.
pub le-length-longest_valid :
    (n k : ℕ) (s : Text)
    → k ≤ n
    → n ≤ length s
    → valid_string (take k s) ≡ true
    → k ≤ length (longest_valid n s)
unfolding longest_valid
le-length-longest_valid zero k s h fits v = omega arith
le-length-longest_valid (suc n) k s h fits v = elim (Bool-cases (valid_string (take (suc n) s))) [
  | inl e ↦ rw e (omega (arith, length-take (suc n) s fits))
  | inr e ↦ elim (Bool-cases (leb k n)) [
    | inl shorter ↦ rw e (le-length-longest_valid n k s (ground arith) (omega arith) v)
    | inr longer ↦ let same : k ≡ suc n = ground arith in ground arith
  ]
]
