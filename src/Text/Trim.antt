-- ===== src/Text/Trim.antt =====
-- strings.TrimSpace: the length of its result.
use mathlib.Core.List.{reverse-append}
use orka_gateway_telegram.Prelude.{
  ap, ℕ, zero, suc, ◌+◌, ◌≤◌, ◌≡◌, refl, [], ◌∷◌, ◌++◌, reverse, arith, Text, length,
}
use orka_gateway_telegram.Text.Space.{
  space_len, space_len_rev, strip_by, trim_left, trim_right, trim_space,
}

pub length-append : (s t : Text) → length (s ++ t) ≡ length s + length t
length-append [] t = omega arith
length-append (b ∷ s) t = let h = length-append s t in omega arith

length-reverse : (s : Text) → length (reverse s) ≡ length s
length-reverse [] = refl
length-reverse (b ∷ s) =
    let h = length-reverse s in
    let k = length-append (reverse s) (b ∷ []) in
    let e : length (reverse (b ∷ s)) ≡ length (reverse s ++ b ∷ []) =
      ap length (reverse-append (b ∷ []) s) in
    omega arith

stripped :
    (len : Text → ℕ) (b : ℕ) (s : Text) (n : ℕ)
    → ((k : ℕ) → length (strip_by len k s) ≤ length s)
    → length (elim n [ zero ↦ b ∷ s | suc k ↦ strip_by len k s ]) ≤ suc (length s)
stripped len b s zero h = omega arith
stripped len b s (suc n) h = let k = h n in omega arith

length-strip_by : (len : Text → ℕ) (n : ℕ) (s : Text) → length (strip_by len n s) ≤ length s
unfolding strip_by
length-strip_by len n [] = omega arith
length-strip_by len (suc n) (b ∷ s) = let h = length-strip_by len n s in omega arith
length-strip_by len zero (b ∷ s) = stripped len b s (len (b ∷ s)) (λ n. length-strip_by len n s)

-- TrimSpace makes no text longer.
pub length-trim_space : (s : Text) → length (trim_space s) ≤ length s
unfolding trim_space trim_left trim_right
length-trim_space s =
    let left = strip_by space_len 0 s in
    let h = length-strip_by space_len 0 s in
    let k = length-strip_by space_len_rev 0 (reverse left) in
    let l = length-reverse left in
    let m = length-reverse (strip_by space_len_rev 0 (reverse left)) in omega arith
