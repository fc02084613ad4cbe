-- ===== src/Text/Decimal/RoundTrip.antt =====
-- strconv.ParseInt on what strconv.FormatInt prints.
use orka_gateway_telegram.Prelude.{
  ℕ, zero, suc, ◌+◌, ◌*◌, ◌/◌, ◌%◌, ◌^◌, ◌≤◌, ◌<◌, ◌≡◌, refl, ◌∙◌, ap, sym, subst, true, false,
  some, [], ◌∷◌, arith, Text, length, ltb, eqb, Bool-cases, inl, inr,
}
use orka_gateway_telegram.Prelude.Int.{ℤ, pos, negsuc}
use orka_gateway_telegram.Text.Decimal.{
  digits_from, format_nat, format_int, is_digit, parse_digits, parse_nat, positive, negative,
  parse_int,
}
use orka_gateway_telegram.Text.Plain.{All, All-map}

-- 10 ^ k
abbrev pow10 : ℕ → ℕ
pow10 zero = 1
pow10 (suc k) = 10 * pow10 k

abbrev Digit : ℕ → Type 0
Digit b = (48 ≤ b) × (b ≤ 57)

-- Reading the last digit of `n` after the digits before it gives `n`.
parse_last :
    (n : ℕ) (rest : Text) → parse_digits (n / 10) ((48 + n % 10) ∷ rest) ≡ parse_digits n rest
unfolding parse_digits is_digit
parse_last n rest = ground arith

one_digit :
    (n : ℕ) (rest : Text) → ltb n 10 ≡ true → parse_digits 0 ((48 + n) ∷ rest) ≡ parse_digits n rest
unfolding parse_digits is_digit
one_digit n rest h = ground arith

parse_digits-digits_from :
    (k n : ℕ) (rest : Text)
    → n < pow10 k
    → parse_digits 0 (digits_from k n rest) ≡ parse_digits n rest
unfolding digits_from
parse_digits-digits_from zero n rest h = let e : n ≡ 0 = omega arith in rw e refl
parse_digits-digits_from (suc k) n rest h = elim (Bool-cases (ltb n 10)) [
  | inl e ↦ rw e (one_digit n rest e)
  | inr e ↦
      rw e (
        parse_digits-digits_from k (n / 10) ((48 + n % 10) ∷ rest) (omega arith)
        ∙ parse_last n rest)
]

digits_from-Digit : (k n : ℕ) (rest : Text) → All Digit rest → All Digit (digits_from k n rest)
unfolding digits_from
digits_from-Digit zero n rest h = h
digits_from-Digit (suc k) n rest h = elim (Bool-cases (ltb n 10)) [
  | inl e ↦ rw e ((omega arith, small n e), h)
  | inr e ↦
      rw e (digits_from-Digit k (n / 10) ((48 + n % 10) ∷ rest) ((omega arith, omega arith), h))
]
  where
    small : (n : ℕ) → ltb n 10 ≡ true → 48 + n ≤ 57
    small n e = ground arith

digits_from-ne :
    (k n : ℕ) (rest : Text) → (c : ℕ) × (s : Text) × (digits_from (suc k) n rest ≡ c ∷ s)
unfolding digits_from
digits_from-ne zero n rest = elim (Bool-cases (ltb n 10)) [
  | inl e ↦ (48 + n, rest, rw e)
  | inr e ↦ (48 + n % 10, rest, rw e)
]
digits_from-ne (suc k) n rest = elim (Bool-cases (ltb n 10)) [
  | inl e ↦ (48 + n, rest, rw e)
  | inr e ↦ let (c, s, h) = digits_from-ne k (n / 10) ((48 + n % 10) ∷ rest) in (c, s, rw e h)
]

-- What FormatInt prints for a natural number: digits, at least one, that read back as the number.
format_nat_lem :
    (n : ℕ)
    → n ≤ 2 ^ 63
    → (c : ℕ) × (s : Text) × (format_nat n ≡ c ∷ s)
      × All Digit (c ∷ s)
      × (parse_digits 0 (c ∷ s) ≡ some n)
unfolding format_nat parse_digits
format_nat_lem n h =
    let (c, s, e) = digits_from-ne 19 n [] in
    (
      c,
      s,
      e,
      subst (All Digit) e (digits_from-Digit 20 n [] tt),
      ap (parse_digits 0) (sym e) ∙ parse_digits-digits_from 20 n [] (omega arith),
    )

-- The range of an int64.
abbrev pub InRange : ℤ → Type 0
InRange (pos n) = n < 2 ^ 63
InRange (negsuc n) = n < 2 ^ 63

-- The bytes of a printed number: digits and the minus sign are among them.
abbrev pub IntByte : ℕ → Type 0
IntByte b = (45 ≤ b) × (b ≤ 57)

Digit-IntByte : (b : ℕ) → Digit b → IntByte b
Digit-IntByte b h = (omega arith, omega arith)

pub format_int-IntByte :
    (v : ℤ) → InRange v → (c : ℕ) × (s : Text) × (format_int v ≡ c ∷ s) × All IntByte (c ∷ s)
unfolding format_int
format_int-IntByte (pos n) h =
    let (c, s, e, d, r) = format_nat_lem n (omega arith) in
    (c, s, e, All-map Digit IntByte Digit-IntByte (c ∷ s) d)
format_int-IntByte (negsuc n) h =
    let (c, s, e, d, r) = format_nat_lem (suc n) (omega arith) in
    (
      45,
      c ∷ s,
      rw e refl,
      ((omega arith, omega arith), All-map Digit IntByte Digit-IntByte (c ∷ s) d),
    )

parse_int_of_digits :
    (c : ℕ) (s : Text) (n : ℕ)
    → All Digit (c ∷ s)
    → parse_digits 0 (c ∷ s) ≡ some n
    → n < 2 ^ 63
    → parse_int (c ∷ s) ≡ some (pos n)
unfolding parse_int parse_nat positive
parse_int_of_digits c s n d r h =
    let (minus, plus) = (not_sign c d.0) in rw (minus, plus, r) (ground arith)
  where
    not_sign : (c : ℕ) → Digit c → (eqb c b'-' ≡ false) × (eqb c b'+' ≡ false)
    not_sign c h = (ground arith, ground arith)

parse_int_of_minus :
    (c : ℕ) (s : Text) (n : ℕ)
    → parse_digits 0 (c ∷ s) ≡ some (suc n)
    → n < 2 ^ 63
    → parse_int (b'-' ∷ c ∷ s) ≡ some (negsuc n)
unfolding parse_int parse_nat negative
parse_int_of_minus c s n r h = rw r (ground arith)

-- ParseInt gives back the number that FormatInt printed.
pub parse_int-format_int : (v : ℤ) → InRange v → parse_int (format_int v) ≡ some v
unfolding format_int
parse_int-format_int (pos n) h =
    let (c, s, e, d, r) = format_nat_lem n (omega arith) in
    ap parse_int e ∙ parse_int_of_digits c s n d r h
parse_int-format_int (negsuc n) h =
    let (c, s, e, d, r) = format_nat_lem (suc n) (omega arith) in
    ap (λ t. parse_int (b'-' ∷ t)) e ∙ parse_int_of_minus c s n r h

length-digits_from : (k n : ℕ) (rest : Text) → length (digits_from k n rest) ≤ k + length rest
unfolding digits_from
length-digits_from zero n rest = omega arith
length-digits_from (suc k) n rest = elim (Bool-cases (ltb n 10)) [
  | inl e ↦ rw e (omega arith)
  | inr e ↦ let h = length-digits_from k (n / 10) ((48 + n % 10) ∷ rest) in rw e (omega arith)
]

pub length-format_int : (v : ℤ) → length (format_int v) ≤ 21
unfolding format_int format_nat
length-format_int (pos n) = let h = length-digits_from 20 n [] in omega arith
length-format_int (negsuc n) = let h = length-digits_from 20 (suc n) [] in omega arith
