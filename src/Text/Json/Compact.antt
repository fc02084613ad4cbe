-- ===== src/Text/Json/Compact.antt =====
-- json.Compact on a valid text.
use orka_gateway_telegram.Prelude.{
  ℕ, ◌≡◌, ◌≢◌, ap, sym, ◌∙◌, true, false, none, some, [], ◌∷◌, Text, arith, Bool-cases,
  Option-cases, inl, inr,
}
use orka_gateway_telegram.Text.Json.{
  begin_value, Scanner, is_json_space, step, at_end, scan, is_valid, compact_from, compact,
  value_step, is_in_string,
}

-- White space leaves the scanner waiting for a value.
space_step :
    (c : ℕ) (s : Scanner)
    → is_json_space c ≡ true
    → step (begin_value, []) c ≡ some s
    → s ≡ (begin_value, [])
unfolding step value_step is_json_space
space_step c s sp h = ground arith

scan-step : (s s' : Scanner) (c : ℕ) (t : Text) → step s c ≡ some s' → scan s (c ∷ t) ≡ scan s' t
unfolding scan
scan-step s s' c t e = ground (arith, e)

scan-stuck : (s : Scanner) (c : ℕ) (t : Text) → step s c ≡ none → scan s (c ∷ t) ≡ false
unfolding scan
scan-stuck s c t e = ground (arith, e)

compact-space :
    (s' : Scanner) (c : ℕ) (t : Text)
    → step (begin_value, []) c ≡ some s'
    → is_json_space c ≡ true
    → compact_from (begin_value, []) (c ∷ t) ≡ compact_from s' t
unfolding compact_from is_in_string
compact-space s' c t e sp = ground (arith, e)

compact-kept :
    (s s' : Scanner) (c : ℕ) (t : Text)
    → step s c ≡ some s'
    → is_json_space c ≡ false
    → compact_from s (c ∷ t) ≡ c ∷ compact_from s' t
unfolding compact_from
compact-kept s s' c t e sp = ground (arith, e)

scan-nothing : scan (begin_value, []) [] ≡ true → ⊥
unfolding scan at_end step value_step is_json_space
scan-nothing h = cc

compact_from-ne :
    (t : Text) → scan (begin_value, []) t ≡ true → compact_from (begin_value, []) t ≢ []
compact_from-ne [] h = λ n. scan-nothing h
compact_from-ne (c ∷ t) h = elim (Option-cases (step (begin_value, []) c)) [
  | inl e ↦ let k = scan-stuck (begin_value, []) c t e in λ n. cc
  | inr (s', e) ↦ elim (Bool-cases (is_json_space c)) [
    | inl sp ↦
        let same : s' ≡ (begin_value, []) = space_step c s' sp e in
        let rest : scan (begin_value, []) t ≡ true =
          ap (λ x. scan x t) (sym same) ∙ sym (scan-step (begin_value, []) s' c t e) ∙ h in
        let k = compact-space s' c t e sp ∙ ap (λ x. compact_from x t) same in
        λ n. compact_from-ne t rest (sym k ∙ n)
    | inr sp ↦ let k = compact-kept (begin_value, []) s' c t e sp in λ n. cc
  ]
]

-- What Compact leaves of a valid text is not empty.
pub compact-ne : (t : Text) → is_valid t ≡ true → compact t ≢ []
unfolding is_valid compact
compact-ne t h = compact_from-ne t h
