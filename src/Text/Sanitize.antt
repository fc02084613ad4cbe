-- ===== src/Text/Sanitize.antt =====
-- How messages are made safe to store and to log: protocol.SanitizeMessage of
-- internal/protocol/validate.go and normalizeSafeMessage of internal/store/store.go share the steps.
use orka_gateway_telegram.Prelude.{
  ℕ, zero, suc, Bool, true, false, not, ◌&&◌, none, some, [], ◌∷◌, eqb, Text, take, if◌then◌else◌,
}
use orka_gateway_telegram.Text.Utf8.{rune_tail, valid_string, is_control}

-- A control rune other than a line feed and a tab.
unfoldable pub is_dropped : Text → Bool
unfolding is_control
is_dropped [] = false
is_dropped (b ∷ s) = is_control (b ∷ s) && not (eqb b 10) && not (eqb b 9)

-- strings.Map with the mapping of the source: a dropped rune disappears, and a byte of no rune
-- becomes U+FFFD. `n` bytes of the current rune are left, kept or not.
unfoldable pub map_from : ℕ → Bool → Text → Text
unfolding rune_tail is_dropped
map_from n keep [] = []
map_from (suc n) keep (b ∷ s) = let rest = map_from n keep s in if keep then b ∷ rest else rest
map_from zero keep (b ∷ s) = elim (rune_tail b s) [
  | none ↦ 0xEF ∷ 0xBF ∷ 0xBD ∷ map_from 0 true s
  | some n ↦
      let kept = b ∷ map_from n true s in
      let dropped = map_from n false s in if is_dropped (b ∷ s) then dropped else kept
]

unfoldable pub drop_controls : Text → Text
unfolding map_from
drop_controls s = map_from 0 true s

-- s[:n], shortened byte by byte while it is not valid UTF-8.
unfoldable pub longest_valid : ℕ → Text → Text
unfolding valid_string
longest_valid zero s = []
longest_valid (suc n) s =
    let shorter = longest_valid n s in
    if valid_string (take (suc n) s) then take (suc n) s else shorter
