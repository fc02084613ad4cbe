-- ===== src/Telegram/Mapping/Texts.antt =====
-- internal/telegram/mapping.go: validMessageText and ignorableMessageText.
use orka_gateway_telegram.Prelude.{
  ℕ, ◌≡◌, refl, Bool, true, false, not, ◌&&◌, ◌||◌, List, [], ◌∷◌, Text, arith, if◌then◌else◌,
}
use orka_gateway_telegram.Text.Runes.{Unicode, runes}
use orka_gateway_telegram.Telegram.Mapping.{
  is_refused_control, is_visible, visible_text, invisible_text, is_malformed_text,
  valid_message_text, ignorable_message_text,
}

-- Some rune passes the test.
unfoldable pub some_rune : (ℕ → Bool) → List ℕ → Bool
some_rune p [] = false
some_rune p (r ∷ rs) = p r || some_rune p rs

step_visible :
    (refused visible seen refused' visible' rest : Bool)
    → rest ≡ (not refused' && ((seen || visible) || visible'))
    → (if refused then false else rest)
      ≡ (not (refused || refused') && (seen || (visible || visible')))
step_visible true v s r' v' rest h = refl
step_visible false true true r' v' rest h = h
step_visible false true false r' v' rest h = h
step_visible false false true r' v' rest h = h
step_visible false false false r' v' rest h = h

step_invisible :
    (refused visible refused' visible' rest : Bool)
    → rest ≡ (not refused' && not visible')
    → (if refused || visible then false else rest)
      ≡ (not (refused || refused') && not (visible || visible'))
step_invisible true v r' v' rest h = refl
step_invisible false true true v' rest h = refl
step_invisible false true false v' rest h = refl
step_invisible false false r' v' rest h = h

module _ (u : Unicode) where
  visible_text_lem :
      (rs : List ℕ) (seen : Bool)
      → visible_text u seen rs
        ≡ (not (some_rune is_refused_control rs) && (seen || some_rune (is_visible u) rs))
  unfolding visible_text some_rune
  visible_text_lem [] true = refl
  visible_text_lem [] false = refl
  visible_text_lem (r ∷ rs) seen =
      step_visible (is_refused_control r) (is_visible u r) seen (some_rune is_refused_control rs)
        (some_rune (is_visible u) rs) _ (visible_text_lem rs (seen || is_visible u r))

  invisible_text_lem :
      (rs : List ℕ)
      → invisible_text u rs
        ≡ (not (some_rune is_refused_control rs) && not (some_rune (is_visible u) rs))
  unfolding invisible_text some_rune
  invisible_text_lem [] = refl
  invisible_text_lem (r ∷ rs) =
      step_invisible (is_refused_control r) (is_visible u r) (some_rune is_refused_control rs)
        (some_rune (is_visible u) rs) _ (invisible_text_lem rs)

  -- A message text is valid if it is well formed, has no refused control character and has a visible
  -- rune; it is ignorable if it is well formed, has no refused control character and has none.
  pub text_checks_lem :
      (text : Text)
      → (valid_message_text u text ≡ (
          not (is_malformed_text text)
          && (not (some_rune is_refused_control (runes text))
              && some_rune (is_visible u) (runes text))))
        × (ignorable_message_text u text ≡ (
            not (is_malformed_text text)
            && (not (some_rune is_refused_control (runes text))
                && not (some_rune (is_visible u) (runes text)))))
  unfolding valid_message_text ignorable_message_text
  text_checks_lem text = (
    ground (arith, visible_text_lem (runes text) false),
    ground (arith, invisible_text_lem (runes text)),
  )
