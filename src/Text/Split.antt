-- ===== src/Text/Split.antt =====
-- strings.Split at one byte, and the join that undoes it.
use orka_gateway_telegram.Prelude.{
  ℕ, ◌≡◌, refl, List, [], ◌∷◌, ◌++◌, eqb, Text, if◌then◌else◌, arith, Bool-cases, inl, inr,
}

-- A byte in front of the first part.
abbrev pub onto : ℕ → List Text → List Text
onto c [] = (c ∷ []) ∷ []
onto c (p ∷ ps) = (c ∷ p) ∷ ps

unfoldable pub split : ℕ → Text → List Text
split sep [] = [] ∷ []
split sep (c ∷ s) = let rest = split sep s in if eqb c sep then [] ∷ rest else onto c rest

unfoldable pub join : ℕ → List Text → Text
join sep [] = []
join sep (p ∷ []) = p
join sep (p ∷ q ∷ ps) = p ++ sep ∷ join sep (q ∷ ps)

split-ne : (sep : ℕ) (s : Text) → (p : Text) × (ps : List Text) × (split sep s ≡ p ∷ ps)
unfolding split
split-ne sep [] = ([], [], refl)
split-ne sep (c ∷ s) = elim (Bool-cases (eqb c sep)) [
  | inl e ↦ ([], split sep s, rw e)
  | inr e ↦ let (p, ps, h) = split-ne sep s in (c ∷ p, ps, rw (e, h))
]

join-onto :
    (sep c : ℕ) (p : Text) (ps : List Text) → join sep (onto c (p ∷ ps)) ≡ c ∷ join sep (p ∷ ps)
unfolding join
join-onto sep c p [] = refl
join-onto sep c p (q ∷ ps) = refl

-- Joining the parts gives the text back.
pub join-split : (sep : ℕ) (s : Text) → join sep (split sep s) ≡ s
unfolding split join
join-split sep [] = refl
join-split sep (c ∷ s) =
    let (p, ps, h) = split-ne sep s in ground (arith, h, join-split sep s, join-onto sep c p ps)
