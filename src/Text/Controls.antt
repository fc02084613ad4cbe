-- ===== src/Text/Controls.antt =====
-- Which controls a message keeps that was made safe, byte by byte.
use orka_gateway_telegram.Prelude.{
  ℕ, zero, suc, ◌≤◌, ◌≡◌, ◌≢◌, refl, sym, ap, subst, ◌||◌, Bool, true, false, Option, none, some,
  [], ◌∷◌, ◌++◌, Text, arith, ℕ_discrete, ◌∙◌, Bool-cases, inl, inr, if◌then◌else◌,
}
use orka_gateway_telegram.Text.Utf8.{Tail, lead, continues, rune_tail, is_control, contains_func}
use orka_gateway_telegram.Text.Sanitize.{is_dropped, map_from, drop_controls}

-- Whether a control is dropped depends on the byte, and after 0xC2 on the byte behind it.
is_dropped-high : (b : ℕ) (s : Text) → 0x80 ≤ b → b ≢ 0xC2 → is_dropped (b ∷ s) ≡ false
unfolding is_dropped is_control
is_dropped-high b [] h ne = ground arith
is_dropped-high b (c ∷ s) h ne = ground arith

is_dropped-low : (b : ℕ) (s t : Text) → b ≢ 0xC2 → is_dropped (b ∷ s) ≡ is_dropped (b ∷ t)
unfolding is_dropped is_control
is_dropped-low b [] [] ne = refl
is_dropped-low b [] (d ∷ t) ne = ground arith
is_dropped-low b (c ∷ s) [] ne = ground arith
is_dropped-low b (c ∷ s) (d ∷ t) ne = ground arith

lead-range : (b : ℕ) (t : Tail) → lead b ≡ some t → (0x80 ≤ t.low) × (t.high ≤ 0xBF)
unfolding lead
lead-range b t h = (ground arith, ground arith)

two_bytes : (t : Tail) → lead 0xC2 ≡ some t → t.count ≡ 1
unfolding lead
two_bytes t h = ground arith

two-front :
    (d : ℕ) (s : Text)
    → is_dropped (0xC2 ∷ d ∷ s) ≡ false
    → is_dropped (0xC2 ∷ map_from 1 true (d ∷ s)) ≡ false
unfolding is_dropped map_from
two-front d s h = h

no_byte-front : (t : Tail) → lead 0xC2 ≡ some t → continues t.count t.low t.high [] ≡ true → ⊥
unfolding continues
no_byte-front t l c = stuck t.count (two_bytes t l) c
  where
    stuck : (n : ℕ) → n ≡ 1 → continues n t.low t.high [] ≡ true → ⊥
    stuck zero e c = ground arith
    stuck (suc n) e c = cc

-- The byte behind 0xC2 is kept with it.
kept-front :
    (b : ℕ) (s : Text) (t : Tail)
    → lead b ≡ some t
    → continues t.count t.low t.high s ≡ true
    → is_dropped (b ∷ s) ≡ false
    → is_dropped (b ∷ map_from t.count true s) ≡ false
kept-front b s t l c h = elim (ℕ_discrete b 0xC2) [
  | no p ↦ is_dropped-low b _ s p ∙ h
  | yes p ↦
      let l' : lead 0xC2 ≡ some t = ap lead (sym p) ∙ l in
      let h' : is_dropped (0xC2 ∷ s) ≡ false = ap (λ x. is_dropped (x ∷ s)) (sym p) ∙ h in
      ap (λ x. is_dropped (x ∷ map_from t.count true s)) p
      ∙ ap (λ n. is_dropped (0xC2 ∷ map_from n true s)) (two_bytes t l')
      ∙ behind s l' c h'
]
  where
    behind :
        (s : Text)
        → lead 0xC2 ≡ some t
        → continues t.count t.low t.high s ≡ true
        → is_dropped (0xC2 ∷ s) ≡ false
        → is_dropped (0xC2 ∷ map_from 1 true s) ≡ false
    behind [] l c h = absurd (no_byte-front t l c)
    behind (d ∷ s) l c h = two-front d s h

rune_tail-some :
    (b : ℕ) (s : Text) (n : ℕ)
    → rune_tail b s ≡ some n
    → (t : Tail) × (lead b ≡ some t) × (t.count ≡ n) × (continues t.count t.low t.high s ≡ true)
unfolding rune_tail lead continues
rune_tail-some b s n h = go (lead b) refl h
  where
    go :
        (o : Option Tail)
        → lead b ≡ o
        → elim o as (λ _. Option ℕ) [
          | none ↦ none
          | some t ↦ if continues t.count t.low t.high s then some t.count else none
        ]
          ≡ some n
        → (t : Tail) × (lead b ≡ some t) × (t.count ≡ n) × (continues t.count t.low t.high s ≡ true)
    go none e h = cc
    go (some t) e h = elim (Bool-cases (continues t.count t.low t.high s)) [
      | inl c ↦ (t, e, ground arith, c)
      | inr c ↦ ground arith
    ]

or-false : (a b : Bool) → a ≡ false → b ≡ false → (a || b) ≡ false
or-false false false h k = refl
or-false true b h k = cc
or-false false true h k = cc

replacement :
    (s : Text)
    → contains_func is_dropped s ≡ false
    → contains_func is_dropped (0xEF ∷ 0xBF ∷ 0xBD ∷ s) ≡ false
unfolding contains_func
replacement s h = or-false _ _ (is_dropped-high 0xEF _ (omega arith) (λ e. omega arith)) (
    or-false _ _ (is_dropped-high 0xBF _ (omega arith) (λ e. omega arith))
      (or-false _ _ (is_dropped-high 0xBD _ (omega arith) (λ e. omega arith)) h))

cons-kept :
    (b : ℕ) (s : Text)
    → is_dropped (b ∷ s) ≡ false
    → contains_func is_dropped s ≡ false
    → contains_func is_dropped (b ∷ s) ≡ false
unfolding contains_func
cons-kept b s h k = or-false _ _ h k

continues-suc :
    (n lo hi b : ℕ) (s : Text)
    → continues (suc n) lo hi (b ∷ s) ≡ true
    → (lo ≤ b) × (b ≤ hi) × (continues n 0x80 0xBF s ≡ true)
unfolding continues
continues-suc n lo hi b s c = (ground arith, ground arith, ground arith)

continues-zero : (lo hi : ℕ) (s : Text) → continues 0 lo hi s ≡ true
unfolding continues
continues-zero lo hi s = refl

-- From a place inside a rune, whatever is left of it.
abbrev Kept : Text → Type 0
Kept s =
    (n lo hi : ℕ) (keep : Bool)
    → 0x80 ≤ lo
    → hi ≤ 0xBF
    → continues n lo hi s ≡ true
    → contains_func is_dropped (map_from n keep s) ≡ false

tail-kept :
    (b : ℕ) (s : Text) (t : Tail) (keep : Bool)
    → Kept s
    → lead b ≡ some t
    → continues t.count t.low t.high s ≡ true
    → contains_func is_dropped (map_from t.count keep s) ≡ false
tail-kept b s t keep more l c =
    let (low, high) = lead-range b t l in more t.count t.low t.high keep low high c

chosen-kept :
    (b : ℕ) (s : Text) (t : Tail) (dropped : Bool)
    → Kept s
    → is_dropped (b ∷ s) ≡ dropped
    → lead b ≡ some t
    → continues t.count t.low t.high s ≡ true
    → contains_func is_dropped
        (if dropped then map_from t.count false s else b ∷ map_from t.count true s)
      ≡ false
chosen-kept b s t true more e l c = tail-kept b s t false more l c
chosen-kept b s t false more e l c =
    cons-kept b (map_from t.count true s) (kept-front b s t l c e) (tail-kept b s t true more l c)

rune-kept :
    (b : ℕ) (s : Text) (o : Option ℕ)
    → Kept s
    → rune_tail b s ≡ o
    → contains_func is_dropped (elim o as (λ _. Text) [
      | none ↦ 0xEF ∷ 0xBF ∷ 0xBD ∷ map_from 0 true s
      | some n ↦ if is_dropped (b ∷ s) then map_from n false s else b ∷ map_from n true s
    ])
      ≡ false
rune-kept b s none more e =
    replacement (map_from 0 true s)
      (more 0 0x80 0xBF true (omega arith) (omega arith) (continues-zero 0x80 0xBF s))
rune-kept b s (some n) more e =
    let (t, l, same, c) = rune_tail-some b s n e in
    subst
      (λ n.
        contains_func is_dropped
          (if is_dropped (b ∷ s) then map_from n false s else b ∷ map_from n true s)
        ≡ false)
      same (chosen-kept b s t (is_dropped (b ∷ s)) more refl l c)

map_from-kept : (s : Text) → Kept s
unfolding map_from rune_tail lead continues is_dropped contains_func
map_from-kept [] zero lo hi keep l h c = refl
map_from-kept [] (suc n) lo hi keep l h c = refl
map_from-kept (b ∷ s) (suc n) lo hi true l h c =
    let (low, high, more) = continues-suc n lo hi b s c in
    cons-kept b (map_from n true s) (is_dropped-high b _ (omega arith) (λ e. omega arith))
      (map_from-kept s n 0x80 0xBF true (omega arith) (omega arith) more)
map_from-kept (b ∷ s) (suc n) lo hi false l h c =
    map_from-kept s n 0x80 0xBF false (omega arith) (omega arith) (continues-suc n lo hi b s c).2
map_from-kept (b ∷ s) zero lo hi keep l h c = rune-kept b s (rune_tail b s) (map_from-kept s) refl

-- No control is left but line feeds and tabs.
pub drop_controls-kept : (s : Text) → contains_func is_dropped (drop_controls s) ≡ false
unfolding drop_controls
drop_controls-kept s =
    map_from-kept s 0 0x80 0xBF true (omega arith) (omega arith) (continues-zero 0x80 0xBF s)

is_dropped-longer :
    (b : ℕ) (s t : Text) → is_dropped (b ∷ (s ++ t)) ≡ false → is_dropped (b ∷ s) ≡ false
unfolding is_dropped is_control
is_dropped-longer b [] [] h = h
is_dropped-longer b [] (d ∷ t) h = ground arith
is_dropped-longer b (c ∷ s) t h = h

-- The beginning of such a text is one, too.
pub append-kept :
    (s t : Text) → contains_func is_dropped (s ++ t) ≡ false → contains_func is_dropped s ≡ false
unfolding contains_func
append-kept [] t h = refl
append-kept (b ∷ s) t h =
    let (front, more) = parts (is_dropped (b ∷ (s ++ t))) (contains_func is_dropped (s ++ t)) h in
    or-false _ _ (is_dropped-longer b s t front) (append-kept s t more)
  where
    parts : (x y : Bool) → (x || y) ≡ false → (x ≡ false) × (y ≡ false)
    parts false y h = (refl, h)
    parts true y h = cc
