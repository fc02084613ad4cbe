-- ===== src/Store/Table.antt =====
-- A table with a primary key, as a list of rows; at most the first row of a key counts.
use mathlib.Core.Option
use orka_gateway_telegram.Prelude.{
  ℕ, ℕ_discrete, ◌≡◌, refl, Bool, true, false, Option, none, some, List, [], ◌∷◌, arith, Text,
  Text-discrete, if◌then◌else◌,
}

pub record Key (K : Type 0) : Type 0 where
  pub discrete : Discrete K

instance abbrev pub Text-key : Key Text
Text-key = record { discrete = Text-discrete }

instance abbrev pub ℕ-key : Key ℕ
ℕ-key = record { discrete = ℕ_discrete }

abbrev pub same_key : {K : Type 0} ⦃e : Key K⦄ → K → K → Bool
same_key ⦃e⦄ a b = elim (e.discrete a b) [ yes _ ↦ true | no _ ↦ false ]

abbrev pub Table : Type 0 → Type 0 → Type 0
Table K V = List (K × V)

module _ {K V : Type 0} ⦃e : Key K⦄ where
  unfoldable pub find : K → Table K V → Option V
  find k [] = none
  find k ((j, v) ∷ t) = if same_key j k then some v else find k t

  unfoldable pub insert : K → V → Table K V → Table K V
  insert k v t = (k, v) ∷ t

  unfoldable pub modify : K → (V → V) → Table K V → Table K V
  modify k f [] = []
  modify k f ((j, v) ∷ t) = (j, if same_key j k then f v else v) ∷ modify k f t

  unfoldable pub modify_all : (V → V) → Table K V → Table K V
  modify_all f [] = []
  modify_all f ((j, v) ∷ t) = (j, f v) ∷ modify_all f t

  pub find-insert :
      (j k : K) (v : V) (t : Table K V)
      → find j (insert k v t) ≡ (if same_key k j then some v else find j t)
  unfolding find insert
  find-insert j k v t = refl

  pub find-modify :
      (j k : K) (f : V → V) (t : Table K V)
      → find j (modify k f t) ≡ (if same_key k j then Option.map f (find j t) else find j t)
  unfolding find modify
  find-modify j k f [] = ground arith
  find-modify j k f ((i, v) ∷ t) = ground (arith, find-modify j k f t)

  pub find-modify_all :
      (j : K) (f : V → V) (t : Table K V) → find j (modify_all f t) ≡ Option.map f (find j t)
  unfolding find modify_all
  find-modify_all j f [] = refl
  find-modify_all j f ((i, v) ∷ t) = ground (arith, find-modify_all j f t)

pub ruleset table_laws = (find-insert, find-modify, find-modify_all)
