-- ===== src/Store/Responses.antt =====
-- internal/store/updates.go: the stored responses.
pub mod Deliveries
pub mod History
use orka_gateway_telegram.Prelude.{
  ℕ, ◌≡◌, ◌≢◌, refl, sym, subst, ap, ◌∙◌, Bool, true, false, not, ◌||◌, none, some, List, [], ◌∷◌,
  arith, Text, ltb, length, ℕ_discrete, Option-cases, Bool-cases, inl, inr, ◌==◌,
}
use orka_gateway_telegram.Prelude.Int.{ℤ}
use orka_gateway_telegram.Text.Json
use orka_gateway_telegram.Text.Json.Compact.{compact-ne}
use orka_gateway_telegram.Store.Types.{UpdateRecord, Call, Result, ok, err, not_found}
use orka_gateway_telegram.Store.Table.{ℕ-key, find, insert, modify, Table, find-insert, find-modify}
use orka_gateway_telegram.Store.Db.{UpdateRow, Db}
use orka_gateway_telegram.Store.Exec.{Exec, lift, ◌>>=◌}
use orka_gateway_telegram.Store.Keeps.{Keeps, Keeps-bind, Keeps-transaction, keeps_rules}
use orka_gateway_telegram.Store.Updates.{
  normalize_orka_response, insert_update, set_response, answered, admit, create_body, create_update,
  save_body, save_update_response,
}

-- No update has an empty response.
abbrev pub Genuine : Db → Type 0
Genuine db = (u : ℕ) (row : UpdateRow) → find u db.updates ≡ some row → row.orka_response ≢ some []

normalize_orka_response-ne : (response t : Text) → normalize_orka_response response ≡ ok t → t ≢ []
unfolding normalize_orka_response
normalize_orka_response-ne response t h = ground (arith, compact-ne response)

Genuine-insert :
    (id : ℕ) (row : UpdateRow) (db : Db)
    → row.orka_response ≡ none
    → Genuine db
    → Genuine (record db { updates = insert id row db.updates })
Genuine-insert id row db e g = λ u r h k. elim (ℕ_discrete id u) [
  | yes p ↦
      let same : some row ≡ some r = ground (arith, find-insert u id row db.updates) in ground arith
  | no p ↦ g u r (ground (arith, find-insert u id row db.updates)) k
]

Genuine-answer :
    (id : ℕ) (response : Text) (now : ℕ) (db : Db)
    → response ≢ []
    → Genuine db
    → Genuine (record db { updates = modify id (answered response now) db.updates })
Genuine-answer id response now db ne g = λ u r h k. elim (ℕ_discrete id u) [
  | yes p ↦ elim (Option-cases (find u db.updates)) [
    | inl e ↦ ground (arith, find-modify u id (answered response now) db.updates)
    | inr (old, e) ↦
        let same : some (answered response now old) ≡ some r =
          ground (arith, find-modify u id (answered response now) db.updates) in
        ne (ground arith)
  ]
  | no p ↦ g u r (ground (arith, find-modify u id (answered response now) db.updates)) k
]

insert_update-Genuine :
    (id : ℕ) (row : UpdateRow) → row.orka_response ≡ none → Keeps Genuine (insert_update id row)
unfolding insert_update
insert_update-Genuine id row e = record {
  at = λ db g. elim (Option-cases (find id db.updates)) [
    | inl n ↦ rw (n, insert_update) (Genuine-insert id row db e g)
    | inr (r, n) ↦ rw (n, insert_update) g
  ];
}

set_response-Genuine :
    (id : ℕ) (digest response : Text) (now : ℕ)
    → response ≢ []
    → Keeps Genuine (set_response id digest response now)
unfolding set_response
set_response-Genuine id digest response now ne = record {
  at = λ db g. elim (Option-cases (find id db.updates)) [
    | inl e ↦ rw (e, set_response) g
    | inr (r, e) ↦ elim (Option-cases r.orka_response) [
      | inr (old, e') ↦ rw (e, e', set_response) g
      | inl e' ↦ elim (Bool-cases (r.digest == digest)) [
        | inl d ↦ rw (e, e', d, set_response) (Genuine-answer id response now db ne g)
        | inr d ↦ rw (e, e', d, set_response) g
      ]
    ]
  ];
}

admit-Genuine :
    (call : Call) (id : ℕ) (digest : Text) (found : Result UpdateRecord)
    → Keeps Genuine (admit call id digest found)
unfolding admit
admit-Genuine call id digest (ok r) = search keeps_rules
admit-Genuine call id digest (err not_found) =
    Keeps-bind _ _ (insert_update-Genuine id _ refl) (λ a. search keeps_rules)
admit-Genuine call id digest (err e) = search keeps_rules

create_body-Genuine :
    (call : Call) (id : ℕ) (digest : Text) → Keeps Genuine (create_body call id digest)
unfolding create_body
create_body-Genuine call id digest = search (keeps_rules, admit-Genuine)

pub create_update-Genuine :
    (call : Call) (u : ℤ) (digest : Text) → Keeps Genuine (create_update call u digest)
unfolding create_update
create_update-Genuine call u digest = search (keeps_rules, create_body-Genuine) depth 8

save_body-Genuine :
    (call : Call) (id : ℕ) (digest response : Text)
    → response ≢ []
    → Keeps Genuine (save_body call id digest response)
unfolding save_body
save_body-Genuine call id digest response ne = search (keeps_rules, set_response-Genuine) depth 9

-- The argument checks, with the equation for what they give.
Keeps-lift_bind :
    {A B : Type 0} (P : Db → Type 0) (r : Result A) (f : A → Exec B)
    → ((a : A) → r ≡ ok a → Keeps P (f a))
    → Keeps P (lift r >>= f)
unfolding ◌>>=◌ lift
Keeps-lift_bind P (ok a) f h = record { at = (h a refl).at }
Keeps-lift_bind P (err e) f h = record { at = λ db p. p }

pub save_update_response-Genuine :
    (call : Call) (u : ℤ) (digest response : Text)
    → Keeps Genuine (save_update_response call u digest response)
unfolding save_update_response
save_update_response-Genuine call u digest response = Keeps-lift_bind Genuine _ _ (λ id _.
    Keeps-lift_bind Genuine _ _ (λ d _.
      Keeps-lift_bind Genuine (normalize_orka_response response) _ (λ t e.
        let ne = normalize_orka_response-ne response t e in
        Keeps-transaction call _ (save_body-Genuine call id d t ne))))
