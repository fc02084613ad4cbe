-- ===== src/Store/Extends.antt =====
-- internal/store: how the database may change from one state to a later one.
pub mod Tables
pub mod Statements
pub mod Operations
pub mod Updates
use mathlib.Core.Option
use orka_gateway_telegram.Prelude.{
  ℕ, ◌≤◌, ◌≡◌, refl, ◌∙◌, Bool, true, false, Option, none, some, arith, Text, if◌then◌else◌, max,
}
use orka_gateway_telegram.Store.Types.{
  DeliveryState, sending, retryable, same_state, DeliveryState-discrete, terminal, Result, ok, err,
  provider_cooldown_scope,
}
use orka_gateway_telegram.Store.Table.{
  Key, Text-key, ℕ-key, find, insert, modify, modify_all, find-insert, find-modify, find-modify_all,
  table_laws,
}
use orka_gateway_telegram.Store.Db.{UpdateRow, DeliveryRow, IdempotencyRow, Db}

-- A delivery keeps its digest and its creation time.
pub record SameRequest (a b : DeliveryRow) : Type 0 where
  pub digest : b.request_digest ≡ a.request_digest
  pub created : b.created_at_ms ≡ a.created_at_ms

-- An update keeps its digest, and the response that was saved for it.
pub record SameUpdate (a b : UpdateRow) : Type 0 where
  pub digest : b.digest ≡ a.digest
  pub created : b.created_at_ms ≡ a.created_at_ms
  pub response : (t : Text) → a.orka_response ≡ some t → b.orka_response ≡ some t

pub record Extends (a b : Db) : Type 0 where
  -- a terminal delivery is not touched
  pub settled :
      (d : Text) (row : DeliveryRow)
      → find d a.deliveries ≡ some row
      → terminal row.state ≡ true
      → find d b.deliveries ≡ some row
  pub delivery :
      (d : Text) (row : DeliveryRow)
      → find d a.deliveries ≡ some row
      → (row' : DeliveryRow) × (find d b.deliveries ≡ some row') × SameRequest row row'
  pub identity :
      (d : Text) (row : IdempotencyRow)
      → find d a.idempotency ≡ some row
      → find d b.idempotency ≡ some row
  pub alias : (i d : Text) → find i a.aliases ≡ some d → find i b.aliases ≡ some d
  -- the bot's cooldown is not shortened
  pub cooldown :
      (t : ℕ)
      → find provider_cooldown_scope a.cooldowns ≡ some t
      → (t' : ℕ) × (find provider_cooldown_scope b.cooldowns ≡ some t') × (t ≤ t')
  pub update :
      (u : ℕ) (row : UpdateRow)
      → find u a.updates ≡ some row
      → (row' : UpdateRow) × (find u b.updates ≡ some row') × SameUpdate row row'

pub SameRequest-refl : (a : DeliveryRow) → SameRequest a a
SameRequest-refl a = record { digest = refl; created = refl }

pub SameUpdate-refl : (a : UpdateRow) → SameUpdate a a
SameUpdate-refl a = record { digest = refl; created = refl; response = λ t h. h }

pub Extends-refl : (a : Db) → Extends a a
Extends-refl a = record {
  settled = λ d row h t. h;
  delivery = λ d row h. (row, h, SameRequest-refl row);
  identity = λ d row h. h;
  alias = λ i d h. h;
  cooldown = λ t h. (t, h, omega arith);
  update = λ u row h. (row, h, SameUpdate-refl row);
}

SameRequest-trans : {a b c : DeliveryRow} → SameRequest a b → SameRequest b c → SameRequest a c
SameRequest-trans p q = record { digest = q.digest ∙ p.digest; created = q.created ∙ p.created }

SameUpdate-trans : {a b c : UpdateRow} → SameUpdate a b → SameUpdate b c → SameUpdate a c
SameUpdate-trans p q = record {
  digest = q.digest ∙ p.digest;
  created = q.created ∙ p.created;
  response = λ t h. q.response t (p.response t h);
}

pub Extends-trans : {a b c : Db} → Extends a b → Extends b c → Extends a c
Extends-trans p q = record {
  settled = λ d row h t. q.settled d row (p.settled d row h t) t;
  delivery = λ d row h.
      let (row₁, h₁, s₁) = p.delivery d row h in
      let (row₂, h₂, s₂) = q.delivery d row₁ h₁ in (row₂, h₂, SameRequest-trans s₁ s₂);
  identity = λ d row h. q.identity d row (p.identity d row h);
  alias = λ i d h. q.alias i d (p.alias i d h);
  cooldown = λ t h.
      let (t₁, h₁, le₁) = p.cooldown t h in
      let (t₂, h₂, le₂) = q.cooldown t₁ h₁ in (t₂, h₂, omega arith);
  update = λ u row h.
      let (row₁, h₁, s₁) = p.update u row h in
      let (row₂, h₂, s₂) = q.update u row₁ h₁ in (row₂, h₂, SameUpdate-trans s₁ s₂);
}
