-- ===== src/Adapter/Http.antt =====
-- internal/adapter/server.go: reading a body, decoding a single JSON value, and the lock of a chat.
-- A decoder of encoding/json and a reader are parameters: what they give is part of the input.
pub mod Bounds
use orka_gateway_telegram.Prelude.{
  ℕ, suc, ◌+◌, ◌-◌, ◌%◌, ◌≤◌, ◌<◌, ◌≡◌, refl, Bool, true, false, not, ◌&&◌, Option, none, some,
  List, [], ◌∷◌, Text, ltb, length, take, arith, if◌then◌else◌, Bool-cases, inl, inr, zero,
}
use orka_gateway_telegram.Prelude.Int.{ℤ, pos, negsuc, is_negative}

-- What a reader gives: its bytes, and whether it fails after them instead of ending.
pub record Reader : Type 0 where
  pub content : Text
  pub broken : Bool

abbrev pub max_int64 : ℕ
max_int64 = 9223372036854775807

-- `limit + 1` for an int64 that is not negative: the largest one wraps to a negative number, of
-- which io.LimitReader reads nothing.
unfoldable pub read_limit : ℕ → ℕ
read_limit limit = if ltb limit max_int64 then suc limit else 0

-- io.LimitReader stops after its number of bytes and does not meet a failure behind them.
unfoldable pub read_bounded_body : Reader → ℕ → Option Text
read_bounded_body reader limit =
    let body = take (read_limit limit) reader.content in
    if reader.broken && ltb (length reader.content) (read_limit limit)
    then none
    else if ltb limit (length body)
    then none
    else some body

-- The outcome of a Decode that follows the first one.
pub data Extra : Type 0 where
  end_of_file another_value bad_value : Extra

-- `decode` gives the first value, with unknown fields disallowed or not, and the bytes after it.
pub record Decoder (A : Type 0) : Type 0 where
  pub decode : Bool → Text → Option (A × Text)
  pub decode_extra : Text → Extra

unfoldable pub decode_single_json : {A : Type 0} → Decoder A → Text → Bool → Option A
decode_single_json d body disallow_unknown = elim (d.decode disallow_unknown body) [
  | none ↦ none
  | some (value, rest) ↦ elim (d.decode_extra rest) [
    | end_of_file ↦ some value
    | another_value ↦ none
    | bad_value ↦ none
  ]
]

abbrev pub chat_locks : ℕ
chat_locks = 64

-- Go's % keeps the sign of the chat ID.
unfoldable pub remainder : ℤ → ℕ → ℤ
remainder (pos n) m = pos (n % m)
remainder (negsuc n) m = elim (suc n % m) [ zero ↦ pos 0 | suc k ↦ negsuc k ]

unfoldable pub lock_index : ℤ → ℤ
lock_index chat_id = elim (remainder chat_id chat_locks) [
  | pos n ↦ pos n
  | negsuc k ↦ pos (chat_locks - suc k)
]
