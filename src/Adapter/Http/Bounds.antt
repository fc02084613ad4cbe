-- ===== src/Adapter/Http/Bounds.antt =====
-- internal/adapter/server.go: the bounds of a body and of a lock's index.
use orka_gateway_telegram.Prelude.{
  ℕ, zero, suc, ◌-◌, ◌%◌, ◌≤◌, ◌<◌, ◌≡◌, refl, ap, sym, ◌∙◌, true, none, some, [], ◌∷◌, Text, ltb,
  length, take, arith, if◌then◌else◌, Bool-cases, inl, inr,
}
use orka_gateway_telegram.Prelude.Int.{ℤ, pos, negsuc}
use orka_gateway_telegram.Adapter.Http.{
  Reader, max_int64, read_limit, read_bounded_body, remainder, lock_index, chat_locks,
}

take-whole : (n : ℕ) (s : Text) → length s ≤ n → take n s ≡ s
take-whole zero [] h = refl
take-whole zero (b ∷ s) h = ground arith
take-whole (suc n) [] h = refl
take-whole (suc n) (b ∷ s) h = rw (take-whole n s (omega arith)) refl

length-take-suc : (n : ℕ) (s : Text) → n < length s → length (take (suc n) s) ≡ suc n
length-take-suc n [] h = omega arith
length-take-suc zero (b ∷ s) h = refl
length-take-suc (suc n) (b ∷ s) h = let e = length-take-suc n s (omega arith) in omega arith

read_limit-suc : (limit : ℕ) → limit < max_int64 → read_limit limit ≡ suc limit
unfolding read_limit
read_limit-suc limit h = ground arith

-- With a limit below the largest int64, a bounded read gives the whole content, if that is within
-- the limit and the reader does not fail, and otherwise it is an error.
pub read_bounded_body_lem :
    (reader : Reader) (limit : ℕ)
    → limit < max_int64
    → read_bounded_body reader limit ≡ (
        if reader.broken
        then none
        else if ltb limit (length reader.content)
        then none
        else some reader.content)
unfolding read_bounded_body
read_bounded_body_lem reader limit below =
    let n = read_limit-suc limit below in
    elim (Bool-cases (ltb limit (length reader.content))) [
      | inl over ↦
          let e = length-take-suc limit reader.content (ground arith) in
          let over' : ltb limit (length (take (suc limit) reader.content)) ≡ true =
            ground (arith, e) in
          rw n (ground (arith, over'))
      | inr within ↦
          let e = take-whole (suc limit) reader.content (ground arith) in rw n (ground (arith, e))
    ]

-- The remainder that is never negative.
unfoldable pub euclidean : ℤ → ℕ → ℕ
euclidean (pos n) m = n % m
euclidean (negsuc n) m = (m - 1) - n % m

index_of : ℕ → ℤ
index_of zero = pos 0
index_of (suc k) = pos (chat_locks - suc k)

negative-index : (n : ℕ) → lock_index (negsuc n) ≡ index_of (suc n % chat_locks)
unfolding lock_index remainder index_of
negative-index n = go (suc n % chat_locks)
  where
    go :
        (k : ℕ)
        → elim (elim k as (λ _. ℤ) [ zero ↦ pos 0 | suc j ↦ negsuc j ]) as (λ _. ℤ) [
          | pos j ↦ pos j
          | negsuc j ↦ pos (chat_locks - suc j)
        ]
          ≡ index_of k
    go zero = refl
    go (suc j) = refl

index_of-euclidean : (n r : ℕ) → r ≡ suc n % 64 → index_of r ≡ pos (63 - n % 64)
unfolding index_of
index_of-euclidean n zero e = let k : 63 - n % 64 ≡ 0 = omega arith in ap pos (sym k)
index_of-euclidean n (suc j) e = let k : 63 - n % 64 ≡ 64 - suc j = omega arith in ap pos (sym k)

-- The lock of a chat is that of the chat ID modulo the number of locks, taken so that it is not
-- negative, and its index is less than that number.
pub lock_index_lem :
    (chat_id : ℤ)
    → (lock_index chat_id ≡ pos (euclidean chat_id chat_locks))
      × (euclidean chat_id chat_locks < chat_locks)
unfolding lock_index remainder euclidean
lock_index_lem (pos n) = (refl, omega arith)
lock_index_lem (negsuc n) = (negative-index n ∙ index_of-euclidean n (suc n % 64) refl, omega arith)
