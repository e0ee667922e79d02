-- ===== src/Util/Tests.antt =====
-- Runs of the helpers, and the theorems at concrete arguments.
use snmpclient.Prelude.{
  ℕ, ◌%◌, ◌≤◌, ◌<◌, ◌≡◌, ◌↔◌, refl, Option, none, some, [], ◌∷◌, ◌++◌, Bytes, All, Error, net,
  not_in_time_window, response, true, ok, arith, length, ltb, if◌then◌else◌,
}
use snmpclient.Prelude.Int.{pos}
use snmpclient.Golang.Hex.{encode_to_string}
use snmpclient.Variable.{max_int32}
use snmpclient.Util.{retry, message_ids, engine_id_to_bytes, padding}
use snmpclient.Util.Retry.{IsRun, retry-IsRun}
use snmpclient.Util.Values.{message_ids_bound, engine_id_lem, padding_lem}

-- Two timeouts, then success.
abbrev flaky : ℕ → Option Error
flaky i = if ltb i 2 then some (net true) else none

retry-flaky : retry (pos 5) flaky ≡ (none, 3)
unfolding retry
retry-flaky = refl

retry_exhausted : retry (pos 1) (λ i. some not_in_time_window) ≡ (some response, 2)
unfolding retry
retry_exhausted = refl

retry-IsRun_example : IsRun flaky 0 6 (retry (pos 5) flaky).0 (retry (pos 5) flaky).1
retry-IsRun_example = retry-IsRun 5 flaky

message_ids_bound_example : All (λ n. n < max_int32) (message_ids 2147483646 (7 ∷ 9 ∷ []))
message_ids_bound_example =
    message_ids_bound 2147483646 (7 ∷ 9 ∷ []) (omega arith) (omega arith, (omega arith, tt))

-- `random.Int31()` may draw the greatest int32, and the next identifier is above it.
identifier_overflow : message_ids 2147483646 (2147483647 ∷ 9 ∷ []) ≡ 2147483647 ∷ 2147483648 ∷ []
unfolding message_ids
identifier_overflow = refl

abbrev five : Bytes
five = 1 ∷ 2 ∷ 3 ∷ 4 ∷ 5 ∷ []

engine_id_lem_example :
    (engine_id_to_bytes (encode_to_string five) ≡ ok five)
    ↔ ((5 ≤ length five) × (length five ≤ 32))
engine_id_lem_example =
    engine_id_lem five (omega arith, (omega arith, (omega arith, (omega arith, (omega arith, tt)))))

padding_lem_example :
    (p : Bytes) × (padding (1 ∷ 2 ∷ 3 ∷ []) 8 ≡ ok ((1 ∷ 2 ∷ 3 ∷ []) ++ p))
    × (length ((1 ∷ 2 ∷ 3 ∷ []) ++ p) % 8 ≡ 0)
    × (1 ≤ length p)
    × (length p ≤ 8)
    × All (λ (x : ℕ). x ≡ 0) p
padding_lem_example = padding_lem (1 ∷ 2 ∷ 3 ∷ [])
