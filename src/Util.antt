-- ===== src/Util.antt =====
-- The helpers of util.go: retries, message identifiers, padding, and the names of versions, levels
-- and protocols.
pub mod Retry
pub mod Values
mod Tests
use snmpclient.Prelude.{
  ℕ, zero, suc, ◌+◌, ◌-◌, ◌%◌, ◌^◌, ◌≡◌, Bool, true, false, ◌||◌, Option, none, some, List, [], ◌∷◌,
  ◌++◌, Bytes, Error, net, not_in_time_window, response, generic, argument, Outcome, ok, err, panic,
  ◌>>=◌, or_err, one_of, length, replicate, ltb, ◌==◌, if◌then◌else◌,
}
use snmpclient.Prelude.Int.{ℤ, pos, negsuc}
use snmpclient.Golang.Hex.{decode_string}
use snmpclient.Variable.{max_int32}
use snmpclient.Pdu.{get_request, get_next_request, set_request, get_bulk_request, inform_request}

-- The errors after which `retry` calls again: a `net.Error` with a timeout, and a report that the
-- time was out of the window, whose `ResponseError` is what is left of it.
unfoldable pub retriable : Option Error → Bool
retriable (some (net timeout)) = timeout
retriable (some not_in_time_window) = true
retriable _ = false

unfoldable pub unwrapped : Option Error → Option Error
unwrapped (some not_in_time_window) = some response
unwrapped e = e

-- The loop of `retry` with the rounds left and the number of calls made. `f i` is what the call
-- after `i` others returns, `none` for nil.
unfoldable pub retry_from : ℕ → ℕ → (ℕ → Option Error) → Option Error → Option Error × ℕ
unfolding retriable unwrapped
retry_from zero i f e = (e, i)
retry_from (suc rounds) i f e =
    let again = retry_from rounds (suc i) f (unwrapped (f i)) in
    if retriable (f i) then again else (f i, suc i)

-- The error returned, and the number of calls.
unfoldable pub retry : ℤ → (ℕ → Option Error) → Option Error × ℕ
unfolding retry_from
retry (pos retries) f = retry_from (suc retries) 0 f none
retry (negsuc n) f = (none, 0)

-- `genMessageId` on the number `mesId` kept, with what `random.Int31()` would draw. The new `mesId`
-- is what it returns.
unfoldable pub gen_message_id : ℕ → ℕ → ℕ
gen_message_id mes_id drawn = if mes_id + 1 == max_int32 then drawn else mes_id + 1

-- The identifiers of consecutive calls.
unfoldable pub message_ids : ℕ → List ℕ → List ℕ
unfolding gen_message_id
message_ids mes_id [] = []
message_ids mes_id (drawn ∷ more) = let id = gen_message_id mes_id drawn in id ∷ message_ids id more

unfoldable pub confirmed_type : ℕ → Bool
confirmed_type t =
    (t == get_request)
    || (t == get_next_request)
    || (t == set_request)
    || (t == get_bulk_request)
    || (t == inform_request)

unfoldable pub engine_id_to_bytes : Bytes → Outcome Bytes
engine_id_to_bytes engine_id = do
  b ← or_err (decode_string engine_id) argument
  if ltb (length b) 5 || ltb 32 (length b) then err argument else ok b

-- A size of 0 divides by zero.
unfoldable pub padding : Bytes → ℕ → Outcome Bytes
padding b zero = panic
padding b (suc n) = ok (b ++ replicate (suc n - length b % suc n) 0)

-- The numbers of the constants V1, V2c and V3.
unfoldable pub parse_version : Bytes → Outcome ℤ
unfolding one_of
parse_version v =
    if one_of v ("v1" ∷ "V1" ∷ "1" ∷ [])
    then ok (pos 0)
    else if one_of v ("v2" ∷ "V2" ∷ "v2c" ∷ "V2C" ∷ "2" ∷ "2c" ∷ "2C" ∷ [])
    then ok (pos 1)
    else if one_of v ("v3" ∷ "V3" ∷ "3" ∷ [])
    then ok (pos 3)
    else err generic
