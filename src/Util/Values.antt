-- ===== src/Util/Values.antt =====
-- Bounds of what the helpers of util.go compute.
use snmpclient.Prelude.{
  ℕ, zero, suc, ◌-◌, ◌%◌, ◌≤◌, ◌<◌, ◌≡◌, ◌↔◌, refl, List, [], ◌∷◌, ◌++◌, Bytes, All, ok, arith,
  length, length-append, length-replicate, replicate,
}
use snmpclient.Golang.Hex.{encode_to_string, decode_string-encode_to_string, IsByte}
use snmpclient.Variable.{max_int32}
use snmpclient.Util.{gen_message_id, message_ids, engine_id_to_bytes, padding}

-- Every identifier that `genMessageId` gives is below the greatest int32, if the number kept is
-- and every number drawn is.
pub message_ids_bound :
    (mes_id : ℕ) (drawn : List ℕ)
    → mes_id < max_int32
    → All (λ n. n < max_int32) drawn
    → All (λ n. n < max_int32) (message_ids mes_id drawn)
unfolding message_ids gen_message_id
message_ids_bound mes_id [] h _ = tt
message_ids_bound mes_id (n ∷ more) h (hn, all) =
    let bound : gen_message_id mes_id n < max_int32 = ground arith in
    (bound, message_ids_bound (gen_message_id mes_id n) more bound all)

-- `engineIdToBytes` reads the hexadecimal text of bytes back, exactly if there are 5 to 32 of them.
pub engine_id_lem :
    (b : Bytes)
    → All IsByte b
    → (engine_id_to_bytes (encode_to_string b) ≡ ok b) ↔ ((5 ≤ length b) × (length b ≤ 32))
unfolding engine_id_to_bytes
engine_id_lem b h = rw (decode_string-encode_to_string b h) (ground arith)

-- `padding` to blocks of 8 bytes keeps the bytes, makes a length of whole blocks, and adds 1 to 8
-- bytes, so that bytes of whole blocks get one more.
pub padding_lem :
    (b : Bytes)
    → (p : Bytes) × (padding b 8 ≡ ok (b ++ p))
      × (length (b ++ p) % 8 ≡ 0)
      × (1 ≤ length p)
      × (length p ≤ 8)
      × All (λ (x : ℕ). x ≡ 0) p
unfolding padding
padding_lem b =
    let n : ℕ = 8 - length b % 8 in
    (
      replicate n 0,
      refl,
      omega (arith, length-append b (replicate n 0), length-replicate {A = ℕ} n 0),
      omega (arith, length-replicate {A = ℕ} n 0),
      omega (arith, length-replicate {A = ℕ} n 0),
      zeros n,
    )
  where
    zeros : (n : ℕ) → All (λ (x : ℕ). x ≡ 0) (replicate n 0)
    zeros zero = tt
    zeros (suc n) = (refl, zeros n)
