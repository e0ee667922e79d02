-- ===== src/Util/Retry.antt =====
-- How often `retry` of util.go calls its function, and what it returns.
use snmpclient.Prelude.{
  ℕ, zero, suc, ◌+◌, ◌-◌, ◌≤◌, ◌<◌, ◌≡◌, refl, true, false, Bool-cases, inl, inr, Option, none,
  some, Error, arith, ◌⊎◌, ap, ◌∙◌, ◌==◌, ==_iff, net, not_in_time_window,
}
use snmpclient.Prelude.Int.{pos}
use snmpclient.Util.{retriable, unwrapped, retry_from, retry}

-- The calls from the `i`-th on that lead to the result `e` after `k` calls.
pub record IsRun (f : ℕ → Option Error) (i n : ℕ) (e : Option Error) (k : ℕ) : Type 0 where
  pub some_call : i < k
  pub few_calls : k ≤ i + n
  pub all_retriable : (j : ℕ) → i ≤ j → suc j < k → retriable (f j) ≡ true
  pub last_call : e ≡ unwrapped (f (k - 1))
  pub stopped : k < i + n → retriable (f (k - 1)) ≡ false

unwrapped_plain : (e : Option Error) → retriable e ≡ false → e ≡ unwrapped e
unfolding retriable unwrapped
unwrapped_plain (some (net b)) h = refl
unwrapped_plain (some not_in_time_window) h = ground arith
unwrapped_plain _ h = refl

-- The first call is the last: its error is not retriable, or no round is left.
one_call :
    (f : ℕ → Option Error) (i n : ℕ) (e : Option Error)
    → e ≡ unwrapped (f i)
    → (suc i < i + suc n → retriable (f i) ≡ false)
    → IsRun f i (suc n) e (suc i)
one_call f i n e last stop =
    let here : suc i - 1 ≡ i = omega arith in
    record {
      some_call = omega arith;
      few_calls = omega arith;
      all_retriable = λ j lo hi. absurd (omega arith);
      last_call = rw here last;
      stopped = rw here stop;
    }

more_calls :
    (f : ℕ → Option Error) (i n : ℕ) (e : Option Error) (k : ℕ)
    → retriable (f i) ≡ true
    → IsRun f (suc i) n e k
    → IsRun f i (suc n) e k
more_calls f i n e k again r = record {
  some_call = omega (arith, r.some_call);
  few_calls = omega (arith, r.few_calls);
  all_retriable = λ j lo hi. elim (Bool-cases (j == i)) [
    | inl same ↦ ap (λ x. retriable (f x)) ((==_iff j i).0 same) ∙ again
    | inr other ↦ r.all_retriable j (ground arith) hi
  ];
  last_call = r.last_call;
  stopped = λ h. r.stopped (omega arith);
}

retry_from-IsRun :
    (n i : ℕ) (f : ℕ → Option Error) (e : Option Error)
    → IsRun f i (suc n) (retry_from (suc n) i f e).0 (retry_from (suc n) i f e).1
unfolding retry_from
retry_from-IsRun zero i f e = by_test (Bool-cases (retriable (f i)))
  where
    by_test :
        (retriable (f i) ≡ true) ⊎ (retriable (f i) ≡ false)
        → IsRun f i 1 (retry_from 1 i f e).0 (retry_from 1 i f e).1
    by_test (inl again) =
        rw again (one_call f i 0 (unwrapped (f i)) refl (λ h. absurd (omega arith)))
    by_test (inr done) = rw done (one_call f i 0 (f i) (unwrapped_plain (f i) done) (λ _. done))
retry_from-IsRun (suc n) i f e =
    by_test (retry_from-IsRun n (suc i) f (unwrapped (f i))) (Bool-cases (retriable (f i)))
  where
    by_test :
        IsRun f
          (suc i)
          (suc n)
          (retry_from (suc n) (suc i) f (unwrapped (f i))).0
          (retry_from (suc n) (suc i) f (unwrapped (f i))).1
        → (retriable (f i) ≡ true) ⊎ (retriable (f i) ≡ false)
        → IsRun f i
            (suc (suc n))
            (retry_from (suc (suc n)) i f e).0
            (retry_from (suc (suc n)) i f e).1
    by_test rest (inl again) = rw again (more_calls f i (suc n) _ _ again rest)
    by_test rest (inr done) =
        rw done (one_call f i (suc n) (f i) (unwrapped_plain (f i) done) (λ _. done))

-- `retry` with a number of retries that is not negative calls its function at least once and at
-- most once more than that number. Every call but the last gave an error to retry after; the last
-- gave what is returned, unwrapped; and it stops early only at a result that is not to be retried.
pub retry-IsRun :
    (retries : ℕ) (f : ℕ → Option Error)
    → IsRun f 0 (suc retries) (retry (pos retries) f).0 (retry (pos retries) f).1
unfolding retry
retry-IsRun retries f = retry_from-IsRun retries 0 f none
