-- ===== src/Channel/Requests/Retrying.antt =====
-- The loops of request_builder_with_retries.rs and
-- request_builder_with_input_stream_with_retires.rs, over the call that they repeat.
use my_grpc_extensions.Prelude.{
  ℕ, zero, suc, ◌+◌, Outcome, returned, failed, panicked, out_of_fuel, leb, if◌then◌else◌,
}

-- The `match` of each retry loop; `attempt_no` is the count before it, `again` the next round.
unfoldable pub after_call {κ} :
    {A E : Type 0} {S : Type κ} (max_attempts_amount attempt_no : ℕ)
    → Outcome A E × S
    → (S → Outcome A E × S)
    → Outcome A E × S
after_call max_attempts_amount attempt_no (returned response, s) again = (returned response, s)
after_call max_attempts_amount attempt_no (failed e, s) again =
    if leb max_attempts_amount (attempt_no + 1) then (failed e, s) else again s
after_call max_attempts_amount attempt_no (panicked, s) again = (panicked, s)
after_call max_attempts_amount attempt_no (out_of_fuel, s) again = (out_of_fuel, s)

unfoldable pub retry_loop {κ} :
    {A E : Type 0} {S : Type κ} (max_attempts_amount : ℕ)
    → (S → Outcome A E × S)
    → ℕ
    → ℕ
    → S
    → Outcome A E × S
retry_loop max_attempts_amount call zero attempt_no s = (out_of_fuel, s)
retry_loop max_attempts_amount call (suc fuel) attempt_no s =
    after_call max_attempts_amount attempt_no (call s)
      (retry_loop max_attempts_amount call fuel (attempt_no + 1))

-- One round more than the attempts allowed is enough, also for 0 attempts, which make one.
unfoldable pub with_fuel {κ} :
    {A E : Type 0} {S : Type κ} (max_attempts_amount : ℕ)
    → (S → Outcome A E × S)
    → S
    → Outcome A E × S
with_fuel max_attempts_amount call = retry_loop max_attempts_amount call (max_attempts_amount + 1) 0
