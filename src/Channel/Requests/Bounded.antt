-- ===== src/Channel/Requests/Bounded.antt =====
-- A retry loop ends, and makes `max_attempts_amount` calls at most, but one at least.
use my_grpc_extensions.Prelude.{
  ℕ, zero, suc, ◌+◌, ◌-◌, ◌≤◌, ◌<◌, ◌≡◌, refl, ap, ◌∙◌, fun_ext, Outcome, returned, failed,
  panicked, out_of_fuel, arith,
}
use my_grpc_extensions.Channel.Attempts.{on_failure, first_ok, Tries, first_ok-Tries}
use my_grpc_extensions.Channel.Requests.Retrying.{after_call, retry_loop, with_fuel}

module _ {κ} {A E : Type 0} {S : Type κ} where
  after_call-on_failure :
      (max n : ℕ) (r : Outcome A E × S) (again : S → Outcome A E × S)
      → n + 1 < max
      → after_call max n r again ≡ on_failure r again
  unfolding after_call
  after_call-on_failure max n (returned a, s) again h = refl
  after_call-on_failure max n (failed e, s) again h = ground arith
  after_call-on_failure max n (panicked, s) again h = refl
  after_call-on_failure max n (out_of_fuel, s) again h = refl

  after_call_last :
      (max n : ℕ) (r : Outcome A E × S) (again : S → Outcome A E × S)
      → max ≤ n + 1
      → after_call max n r again ≡ r
  unfolding after_call
  after_call_last max n (returned a, s) again h = refl
  after_call_last max n (failed e, s) again h = ground arith
  after_call_last max n (panicked, s) again h = refl
  after_call_last max n (out_of_fuel, s) again h = refl

  retry_loop-first_ok :
      (max : ℕ) (call : S → Outcome A E × S) (left fuel n : ℕ) (s : S)
      → left < fuel
      → max - (n + 1) ≡ left
      → retry_loop max call fuel n s ≡ first_ok left call s
  unfolding retry_loop first_ok
  retry_loop-first_ok max call left zero n s h e = absurd (omega arith)
  retry_loop-first_ok max call zero (suc fuel) n s h e =
      after_call_last max n (call s) _ (omega arith)
  retry_loop-first_ok max call (suc left) (suc fuel) n s h e =
      after_call-on_failure max n (call s) _ (omega arith)
      ∙ ap (on_failure (call s)) (
          fun_ext λ t. retry_loop-first_ok max call left fuel (n + 1) t (omega arith) (omega arith))

  pub with_fuel-first_ok :
      (max : ℕ) (call : S → Outcome A E × S) (s : S)
      → with_fuel max call s ≡ first_ok (max - 1) call s
  unfolding with_fuel
  with_fuel-first_ok max call s =
      retry_loop-first_ok max call (max - 1) (max + 1) 0 s (omega arith) (omega arith)

  pub with_fuel-Tries :
      (max : ℕ) (call : S → Outcome A E × S) (s : S)
      → Tries call (suc (max - 1)) s (with_fuel max call s)
  with_fuel-Tries max call s = rw with_fuel-first_ok (first_ok-Tries (max - 1) call s)
