-- ===== src/Channel/Attempts.antt =====
-- A call that is made again while it fails, at most a given number of times: what the connection
-- loops and the request builders with retries promise.
use my_grpc_extensions.Prelude.{
  ℕ, zero, suc, ◌+◌, ◌<◌, ◌≡◌, refl, sym, Bool, true, false, Outcome, returned, failed, panicked,
  out_of_fuel, arith,
}

abbrev pub is_failed {ℓ} : {A E : Type ℓ} → Outcome A E → Bool
is_failed (failed e) = true
is_failed _ = false

module _ {ℓ κ} {A E : Type ℓ} {S : Type κ} where
  abbrev pub on_failure : Outcome A E × S → (S → Outcome A E × S) → Outcome A E × S
  on_failure (failed e, s) again = again s
  on_failure (returned a, s) again = (returned a, s)
  on_failure (panicked, s) again = (panicked, s)
  on_failure (out_of_fuel, s) again = (out_of_fuel, s)

  -- `call`, and again up to `n` times while it fails
  unfoldable pub first_ok : ℕ → (S → Outcome A E × S) → S → Outcome A E × S
  first_ok zero call s = call s
  first_ok (suc n) call s = on_failure (call s) (first_ok n call)

  -- `n` calls in a row fail, and lead from one state to the other.
  pub data Fails (call : S → Outcome A E × S) : ℕ → S → S → Type (ℓ ⊔ κ) where
    here : {s : S} → Fails call zero s s
    more :
        {n : ℕ} {s t u : S} (e : E)
        → call s ≡ (failed e, t)
        → Fails call n t u
        → Fails call (suc n) s u

  -- The result is that of one call, after some that failed: `limit` calls at most in all, and
  -- an error only when all `limit` calls were made.
  pub record Tries (call : S → Outcome A E × S) (limit : ℕ) (s : S) (result : Outcome A E × S)
      : Type (ℓ ⊔ κ) where
    pub failures : ℕ
    pub last : S
    pub within : failures < limit
    pub failing : Fails call failures s last
    pub result_is : result ≡ call last
    pub gives_up : is_failed result.0 ≡ true → failures + 1 ≡ limit

  on_failure-Tries :
      (n : ℕ) (call : S → Outcome A E × S) (s : S) (r : Outcome A E × S)
      → call s ≡ r
      → ((t : S) → Tries call (suc n) t (first_ok n call t))
      → Tries call (suc (suc n)) s (on_failure r (first_ok n call))
  on_failure-Tries n call s (failed e, t) h rest =
      let later = rest t in
      record {
        failures = suc later.failures;
        last = later.last;
        within = omega (arith, later.within);
        failing = more e h later.failing;
        result_is = later.result_is;
        gives_up = λ f. omega (arith, later.gives_up f);
      }
  on_failure-Tries n call s (returned a, t) h rest = record {
    failures = 0;
    last = s;
    within = omega arith;
    failing = here;
    result_is = sym h;
    gives_up = λ f. cc;
  }
  on_failure-Tries n call s (panicked, t) h rest = record {
    failures = 0;
    last = s;
    within = omega arith;
    failing = here;
    result_is = sym h;
    gives_up = λ f. cc;
  }
  on_failure-Tries n call s (out_of_fuel, t) h rest = record {
    failures = 0;
    last = s;
    within = omega arith;
    failing = here;
    result_is = sym h;
    gives_up = λ f. cc;
  }

  pub first_ok-Tries :
      (n : ℕ) (call : S → Outcome A E × S) (s : S) → Tries call (suc n) s (first_ok n call s)
  unfolding first_ok
  first_ok-Tries zero call s = record {
    failures = 0;
    last = s;
    within = omega arith;
    failing = here;
    result_is = refl;
    gives_up = λ f. omega arith;
  }
  first_ok-Tries (suc n) call s = on_failure-Tries n call s (call s) refl (first_ok-Tries n call)
