-- ===== src/Webhooks/Queue.antt =====
-- BullMQ's worker, which runs the processor of src/modules/integrations/webhooks, as its documentation
-- has it: a parameter.
use corporate_lawyers_backen.Prelude.{ℕ, zero, suc, ◌<◌, Bool, true, false, ◌≡◌}

-- What `count` attempts leave, the first of them with the number `made` of earlier ones.
abbrev pub attempted {ℓ} :
    {S : Type ℓ} → ((attempts_made : ℕ) → S → S × Bool) → (made count : ℕ) → S → S
attempted processor made zero s = s
attempted processor made (suc count) s = attempted processor (suc made) count (processor made s).0

-- Whether the attempt after `n` others ends without throwing.
abbrev pub ends_well {ℓ} : {S : Type ℓ} → ((attempts_made : ℕ) → S → S × Bool) → (n : ℕ) → S → Bool
ends_well processor n s = (processor n (attempted processor 0 n s)).1

-- `run attempts processor s` is what is left of a job with the option `attempts`, and whether it
-- is completed. A job is processed until an attempt ends without throwing, and then it is completed; a
-- job all of whose `attempts` attempts have thrown has failed. `attemptsMade` is the number of earlier
-- attempts.
pub record Queue (S : Type 0) : Type 0 where
  pub run : (attempts : ℕ) → ((attempts_made : ℕ) → S → S × Bool) → S → S × Bool
  pub completes :
      (attempts : ℕ) (processor : (attempts_made : ℕ) → S → S × Bool) (s : S) (n : ℕ)
      → n < attempts
      → ((m : ℕ) → m < n → ends_well processor m s ≡ false)
      → ends_well processor n s ≡ true
      → run attempts processor s ≡ (attempted processor 0 (suc n) s, true)
  pub gives_up :
      (attempts : ℕ) (processor : (attempts_made : ℕ) → S → S × Bool) (s : S)
      → ((m : ℕ) → m < attempts → ends_well processor m s ≡ false)
      → run attempts processor s ≡ (attempted processor 0 attempts s, false)
