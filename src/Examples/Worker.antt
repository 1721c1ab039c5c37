-- ===== src/Examples/Worker.antt =====
-- A worker that keeps what the queue of src/modules/integrations/webhooks documents.
use corporate_lawyers_backen.Prelude.{
  ℕ, zero, suc, ◌+◌, ◌<◌, Bool, true, false, ◌≡◌, refl, sym, ap, ◌∙◌, inl, inr, Bool-cases, ==_eq,
  ◌==◌, arith,
}
use corporate_lawyers_backen.Webhooks.Queue.{Queue, attempted, ends_well}

module _ {S : Type 0} where
  -- The attempt after `made` others, unless the job is completed.
  abbrev attempt_again : ((attempts_made : ℕ) → S → S × Bool) → (made : ℕ) → S × Bool → S × Bool
  attempt_again processor made (s, true) = (s, true)
  attempt_again processor made (s, false) = processor made s

  abbrev work : (attempts : ℕ) → ((attempts_made : ℕ) → S → S × Bool) → S → S × Bool
  work zero processor s = (s, false)
  work (suc n) processor s = attempt_again processor n (work n processor s)

  attempted-last :
      (processor : (attempts_made : ℕ) → S → S × Bool) (made count : ℕ) (s : S)
      → attempted processor made (suc count) s
        ≡ (processor (made + count) (attempted processor made count s)).0
  attempted-last processor made zero s = ap (λ n. (processor n s).0) (omega arith)
  attempted-last processor made (suc count) s =
      attempted-last processor (suc made) count (processor made s).0
      ∙ ap (λ n. (processor n (attempted processor made (suc count) s)).0) (omega arith)

  last_attempt :
      (processor : (attempts_made : ℕ) → S → S × Bool) (n : ℕ) (s : S) (done : Bool)
      → ends_well processor n s ≡ done
      → processor n (attempted processor 0 n s) ≡ (attempted processor 0 (suc n) s, done)
  last_attempt processor n s done h i = (last i, h i)
    where
      zero_plus : (n : ℕ) → n ≡ 0 + n
      zero_plus n = omega arith

      last : (processor n (attempted processor 0 n s)).0 ≡ attempted processor 0 (suc n) s
      last =
          ap (λ m. (processor m (attempted processor 0 n s)).0) (zero_plus n)
          ∙ sym (attempted-last processor 0 n s)

  work-gives_up :
      (attempts : ℕ) (processor : (attempts_made : ℕ) → S → S × Bool) (s : S)
      → ((m : ℕ) → m < attempts → ends_well processor m s ≡ false)
      → work attempts processor s ≡ (attempted processor 0 attempts s, false)
  work-gives_up zero processor s fails = refl
  work-gives_up (suc n) processor s fails =
      ap (attempt_again processor n) (work-gives_up n processor s (λ m h. fails m (omega arith)))
      ∙ last_attempt processor n s false (fails n (omega arith))

  work-completes :
      (attempts : ℕ) (processor : (attempts_made : ℕ) → S → S × Bool) (s : S) (n : ℕ)
      → n < attempts
      → ((m : ℕ) → m < n → ends_well processor m s ≡ false)
      → ends_well processor n s ≡ true
      → work attempts processor s ≡ (attempted processor 0 (suc n) s, true)
  work-completes zero processor s n below fails done = absurd (omega arith)
  work-completes (suc k) processor s n below fails done = elim (Bool-cases (n == k)) [
    | inl same ↦
        ap (attempt_again processor k) (work-gives_up k processor s (λ m h. fails m (ground arith)))
        ∙ last_attempt processor k s true
            (ap (λ m. ends_well processor m s) (sym (==_eq n k same)) ∙ done)
        ∙ ap (λ m. (attempted processor 0 (suc m) s, true)) (sym (==_eq n k same))
    | inr other ↦
        ap (attempt_again processor k) (work-completes k processor s n (ground arith) fails done)
  ]

  pub worker : Queue S
  worker = record { run = work; completes = work-completes; gives_up = work-gives_up }
