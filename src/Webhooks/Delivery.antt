-- ===== src/Webhooks/Delivery.antt =====
-- What the attempts of a delivery record (webhook-dispatcher.processor.ts, run by a queue under the
-- options of webhook.module.ts).
use corporate_lawyers_backen.Prelude.{
  ℕ, zero, suc, ◌+◌, ◌<◌, Bool, true, false, Option, none, some, List, [], ◌∷◌, ◌++◌, ◌≡◌, refl,
  sym, ap, ◌∙◌, ◌⊎◌, inl, inr, not, ◌==◌, map, append-nil, append_assoc, Bool-cases, ==_eq, arith,
}
use corporate_lawyers_backen.Webhooks.{
  WebhookDelivery, Job, Store, Reply, answered, broken, is_success, record_delivery, process,
  max_attempts,
}
use corporate_lawyers_backen.Webhooks.Queue.{Queue, attempted, ends_well}

abbrev pub succeeds : Reply → Bool
succeeds (answered status) = is_success status
succeeds (broken own_words) = false

abbrev pub status_of : Reply → Option ℕ
status_of (answered status) = some status
status_of (broken own_words) = none

-- An error of the network, as against one that the code takes for its own.
abbrev pub is_plain : Reply → Bool
is_plain (answered status) = true
is_plain (broken own_words) = not own_words

-- The record of an attempt, the first being number 0.
abbrev pub delivery_of : Job → (ℕ → Reply) → ℕ → WebhookDelivery
delivery_of job reply n = record {
  endpoint_id = job.endpoint_id;
  event = job.event;
  status_code = status_of (reply n);
  attempts = n + 1;
  success = succeeds (reply n);
}

-- `from`, `from + 1`, …, `count` numbers.
abbrev pub numbers_from : (from count : ℕ) → List ℕ
numbers_from from zero = []
numbers_from from (suc count) = from ∷ numbers_from (suc from) count

process_reply :
    (job : Job) (made : ℕ) (r : Reply) (s : Store)
    → is_plain r ≡ true
    → process job made r s ≡ (record_delivery job made (status_of r) (succeeds r) s, succeeds r)
unfolding process
process_reply job made (answered status) s h = refl
process_reply job made (broken true) s h = ground arith
process_reply job made (broken false) s h = refl

module _ (job : Job) (reply : ℕ → Reply) (plain : (m : ℕ) → is_plain (reply m) ≡ true) where
  -- The processor of the job, when the attempt after `n` others ends as `reply n`.
  abbrev pub attempt : (attempts_made : ℕ) → Store → Store × Bool
  attempt attempts_made = process job attempts_made (reply attempts_made)

  -- The records of `count` attempts, from the number `made` on.
  abbrev pub recorded : (made count : ℕ) → Store → Store
  recorded made count s = record s {
    deliveries = s.deliveries ++ map (delivery_of job reply) (numbers_from made count);
  }

  attempted-recorded :
      (made count : ℕ) (s : Store) → attempted attempt made count s ≡ recorded made count s
  attempted-recorded made zero s =
      ap (λ ds. record s { deliveries = ds }) (sym (append-nil s.deliveries))
  attempted-recorded made (suc count) s =
      ap (λ (p : Store × Bool). attempted attempt (suc made) count p.0)
        (process_reply job made (reply made) s (plain made))
      ∙ attempted-recorded (suc made) count
          (record s { deliveries = s.deliveries ++ delivery_of job reply made ∷ [] })
      ∙ ap (λ ds. record s { deliveries = ds })
          (append_assoc s.deliveries (delivery_of job reply made ∷ []) _)

  ends_well-succeeds : (n : ℕ) (s : Store) → ends_well attempt n s ≡ succeeds (reply n)
  ends_well-succeeds n s =
      ap (λ (p : Store × Bool). p.1)
        (process_reply job n (reply n) (attempted attempt 0 n s) (plain n))

-- The attempts that are answered badly, or not at all, up to a number.
abbrev pub AllFail : (ℕ → Reply) → (to : ℕ) → Type 0
AllFail reply to = (m : ℕ) → m < to → succeeds (reply m) ≡ false

first_success :
    (reply : ℕ → Reply) (to : ℕ)
    → ((n : ℕ) × (n < to) × AllFail reply n × (succeeds (reply n) ≡ true)) ⊎ AllFail reply to
first_success reply zero = inr (λ m h. absurd (omega arith))
first_success reply (suc to) = elim (first_success reply to) [
  | inl (n, below, fails, done) ↦ inl (n, omega arith, fails, done)
  | inr fails ↦ elim (Bool-cases (succeeds (reply to))) [
    | inl done ↦ inl (to, omega arith, fails, done)
    | inr failed ↦ inr λ m h. elim (Bool-cases (m == to)) [
      | inl same ↦ ap (λ m. succeeds (reply m)) (==_eq m to same) ∙ failed
      | inr other ↦ fails m (ground arith)
    ]
  ]
]

-- A delivery under any queue that keeps its documentation. Each attempt leaves one record, under its
-- number and with its outcome, and there are at most five. If one of the first five attempts is
-- answered with a status from 200 to 299, the first such attempt is the last one and the job is
-- completed; if none is, all five are recorded as failed and the job has failed. No error of the network
-- starts with the words of the code's own.
pub process-attempts :
    (queue : Queue Store) (job : Job) (reply : ℕ → Reply) (s : Store)
    → ((m : ℕ) → is_plain (reply m) ≡ true)
    → let ended = queue.run max_attempts (λ made. process job made (reply made)) s in
      ((n : ℕ) × (n < 5)
        × AllFail reply n
        × (succeeds (reply n) ≡ true)
        × (ended ≡ (
          record s {
            deliveries = s.deliveries ++ map (delivery_of job reply) (numbers_from 0 (n + 1));
          },
          true,
        )))
      ⊎ AllFail reply 5
        × (ended ≡ (
          record s { deliveries = s.deliveries ++ map (delivery_of job reply) (numbers_from 0 5) },
          false,
        ))
process-attempts queue job reply s plain =
    let processor = attempt job reply plain in
    let well : (n : ℕ) → ends_well processor n s ≡ succeeds (reply n) =
      λ n. ends_well-succeeds job reply plain n s in
    elim (first_success reply 5) [
      | inl (n, below, fails, done) ↦ inl (
        n,
        below,
        fails,
        done,
        queue.completes 5 processor s n below (λ m h. well m ∙ fails m h) (well n ∙ done)
            ∙ ap (λ t. (t, true)) (attempted-recorded job reply plain 0 (suc n) s)
            ∙ ap (λ c. (recorded job reply plain 0 c s, true)) (one_more n),
      )
      | inr fails ↦ inr (
        fails,
        queue.gives_up 5 processor s (λ m h. well m ∙ fails m h)
            ∙ ap (λ t. (t, false)) (attempted-recorded job reply plain 0 5 s),
      )
    ]
  where
    one_more : (n : ℕ) → suc n ≡ n + 1
    one_more n = omega arith
