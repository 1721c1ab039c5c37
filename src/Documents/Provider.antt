-- ===== src/Documents/Provider.antt =====
-- `createRequest` of signature.service.ts while the provider of signatures fails.
use corporate_lawyers_backen.Prelude.{
  ℕ, suc, ◌+◌, ◌<◌, none, some, List, [], ◌∷◌, ◌++◌, ◌≡◌, refl, ap, ◌∙◌, find, length, arith,
}
use corporate_lawyers_backen.World.{HttpError, err, ◌>>=◌, ◌>>◌, final}
use corporate_lawyers_backen.Breaker.{
  CircuitState, CircuitBreaker, Ending, failure, execute, admit, on_failure,
}
use corporate_lawyers_backen.Breaker.Recovery.{failed, fail_times, fail_times-trips, execute-open}
use corporate_lawyers_backen.Documents.{Document, Store, is_live_at}
use corporate_lawyers_backen.Documents.Signatures.{
  Signer, SignatureResult, create_request, call_provider,
}

failure-counts :
    (t : ℕ) (b : CircuitBreaker)
    → b.state ≡ CircuitState.closed
    → suc b.failure_count < b.failure_threshold
    → let b' = (execute t t failed none b).0 in
      (b'.state ≡ CircuitState.closed)
      × (b'.failure_count ≡ suc b.failure_count)
      × (b'.failure_threshold ≡ b.failure_threshold)
unfolding execute admit on_failure
failure-counts t b closed left = ground arith

failure-timeout :
    (t : ℕ) (b : CircuitBreaker)
    → (execute t t failed none b).0.recovery_timeout_ms ≡ b.recovery_timeout_ms
unfolding execute admit on_failure
failure-timeout t b = ground arith

fail_times-timeout :
    (ts : List ℕ) (b : CircuitBreaker)
    → (fail_times ts b).recovery_timeout_ms ≡ b.recovery_timeout_ms
unfolding fail_times
fail_times-timeout [] b = refl
fail_times-timeout (t ∷ ts) b = fail_times-timeout ts _ ∙ failure-timeout t b

module _ (document_id : ℕ) (signers : List Signer) (user_id : ℕ) where
  -- Requests for a signature during which the provider fails, each at its time.
  abbrev pub failing : List ℕ → Store → Store
  failing [] s = s
  failing (t ∷ ts) s = failing ts (final (create_request t t failure document_id signers user_id s))

  failing-append :
      (ts : List ℕ) (t : ℕ) (s : Store)
      → failing (ts ++ t ∷ []) s
        ≡ final (create_request t t failure document_id signers user_id (failing ts s))
  failing-append [] t s = refl
  failing-append (u ∷ ts) t s = failing-append ts t _

  request-fails :
      (t : ℕ) (s : Store) (d : Document)
      → find (is_live_at document_id) s.documents ≡ some d
      → s.breaker.state ≡ CircuitState.closed
      → create_request t t failure document_id signers user_id s
        ≡ err HttpError.internal_error
            (record s { breaker = (execute t t failed none s.breaker).0 })
  unfolding create_request call_provider execute admit
  request-fails t s d found closed = rw (found, closed, ◌>>=◌, ◌>>◌) refl

  failing-fail_times :
      (ts : List ℕ) (s : Store) (d : Document)
      → find (is_live_at document_id) s.documents ≡ some d
      → s.breaker.state ≡ CircuitState.closed
      → s.breaker.failure_count + length ts < s.breaker.failure_threshold
      → failing ts s ≡ record s { breaker = fail_times ts s.breaker }
  unfolding fail_times
  failing-fail_times [] s d found closed left = refl
  failing-fail_times (t ∷ ts) s d found closed left =
      let b' = (execute t t failed none s.breaker).0 in
      let (closed', counted, same) = failure-counts t s.breaker closed (omega arith) in
      rw (request-fails t s d found closed, final)
        (failing-fail_times ts (record s { breaker = b' }) d found closed' (omega arith))

  -- While the provider fails, the requests for signatures that reach the threshold of the breaker open
  -- it: `ts` and `t` are the times of as many failing requests in a row as are left to the threshold.
  -- Until the timeout after the last one every further request on the document is refused with 503,
  -- however the provider would answer, and changes nothing; and no signature was made on the way.
  pub create_request-trips :
      (ts : List ℕ) (t : ℕ) (s : Store) (d : Document)
      → find (is_live_at document_id) s.documents ≡ some d
      → s.breaker.state ≡ CircuitState.closed
      → s.breaker.failure_count + length ts + 1 ≡ s.breaker.failure_threshold
      → let s' = failing (ts ++ t ∷ []) s in
        (s'.signatures ≡ s.signatures)
        × ((now later : ℕ) (answer : Ending SignatureResult)
            → now < t + s.breaker.recovery_timeout_ms
            → create_request now later answer document_id signers user_id s'
              ≡ err HttpError.service_unavailable s')
  unfolding create_request call_provider
  create_request-trips ts t s d found closed left =
      let (still, counted, opened, last) = fail_times-trips ts t s.breaker closed left in
      let b' = (execute t t failed none (fail_times ts s.breaker)).0 in
      let ended =
        failing-append ts t s
        ∙ ap (λ s. final (create_request t t failure document_id signers user_id s))
            (failing-fail_times ts s d found closed (omega arith))
        ∙ ap final
            (request-fails t (record s { breaker = fail_times ts s.breaker }) d found still) in
      rw ended (
        refl,
        λ now later answer early.
            rw
              (
                found,
                execute-open now later answer none b' opened (
                    omega (
                      arith,
                      last,
                      failure-timeout t (fail_times ts s.breaker),
                      fail_times-timeout ts s.breaker,
                    )),
                ◌>>=◌,
                ◌>>◌,
              )
              refl,
      )
