-- ===== src/Webhooks/Ping.antt =====
-- `testPing` of webhook.service.ts, which dispatches an event like any other.
use corporate_lawyers_backen.Prelude.{
  ℕ, Bool, false, some, List, [], ◌∷◌, ◌++◌, ◌≡◌, ◌≢◌, refl, ap, ◌∙◌, inl, inr, ◌==◌, find, select,
  map, count_where, count_where-append, All, Keyed, find-key, find_holds, Bool-cases, ==_eq, arith,
}
use mathlib.Core.Path.{subst}
use corporate_lawyers_backen.World.{ok, ◌>>=◌, ◌>>◌}
use corporate_lawyers_backen.Webhooks.{
  WebhookEndpoint, Job, Store, is_live_at, subscribed, job_for, dispatch, find_one, ping, test_ping,
}

abbrev pub is_for : ℕ → Job → Bool
is_for id job = job.endpoint_id == id

none_apart :
    (event id : ℕ) (es : List WebhookEndpoint)
    → All (λ (e : WebhookEndpoint). id ≢ e.id) es
    → count_where (is_for id) (map (job_for event) (select (subscribed event) es)) ≡ 0
none_apart event id [] h = refl
none_apart event id (e ∷ es) (h, hs) = elim (Bool-cases (subscribed event e)) [
  | inl on ↦ rw on (ground (arith, none_apart event id es hs))
  | inr off ↦ rw off (none_apart event id es hs)
]

none_queued :
    (event : ℕ) (es : List WebhookEndpoint) (e : WebhookEndpoint)
    → Keyed (λ (e : WebhookEndpoint). e.id) es
    → find (λ x. x.id == e.id) es ≡ some e
    → subscribed event e ≡ false
    → count_where (is_for e.id) (map (job_for event) (select (subscribed event) es)) ≡ 0
none_queued event [] e keyed found off = ground arith
none_queued event (x ∷ es) e (apart, keyed) found off = elim (Bool-cases (x.id == e.id)) [
  | inl here ↦
      let same : x ≡ e = some_eq (rw here at found) in
      rw (ap (subscribed event) same ∙ off) (
        none_apart event e.id es
          (subst (λ n. All (λ (y : WebhookEndpoint). n ≢ y.id) es) (==_eq x.id e.id here) apart))
  | inr there ↦ elim (Bool-cases (subscribed event x)) [
    | inl on ↦ rw on (ground (arith, none_queued event es e keyed))
    | inr quiet ↦ rw quiet (none_queued event es e keyed (ground arith) off)
  ]
]
  where
    some_eq : {a b : WebhookEndpoint} → some a ≡ some b → a ≡ b
    some_eq h = cc

-- The test of an endpoint that is switched off or has not subscribed to 'ping' answers as if it had
-- gone well, and puts no delivery to that endpoint into the queue. The endpoints have different ids.
pub test_ping-unsubscribed :
    (id : ℕ) (s : Store) (e : WebhookEndpoint)
    → Keyed (λ (e : WebhookEndpoint). e.id) s.endpoints
    → find (is_live_at id) s.endpoints ≡ some e
    → subscribed ping e ≡ false
    → (s' : Store) × (test_ping id s ≡ ok tt s')
      × (count_where (is_for id) s'.queue ≡ count_where (is_for id) s.queue)
unfolding test_ping find_one dispatch
test_ping-unsubscribed id s e keyed found off =
    let here : e.id ≡ id =
      ground (arith, ==_eq e.id id, find_holds (is_live_at id) s.endpoints e found) in
    let there = find-key (λ e. e.id) (is_live_at id) s.endpoints e keyed found in
    let jobs = map (job_for ping) (select (subscribed ping) s.endpoints) in
    (
      record s { queue = s.queue ++ jobs },
      rw (found, ◌>>=◌, ◌>>◌) refl,
      count_where-append (is_for id) s.queue jobs
          ∙ rw (← here) (omega (arith, none_queued ping s.endpoints e keyed there off)),
    )
