-- ===== src/Webhooks.antt =====
-- src/modules/integrations/webhooks: webhook.service.ts, webhook-dispatcher.service.ts and
-- webhook-dispatcher.processor.ts, with the options of the queue in webhook.module.ts.
pub mod Queue
pub mod Delivery
pub mod Ping
use corporate_lawyers_backen.Prelude.{
  ℕ, zero, suc, ◌+◌, Bool, true, false, Option, none, some, List, [], ◌∷◌, ◌++◌, not, ◌&&◌, ◌==◌,
  ltb, leb, if◌then◌else◌, is_some, or_else, set_if, find, select, update_where, includes, map,
  sort_desc,
}
use corporate_lawyers_backen.World.{HttpError, Ended, ok, err, ◌>>=◌, ◌>>◌, pure, need, get, modify}
use corporate_lawyers_backen.Paging.{Meta, page}

-- An event is the number of its name.
pub record WebhookEndpoint : Type 0 where
  pub id : ℕ
  pub url : ℕ
  pub secret : ℕ
  pub events : List ℕ
  pub is_active : Bool
  pub description : Option ℕ
  pub created_by_id : ℕ
  pub deleted_at : Option ℕ

-- `payload`, `response` and `lastError` are left out.
pub record WebhookDelivery : Type 0 where
  pub endpoint_id : ℕ
  pub event : ℕ
  pub status_code : Option ℕ
  pub attempts : ℕ
  pub success : Bool

-- `WebhookDeliveryJobData`, without the payload.
pub record Job : Type 0 where
  pub endpoint_id : ℕ
  pub endpoint_url : ℕ
  pub endpoint_secret : ℕ
  pub event : ℕ

pub record Store : Type 0 where
  pub endpoints : List WebhookEndpoint
  pub deliveries : List WebhookDelivery
  pub queue : List Job

pub record CreateWebhookDto : Type 0 where
  pub url : ℕ
  pub events : List ℕ
  pub description : Option ℕ

pub record UpdateWebhookDto : Type 0 where
  pub url : Option ℕ
  pub events : Option (List ℕ)
  pub description : Option ℕ
  pub is_active : Option Bool

abbrev pub is_live_at : ℕ → WebhookEndpoint → Bool
is_live_at id e = e.id == id && not (is_some e.deleted_at)

-- `where: { isActive: true, deletedAt: null, events: { has: event } }`
abbrev pub subscribed : (event : ℕ) → WebhookEndpoint → Bool
subscribed event e = e.is_active && (not (is_some e.deleted_at) && includes e.events event)

abbrev pub job_for : (event : ℕ) → WebhookEndpoint → Job
job_for event e = record {
  endpoint_id = e.id;
  endpoint_url = e.url;
  endpoint_secret = e.secret;
  event = event;
}

unfoldable pub dispatch : (event : ℕ) → Store → Ended Store (Unit {0})
dispatch event =
    modify λ s. record s {
      queue = s.queue ++ map (job_for event) (select (subscribed event) s.endpoints);
    }

-- `secret` is random.
unfoldable pub create :
    (new_id secret : ℕ) → CreateWebhookDto → (user_id : ℕ) → Store → Ended Store (Unit {0})
create new_id secret dto user_id = modify λ s. record s {
  endpoints =
      s.endpoints
      ++ record {
        id = new_id;
        url = dto.url;
        secret = secret;
        events = dto.events;
        is_active = true;
        description = dto.description;
        created_by_id = user_id;
        deleted_at = none;
      }
        ∷ [];
}

-- What a listing selects of an endpoint: not its secret.
pub record ListedEndpoint : Type 0 where
  pub id : ℕ
  pub url : ℕ
  pub events : List ℕ
  pub is_active : Bool
  pub description : Option ℕ
  pub created_by_id : ℕ

abbrev pub listed : WebhookEndpoint → ListedEndpoint
listed e = record {
  id = e.id;
  url = e.url;
  events = e.events;
  is_active = e.is_active;
  description = e.description;
  created_by_id = e.created_by_id;
}

abbrev pub is_active_if : Option Bool → Bool → Bool
is_active_if none b = true
is_active_if (some a) b = if a then b else not b

abbrev pub subscribes_if : Option ℕ → List ℕ → Bool
subscribes_if none ns = true
subscribes_if (some event) ns = includes ns event

unfoldable pub find_all :
    (order_by : List WebhookEndpoint → List WebhookEndpoint)
    → (is_active : Option Bool) (event limit offset : Option ℕ) → Store
    → List ListedEndpoint × Meta
find_all order_by is_active event limit offset s =
    let (rows, meta) = page limit offset (
      order_by (
        select
          (λ e.
            not (is_some e.deleted_at)
            && (is_active_if is_active e.is_active && subscribes_if event e.events))
          s.endpoints)) in
    (map listed rows, meta)

unfoldable pub find_one : ℕ → Store → Ended Store WebhookEndpoint
find_one id = do s ← get; need (find (is_live_at id) s.endpoints) HttpError.not_found

abbrev pub edited : UpdateWebhookDto → WebhookEndpoint → WebhookEndpoint
edited dto e = record e {
  url = or_else dto.url e.url;
  events = or_else dto.events e.events;
  description = set_if dto.description e.description;
  is_active = or_else dto.is_active e.is_active;
}

unfoldable pub update : ℕ → UpdateWebhookDto → Store → Ended Store (Unit {0})
update id dto = do
  find_one id
  modify λ s. record s { endpoints = update_where (λ e. e.id == id) (edited dto) s.endpoints }

unfoldable pub remove : (now : ℕ) → ℕ → Store → Ended Store (Unit {0})
remove now id = do
  find_one id
  modify λ s. record s {
    endpoints =
        update_where (λ e. e.id == id) (λ e. record e { deleted_at = some now }) s.endpoints;
  }

-- `createdAt` of a delivery is its place in the table.
unfoldable pub get_deliveries :
    (order_by : List WebhookDelivery → List WebhookDelivery) (limit offset : Option ℕ)
    → ℕ
    → Store
    → Ended Store (List WebhookDelivery × Meta)
get_deliveries order_by limit offset id = do
  find_one id
  s ← get
  pure (page limit offset (order_by (select (λ d. d.endpoint_id == id) s.deliveries)))

-- The event 'ping'.
abbrev pub ping : ℕ
ping = 0

unfoldable pub test_ping : ℕ → Store → Ended Store (Unit {0})
test_ping id = do find_one id; dispatch ping

-- How the call of `axios.post` ends: with a status, or with an error, whose message may happen to
-- start with the words by which the code knows its own.
pub data Reply : Type 0 where
  answered : ℕ → Reply
  broken : (own_words : Bool) → Reply

abbrev pub is_success : ℕ → Bool
is_success status = leb 200 status && ltb status 300

abbrev pub record_delivery : Job → (attempts_made : ℕ) → Option ℕ → Bool → Store → Store
record_delivery job attempts_made status_code success s = record s {
  deliveries =
      s.deliveries
      ++ record {
        endpoint_id = job.endpoint_id;
        event = job.event;
        status_code = status_code;
        attempts = attempts_made + 1;
        success = success;
      }
        ∷ [];
}

-- `process`: the store, and whether it ended without throwing.
unfoldable pub process : Job → (attempts_made : ℕ) → Reply → Store → Store × Bool
process job attempts_made (answered status) s =
    (record_delivery job attempts_made (some status) (is_success status) s, is_success status)
process job attempts_made (broken true) s = (s, false)
process job attempts_made (broken false) s = (record_delivery job attempts_made none false s, false)

-- `attempts` of the queue's options.
abbrev pub max_attempts : ℕ
max_attempts = 5
