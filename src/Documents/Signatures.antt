-- ===== src/Documents/Signatures.antt =====
-- src/modules/integrations/signatures/signature.service.ts: createRequest, resendRequest,
-- cancelRequest, getDocumentSignatures and handleWebhook.
use corporate_lawyers_backen.Prelude.{
  ℕ, Bool, true, false, Option, none, some, List, [], ◌∷◌, ◌++◌, not, ◌&&◌, ◌==◌, if◌then◌else◌,
  is_some, find, select, update_where, map,
}
use corporate_lawyers_backen.World.{
  Text, text_eq, User, NotificationType, HttpError, Ended, ok, ◌>>=◌, ◌>>◌, pure, throw, guard,
  need, when, get, modify, final,
}
use corporate_lawyers_backen.Breaker.{Ending, value, failure, unavailable, execute}
use corporate_lawyers_backen.Billing.Invoices.Listing.{equals_if}
use corporate_lawyers_backen.Paging.{Meta, page}
use corporate_lawyers_backen.Documents.{
  Document, DocumentSignature, SignatureStatus, Store, resent, cancelled, requested, signed_hook,
  has_id, find_live, note,
}
use corporate_lawyers_backen.Documents.Files.{store_file, add_version}

-- `new_id` is the id of the row that the signer gets.
pub record Signer : Type 0 where
  pub new_id : ℕ
  pub name : ℕ
  pub email : Text

-- What the provider answers: the id of the envelope and the URL.
pub record SignatureResult : Type 0 where
  pub external_id : ℕ
  pub signing_url : ℕ

abbrev pub is_pending : SignatureStatus → Bool
is_pending SignatureStatus.pending = true
is_pending _ = false

-- `user.findFirst({ where: { email } })`, through the extended client
abbrev pub find_signer : Text → List User → Option User
find_signer email = find (λ u. text_eq u.email email && not (is_some u.deleted_at))

abbrev pub notify : ℕ → NotificationType → Store → Ended Store (Unit {0})
notify user_id kind = modify λ s. record s {
  notifications = s.notifications ++ record { user_id = user_id; kind = kind } ∷ [];
}

-- `if (signerUser) notificationService.send(…)`
abbrev pub notify_if : Option User → Store → Ended Store (Unit {0})
notify_if none = pure tt
notify_if (some u) = notify u.id NotificationType.email

abbrev pub notify_signers : List Signer → Store → Ended Store (Unit {0})
notify_signers [] s = ok tt s
notify_signers (signer ∷ signers) s =
    notify_signers signers (final (notify_if (find_signer signer.email s.users) s))

abbrev pub signature_of : (document_id external_id : ℕ) → Signer → DocumentSignature
signature_of document_id external_id signer = record {
  id = signer.new_id;
  document_id = document_id;
  signer_name = signer.name;
  signer_email = signer.email;
  status = SignatureStatus.pending;
  external_id = external_id;
  signed_at = none;
}

-- How the breaker's promise ends for the caller: its error, or the answer.
abbrev pub settle : Ending SignatureResult → Store → Ended Store SignatureResult
settle (value r) = pure r
settle failure = throw HttpError.internal_error
settle unavailable = throw HttpError.service_unavailable

-- `this.circuitBreaker.execute(() => this.signatureProvider.createRequest(…))`
unfoldable pub call_provider :
    (now later : ℕ) → Ending SignatureResult → Store → Ended Store SignatureResult
call_provider now later answer = do
  s ← get
  modify λ s. record s { breaker = (execute now later answer none s.breaker).0 }
  settle (execute now later answer none s.breaker).1

-- `now` and `later` are the times at which the call of the provider starts and ends, and `answer` is
-- how it ends.
unfoldable pub create_request :
    (now later : ℕ)
    → Ending SignatureResult
    → (document_id : ℕ) → List Signer
    → (user_id : ℕ) → Store
    → Ended Store SignatureResult
create_request now later answer document_id signers user_id = do
  document ← find_live document_id
  result ← call_provider now later answer
  modify λ s. record s {
    signatures = s.signatures ++ map (signature_of document_id result.external_id) signers;
  }
  notify_signers signers
  note user_id (requested document_id)
  pure result

abbrev pub find_signature : ℕ → Store → Ended Store DocumentSignature
find_signature id = do s ← get; need (find (λ g. g.id == id) s.signatures) HttpError.not_found

unfoldable pub resend_request : ℕ → (user_id : ℕ) → Store → Ended Store (Unit {0})
resend_request signature_id user_id = do
  signature ← find_signature signature_id
  guard (is_pending signature.status) HttpError.bad_request
  s ← get
  notify_if (find_signer signature.signer_email s.users)
  note user_id (resent signature_id)

abbrev pub set_status : SignatureStatus → DocumentSignature → DocumentSignature
set_status status g = record g { status = status }

unfoldable pub cancel_request : ℕ → (user_id : ℕ) → Store → Ended Store (Unit {0})
cancel_request signature_id user_id = do
  signature ← find_signature signature_id
  guard (is_pending signature.status) HttpError.bad_request
  modify λ s. record s {
    signatures =
        update_where (λ g. g.id == signature_id) (set_status SignatureStatus.expired) s.signatures;
  }
  note user_id (cancelled signature_id)

-- `getDocumentSignatures`, whose order is the database's.
unfoldable pub get_document_signatures : ℕ → Store → Ended Store (List DocumentSignature)
get_document_signatures document_id = do
  find_live document_id
  s ← get
  pure (select (λ g. g.document_id == document_id) s.signatures)

-- `findOne`, which finds by id as the other calls do.
unfoldable pub find_one_signature : ℕ → Store → Ended Store DocumentSignature
find_one_signature id = find_signature id

abbrev status_number : SignatureStatus → ℕ
status_number SignatureStatus.pending = 0
status_number SignatureStatus.signed = 1
status_number SignatureStatus.declined = 2
status_number SignatureStatus.expired = 3

abbrev pub has_status : Option SignatureStatus → DocumentSignature → Bool
has_status none g = true
has_status (some status) g = status_number g.status == status_number status

-- `findAll`
unfoldable pub find_all_signatures :
    (order_by : List DocumentSignature → List DocumentSignature)
    → (document_id : Option ℕ) (status : Option SignatureStatus) (limit offset : Option ℕ) → Store
    → List DocumentSignature × Meta
find_all_signatures order_by document_id status limit offset s = page limit offset (
    order_by
      (select (λ g. equals_if document_id g.document_id && has_status status g) s.signatures))

-- The text of `payload.status ?? payload.event`: one of those that the code knows, or any other.
pub data EventStatus : Type 0 where
  completed signed declined expired voided other : EventStatus

-- The `switch` on it.
unfoldable pub new_status : EventStatus → SignatureStatus
new_status EventStatus.completed = SignatureStatus.signed
new_status EventStatus.signed = SignatureStatus.signed
new_status EventStatus.declined = SignatureStatus.declined
new_status EventStatus.expired = SignatureStatus.expired
new_status EventStatus.voided = SignatureStatus.expired
new_status EventStatus.other = SignatureStatus.pending

abbrev pub is_signed : SignatureStatus → Bool
is_signed SignatureStatus.signed = true
is_signed _ = false

-- `data` of the update: the status, and `signedAt` for a signed envelope.
abbrev pub mark_status : (now : ℕ) → SignatureStatus → DocumentSignature → DocumentSignature
mark_status now status g = record g {
  status = status;
  signed_at = if is_signed status then some now else g.signed_at;
}

-- `try { … } catch { log }`: what was written stays, and the error is dropped.
abbrev pub caught {κ} : {A : Type κ} → (Store → Ended Store A) → Store → Ended Store (Unit {0})
caught m s = ok tt (final (m s))

-- MIME type application/pdf
abbrev pub pdf : ℕ
pdf = 0

-- `size` is the size of the signed file, if the provider hands it over.
abbrev pub save_signed :
    (key : ℕ) (size : Option ℕ) (stored : Bool) → Document → Store → Ended Store (Unit {0})
save_signed key size stored document = caught do
  size' ← need size HttpError.internal_error
  store_file stored
  add_version document key size' pdf document.uploaded_by_id

abbrev pub dispatch_signed : List DocumentSignature → Store → Ended Store (Unit {0})
dispatch_signed [] s = ok tt s
dispatch_signed (g ∷ gs) s =
    dispatch_signed gs (record s { events = s.events ++ (g.document_id, signed_hook g.id) ∷ [] })

-- The document of the first signature, which the foreign key sees to.
abbrev pub first_document : List DocumentSignature → List Document → Option Document
first_document [] ds = none
first_document (g ∷ gs) ds = find (has_id g.document_id) ds

abbrev pub envelope : ℕ → DocumentSignature → Bool
envelope external_id g = g.external_id == external_id

-- What follows for a signed envelope. The document is the one that was read before the update.
abbrev pub after_signing :
    (key : ℕ) (size : Option ℕ) (stored : Bool)
    → List DocumentSignature
    → Document
    → Store
    → Ended Store (Unit {0})
after_signing key size stored signatures document = do
  save_signed key size stored document
  notify document.uploaded_by_id NotificationType.in_app
  dispatch_signed signatures

-- `if (newStatus === SIGNED)` and a document
abbrev pub if_signed :
    SignatureStatus
    → Option Document
    → (Document → Store → Ended Store (Unit {0}))
    → Store
    → Ended Store (Unit {0})
if_signed status none k = pure tt
if_signed status (some document) k = when (is_signed status) (k document)

-- Without a signature of that envelope the code returns early, and so nothing is written here either.
unfoldable pub handle_webhook :
    (now key : ℕ) (size : Option ℕ) (stored : Bool)
    → Option ℕ
    → EventStatus
    → Store
    → Ended Store (Unit {0})
handle_webhook now key size stored none event = pure tt
handle_webhook now key size stored (some external_id) event = do
  s ← get
  let signatures = select (envelope external_id) s.signatures
  modify λ s. record s {
    signatures =
        update_where (envelope external_id) (mark_status now (new_status event)) s.signatures;
  }
  if_signed (new_status event) (first_document signatures s.documents)
      (after_signing key size stored signatures)
