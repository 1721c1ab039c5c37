-- ===== src/Examples/Documents.antt =====
-- The theorems on src/modules/document/document.service.ts and
-- src/modules/integrations/signatures/signature.service.ts at concrete rows.
use corporate_lawyers_backen.Prelude.{
  ℕ, ◌+◌, ◌<◌, true, false, none, some, List, [], ◌∷◌, ◌++◌, ◌≡◌, refl, ◌⊎◌, ◌==◌, find,
}
use corporate_lawyers_backen.World.{UserRole, HttpError, ok, err, final}
use corporate_lawyers_backen.Breaker.{Ending, new_breaker}
use corporate_lawyers_backen.Documents.{
  Document, SignatureStatus, DocumentSignature, Store, is_live_at,
}
use corporate_lawyers_backen.Documents.Files.{
  UploadedFile, UploadDocumentDto, document_of, upload, upload_new_version, download_version,
  find_one, get_download_url,
}
use corporate_lawyers_backen.Documents.Signatures.{
  Signer, SignatureResult, EventStatus, set_status, cancel_request, handle_webhook, create_request,
}
use corporate_lawyers_backen.Documents.Numbered.{Numbered}
use corporate_lawyers_backen.Documents.History.{
  Steps, here, after, uploads, adds_version, Steps-Numbered, download_version-first,
}
use corporate_lawyers_backen.Documents.Access.{may_see, find_one_lem, get_download_url-unguarded}
use corporate_lawyers_backen.Documents.Provider.{failing, create_request-trips}
use corporate_lawyers_backen.Documents.Envelopes.{late_event-reopens}

-- Files of type 1 are allowed.
abbrev types : List ℕ
types = 1 ∷ []

abbrev file : UploadedFile
file = record { original_name = 0; mime_type = 1; size = 1000 }

abbrev upload_dto : UploadDocumentDto
upload_dto = record {
  title = 65 ∷ [];
  kind = none;
  is_confidential = some true;
  tags = none;
  case_id = none;
}

abbrev no_documents : Store
no_documents = record {
  documents = [];
  versions = [];
  links = [];
  signatures = [];
  cases = [];
  assignments = [];
  users = [];
  timeline = [];
  notifications = [];
  events = [];
  breaker = new_breaker (some 3) none;
}

-- User 1 uploads document 5, and then a second file for it.
abbrev uploaded : Store
uploaded = final (upload types 100 5 70 true (some file) upload_dto 1 no_documents)

abbrev newer : Store
newer = final (upload_new_version types 71 true 5 (some file) 1 uploaded)

newer-Steps : Steps types no_documents newer
newer-Steps =
    after (after here (uploads 100 5 70 true (some file) upload_dto 1 refl))
      (adds_version 71 true 5 (some file) 1)

Steps-Numbered_example : Numbered newer
Steps-Numbered_example = Steps-Numbered refl refl newer-Steps

download_version-first_example : download_version 5 1 newer ≡ err HttpError.not_found newer
download_version-first_example = download_version-first refl refl newer-Steps 5

-- A document that is confidential and user 1's own, with a signature that is signed.
abbrev secret_document : Document
secret_document = document_of 100 5 70 file upload_dto 1

abbrev done_signature : DocumentSignature
done_signature = record {
  id = 3;
  document_id = 5;
  signer_name = 0;
  signer_email = 97 ∷ [];
  status = SignatureStatus.signed;
  external_id = 900;
  signed_at = some 200;
}

abbrev document_store : Store
document_store = record no_documents {
  documents = secret_document ∷ [];
  signatures = done_signature ∷ [];
}

find_one_lem_example :
    ((find (is_live_at 5) document_store.documents ≡ none)
      × (find_one 5 (some (2, UserRole.assistant)) document_store
          ≡ err HttpError.not_found document_store))
    ⊎ (d : Document) × (find (is_live_at 5) document_store.documents ≡ some d)
      × (((may_see 2 UserRole.assistant d document_store ≡ true)
            × (find_one 5 (some (2, UserRole.assistant)) document_store ≡ ok d document_store))
          ⊎ (may_see 2 UserRole.assistant d document_store ≡ false)
            × (find_one 5 (some (2, UserRole.assistant)) document_store
                ≡ err HttpError.not_found document_store))
find_one_lem_example = find_one_lem 5 2 UserRole.assistant document_store

get_download_url-unguarded_example :
    (find_one 5 (some (2, UserRole.assistant)) document_store
      ≡ err HttpError.not_found document_store)
    × (get_download_url 5 document_store ≡ ok secret_document.file_url document_store)
get_download_url-unguarded_example =
    get_download_url-unguarded 5 2 UserRole.assistant document_store secret_document refl refl

abbrev signer : Signer
signer = record { new_id = 8; name = 0; email = 98 ∷ [] }

create_request-trips_example :
    let s' = failing 5 (signer ∷ []) 2 ((10 ∷ 20 ∷ []) ++ 30 ∷ []) document_store in
    (s'.signatures ≡ document_store.signatures)
    × ((now later : ℕ) (answer : Ending SignatureResult)
        → now < 30 + document_store.breaker.recovery_timeout_ms
        → create_request now later answer 5 (signer ∷ []) 2 s'
          ≡ err HttpError.service_unavailable s')
unfolding new_breaker
create_request-trips_example =
    create_request-trips 5 (signer ∷ []) 2 (10 ∷ 20 ∷ []) 30 document_store secret_document refl
      refl refl

late_event-reopens_example :
    (cancel_request done_signature.id 2 document_store ≡ err HttpError.bad_request document_store)
    × (s' : Store) × (s'' : Store) × (handle_webhook 300 72 none true
          (some done_signature.external_id)
          EventStatus.other
          document_store
        ≡ ok tt s')
    × (cancel_request done_signature.id 2 s' ≡ ok tt s'')
    × (find (λ h. h.id == done_signature.id) s''.signatures
        ≡ some (set_status SignatureStatus.expired done_signature))
late_event-reopens_example =
    late_event-reopens 300 72 2 none true document_store done_signature refl refl
