-- ===== src/Documents/History.antt =====
-- Every history of the document and signature services (document.service.ts, signature.service.ts).
use corporate_lawyers_backen.Prelude.{
  ℕ, zero, suc, Bool, false, Option, none, List, [], ◌∷◌, ◌++◌, ◌≡◌, refl, ◌∙◌, ◌||◌, ◌==◌, inl,
  inr, find, any, includes, Bool-cases, arith,
}
use corporate_lawyers_backen.World.{HttpError, err, ◌>>=◌, ◌>>◌, final}
use corporate_lawyers_backen.Breaker.{Ending}
use corporate_lawyers_backen.Documents.{DocumentVersion, Store, has_id}
use corporate_lawyers_backen.Documents.Files.{
  UploadedFile, UploadDocumentDto, UpdateDocumentDto, update, remove, is_version, download_version,
  unlink_from_case, link_to_case, upload, upload_new_version,
}
use corporate_lawyers_backen.Documents.Signatures.{
  Signer, SignatureResult, EventStatus, create_request, resend_request, cancel_request,
  handle_webhook,
}
use corporate_lawyers_backen.Documents.Numbered.{Numbered, version_of, numbers, from_two}
use corporate_lawyers_backen.Documents.Keeping.{
  update-keeps, remove-keeps, upload_new_version-keeps, link-keeps, unlink-keeps,
  create_request-keeps, resend-keeps, cancel-keeps, webhook-keeps, upload-Numbered,
}

-- One call of either service, whatever its outcome. An upload draws an id that no document has.
pub data Step (allowed_mime_types : List ℕ) (s : Store) : Store → Type 0 where
  uploads :
      (now new_id key : ℕ) (stored : Bool) (given : Option UploadedFile) (dto : UploadDocumentDto)
      (user_id : ℕ)
      → any (has_id new_id) s.documents ≡ false
      → Step allowed_mime_types s
          (final (upload allowed_mime_types now new_id key stored given dto user_id s))
  updates : (id : ℕ) (dto : UpdateDocumentDto) → Step allowed_mime_types s (final (update id dto s))
  removes : (now id user_id : ℕ) → Step allowed_mime_types s (final (remove now id user_id s))
  adds_version :
      (key : ℕ) (stored : Bool) (id : ℕ) (given : Option UploadedFile) (user_id : ℕ)
      → Step allowed_mime_types s
          (final (upload_new_version allowed_mime_types key stored id given user_id s))
  links_case :
      (document_id case_id : ℕ)
      → Step allowed_mime_types s (final (link_to_case document_id case_id s))
  unlinks_case :
      (document_id case_id : ℕ)
      → Step allowed_mime_types s (final (unlink_from_case document_id case_id s))
  requests :
      (now later : ℕ) (answer : Ending SignatureResult) (document_id : ℕ) (signers : List Signer)
      (user_id : ℕ)
      → Step allowed_mime_types s
          (final (create_request now later answer document_id signers user_id s))
  resends : (id user_id : ℕ) → Step allowed_mime_types s (final (resend_request id user_id s))
  cancels : (id user_id : ℕ) → Step allowed_mime_types s (final (cancel_request id user_id s))
  hears :
      (now key : ℕ) (size : Option ℕ) (stored : Bool) (external_id : Option ℕ) (event : EventStatus)
      → Step allowed_mime_types s (final (handle_webhook now key size stored external_id event s))

pub data Steps (allowed_mime_types : List ℕ) (s : Store) : Store → Type 0 where
  here : Steps allowed_mime_types s s
  after :
      {t u : Store}
      → Steps allowed_mime_types s t
      → Step allowed_mime_types t u
      → Steps allowed_mime_types s u

includes-append : (xs : List ℕ) (n i : ℕ) → includes (xs ++ n ∷ []) i ≡ includes xs i || n == i
includes-append [] n i = ground arith
includes-append (x ∷ xs) n i = ground (arith, includes-append xs n i)

no_first : (n : ℕ) → includes (from_two n) 1 ≡ false
no_first zero = refl
no_first (suc zero) = refl
no_first (suc (suc n)) =
    includes-append (from_two (suc n)) (suc (suc n)) 1 ∙ ground (arith, no_first (suc n))

find-numbers :
    (id n : ℕ) (vs : List DocumentVersion)
    → includes (numbers id vs) n ≡ false
    → find (is_version id n) vs ≡ none
find-numbers id n [] h = refl
find-numbers id n (v ∷ vs) h = elim (Bool-cases (v.document_id == id)) [
  | inl own ↦ ground (arith, find-numbers id n vs)
  | inr other ↦ ground (arith, find-numbers id n vs)
]

module _ {allowed_mime_types : List ℕ} where
  Step-Numbered : {s t : Store} → Step allowed_mime_types s t → Numbered s → Numbered t
  Step-Numbered {s} (uploads now new_id key stored given dto user_id fresh) =
      upload-Numbered allowed_mime_types now new_id key stored given dto user_id s fresh
  Step-Numbered {s} (updates id dto) = (update-keeps id dto).at_state s
  Step-Numbered {s} (removes now id user_id) = (remove-keeps now id user_id).at_state s
  Step-Numbered {s} (adds_version key stored id given user_id) =
      (upload_new_version-keeps allowed_mime_types key stored id given user_id).at_state s
  Step-Numbered {s} (links_case document_id case_id) = (link-keeps document_id case_id).at_state s
  Step-Numbered {s} (unlinks_case document_id case_id) =
      (unlink-keeps document_id case_id).at_state s
  Step-Numbered {s} (requests now later answer document_id signers user_id) =
      (create_request-keeps now later answer document_id signers user_id).at_state s
  Step-Numbered {s} (resends id user_id) = (resend-keeps id user_id).at_state s
  Step-Numbered {s} (cancels id user_id) = (cancel-keeps id user_id).at_state s
  Step-Numbered {s} (hears now key size stored external_id event) =
      (webhook-keeps now key size stored external_id event).at_state s

  -- From a store without documents and versions, whatever calls of the two services follow, refused
  -- and failed ones and the provider's messages among them: the versions of each document are numbered
  -- 2, 3, and so on, to its current version, in the order in which they were made.
  pub Steps-Numbered :
      {s t : Store} → s.documents ≡ [] → s.versions ≡ [] → Steps allowed_mime_types s t → Numbered t
  Steps-Numbered no_documents no_versions here = record {
    keyed = rw no_documents tt;
    positive = rw no_documents tt;
    numbered = λ id. rw (no_documents, no_versions) refl;
  }
  Steps-Numbered no_documents no_versions (after steps step) =
      Step-Numbered step (Steps-Numbered no_documents no_versions steps)

  -- So the first file of a document can never be downloaded as its version: the request for version 1
  -- ends in 404 for every document, after any calls.
  pub download_version-first :
      {s t : Store}
      → s.documents ≡ []
      → s.versions ≡ []
      → Steps allowed_mime_types s t
      → (id : ℕ) → download_version id 1 t ≡ err HttpError.not_found t
  unfolding download_version
  download_version-first {t} no_documents no_versions steps id =
      let inv = Steps-Numbered no_documents no_versions steps in
      let missing =
        find-numbers id 1 t.versions
          (rw (inv.numbered id) (no_first (version_of id t.documents))) in
      rw (missing, ◌>>=◌, ◌>>◌) refl
