-- ===== src/Documents/Keeping.antt =====
-- Every call of the document and signature services (document.service.ts, signature.service.ts) keeps
-- the version numbers in step.
use corporate_lawyers_backen.Prelude.{
  ℕ, Bool, true, false, Option, none, some, List, [], ◌∷◌, ◌++◌, ◌≡◌, refl, find, any, select,
  update_where, Bool-cases, Option-cases, Keyed, find-key, includes, leb, inl, inr, arith,
}
use corporate_lawyers_backen.World.{User, ◌>>=◌, ◌>>◌, when, final, NotificationType}
use corporate_lawyers_backen.World.Request.Within.{
  Preorder, Within, bind_ended, bind-Within, modify-Within, within_rules,
}
use corporate_lawyers_backen.Breaker.{Ending, value, failure, unavailable, execute}
use corporate_lawyers_backen.Documents.{
  Document, DocumentSignature, DocumentEvent, deleted, Store, has_id, is_live_at, note,
}
use corporate_lawyers_backen.Documents.Files.{
  UploadedFile, UploadDocumentDto, UpdateDocumentDto, document_of, create_link, link_if, Viewer,
  max_file_size, find_one, edited, update, delete_at, remove, add_version, unlink_from_case,
  link_to_case, validate_file, upload, upload_new_version,
}
use corporate_lawyers_backen.Documents.Signatures.{
  Signer, SignatureResult, EventStatus, create_request, call_provider, settle, notify_signers,
  notify_if, find_signer, resend_request, cancel_request, handle_webhook, new_status, envelope,
  mark_status, first_document, save_signed, dispatch_signed, is_signed, if_signed, notify, pdf,
}
use corporate_lawyers_backen.Documents.Numbered.{
  Numbered, update-Numbered, append-Numbered, add_version-Numbered,
}

abbrev pub keeps_numbered : Preorder Store
keeps_numbered = record {
  related = λ s t. Numbered s → Numbered t;
  still = λ h. h;
  onward = λ f g h. g (f h);
}

-- Whatever leaves documents and versions alone.
frame :
    (s t : Store) → t.documents ≡ s.documents → t.versions ≡ s.versions → Numbered s → Numbered t
frame s t same_documents same_versions inv = record {
  keyed = rw same_documents inv.keyed;
  positive = rw same_documents inv.positive;
  numbered = λ id. rw (same_documents, same_versions) (inv.numbered id);
}

note-keeps : (user_id : ℕ) (event : DocumentEvent) → Within keeps_numbered (note user_id event)
note-keeps user_id event = record { at_state = λ s. frame s _ refl refl }

find_one-keeps : (id : ℕ) (viewer : Viewer) → Within keeps_numbered (find_one id viewer)
unfolding find_one
find_one-keeps id none = search within_rules depth 20
find_one-keeps id (some viewer) = search within_rules depth 20

create_link-keeps :
    (case_id document_id : ℕ) → Within keeps_numbered (create_link case_id document_id)
unfolding create_link
create_link-keeps case_id document_id = search (within_rules, modify-Within, frame) depth 20

link_if-keeps :
    (case_id : Option ℕ) (document_id : ℕ) → Within keeps_numbered (link_if case_id document_id)
link_if-keeps none document_id = search within_rules
link_if-keeps (some case_id) document_id = search create_link-keeps

pub update-keeps : (id : ℕ) (dto : UpdateDocumentDto) → Within keeps_numbered (update id dto)
unfolding update
update-keeps id dto = bind-Within keeps_numbered _ _ (find_one-keeps id none) λ d.
    modify-Within keeps_numbered _
      λ s. update-Numbered (edited dto) (has_id id) s (λ c. refl) (λ c. refl)

pub remove-keeps : (now id performed_by : ℕ) → Within keeps_numbered (remove now id performed_by)
unfolding remove
remove-keeps now id performed_by = bind-Within keeps_numbered _ _ (find_one-keeps id none) λ d.
    bind-Within keeps_numbered _ _
      (modify-Within keeps_numbered _
        λ s. update-Numbered (delete_at now) (has_id id) s (λ c. refl) (λ c. refl))
      λ _. note-keeps performed_by (deleted id)

pub unlink-keeps :
    (document_id case_id : ℕ) → Within keeps_numbered (unlink_from_case document_id case_id)
unfolding unlink_from_case
unlink-keeps document_id case_id =
    search (within_rules, find_one-keeps, modify-Within, frame) depth 20

pub link-keeps :
    (document_id case_id : ℕ) → Within keeps_numbered (link_to_case document_id case_id)
unfolding link_to_case
link-keeps document_id case_id =
    search (within_rules, find_one-keeps, create_link-keeps, modify-Within, frame) depth 20

module _ (allowed_mime_types : List ℕ) where
  validate-keeps :
      (given : Option UploadedFile) → Within keeps_numbered (validate_file allowed_mime_types given)
  unfolding validate_file
  validate-keeps given = search within_rules depth 20

  pub upload_new_version-keeps :
      (key : ℕ) (stored : Bool) (id : ℕ) (given : Option UploadedFile) (user_id : ℕ)
      → Within keeps_numbered (upload_new_version allowed_mime_types key stored id given user_id)
  unfolding upload_new_version find_one
  upload_new_version-keeps key stored id given user_id =
      bind-Within keeps_numbered _ _ (validate-keeps given) λ file. record {
        at_state = λ s inv. elim (Option-cases (find (is_live_at id) s.documents)) [
          | inl missing ↦ rw (missing, ◌>>=◌, ◌>>◌, final) inv
          | inr (d, e) ↦
              let there = find-key (λ d. d.id) (is_live_at id) s.documents d inv.keyed e in
              elim (Bool-cases stored) [
                | inr lost ↦ rw (e, lost, ◌>>=◌, ◌>>◌, final) inv
                | inl kept ↦
                    rw (e, kept, ◌>>=◌, ◌>>◌)
                      (bind_ended keeps_numbered s
                        (add_version d key file.size file.mime_type user_id s) _
                        (add_version-Numbered d key file.size file.mime_type user_id s there)
                        (λ version. search (within_rules, note-keeps)) inv)
              ]
        ];
      }

  pub upload-Numbered :
      (now new_id key : ℕ) (stored : Bool) (given : Option UploadedFile) (dto : UploadDocumentDto)
      (uploaded_by_id : ℕ) (s : Store)
      → any (has_id new_id) s.documents ≡ false
      → Numbered s
      → Numbered
          (final (upload allowed_mime_types now new_id key stored given dto uploaded_by_id s))
  unfolding upload validate_file
  upload-Numbered now new_id key stored none dto uploaded_by_id s fresh inv = inv
  upload-Numbered now new_id key stored (some file) dto uploaded_by_id s fresh inv =
      elim (Bool-cases (includes allowed_mime_types file.mime_type)) [
        | inr forbidden ↦ rw (forbidden, ◌>>=◌, ◌>>◌, final) inv
        | inl allowed ↦ elim (Bool-cases (leb file.size max_file_size)) [
          | inr large ↦ rw (allowed, large, ◌>>=◌, ◌>>◌, final) inv
          | inl small ↦ elim (Bool-cases stored) [
            | inr lost ↦ rw (allowed, small, lost, ◌>>=◌, ◌>>◌, final) inv
            | inl kept ↦
                let d = document_of now new_id key file dto uploaded_by_id in
                rw (allowed, small, kept, ◌>>=◌, ◌>>◌)
                  (bind_ended keeps_numbered s
                    (link_if dto.case_id new_id (record s { documents = s.documents ++ d ∷ [] })) _
                    (λ h.
                      (link_if-keeps dto.case_id new_id).at_state
                        (record s { documents = s.documents ++ d ∷ [] })
                        (append-Numbered d s fresh refl h))
                    (λ _. search (within_rules, note-keeps) depth 20) inv)
          ]
        ]
      ]

first_document-found :
    (gs : List DocumentSignature) (ds : List Document) (d : Document)
    → Keyed (λ (d : Document). d.id) ds
    → first_document gs ds ≡ some d
    → find (has_id d.id) ds ≡ some d
first_document-found [] ds d keyed e = ground arith
first_document-found (g ∷ gs) ds d keyed e =
    find-key (λ d. d.id) (has_id g.document_id) ds d keyed e

save-Numbered :
    (key : ℕ) (size : Option ℕ) (stored : Bool) (d : Document) (s : Store)
    → find (has_id d.id) s.documents ≡ some d
    → Numbered s
    → Numbered (final (save_signed key size stored d s))
save-Numbered key none stored d s there inv = inv
save-Numbered key (some size) false d s there inv = inv
save-Numbered key (some size) true d s there inv =
    add_version-Numbered d key size pdf d.uploaded_by_id s there inv

dispatch-keeps : (gs : List DocumentSignature) → Within keeps_numbered (dispatch_signed gs)
dispatch-keeps [] = record { at_state = λ s inv. inv }
dispatch-keeps (g ∷ gs) = record {
  at_state = λ s inv. (dispatch-keeps gs).at_state _ (frame s _ refl refl inv);
}

notify-keeps : (user_id : ℕ) (kind : NotificationType) → Within keeps_numbered (notify user_id kind)
notify-keeps user_id kind = search (modify-Within, frame)

pub webhook-keeps :
    (now key : ℕ) (size : Option ℕ) (stored : Bool) (external_id : Option ℕ) (event : EventStatus)
    → Within keeps_numbered (handle_webhook now key size stored external_id event)
unfolding handle_webhook
webhook-keeps now key size stored none event = search within_rules
webhook-keeps now key size stored (some external_id) event = record {
  at_state = λ s inv.
      let marked : Store = record s {
        signatures =
            update_where (envelope external_id) (mark_status now (new_status event)) s.signatures;
      } in
      let inv' = frame s marked refl refl inv in
      let gs = select (envelope external_id) s.signatures in
      elim (Option-cases (first_document gs s.documents)) [
        | inl nobody ↦ rw (nobody, if_signed, final) inv'
        | inr (d, e) ↦ elim (Bool-cases (is_signed (new_status event))) [
          | inr unsigned ↦ rw (e, if_signed, unsigned, when, final) inv'
          | inl done ↦
              rw (e, if_signed, done, when)
                (bind_ended keeps_numbered marked (save_signed key size stored d marked)
                  (λ _. notify d.uploaded_by_id NotificationType.in_app >> dispatch_signed gs)
                  (save-Numbered key size stored d marked
                    (first_document-found gs s.documents d inv.keyed e))
                  (λ _. search (within_rules, notify-keeps, dispatch-keeps)) inv')
        ]
      ];
}

notify_if-keeps : (u : Option User) → Within keeps_numbered (notify_if u)
notify_if-keeps none = search within_rules
notify_if-keeps (some u) = search (modify-Within, frame)

pub resend-keeps : (id user_id : ℕ) → Within keeps_numbered (resend_request id user_id)
unfolding resend_request
resend-keeps id user_id = search (within_rules, notify_if-keeps, note-keeps) depth 20

pub cancel-keeps : (id user_id : ℕ) → Within keeps_numbered (cancel_request id user_id)
unfolding cancel_request
cancel-keeps id user_id = search (within_rules, modify-Within, frame, note-keeps) depth 20

settle-keeps : (answer : Ending SignatureResult) → Within keeps_numbered (settle answer)
settle-keeps (value r) = search within_rules
settle-keeps failure = search within_rules
settle-keeps unavailable = search within_rules

call_provider-keeps :
    (now later : ℕ) (answer : Ending SignatureResult)
    → Within keeps_numbered (call_provider now later answer)
unfolding call_provider
call_provider-keeps now later answer = record {
  at_state = λ s inv.
      (settle-keeps (execute now later answer none s.breaker).1).at_state
        (record s { breaker = (execute now later answer none s.breaker).0 })
        (frame s _ refl refl inv);
}

notify_signers-keeps : (signers : List Signer) → Within keeps_numbered (notify_signers signers)
notify_signers-keeps [] = record { at_state = λ s inv. inv }
notify_signers-keeps (signer ∷ signers) = record {
  at_state = λ s inv.
      (notify_signers-keeps signers).at_state _
        ((notify_if-keeps (find_signer signer.email s.users)).at_state s inv);
}

pub create_request-keeps :
    (now later : ℕ) (answer : Ending SignatureResult) (document_id : ℕ) (signers : List Signer)
    (user_id : ℕ)
    → Within keeps_numbered (create_request now later answer document_id signers user_id)
unfolding create_request
create_request-keeps now later answer document_id signers user_id =
    search
      (within_rules, call_provider-keeps, notify_signers-keeps, modify-Within, frame, note-keeps)
      depth 20
