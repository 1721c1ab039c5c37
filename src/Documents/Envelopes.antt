-- ===== src/Documents/Envelopes.antt =====
-- What a message of the provider does to the signatures of an envelope: `handleWebhook` of
-- signature.service.ts, and `cancelRequest` after it.
use corporate_lawyers_backen.Prelude.{
  ℕ, ◌+◌, Bool, true, false, Option, none, some, List, [], ◌∷◌, ◌++◌, ◌≡◌, refl, ◌∙◌, inl, inr,
  ◌==◌, if◌then◌else◌, find, any, select, update_where, find-update, find-update_missed, Bool-cases,
  Option-cases, ==_refl,
}
use corporate_lawyers_backen.World.{HttpError, ok, err, ◌>>=◌, ◌>>◌, when, final, NotificationType}
use corporate_lawyers_backen.World.Request.Within.{Preorder, Within, within_rules}
use corporate_lawyers_backen.Documents.{
  Document, DocumentSignature, SignatureStatus, Store, cancelled,
}
use corporate_lawyers_backen.Documents.Files.{add_version, is_version}
use corporate_lawyers_backen.Documents.Signatures.{
  EventStatus, new_status, is_signed, mark_status, set_status, cancel_request, save_signed, notify,
  dispatch_signed, first_document, after_signing, if_signed, envelope, handle_webhook,
}

abbrev keeps_signatures : Preorder Store
keeps_signatures = record {
  related = λ s t. t.signatures ≡ s.signatures;
  still = refl;
  onward = λ p q. q ∙ p;
}

add_version-keeps :
    (d : Document) (url size mime user_id : ℕ)
    → Within keeps_signatures (add_version d url size mime user_id)
unfolding add_version
add_version-keeps d url size mime user_id = record {
  at_state = λ s. elim (Bool-cases (any (is_version d.id (d.current_version + 1)) s.versions)) [
    | inl used ↦ rw (used, ◌>>=◌, ◌>>◌, final) refl
    | inr free ↦ rw (free, ◌>>=◌, ◌>>◌, final) refl
  ];
}

save-keeps :
    (key : ℕ) (size : Option ℕ) (stored : Bool) (d : Document)
    → Within keeps_signatures (save_signed key size stored d)
save-keeps key none stored d = record { at_state = λ s. refl }
save-keeps key (some size) false d = record { at_state = λ s. refl }
save-keeps key (some size) true d = record {
  at_state = (add_version-keeps d key size 0 d.uploaded_by_id).at_state;
}

notify-keeps :
    (user_id : ℕ) (kind : NotificationType) → Within keeps_signatures (notify user_id kind)
notify-keeps user_id kind = record { at_state = λ s. refl }

dispatch-keeps : (gs : List DocumentSignature) → Within keeps_signatures (dispatch_signed gs)
dispatch-keeps [] = record { at_state = λ s. refl }
dispatch-keeps (g ∷ gs) = record { at_state = λ s. (dispatch-keeps gs).at_state _ }

after_signing-keeps :
    (key : ℕ) (size : Option ℕ) (stored : Bool) (gs : List DocumentSignature) (d : Document)
    → Within keeps_signatures (after_signing key size stored gs d)
after_signing-keeps key size stored gs d =
    search (within_rules, save-keeps, notify-keeps, dispatch-keeps)

dispatch-ok :
    (gs : List DocumentSignature) (s : Store)
    → dispatch_signed gs s ≡ ok tt (final (dispatch_signed gs s))
dispatch-ok [] s = refl
dispatch-ok (g ∷ gs) s = dispatch-ok gs _

module _ (now key : ℕ) (size : Option ℕ) (stored : Bool) (external_id : ℕ) (event : EventStatus)
    (s : Store) where
  abbrev heard : Store
  heard = final (handle_webhook now key size stored (some external_id) event s)

  handled :
      (handle_webhook now key size stored (some external_id) event s ≡ ok tt heard)
      × (heard.signatures
          ≡ update_where (envelope external_id) (mark_status now (new_status event)) s.signatures)
  unfolding handle_webhook
  handled =
      let gs = select (envelope external_id) s.signatures in
      let marked : Store = record s {
        signatures =
            update_where (envelope external_id) (mark_status now (new_status event)) s.signatures;
      } in
      elim (Option-cases (first_document gs s.documents)) [
        | inl nobody ↦ rw (nobody, if_signed, final) (refl, refl)
        | inr (d, e) ↦ elim (Bool-cases (is_signed (new_status event))) [
          | inr unsigned ↦ rw (e, if_signed, unsigned, when, final) (refl, refl)
          | inl done ↦
              rw (e, if_signed, done, when)
                (dispatch-ok gs _, (after_signing-keeps key size stored gs d).at_state marked)
        ]
      ]

  -- A message for an envelope is never refused. It gives every signature of the envelope the status of
  -- the message, whatever status the signature had, and leaves the other signatures alone.
  pub handle_webhook_lem :
      (g : DocumentSignature)
      → find (λ h. h.id == g.id) s.signatures ≡ some g
      → (s' : Store) × (handle_webhook now key size stored (some external_id) event s ≡ ok tt s')
        × (find (λ h. h.id == g.id) s'.signatures
            ≡ some
                (if g.external_id == external_id then mark_status now (new_status event) g else g))
  handle_webhook_lem g found = (
    heard,
    handled.0,
    rw handled.1 (elim (Bool-cases (g.external_id == external_id)) [
      | inl own ↦ rw own (
          find-update (mark_status now (new_status event)) (λ h. h.id == g.id)
            (envelope external_id) s.signatures g (λ h. refl) found own)
      | inr other ↦ rw other (
          find-update_missed (mark_status now (new_status event)) (λ h. h.id == g.id)
            (envelope external_id) s.signatures g (λ h. refl) found other)
    ]),
  )

-- A signed signature can be undone. It cannot be cancelled, but after a message for its envelope with
-- a status that the code does not know it is pending again, and then it can: it ends as expired, and
-- with the date at which it was signed.
pub late_event-reopens :
    (now key user_id : ℕ) (size : Option ℕ) (stored : Bool) (s : Store) (g : DocumentSignature)
    → find (λ h. h.id == g.id) s.signatures ≡ some g
    → g.status ≡ SignatureStatus.signed
    → (cancel_request g.id user_id s ≡ err HttpError.bad_request s)
      × (s' : Store) × (s'' : Store) × (handle_webhook now key size stored
            (some g.external_id)
            EventStatus.other
            s
          ≡ ok tt s')
      × (cancel_request g.id user_id s' ≡ ok tt s'')
      × (find (λ h. h.id == g.id) s''.signatures ≡ some (set_status SignatureStatus.expired g))
unfolding cancel_request new_status
late_event-reopens now key user_id size stored s g found done =
    let (s', ended, found') =
      handle_webhook_lem now key size stored g.external_id EventStatus.other s g found in
    let found'' = rw (==_refl g.external_id) at found' in
    (
      rw (found, done, ◌>>=◌, ◌>>◌) refl,
      s',
      record s' {
        signatures =
            update_where (λ h. h.id == g.id) (set_status SignatureStatus.expired) s'.signatures;
        events = s'.events ++ (user_id, cancelled g.id) ∷ [];
      },
      ended,
      rw (found'', ◌>>=◌, ◌>>◌) refl,
      find-update (set_status SignatureStatus.expired) (λ h. h.id == g.id) (λ h. h.id == g.id)
          s'.signatures _ (λ h. refl) found'' (==_refl g.id),
    )
