-- ===== src/Documents.antt =====
-- src/modules/document/document.service.ts and src/modules/integrations/signatures/signature.service.ts:
-- the rows that both services work on, and what they do of them in the same words.
pub mod Files
pub mod Numbered
pub mod Keeping
pub mod History
pub mod Access
pub mod Listing
pub mod Provider
pub mod Envelopes
pub mod Signatures
use corporate_lawyers_backen.Prelude.{
  ℕ, Bool, true, false, Option, none, some, List, [], ◌∷◌, ◌++◌, not, ◌&&◌, ◌==◌, is_some, find,
}
use corporate_lawyers_backen.World.{
  Text, User, CaseAssignment, Notification, HttpError, Ended, ◌>>=◌, ◌>>◌, pure, need, get, modify,
}
use corporate_lawyers_backen.Breaker.{CircuitBreaker}

-- The file of a document is known by its key in the storage.
pub record Document : Type 0 where
  pub id : ℕ
  pub title : Text
  pub kind : ℕ
  pub file_url : ℕ
  pub file_size : ℕ
  pub mime_type : ℕ
  pub uploaded_by_id : ℕ
  pub is_confidential : Bool
  pub tags : List ℕ
  pub current_version : ℕ
  pub created_at : ℕ
  pub deleted_at : Option ℕ

pub record DocumentVersion : Type 0 where
  pub document_id : ℕ
  pub version_number : ℕ
  pub file_url : ℕ
  pub file_size : ℕ
  pub created_by_id : ℕ

pub record CaseDocument : Type 0 where
  pub case_id : ℕ
  pub document_id : ℕ

pub data SignatureStatus : Type 0 where
  pending signed declined expired : SignatureStatus

pub record DocumentSignature : Type 0 where
  pub id : ℕ
  pub document_id : ℕ
  pub signer_name : ℕ
  pub signer_email : Text
  pub status : SignatureStatus
  pub external_id : ℕ
  pub signed_at : Option ℕ

-- The calls of the audit log and of the webhook dispatcher, with the row that they name.
pub data DocumentEvent : Type 0 where
  created updated deleted resent cancelled requested uploaded_hook signed_hook : ℕ → DocumentEvent

-- `cases` has the ids of the cases; `timeline` the case and the document of its entries; `breaker` is
-- the circuit breaker of the signature service.
pub record Store : Type 0 where
  pub documents : List Document
  pub versions : List DocumentVersion
  pub links : List CaseDocument
  pub signatures : List DocumentSignature
  pub cases : List ℕ
  pub assignments : List CaseAssignment
  pub users : List User
  pub timeline : List (ℕ × ℕ)
  pub notifications : List Notification
  pub events : List (ℕ × DocumentEvent)
  pub breaker : CircuitBreaker

abbrev pub has_id : ℕ → Document → Bool
has_id id d = d.id == id

-- `where: { id, deletedAt: null }`
abbrev pub is_live_at : ℕ → Document → Bool
is_live_at id d = d.id == id && not (is_some d.deleted_at)

-- `document.findFirst({ where: { id, deletedAt: null } })` and the test on it
abbrev pub find_live : ℕ → Store → Ended Store Document
find_live id = do s ← get; need (find (is_live_at id) s.documents) HttpError.not_found

abbrev pub note : ℕ → DocumentEvent → Store → Ended Store (Unit {0})
note user_id event = modify λ s. record s { events = s.events ++ (user_id, event) ∷ [] }

abbrev pub write_documents : (List Document → List Document) → Store → Ended Store (Unit {0})
write_documents f = modify λ s. record s { documents = f s.documents }

abbrev pub new_version :
    Document → (version_number file_url file_size created_by_id : ℕ) → DocumentVersion
new_version d version_number file_url file_size created_by_id = record {
  document_id = d.id;
  version_number = version_number;
  file_url = file_url;
  file_size = file_size;
  created_by_id = created_by_id;
}
