-- ===== src/Documents/Files.antt =====
-- src/modules/document/document.service.ts: upload, findOne, update, remove, getDownloadUrl,
-- getVersions, downloadVersion, uploadNewVersion, linkToCase, unlinkFromCase and validateFile.
use corporate_lawyers_backen.Prelude.{
  ℕ, ◌+◌, ◌*◌, Bool, true, false, Option, none, some, List, [], ◌∷◌, ◌++◌, not, ◌&&◌, ◌||◌, ◌==◌,
  leb, is_some, or_else, find, select, any, update_where, includes, map, sort_desc,
}
use corporate_lawyers_backen.World.{
  Text, UserRole, CaseAssignment, HttpError, Ended, ◌>>=◌, ◌>>◌, pure, guard, need, when, get,
  modify,
}
use corporate_lawyers_backen.Roles.{is_admin}
use corporate_lawyers_backen.Documents.{
  Document, DocumentVersion, Store, created, updated, deleted, uploaded_hook, has_id, find_live,
  note, write_documents, new_version,
}

-- `buffer` is left out. The type is the number of its text.
pub record UploadedFile : Type 0 where
  pub original_name : ℕ
  pub mime_type : ℕ
  pub size : ℕ

pub record UploadDocumentDto : Type 0 where
  pub title : Text
  pub kind : Option ℕ
  pub is_confidential : Option Bool
  pub tags : Option (List ℕ)
  pub case_id : Option ℕ

pub record UpdateDocumentDto : Type 0 where
  pub title : Option Text
  pub kind : Option ℕ
  pub is_confidential : Option Bool
  pub tags : Option (List ℕ)

-- MAX_FILE_SIZE of common/constants/app.constants.ts
abbrev pub max_file_size : ℕ
max_file_size = 50 * 1024 * 1024

-- `DocumentType.OTHER`
abbrev pub other_kind : ℕ
other_kind = 0

abbrev pub store_file : (stored : Bool) → Store → Ended Store (Unit {0})
store_file stored = guard stored HttpError.internal_error

abbrev pub document_of :
    (now new_id key : ℕ) → UploadedFile → UploadDocumentDto → (uploaded_by_id : ℕ) → Document
document_of now new_id key file dto uploaded_by_id = record {
  id = new_id;
  title = dto.title;
  kind = or_else dto.kind other_kind;
  file_url = key;
  file_size = file.size;
  mime_type = file.mime_type;
  uploaded_by_id = uploaded_by_id;
  is_confidential = or_else dto.is_confidential false;
  tags = or_else dto.tags [];
  current_version = 1;
  created_at = now;
  deleted_at = none;
}

-- `caseDocument.create`: the case has to exist, and a link is unique.
unfoldable pub create_link : (case_id document_id : ℕ) → Store → Ended Store (Unit {0})
create_link case_id document_id = do
  s ← get
  guard (includes s.cases case_id) HttpError.bad_request
  guard (not (any (λ l. l.case_id == case_id && l.document_id == document_id) s.links))
      HttpError.conflict
  modify λ s. record s {
    links = s.links ++ record { case_id = case_id; document_id = document_id } ∷ [];
  }

-- `if (dto.caseId) caseDocument.create(…)`
abbrev pub link_if : Option ℕ → (document_id : ℕ) → Store → Ended Store (Unit {0})
link_if none document_id = pure tt
link_if (some case_id) document_id = create_link case_id document_id

-- Whom `findOne` is asked for: the calls inside the service name nobody.
abbrev pub Viewer : Type 0
Viewer = Option (ℕ × UserRole)

abbrev pub case_ids : ℕ → Store → List ℕ
case_ids document_id s = map (λ l. l.case_id) (select (λ l. l.document_id == document_id) s.links)

-- `caseDocuments.length > 0`
abbrev pub is_empty : List ℕ → Bool
is_empty [] = true
is_empty (i ∷ is) = false

-- `caseAssignment.findFirst({ where: { caseId: { in: caseIds }, userId, removedAt: null } })`
abbrev pub assigned_to_one : List ℕ → ℕ → List CaseAssignment → Bool
assigned_to_one ids user_id =
    any (λ a. includes ids a.case_id && (a.user_id == user_id && not (is_some a.removed_at)))

abbrev pub check_viewer : Viewer → Document → Store → Ended Store (Unit {0})
check_viewer none d = pure tt
check_viewer (some (user_id, role)) d = when (not (is_admin role)) do
  guard (not (d.is_confidential && not (d.uploaded_by_id == user_id))) HttpError.not_found
  s ← get
  guard (is_empty (case_ids d.id s) || assigned_to_one (case_ids d.id s) user_id s.assignments)
      HttpError.not_found

unfoldable pub find_one : ℕ → Viewer → Store → Ended Store Document
find_one id viewer = do d ← find_live id; check_viewer viewer d; pure d

abbrev pub edited : UpdateDocumentDto → Document → Document
edited dto d = record d {
  title = or_else dto.title d.title;
  kind = or_else dto.kind d.kind;
  is_confidential = or_else dto.is_confidential d.is_confidential;
  tags = or_else dto.tags d.tags;
}

unfoldable pub update : ℕ → UpdateDocumentDto → Store → Ended Store (Unit {0})
update id dto = do find_one id none; write_documents (update_where (has_id id) (edited dto))

abbrev pub delete_at : (now : ℕ) → Document → Document
delete_at now d = record d { deleted_at = some now }

unfoldable pub remove : (now : ℕ) → ℕ → (performed_by : ℕ) → Store → Ended Store (Unit {0})
remove now id performed_by = do
  find_one id none
  write_documents (update_where (has_id id) (delete_at now))
  note performed_by (deleted id)

-- A presigned URL is known by the key that it is for.
unfoldable pub get_download_url : ℕ → Store → Ended Store ℕ
get_download_url id = do d ← find_one id none; pure d.file_url

unfoldable pub get_versions : ℕ → Store → Ended Store (List DocumentVersion)
get_versions id = do
  find_one id none
  s ← get
  pure (sort_desc (λ v. v.version_number) (select (λ v. v.document_id == id) s.versions))

abbrev pub is_version : (document_id version_number : ℕ) → DocumentVersion → Bool
is_version document_id version_number v =
    v.document_id == document_id && v.version_number == version_number

unfoldable pub download_version : (document_id version_number : ℕ) → Store → Ended Store ℕ
download_version document_id version_number = do
  s ← get
  v ← need (find (is_version document_id version_number) s.versions) HttpError.not_found
  pure v.file_url

-- `data` of the update that goes with a new version
abbrev pub at_version : (version_number file_url file_size mime_type : ℕ) → Document → Document
at_version version_number file_url file_size mime_type d = record d {
  current_version = version_number;
  file_url = file_url;
  file_size = file_size;
  mime_type = mime_type;
}

-- `documentVersion.create`, whose number is unique for the document, and `document.update`
unfoldable pub add_version :
    Document
    → (file_url file_size mime_type created_by_id : ℕ) → Store
    → Ended Store DocumentVersion
add_version d file_url file_size mime_type created_by_id = do
  let number = d.current_version + 1
  s ← get
  guard (not (any (is_version d.id number) s.versions)) HttpError.conflict
  let version = new_version d number file_url file_size created_by_id
  modify λ s. record s { versions = s.versions ++ version ∷ [] }
  write_documents (update_where (has_id d.id) (at_version number file_url file_size mime_type))
  pure version

unfoldable pub unlink_from_case : (document_id case_id : ℕ) → Store → Ended Store (Unit {0})
unlink_from_case document_id case_id = do
  find_one document_id none
  s ← get
  guard (any (λ l. l.case_id == case_id && l.document_id == document_id) s.links)
      HttpError.not_found
  modify λ s. record s {
    links = select (λ l. not (l.case_id == case_id && l.document_id == document_id)) s.links;
  }

unfoldable pub link_to_case : (document_id case_id : ℕ) → Store → Ended Store (Unit {0})
link_to_case document_id case_id = do
  find_one document_id none
  s ← get
  guard (not (any (λ l. l.case_id == case_id && l.document_id == document_id) s.links))
      HttpError.bad_request
  create_link case_id document_id
  modify λ s. record s { timeline = s.timeline ++ (case_id, document_id) ∷ [] }

-- `allowed_mime_types` is ALLOWED_MIME_TYPES of common/constants/app.constants.ts.
module _ (allowed_mime_types : List ℕ) where
  unfoldable pub validate_file : Option UploadedFile → Store → Ended Store UploadedFile
  validate_file given = do
    file ← need given HttpError.bad_request
    guard (includes allowed_mime_types file.mime_type) HttpError.bad_request
    guard (leb file.size max_file_size) HttpError.bad_request
    pure file

  unfoldable pub upload :
      (now new_id key : ℕ) (stored : Bool)
      → Option UploadedFile
      → UploadDocumentDto
      → (uploaded_by_id : ℕ) → Store
      → Ended Store Document
  upload now new_id key stored given dto uploaded_by_id = do
    file ← validate_file given
    store_file stored
    let d = document_of now new_id key file dto uploaded_by_id
    write_documents λ ds. ds ++ d ∷ []
    link_if dto.case_id new_id
    note uploaded_by_id (created new_id)
    note uploaded_by_id (uploaded_hook new_id)
    pure d

  unfoldable pub upload_new_version :
      (key : ℕ) (stored : Bool)
      → ℕ
      → Option UploadedFile
      → (user_id : ℕ) → Store
      → Ended Store DocumentVersion
  upload_new_version key stored id given user_id = do
    file ← validate_file given
    d ← find_one id none
    store_file stored
    version ← add_version d key file.size file.mime_type user_id
    note user_id (updated id)
    pure version
