-- ===== src/Documents/Access.antt =====
-- Whom document.service.ts shows a document: `findOne`, and the calls that ask it for nobody.
use corporate_lawyers_backen.Prelude.{
  ℕ, Bool, true, false, none, some, ◌≡◌, refl, ◌⊎◌, inl, inr, not, ◌&&◌, ◌||◌, ◌==◌, find,
  Bool-cases, Option-cases, arith,
}
use corporate_lawyers_backen.World.{UserRole, HttpError, ok, err, ◌>>=◌, ◌>>◌, when}
use corporate_lawyers_backen.Roles.{is_admin}
use corporate_lawyers_backen.Documents.{Document, Store, is_live_at}
use corporate_lawyers_backen.Documents.Files.{
  case_ids, is_empty, assigned_to_one, find_one, get_download_url,
}

-- Who may see a document: an administrator; or, of a document that is not confidential or that is the
-- user's own, a user assigned to one of its cases, or anybody if it has none.
abbrev pub may_see : ℕ → UserRole → Document → Store → Bool
may_see user_id role d s =
    is_admin role
    || ((not d.is_confidential || d.uploaded_by_id == user_id)
        && (is_empty (case_ids d.id s) || assigned_to_one (case_ids d.id s) user_id s.assignments))

-- `findOne` for a user gives the document to those who may see it, and to everybody else the same 404
-- as for one that is not there.
pub find_one_lem :
    (id user_id : ℕ) (role : UserRole) (s : Store)
    → ((find (is_live_at id) s.documents ≡ none)
        × (find_one id (some (user_id, role)) s ≡ err HttpError.not_found s))
      ⊎ (d : Document) × (find (is_live_at id) s.documents ≡ some d)
        × (((may_see user_id role d s ≡ true) × (find_one id (some (user_id, role)) s ≡ ok d s))
            ⊎ (may_see user_id role d s ≡ false)
              × (find_one id (some (user_id, role)) s ≡ err HttpError.not_found s))
unfolding find_one
find_one_lem id user_id role s = elim (Option-cases (find (is_live_at id) s.documents)) [
  | inl missing ↦ inl (missing, rw (missing, ◌>>=◌, ◌>>◌) refl)
  | inr (d, found) ↦ inr (
    d,
    found,
    elim (Bool-cases (is_admin role)) [
      | inl admin ↦ inl (rw admin refl, rw (found, admin, ◌>>=◌, ◌>>◌) refl)
      | inr other ↦ elim (Bool-cases (d.is_confidential && not (d.uploaded_by_id == user_id))) [
        | inl hidden ↦ inr (ground arith, rw (found, other, hidden, ◌>>=◌, ◌>>◌, when) refl)
        | inr open_to ↦
            elim (Bool-cases (
              is_empty (case_ids d.id s)
              || assigned_to_one (case_ids d.id s) user_id s.assignments)) [
                | inl near ↦ inl (
                  rw (other, near) (ground arith),
                  rw (found, other, open_to, near, ◌>>=◌, ◌>>◌, when) refl,
                )
                | inr far ↦ inr (
                  rw (other, far) (ground arith),
                  rw (found, other, open_to, far, ◌>>=◌, ◌>>◌, when) refl,
                )
              ]
      ]
    ],
  )
]

-- The download of a document asks `findOne` for nobody: it gives the file of every document that is
-- not deleted, also when `findOne` refuses the document to the user who asks.
pub get_download_url-unguarded :
    (id user_id : ℕ) (role : UserRole) (s : Store) (d : Document)
    → find (is_live_at id) s.documents ≡ some d
    → may_see user_id role d s ≡ false
    → (find_one id (some (user_id, role)) s ≡ err HttpError.not_found s)
      × (get_download_url id s ≡ ok d.file_url s)
unfolding get_download_url find_one
get_download_url-unguarded id user_id role s d found hidden = (
  elim (find_one_lem id user_id role s) [
    | inl (missing, refused) ↦ refused
    | inr (e, found', inr (_, refused)) ↦ refused
    | inr (e, found', inl (seen, _)) ↦ absurd (ground arith)
  ],
  rw (found, ◌>>=◌, ◌>>◌) refl,
)
