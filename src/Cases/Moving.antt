-- ===== src/Cases/Moving.antt =====
-- `updateStatus` of src/modules/case/case.service.ts against the rows and the cache.
use corporate_lawyers_backen.Prelude.{
  ℕ, Bool, true, false, none, some, [], ◌∷◌, ◌++◌, ◌≡◌, refl, ◌∙◌, ◌⊎◌, inl, inr, not, ◌&&◌, ◌||◌,
  if◌then◌else◌, Bool-cases, update_where, ◌==◌,
}
use corporate_lawyers_backen.World.{
  UserRole, CaseStatus, Case, EventType, Action, EntityType, WebhookEvent, World, ok, err,
  HttpError, ◌>>=◌,
}
use corporate_lawyers_backen.Roles.{is_admin}
use corporate_lawyers_backen.Cache.{lookup}
use corporate_lawyers_backen.Cases.Status.{lists, status_transitions, is_closed, is_archived}
use corporate_lawyers_backen.Cases.Records.{find_case, find_one, update_status}
use corporate_lawyers_backen.Cases.Lookup.{
  Coherent, Found, find_one-cases, find_one-hit, find_case-update,
}

-- What `updateStatus` writes into a row.
abbrev pub moved : (now : ℕ) → CaseStatus → Case → Case
moved now status c = record c {
  status = status;
  close_date = if is_closed status then some now else c.close_date;
}

abbrev pub may_archive : CaseStatus → CaseStatus → UserRole → Bool
may_archive from to role = not (is_closed from && is_archived to) || is_admin role

-- The world that an accepted change leaves.
abbrev pub announced_world : (now : ℕ) → ℕ → CaseStatus → ℕ → World → World
announced_world now id status user_id w = record w {
  db = record (w.db) {
    cases = update_where (λ c. c.id == id) (moved now status) w.db.cases;
    timeline =
        w.db.timeline
        ++ record { case_id = id; event_type = EventType.status_changed; is_public = true } ∷ [];
  };
  audit =
      w.audit
      ++ record {
        user_id = user_id;
        action = Action.status_change;
        entity_type = EntityType.case_entity;
        entity_id = id;
      }
        ∷ [];
  webhooks =
      if is_closed status
      then (w.webhooks ++ WebhookEvent.case_status_changed id ∷ [])
        ++ WebhookEvent.case_closed id ∷ []
      else w.webhooks ++ WebhookEvent.case_status_changed id ∷ [];
}

-- Whatever the cache hands over decides: an entry for the case that allows the move is enough for
-- the row to be rewritten, and the answer is that entry.
pub update_status-hit :
    (now id : ℕ) (status : CaseStatus) (user_id : ℕ) (role : UserRole) (w : World) (c : Case)
    → lookup id w.cache ≡ some c
    → lists (status_transitions c.status) status ≡ true
    → may_archive c.status status role ≡ true
    → update_status now id status user_id role w ≡ ok c (announced_world now id status user_id w)
unfolding update_status
update_status-hit now id CaseStatus.closed user_id role w c hit allowed may =
    rw (find_one-hit id w c hit, allowed, may, ◌>>=◌) (find_one-hit id _ c hit)
update_status-hit now id _ user_id role w c hit allowed may =
    rw (find_one-hit id w c hit, allowed, may, ◌>>=◌) (find_one-hit id _ c hit)

module _ (now id : ℕ) (status : CaseStatus) (user_id : ℕ) (role : UserRole) (w : World) where
  -- The first read of the request fills the cache, and the rest goes by its entry.
  update_status-Found :
      (found : Found id w)
      → update_status now id status user_id role w
        ≡ update_status now id status user_id role found.after
  unfolding update_status
  update_status-Found found =
      rw (found.returns, find_one-hit id found.after found.row found.cached, ◌>>=◌)

  update_status-missing :
      find_one id w ≡ err HttpError.not_found w
      → update_status now id status user_id role w ≡ err HttpError.not_found w
  unfolding update_status
  update_status-missing e = rw (e, ◌>>=◌)

  update_status-refused :
      (found : Found id w)
      → lists (status_transitions found.row.status) status ≡ false
      → update_status now id status user_id role w ≡ err HttpError.bad_request found.after
  unfolding update_status
  update_status-refused found refused = rw (found.returns, refused, ◌>>=◌)

  update_status-reserved :
      (found : Found id w)
      → lists (status_transitions found.row.status) status ≡ true
      → may_archive found.row.status status role ≡ false
      → update_status now id status user_id role w ≡ err HttpError.forbidden found.after
  unfolding update_status
  update_status-reserved found allowed not_admin = rw (found.returns, allowed, not_admin, ◌>>=◌)

  update_status-accepted :
      (found : Found id w)
      → lists (status_transitions found.row.status) status ≡ true
      → may_archive found.row.status status role ≡ true
      → update_status now id status user_id role w
        ≡ ok found.row (announced_world now id status user_id found.after)
  update_status-accepted found allowed may =
      update_status-Found found
      ∙ update_status-hit now id status user_id role found.after found.row found.cached allowed may

  announced-row :
      (found : Found id w)
      → find_case id (announced_world now id status user_id found.after).db.cases
        ≡ some (moved now status found.row)
  announced-row found =
      find_case-update id (moved now status) _ found.row (λ c. refl) (λ c. refl)
        (rw found.same_rest found.is_row)

  -- The four ways that a status change on a coherent cache ends. A missing case gives 404, a move
  -- that the table does not list 400, and archiving a closed case without being an administrator
  -- 403, each with the rows as they were. Any other move is written to the row, while both the
  -- answer and the cache entry are still the case before the move.
  pub update_status_lem :
      Coherent w
      → ((find_case id w.db.cases ≡ none)
          × (update_status now id status user_id role w ≡ err HttpError.not_found w))
        ⊎ (row : Case) × (w' : World) × (find_case id w.db.cases ≡ some row)
          × (((lists (status_transitions row.status) status ≡ false)
                × (update_status now id status user_id role w ≡ err HttpError.bad_request w')
                × (w'.db ≡ w.db))
              ⊎ ((lists (status_transitions row.status) status ≡ true)
                  × (may_archive row.status status role ≡ false)
                  × (update_status now id status user_id role w ≡ err HttpError.forbidden w')
                  × (w'.db ≡ w.db))
              ⊎ ((lists (status_transitions row.status) status ≡ true)
                  × (may_archive row.status status role ≡ true)
                  × (update_status now id status user_id role w ≡ ok row w')
                  × (find_case id w'.db.cases ≡ some (moved now status row))
                  × (lookup id w'.cache ≡ some row)))
  update_status_lem h = elim (find_one-cases id w h) [
    | inl missing ↦ inl (missing.0, update_status-missing missing.1)
    | inr found ↦ inr (elim (Bool-cases (lists (status_transitions found.row.status) status)) [
      | inl allowed ↦ elim (Bool-cases (may_archive found.row.status status role)) [
        | inl may ↦ (
          found.row,
          announced_world now id status user_id found.after,
          found.is_row,
          inr (
              inr (
                allowed,
                may,
                update_status-accepted found allowed may,
                announced-row found,
                found.cached,
              )),
        )
        | inr not_admin ↦ (
          found.row,
          found.after,
          found.is_row,
          inr (
              inl (
                allowed,
                not_admin,
                update_status-reserved found allowed not_admin,
                rw found.same_rest,
              )),
        )
      ]
      | inr refused ↦ (
        found.row,
        found.after,
        found.is_row,
        inl (refused, update_status-refused found refused, rw found.same_rest),
      )
    ])
  ]
