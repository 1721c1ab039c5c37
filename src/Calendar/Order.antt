-- ===== src/Calendar/Order.antt =====
-- Every event of event.service.ts ends after it starts, after any calls.
use corporate_lawyers_backen.Prelude.{
  ℕ, ◌<◌, false, Option, some, List, [], ◌∷◌, ◌++◌, ◌≡◌, refl, inl, inr, ◌==◌, leb, or_else, find,
  any, ◌&&◌, update_where, All, All-find, Keyed, find-key, update_where-Keyed, append-Keyed,
  update_where-All, Bool-cases, Option-cases, ==_eq, find_holds, arith,
}
use corporate_lawyers_backen.World.{UserRole, Ended, ok, err, ◌>>=◌, ◌>>◌, final}
use corporate_lawyers_backen.World.Request.Within.{
  Preorder, Within, bind_ended, modify-Within, within_rules,
}
use corporate_lawyers_backen.Calendar.{
  AttendeeStatus, Event, Store, ReminderDto, CreateEventDto, UpdateEventDto, is_live_at, find_one,
  has_case, has_user, create_attendee,
}
use corporate_lawyers_backen.Calendar.Events.{
  create_attendees, event_of, create, after_attendees, fails_with, edited, may_change, update,
  delete_at, remove,
}
use corporate_lawyers_backen.Calendar.Attendees.{
  add_attendee, update_attendee_status, remove_attendee, add_reminder, remove_reminder,
}

abbrev pub EndsLater : Event → Type 0
EndsLater e = e.start_date < e.end_date

-- The ids of the events are different, and each event ends after it starts.
pub record Ordered (s : Store) : Type 0 where
  pub keyed : Keyed (λ (e : Event). e.id) s.events
  pub ordered : All EndsLater s.events

abbrev keeps_ordered : Preorder Store
keeps_ordered = record {
  related = λ s t. Ordered s → Ordered t;
  still = λ h. h;
  onward = λ f g h. g (f h);
}

frame : (s t : Store) → t.events ≡ s.events → Ordered s → Ordered t
frame s t same inv = record { keyed = rw same inv.keyed; ordered = rw same inv.ordered }

find_one-keeps : (id : ℕ) → Within keeps_ordered (find_one id)
unfolding find_one
find_one-keeps id = search within_rules

create_attendee-keeps :
    (event_id user_id : ℕ) (status : AttendeeStatus)
    → Within keeps_ordered (create_attendee event_id user_id status)
unfolding create_attendee
create_attendee-keeps event_id user_id status = search (within_rules, modify-Within, frame) depth 20

all_started :
    (ended : Ended Store (Unit {0})) (rest : Store → Ended Store (Unit {0}))
    → Ordered (final ended)
    → ((t : Store) → Ordered t → Ordered (final (rest t)))
    → Ordered (final (elim ended [ ok a t ↦ rest t | err e t ↦ fails_with e (rest t) ]))
all_started (ok a s') rest h k = k s' h
all_started (err e s') rest h k = k s' h

create_attendees-keeps :
    (event_id : ℕ) (user_ids : List ℕ) → Within keeps_ordered (create_attendees event_id user_ids)
unfolding create_attendees
create_attendees-keeps event_id [] = record { at_state = λ s inv. inv }
create_attendees-keeps event_id (user_id ∷ user_ids) = record {
  at_state = λ s inv.
      all_started (create_attendee event_id user_id AttendeeStatus.tentative s)
        (create_attendees event_id user_ids)
        ((create_attendee-keeps event_id user_id AttendeeStatus.tentative).at_state s inv)
        (create_attendees-keeps event_id user_ids).at_state;
}

add_attendee-keeps :
    (event_id user_id : ℕ) (status : Option AttendeeStatus)
    → Within keeps_ordered (add_attendee event_id user_id status)
unfolding add_attendee
add_attendee-keeps event_id user_id status =
    search (within_rules, find_one-keeps, create_attendee-keeps) depth 20

answer-keeps :
    (event_id user_id : ℕ) (status : AttendeeStatus) (current : ℕ) (role : UserRole)
    → Within keeps_ordered (update_attendee_status event_id user_id status current role)
unfolding update_attendee_status
answer-keeps event_id user_id status current role =
    search (within_rules, find_one-keeps, modify-Within, frame) depth 20

remove_attendee-keeps :
    (event_id user_id : ℕ) → Within keeps_ordered (remove_attendee event_id user_id)
unfolding remove_attendee
remove_attendee-keeps event_id user_id =
    search (within_rules, find_one-keeps, modify-Within, frame) depth 20

add_reminder-keeps :
    (event_id : ℕ) (dto : ReminderDto) → Within keeps_ordered (add_reminder event_id dto)
unfolding add_reminder
add_reminder-keeps event_id dto =
    search (within_rules, find_one-keeps, modify-Within, frame) depth 20

remove_reminder-keeps : (id : ℕ) → Within keeps_ordered (remove_reminder id)
unfolding remove_reminder
remove_reminder-keeps id = search (within_rules, modify-Within, frame) depth 20

append-EndsLater :
    (es : List Event) (e : Event) → EndsLater e → All EndsLater es → All EndsLater (es ++ e ∷ [])
append-EndsLater [] e h hs = (h, tt)
append-EndsLater (x ∷ es) e h (p, ps) = (p, append-EndsLater es e h ps)

create-Ordered :
    (new_id : ℕ) (dto : CreateEventDto) (created_by_id : ℕ) (s : Store)
    → any (λ e. e.id == new_id) s.events ≡ false
    → Ordered s
    → Ordered (final (create new_id dto created_by_id s))
unfolding create
create-Ordered new_id dto created_by_id s fresh inv =
    elim (Bool-cases (leb dto.end_date dto.start_date)) [
      | inl backwards ↦ rw (backwards, ◌>>=◌, ◌>>◌, final) inv
      | inr forwards ↦ elim (Bool-cases (has_case dto.case_id s && has_user created_by_id s)) [
        | inr broken ↦ rw (forwards, broken, ◌>>=◌, ◌>>◌, final) inv
        | inl keys ↦
            let e = event_of new_id dto created_by_id in
            let s' : Store = record s { events = s.events ++ e ∷ [] } in
            let inv' : Ordered s' = record {
              keyed = append-Keyed (λ e. e.id) s.events e inv.keyed fresh;
              ordered = append-EndsLater s.events e (ground arith) inv.ordered;
            } in
            rw (forwards, keys, ◌>>=◌, ◌>>◌)
              (bind_ended keeps_ordered s' (create_attendees new_id dto.attendee_ids s')
                (λ _. after_attendees new_id dto created_by_id)
                ((create_attendees-keeps new_id dto.attendee_ids).at_state s')
                (λ _. search (within_rules, find_one-keeps, modify-Within, frame) depth 20) inv')
      ]
    ]

update_row :
    (id : ℕ) (f : Event → Event) (s : Store) (e : Event)
    → find (is_live_at id) s.events ≡ some e
    → ((x : Event) → (f x).id ≡ x.id)
    → EndsLater (f e)
    → Ordered s
    → Ordered (record s { events = update_where (λ e. e.id == id) f s.events })
update_row id f s e found same_id later inv =
    let here : e.id ≡ id =
      ground (arith, ==_eq e.id id, find_holds (is_live_at id) s.events e found) in
    record {
      keyed = update_where-Keyed (λ e. e.id) f (λ e. e.id == id) s.events same_id inv.keyed;
      ordered =
          update_where-All (λ e. e.id) EndsLater f id s.events e inv.keyed
            (rw (← here) (find-key (λ e. e.id) (is_live_at id) s.events e inv.keyed found)) later
            inv.ordered;
    }

update-Ordered :
    (id : ℕ) (dto : UpdateEventDto) (user_id : ℕ) (role : UserRole) (s : Store)
    → Ordered s
    → Ordered (final (update id dto user_id role s))
unfolding update find_one
update-Ordered id dto user_id role s inv = elim (Option-cases (find (is_live_at id) s.events)) [
  | inl missing ↦ rw (missing, ◌>>=◌, ◌>>◌, final) inv
  | inr (e, found) ↦ elim (Bool-cases (may_change user_id role e)) [
    | inr forbidden ↦ rw (found, forbidden, ◌>>=◌, ◌>>◌, final) inv
    | inl allowed ↦
        elim (Bool-cases
          (leb (or_else dto.end_date e.end_date) (or_else dto.start_date e.start_date))) [
            | inl backwards ↦ rw (found, allowed, backwards, ◌>>=◌, ◌>>◌, final) inv
            | inr forwards ↦ elim (Bool-cases (has_case dto.case_id s)) [
              | inr unknown ↦ rw (found, allowed, forwards, unknown, ◌>>=◌, ◌>>◌, final) inv
              | inl known ↦
                  rw (found, allowed, forwards, known, ◌>>=◌, ◌>>◌, final)
                    (frame _ _ refl
                      (update_row id (edited dto) s e found (λ x. refl) (ground arith) inv))
            ]
          ]
  ]
]

remove-Ordered :
    (now id user_id : ℕ) (role : UserRole) (s : Store)
    → Ordered s
    → Ordered (final (remove now id user_id role s))
unfolding remove find_one
remove-Ordered now id user_id role s inv = elim (Option-cases (find (is_live_at id) s.events)) [
  | inl missing ↦ rw (missing, ◌>>=◌, ◌>>◌, final) inv
  | inr (e, found) ↦ elim (Bool-cases (may_change user_id role e)) [
    | inr forbidden ↦ rw (found, forbidden, ◌>>=◌, ◌>>◌, final) inv
    | inl allowed ↦
        rw (found, allowed, ◌>>=◌, ◌>>◌, final)
          (frame _ _ refl (
            update_row id (delete_at now) s e found (λ x. refl)
              (All-find EndsLater (is_live_at id) s.events e inv.ordered found) inv))
  ]
]

-- One call of the service, whatever its outcome. A new event draws an id that no event has.
pub data Step (s : Store) : Store → Type 0 where
  creates :
      (new_id : ℕ) (dto : CreateEventDto) (user_id : ℕ)
      → any (λ e. e.id == new_id) s.events ≡ false
      → Step s (final (create new_id dto user_id s))
  updates :
      (id : ℕ) (dto : UpdateEventDto) (user_id : ℕ) (role : UserRole)
      → Step s (final (update id dto user_id role s))
  removes : (now id user_id : ℕ) (role : UserRole) → Step s (final (remove now id user_id role s))
  adds_attendee :
      (event_id user_id : ℕ) (status : Option AttendeeStatus)
      → Step s (final (add_attendee event_id user_id status s))
  answers :
      (event_id user_id : ℕ) (status : AttendeeStatus) (current : ℕ) (role : UserRole)
      → Step s (final (update_attendee_status event_id user_id status current role s))
  removes_attendee : (event_id user_id : ℕ) → Step s (final (remove_attendee event_id user_id s))
  adds_reminder : (event_id : ℕ) (dto : ReminderDto) → Step s (final (add_reminder event_id dto s))
  removes_reminder : (id : ℕ) → Step s (final (remove_reminder id s))

-- Every call keeps this: the ids of the events are different, and each event ends after it starts.
pub Step-Ordered : {s t : Store} → Step s t → Ordered s → Ordered t
Step-Ordered {s} (creates new_id dto user_id fresh) = create-Ordered new_id dto user_id s fresh
Step-Ordered {s} (updates id dto user_id role) = update-Ordered id dto user_id role s
Step-Ordered {s} (removes now id user_id role) = remove-Ordered now id user_id role s
Step-Ordered {s} (adds_attendee event_id user_id status) =
    (add_attendee-keeps event_id user_id status).at_state s
Step-Ordered {s} (answers event_id user_id status current role) =
    (answer-keeps event_id user_id status current role).at_state s
Step-Ordered {s} (removes_attendee event_id user_id) =
    (remove_attendee-keeps event_id user_id).at_state s
Step-Ordered {s} (adds_reminder event_id dto) = (add_reminder-keeps event_id dto).at_state s
Step-Ordered {s} (removes_reminder id) = (remove_reminder-keeps id).at_state s
