-- ===== src/Calendar/Atomicity.antt =====
-- What is left of an event whose attendees cannot all be added: `create` of event.service.ts has no
-- transaction.
use corporate_lawyers_backen.Prelude.{
  ℕ, Bool, true, false, none, List, [], ◌∷◌, ◌++◌, ◌≡◌, refl, ap, ◌∙◌, ◌⊎◌, inl, inr, ◌&&◌, ◌||◌,
  ◌==◌, leb, find, any, includes, find-append, Bool-cases, ==_eq, ==_refl, arith,
}
use corporate_lawyers_backen.World.{HttpError, Ended, ok, err, ◌>>=◌, ◌>>◌, final}
use corporate_lawyers_backen.World.Request.Within.{Preorder, Within, modify-Within, within_rules}
use corporate_lawyers_backen.Calendar.{
  AttendeeStatus, Event, Person, Store, CreateEventDto, is_live_at, find_one, has_case, has_user,
  attends, create_attendee,
}
use corporate_lawyers_backen.Calendar.Events.{create_attendees, event_of, fails_with, create}

-- A list that names somebody twice.
abbrev pub repeats : List ℕ → Bool
repeats [] = false
repeats (i ∷ is) = includes is i || repeats is

-- Users that are there.
abbrev pub known : List ℕ → Store → Bool
known [] s = true
known (i ∷ is) s = any (λ u. u.id == i) s.users && known is s

abbrev keeps_events : Preorder Store
keeps_events = record { related = λ s t. t.events ≡ s.events; still = refl; onward = λ p q. q ∙ p }

all_started :
    (ended : Ended Store (Unit {0})) (rest : Store → Ended Store (Unit {0}))
    → ((t : Store) → (final {S = Store} (rest t)).events ≡ t.events)
    → (final {S = Store} (elim ended [ ok a t ↦ rest t | err e t ↦ fails_with e (rest t) ])).events
      ≡ (final {S = Store} ended).events
all_started (ok a s') rest k = k s'
all_started (err e s') rest k = k s'

create_attendee-events :
    (event_id user_id : ℕ) (status : AttendeeStatus)
    → Within keeps_events (create_attendee event_id user_id status)
unfolding create_attendee
create_attendee-events event_id user_id status = search (within_rules, modify-Within) depth 20

create_attendees-events :
    (event_id : ℕ) (user_ids : List ℕ) (s : Store)
    → (final (create_attendees event_id user_ids s)).events ≡ s.events
unfolding create_attendees
create_attendees-events event_id [] s = refl
create_attendees-events event_id (user_id ∷ user_ids) s =
    all_started (create_attendee event_id user_id AttendeeStatus.tentative s)
      (create_attendees event_id user_ids) (create_attendees-events event_id user_ids)
    ∙ (create_attendee-events event_id user_id AttendeeStatus.tentative).at_state s

any-append_kept :
    {A : Type 0} (p : A → Bool) (xs : List A) (x : A)
    → any p xs ≡ true
    → any p (xs ++ x ∷ []) ≡ true
any-append_kept p [] x h = ground arith
any-append_kept p (y ∷ xs) x h = ground (arith, any-append_kept p xs x)

any-append_last :
    {A : Type 0} (p : A → Bool) (xs : List A) (x : A) → p x ≡ true → any p (xs ++ x ∷ []) ≡ true
any-append_last p [] x h = ground arith
any-append_last p (y ∷ xs) x h = ground (arith, any-append_last p xs x h)

-- A user who is there is added, or attends already.
create_attendee_lem :
    (event_id user_id : ℕ) (s : Store)
    → any (λ u. u.id == user_id) s.users ≡ true
    → (create_attendee event_id user_id AttendeeStatus.tentative s ≡ err HttpError.conflict s)
      ⊎ (any (attends event_id user_id) s.attendees ≡ false)
        × (s' : Store) × (create_attendee event_id user_id AttendeeStatus.tentative s ≡ ok tt s')
        × (s'.users ≡ s.users)
        × (any (attends event_id user_id) s'.attendees ≡ true)
        × ((w : ℕ)
            → any (attends event_id w) s.attendees ≡ true
            → any (attends event_id w) s'.attendees ≡ true)
unfolding create_attendee
create_attendee_lem event_id user_id s there =
    elim (Bool-cases (any (attends event_id user_id) s.attendees)) [
      | inl already ↦ inl (rw (there, already, ◌>>=◌, ◌>>◌) refl)
      | inr new ↦ inr (
        new,
        record s {
          attendees =
              s.attendees
              ++ record {
                event_id = event_id;
                user_id = user_id;
                status = AttendeeStatus.tentative;
              }
                ∷ [];
        },
        rw (there, new, ◌>>=◌, ◌>>◌) refl,
        refl,
        any-append_last (attends event_id user_id) s.attendees _
            (ground (arith, ==_refl event_id, ==_refl user_id)),
        λ w. any-append_kept (attends event_id w) s.attendees _,
      )
    ]

known-users : (ids : List ℕ) (s t : Store) → t.users ≡ s.users → known ids t ≡ known ids s
known-users [] s t same = refl
known-users (i ∷ is) s t same =
    ap (λ us. any (λ (u : Person). u.id == i) us && known is t) same
    ∙ ap (λ b. any (λ (u : Person). u.id == i) s.users && b) (known-users is s t same)

-- With an attendee who attends already, or a repeated one, the creations fail with 409.
create_attendees-conflict :
    (event_id : ℕ) (user_ids : List ℕ) (s : Store)
    → known user_ids s ≡ true
    → ((w : ℕ) × (includes user_ids w ≡ true) × (any (attends event_id w) s.attendees ≡ true))
      ⊎ (repeats user_ids ≡ true)
    → create_attendees event_id user_ids s
      ≡ err HttpError.conflict (final (create_attendees event_id user_ids s))
unfolding create_attendees
create_attendees-conflict event_id [] s there (inl (w, listed, attending)) = ground arith
create_attendees-conflict event_id [] s there (inr repeated) = ground arith
create_attendees-conflict event_id (i ∷ is) s there why =
    elim (create_attendee_lem event_id i s (ground arith)) [
      | inl refused ↦ rw (create_attendees, refused) refl
      | inr (new, s', added, same, attending, kept) ↦
          let rest =
            create_attendees-conflict event_id is s' (known-users is s s' same ∙ ground arith)
              (elim why [
                | inl (w, listed, present) ↦ elim (Bool-cases (i == w)) [
                  | inl here ↦ absurd (
                      ground
                        (arith, ap (λ w. any (attends event_id w) s.attendees) (==_eq i w here)))
                  | inr there' ↦ inl (w, ground arith, kept w present)
                ]
                | inr repeated ↦ elim (Bool-cases (includes is i)) [
                  | inl again ↦ inl (i, again, attending)
                  | inr once ↦ inr (ground arith)
                ]
              ]) in
          rw (create_attendees, added) rest
    ]

none_live :
    (id : ℕ) (es : List Event) → any (λ e. e.id == id) es ≡ false → find (is_live_at id) es ≡ none
none_live id [] h = refl
none_live id (e ∷ es) h = ground (arith, none_live id es)

-- A new event is not all or nothing. When its case, if it has one, and its maker are there and the list of attendees names somebody twice, all of them users
-- who are there, the request is refused with 409, and the event stays: it is found under its id.
pub create-not_atomic :
    (new_id : ℕ) (dto : CreateEventDto) (created_by_id : ℕ) (s : Store)
    → any (λ e. e.id == new_id) s.events ≡ false
    → leb dto.end_date dto.start_date ≡ false
    → has_case dto.case_id s ≡ true
    → has_user created_by_id s ≡ true
    → known dto.attendee_ids s ≡ true
    → repeats dto.attendee_ids ≡ true
    → (s' : Store) × (create new_id dto created_by_id s ≡ err HttpError.conflict s')
      × (find_one new_id s' ≡ ok (event_of new_id dto created_by_id) s')
unfolding create find_one
create-not_atomic new_id dto created_by_id s fresh forwards on_case maker there repeated =
    let e = event_of new_id dto created_by_id in
    let s1 : Store = record s { events = s.events ++ e ∷ [] } in
    let failed =
      create_attendees-conflict new_id dto.attendee_ids s1
        (known-users dto.attendee_ids s s1 refl ∙ there) (inr repeated) in
    let kept = create_attendees-events new_id dto.attendee_ids s1 in
    let found =
      find-append (is_live_at new_id) s.events e (none_live new_id s.events fresh)
        (ground (arith, ==_refl new_id)) in
    (
      final (create_attendees new_id dto.attendee_ids s1),
      rw (forwards, on_case, maker, failed, ◌>>=◌, ◌>>◌) refl,
      rw (kept, found, ◌>>=◌, ◌>>◌) refl,
    )
