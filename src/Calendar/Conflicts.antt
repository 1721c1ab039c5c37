-- ===== src/Calendar/Conflicts.antt =====
-- What `checkScheduleConflicts` of event.service.ts lists, against what a conflict is: an instant at
-- which both events take place.
use corporate_lawyers_backen.Prelude.{
  ℕ, ◌≤◌, ◌<◌, Bool, true, false, Option, some, List, [], ◌∷◌, ◌++◌, ◌≡◌, refl, ◌∙◌, ◌↔◌, inl, inr,
  ◌&&◌, ◌||◌, ◌==◌, ltb, leb, is_some, find, select, any, map, includes, All, Keyed, Bool-cases,
  ==_refl, ==_eq, leb→le, arith, ◌≢◌,
}
use corporate_lawyers_backen.Calendar.{
  Event, Store, takes_part, not_excluded, overlapping, check_schedule_conflicts,
}

-- An instant of the span from `start_date` to `end_date`, its end excluded, at which `e` takes place.
abbrev pub SharesInstant : (start_date end_date : ℕ) → Event → Type 0
SharesInstant start_date end_date e =
    (t : ℕ) × (start_date ≤ t) × (t < end_date) × (e.start_date ≤ t) × (t < e.end_date)

overlap-SharesInstant :
    (a b : ℕ) (e : Event)
    → a < b
    → e.start_date < e.end_date
    → (ltb e.start_date b && ltb a e.end_date ≡ true) ↔ SharesInstant a b e
overlap-SharesInstant a b e ordered ordered' = (
  (λ h. elim (Bool-cases (leb a e.start_date)) [
    | inl late ↦ (e.start_date, leb→le a e.start_date late, ground arith, omega arith, omega arith)
    | inr early ↦ (a, omega arith, omega arith, ground arith, ground arith)
  ]),
  λ (t, after, before, after', before'). ground arith,
)

any-append : {A : Type 0} (p : A → Bool) (xs ys : List A) → any p (xs ++ ys) ≡ any p xs || any p ys
any-append p [] ys = refl
any-append p (x ∷ xs) ys = ground (arith, any-append p xs ys)

abbrev pub names : (user_id event_id : ℕ) → ℕ × ℕ → Bool
names user_id event_id c = c.0 == user_id && c.1 == event_id

any-names :
    (w user_id event_id : ℕ) (p : Event → Bool) (es : List Event)
    → any (names user_id event_id) (map (λ e. (w, e.id)) (select p es))
      ≡ (w == user_id && any (λ e. e.id == event_id && p e) es)
any-names w user_id event_id p [] = ground arith
any-names w user_id event_id p (e ∷ es) = elim (Bool-cases (p e)) [
  | inl passes ↦ rw passes (ground (arith, any-names w user_id event_id p es))
  | inr fails ↦ rw fails (ground (arith, any-names w user_id event_id p es))
]

none_named :
    (id : ℕ) (p : Event → Bool) (es : List Event)
    → All (λ (e : Event). id ≢ e.id) es
    → any (λ e. e.id == id && p e) es ≡ false
none_named id p [] h = refl
none_named id p (e ∷ es) (h, hs) = ground (arith, none_named id p es hs)

any-Keyed :
    (p : Event → Bool) (es : List Event) (e : Event)
    → Keyed (λ (e : Event). e.id) es
    → find (λ x. x.id == e.id) es ≡ some e
    → any (λ x. x.id == e.id && p x) es ≡ p e
any-Keyed p [] e keyed found = ground arith
any-Keyed p (x ∷ es) e (apart, keyed) found = elim (Bool-cases (x.id == e.id)) [
  | inl here ↦ ground (arith, none_named x.id p es apart)
  | inr there ↦ ground (arith, any-Keyed p es e keyed)
]

absorb : (o i : Bool) → (o || i && o) ≡ o
absorb true i = refl
absorb false true = refl
absorb false false = refl

conflicts-any :
    (user_ids : List ℕ) (user_id a b : ℕ) (exclude : Option ℕ) (s : Store) (e : Event)
    → Keyed (λ (e : Event). e.id) s.events
    → find (λ x. x.id == e.id) s.events ≡ some e
    → any (names user_id e.id) (check_schedule_conflicts user_ids a b exclude s)
      ≡ (includes user_ids user_id && overlapping user_id a b exclude s e)
unfolding check_schedule_conflicts
conflicts-any [] user_id a b exclude s e keyed found = refl
conflicts-any (w ∷ user_ids) user_id a b exclude s e keyed found =
    any-append (names user_id e.id)
      (map (λ x. (w, x.id)) (select (overlapping w a b exclude s) s.events)) _
    ∙ rw
        (
          any-names w user_id e.id (overlapping w a b exclude s) s.events,
          any-Keyed (overlapping w a b exclude s) s.events e keyed found,
          conflicts-any user_ids user_id a b exclude s e keyed found,
        )
        (elim (Bool-cases (w == user_id)) [
          | inl same ↦
              rw (==_eq w user_id same, ==_refl user_id)
                (absorb (overlapping user_id a b exclude s e) (includes user_ids user_id))
          | inr other ↦ rw other refl
        ])

-- The list of conflicts is right, on a table with unique ids whose events end after they start: a
-- user and an event are listed exactly when the user is one of those asked about, the event is not
-- deleted and not the excluded one, the user made it or attends it, and some instant of the span lies
-- in the event.
pub check_schedule_conflicts_lem :
    (user_ids : List ℕ) (user_id a b : ℕ) (exclude : Option ℕ) (s : Store) (e : Event)
    → Keyed (λ (e : Event). e.id) s.events
    → find (λ x. x.id == e.id) s.events ≡ some e
    → a < b
    → e.start_date < e.end_date
    → (any (names user_id e.id) (check_schedule_conflicts user_ids a b exclude s) ≡ true) ↔ (
        (includes user_ids user_id ≡ true)
        × (is_some e.deleted_at ≡ false)
        × (not_excluded exclude e ≡ true)
        × (takes_part user_id s e ≡ true)
        × SharesInstant a b e)
check_schedule_conflicts_lem user_ids user_id a b exclude s e keyed found ordered ordered' =
    let same = conflicts-any user_ids user_id a b exclude s e keyed found in
    let (to, from) = overlap-SharesInstant a b e ordered ordered' in
    (
      (λ h.
          let h' = rw same at h in
          (ground arith, ground arith, ground arith, ground arith, to (ground arith))),
      λ (asked, live, included, part, shared). let over = from shared in rw same (ground arith),
    )
