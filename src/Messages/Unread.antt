-- ===== src/Messages/Unread.antt =====
-- The two counts of unread messages in message.service.ts: getUnreadCounts and getUnreadCountForCase.
use corporate_lawyers_backen.Prelude.{
  ℕ, ◌+◌, List, [], ◌∷◌, ◌≡◌, ◌∙◌, not, ◌&&◌, ◌==◌, is_some, if◌then◌else◌, select, count_where,
  inl, inr, Bool-cases, ==_eq, ==_refl, arith,
}
use corporate_lawyers_backen.Messages.{
  ClientMessage, Store, unread_in, count_in, count_all, get_unread_counts,
  get_unread_count_for_case,
}

-- `counts[caseId] ?? 0`
abbrev pub count_of : (case_id : ℕ) → List (ℕ × ℕ) → ℕ
count_of case_id [] = 0
count_of case_id ((k, n) ∷ counts) = if k == case_id then n else count_of case_id counts

count_of-count_in :
    (case_id k : ℕ) (counts : List (ℕ × ℕ))
    → count_of case_id (count_in k counts)
      ≡ (if k == case_id then 1 else 0) + count_of case_id counts
count_of-count_in case_id k [] = ground arith
count_of-count_in case_id k ((j, n) ∷ counts) = elim (Bool-cases (j == k)) [
  | inl same ↦ rw (same, ==_eq j k same) (ground arith)
  | inr other ↦ rw other (
      ground (
        arith,
        count_of-count_in case_id k counts,
        ==_eq j case_id,
        ==_eq k case_id,
        ==_refl case_id,
      ))
]

count_of-count_all :
    (case_id user_id : ℕ) (counts : List (ℕ × ℕ)) (ms : List ClientMessage)
    → count_of case_id
        (count_all counts (select (λ m. m.receiver_id == user_id && not (is_some m.read_at)) ms))
      ≡ count_of case_id counts + count_where (unread_in case_id user_id) ms
count_of-count_all case_id user_id counts [] = ground arith
count_of-count_all case_id user_id counts (m ∷ ms) =
    elim (Bool-cases (m.receiver_id == user_id && not (is_some m.read_at))) [
      | inl mine ↦ rw mine (
          ground (
            arith,
            count_of-count_all case_id user_id (count_in m.case_id counts) ms,
            count_of-count_in case_id m.case_id counts,
          ))
      | inr other ↦ rw other (ground (arith, count_of-count_all case_id user_id counts ms))
    ]

zero_plus : (n : ℕ) → 0 + n ≡ n
zero_plus n = omega arith

-- The two ways of counting agree: the number that the counts of all cases hold for a case, or 0 where
-- they hold none, is the number of the user's unread messages in that case.
pub get_unread_counts_lem :
    (case_id user_id : ℕ) (s : Store)
    → count_of case_id (get_unread_counts user_id s) ≡ get_unread_count_for_case case_id user_id s
unfolding get_unread_counts get_unread_count_for_case
get_unread_counts_lem case_id user_id s =
    count_of-count_all case_id user_id [] s.messages ∙ zero_plus _
