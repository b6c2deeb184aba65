-- ===== src/Db/Queue/Cap.antt =====
-- The history's trim: a cap on the rows of a user.
use podcast_backend.Prelude.{
  ℕ, suc, ◌≤◌, String, true, false, ◌||◌, not, List, [], ◌∷◌, str_eq, eq_iff, ◌==◌, ◌≡◌, refl, ap,
  inl, inr, arith, All, length, length-take-le, map, take, select, select-All, select_pass, sort_by,
  Bool-cases,
}
use podcast_backend.Db.Table.{Unique}
use podcast_backend.Db.Table.Names.{FreshName, DistinctNames, mine-DistinctNames, select-Unique}
use podcast_backend.Db.Rows.{History, history_key}
use podcast_backend.Db.Queue.{has_uuid, uuids, newest, newest_first, trim}

-- The rows of other names than v.
abbrev without : String → List History → List History
without v = select (λ (r : History). not (str_eq v r.episode_uuid))

without-pass :
    (v name : String) (rows : List History)
    → str_eq v name ≡ true
    → FreshName name rows
    → All (λ (r : History). not (str_eq v r.episode_uuid) ≡ true) rows
without-pass v name [] e f = tt
without-pass v name (x ∷ rows) e f = (
  (let p = f.0 in
      ground (arith, eq_iff v name, eq_iff v x.episode_uuid, eq_iff x.episode_uuid name)),
  without-pass v name rows e f.1,
)

-- A name stands in at most one row.
without-length :
    (v : String) (rows : List History)
    → DistinctNames rows
    → length rows ≤ suc (length (without v rows))
unfolding select
without-length v [] d = omega arith
without-length v (x ∷ rows) d = elim (Bool-cases (str_eq v x.episode_uuid)) [
  | inl e ↦ rw (e, select_pass _ rows (without-pass v x.episode_uuid rows e d.0)) (omega arith)
  | inr e ↦ let rest = without-length v rows d.1 in rw e (omega arith)
]

without-Distinct :
    (v : String) (rows : List History) → DistinctNames rows → DistinctNames (without v rows)
unfolding select
without-Distinct v [] d = tt
without-Distinct v (x ∷ rows) d = elim (Bool-cases (str_eq v x.episode_uuid)) [
  | inl e ↦ rw e (without-Distinct v rows d.1)
  | inr e ↦ rw e (select-All _ _ rows d.0, without-Distinct v rows d.1)
]

without-named :
    (v : String) (vs : List String) (rows : List History)
    → All (λ (r : History). has_uuid r.episode_uuid (v ∷ vs) ≡ true) rows
    → All (λ (r : History). has_uuid r.episode_uuid vs ≡ true) (without v rows)
unfolding select has_uuid
without-named v vs [] h = tt
without-named v vs (x ∷ rows) h = elim (Bool-cases (str_eq v x.episode_uuid)) [
  | inl e ↦ rw e (without-named v vs rows h.1)
  | inr e ↦ let p = h.0 in rw e (ground arith, without-named v vs rows h.1)
]

-- Rows of different names among these are no more than these.
named-length :
    (names : List String) (rows : List History)
    → DistinctNames rows
    → All (λ (r : History). has_uuid r.episode_uuid names ≡ true) rows
    → length rows ≤ length names
unfolding has_uuid
named-length [] [] d h = omega arith
named-length [] (x ∷ rows) d h = absurd (let p = h.0 in ground arith)
named-length (v ∷ names) rows d h =
    let less = without-length v rows d in
    let rest =
      named-length names (without v rows) (without-Distinct v rows d)
        (without-named v names rows h) in
    omega arith

length-map : (f : History → String) (rows : List History) → length (map f rows) ≡ length rows
length-map f [] = refl
length-map f (x ∷ rows) = ap suc (length-map f rows)

module _ (user : ℕ) (names : List String) where
  kept-named :
      (rows : List History)
      → All
          (λ (r : History). has_uuid r.episode_uuid names ≡ true)
          (select
            (λ (r : History). r.user_id == user)
            (select
              (λ (r : History). not (r.user_id == user) || has_uuid r.episode_uuid names)
              rows))
  unfolding select
  kept-named [] = tt
  kept-named (x ∷ rows) = elim (Bool-cases (x.user_id == user)) [
    | inl m ↦ elim (Bool-cases (has_uuid x.episode_uuid names)) [
      | inl h ↦ rw (m, h, m) (h, kept-named rows)
      | inr h ↦ rw (m, h) (kept-named rows)
    ]
    | inr m ↦ rw (m, m) (kept-named rows)
  ]

  others-kept :
      (other : ℕ) (rows : List History)
      → (other == user) ≡ false
      → select
          (λ (r : History). r.user_id == other)
          (select (λ (r : History). not (r.user_id == user) || has_uuid r.episode_uuid names) rows)
        ≡ select (λ (r : History). r.user_id == other) rows
  unfolding select
  others-kept other [] ne = refl
  others-kept other (x ∷ rows) ne = ground (arith, others-kept other rows ne)

-- A trim leaves the user at most as many rows as the limit, where the table has its primary key,
-- and leaves the rows of every other user alone.
pub trim-capped :
    (user limit : ℕ) (rows : List History)
    → Unique rows
    → (length (select (λ (r : History). r.user_id == user) (trim user limit rows)) ≤ limit)
      × ((other : ℕ)
          → (other == user) ≡ false
          → select (λ (r : History). r.user_id == other) (trim user limit rows)
            ≡ select (λ (r : History). r.user_id == other) rows)
unfolding trim newest
trim-capped user limit rows unique =
    let found =
      take limit (sort_by newest_first (select (λ (r : History). r.user_id == user) rows)) in
    let few =
      length-take-le limit
        (sort_by newest_first (select (λ (r : History). r.user_id == user) rows)) in
    let same = length-map (λ r. r.episode_uuid) found in
    let most =
      named-length (uuids found) _
        (mine-DistinctNames user _ (
          select-Unique
            (λ (r : History). not (r.user_id == user) || has_uuid r.episode_uuid (uuids found)) rows
            unique))
        (kept-named user (uuids found) rows) in
    (omega arith, λ other ne. others-kept user (uuids found) other rows ne)
