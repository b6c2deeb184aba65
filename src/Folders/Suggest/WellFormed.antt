-- ===== src/Folders/Suggest/WellFormed.antt =====
-- The requests that PostSuggestFolders takes (handlers/folders.go).
use podcast_backend.Prelude.{
  ◌≤◌, String, true, false, List, [], ◌∷◌, length, ltb, ◌==◌, ◌||◌, str_eq, eq_iff, ◌≡◌, refl, ap,
  sym, ◌∙◌, arith, inl, inr, In, Bool-cases,
}
use podcast_backend.Db.Keys.Tally.{tally}
use podcast_backend.Social.Guards.{matches_uuid_pattern}
use podcast_backend.Folders.{has_text}
use podcast_backend.Folders.Tables.{copies}
use podcast_backend.Folders.Suggest.{FolderSuggestionRequest, fine_uuids, fine_request}

-- One to a thousand uuids, each in the pattern and named once.
pub record WellFormed (r : FolderSuggestionRequest) : Type 0 where
  pub filled : 1 ≤ length r.uuids
  pub few : length r.uuids ≤ 1000
  pub shaped : (u : String) → In u r.uuids → matches_uuid_pattern u ≡ true
  pub single : (u : String) → copies u r.uuids ≤ 1

true-false : true ≡ false → ⊥
true-false e = cc

-- A list that passes the check has no uuid twice, and none that was seen.
fine_uuids-copies :
    (u : String) (seen us : List String)
    → fine_uuids seen us ≡ true
    → (copies u us ≤ 1) × (has_text u seen ≡ true → copies u us ≡ 0)
unfolding fine_uuids tally has_text
fine_uuids-copies u seen [] = λ e. (omega arith, λ h. refl)
fine_uuids-copies u seen (x ∷ us) = elim (Bool-cases (matches_uuid_pattern x)) [
  | inr bad ↦ rw bad (λ e. absurd (cc))
  | inl good ↦ elim (Bool-cases (has_text x seen)) [
    | inl again ↦ rw (good, again) (λ e. absurd (cc))
    | inr fresh ↦
        rw (good, fresh)
          (λ e.
            let rest = fine_uuids-copies u (x ∷ seen) us e in
            elim (Bool-cases (str_eq u x)) [
              | inl same ↦
                  let here : u ≡ x = (eq_iff u x).0 same in
                  let none_left = rest.1 (rw ((eq_iff x u).1 (sym here)) refl) in
                  (
                    rw same (omega (arith, none_left)),
                    λ h. absurd (true-false (sym h ∙ ap (λ k. has_text k seen) here ∙ fresh)),
                  )
              | inr apart ↦ (
                rw apart (omega (arith, rest.0)),
                λ h. rw apart (omega (arith, rest.1 (ground arith))),
              )
            ])
  ]
]

pub copies-In : (u : String) (us : List String) → In u us → 1 ≤ copies u us
unfolding tally
copies-In u [] i = elim i [ ]
copies-In u (x ∷ us) i = elim i [
  | inl same ↦ rw ((eq_iff u x).1 same) (omega arith)
  | inr later ↦ omega (arith, copies-In u us later)
]

fine_uuids-shaped :
    (u : String) (seen us : List String)
    → fine_uuids seen us ≡ true
    → In u us
    → matches_uuid_pattern u ≡ true
unfolding fine_uuids
fine_uuids-shaped u seen [] = λ e i. elim i [ ]
fine_uuids-shaped u seen (x ∷ us) = elim (Bool-cases (matches_uuid_pattern x)) [
  | inr bad ↦ rw bad (λ e. absurd (cc))
  | inl good ↦ elim (Bool-cases (has_text x seen)) [
    | inl again ↦ rw (good, again) (λ e. absurd (cc))
    | inr fresh ↦
        rw (good, fresh)
          (λ e i. elim i [
            | inl same ↦ ap matches_uuid_pattern same ∙ good
            | inr later ↦ fine_uuids-shaped u (x ∷ seen) us e later
          ])
  ]
]

-- The loop takes every such list.
fine_uuids-all :
    (seen us : List String)
    → ((u : String) → In u us → matches_uuid_pattern u ≡ true)
    → ((u : String) → copies u us ≤ 1)
    → ((u : String) → In u us → has_text u seen ≡ false)
    → fine_uuids seen us ≡ true
unfolding fine_uuids tally has_text
fine_uuids-all seen [] shaped single new = refl
fine_uuids-all seen (x ∷ us) shaped single new =
    rw (shaped x (inl refl), new x (inl refl))
      (fine_uuids-all (x ∷ seen) us (λ u i. shaped u (inr i)) (λ u. let n = single u in omega arith)
        (λ u i. elim (Bool-cases (str_eq x u)) [
          | inr apart ↦ rw apart (new u (inr i))
          | inl same ↦
              let n = single u in
              let again = copies-In u us i in
              let first : str_eq u x ≡ true = (eq_iff u x).1 (sym ((eq_iff x u).0 same)) in
              absurd (omega (arith, rw first at n, again))
        ]))

module _ (r : FolderSuggestionRequest) where
  pub fine_request-WellFormed : fine_request r ≡ true → WellFormed r
  unfolding fine_request
  fine_request-WellFormed = elim (Bool-cases (length r.uuids == 0 || ltb 1000 (length r.uuids))) [
    | inl bad ↦ rw bad (λ e. absurd (cc))
    | inr good ↦ rw good (λ e. record {
      filled = ground arith;
      few = ground arith;
      shaped = λ u i. fine_uuids-shaped u [] r.uuids e i;
      single = λ u. (fine_uuids-copies u [] r.uuids e).0;
    })
  ]

  pub WellFormed-fine_request : WellFormed r → fine_request r ≡ true
  unfolding fine_request has_text
  WellFormed-fine_request w =
      let filled = w.filled in
      let few = w.few in
      let sized : (length r.uuids == 0 || ltb 1000 (length r.uuids)) ≡ false = ground arith in
      rw sized (fine_uuids-all [] r.uuids w.shaped w.single (λ u i. refl))
