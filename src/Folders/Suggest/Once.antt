-- ===== src/Folders/Suggest/Once.antt =====
-- PostSuggestFolders ends as it may (handlers/folders.go).
use podcast_backend.Prelude.{
  ℕ, true, false, Option, none, some, List, str_eq, ◌≡◌, ◌≢◌, refl, sym, ap, ◌∙◌, arith, ◌⊎◌, inl,
  inr, Bool-cases, Option-cases,
}
use podcast_backend.Folders.{Folder, repair_folder_assignments}
use podcast_backend.Folders.Language.{localized_other}
use podcast_backend.Folders.Repaired.{Repaired, repair_folder_assignments-Repaired}
use podcast_backend.Folders.Suggest.{
  PodcastSuggestionMetadata, FolderSuggestionRequest, Suggestion, Limited, Surroundings, groups,
  permanent, passing, allowed, denied, broken, fine_request, guards, repaired, suggest_for,
  post_suggest_folders, category_folder_fallback,
}
use podcast_backend.Folders.Suggest.WellFormed.{
  copies-In, fine_request-WellFormed, WellFormed-fine_request,
}
use podcast_backend.Folders.Suggest.Ends.{
  Sent, Admitted, Refusal, Outcome, refused, faulty, hit, closed, fresh, shut, unread, malformed,
  nameless, unlimited, too_many, storeless, found_groups, language_for, key_for, verdict,
}

Limited-cases : (l : Limited) → (l ≡ allowed) ⊎ ((l ≡ denied) ⊎ (l ≡ broken))
Limited-cases allowed = inl refl
Limited-cases denied = inr (inl refl)
Limited-cases broken = inr (inr refl)

module _ (s : Surroundings) where
  abbrev Passes : Option FolderSuggestionRequest → Type 0
  Passes body =
      ((n : ℕ) × (guards s body ≡ inl n) × Refusal s body n)
      ⊎ ((r : FolderSuggestionRequest) × (guards s body ≡ inr r) × Admitted s body r)

  module _ (r : FolderSuggestionRequest) (on : s.available ≡ true)
      (fine : fine_request r ≡ true) where
    abbrev sent_now : Sent s (some r) r
    sent_now = record { up = on; read = refl; formed = fine_request-WellFormed r fine }

    limited-Passes : str_eq s.installation "" ≡ false → Passes (some r)
    unfolding guards
    limited-Passes filled = elim (Limited-cases (verdict s)) [
      | inr (inl l) ↦ inl (429, rw (on, fine, filled, l) refl, too_many r sent_now filled l)
      | inr (inr l) ↦ inl (503, rw (on, fine, filled, l) refl, unlimited r sent_now filled l)
      | inl l ↦ elim (Bool-cases s.has_metadata) [
        | inr without ↦
            inl (501, rw (on, fine, filled, l, without) refl, storeless r sent_now filled l without)
        | inl there ↦ inr (
          r,
          rw (on, fine, filled, l, there) refl,
          record { sent = sent_now; known = filled; within = l; store = there },
        )
      ]
    ]

    sent-Passes : Passes (some r)
    unfolding guards
    sent-Passes = elim (Bool-cases (str_eq s.installation "")) [
      | inl empty ↦ inl (400, rw (on, fine, empty) refl, nameless r sent_now empty)
      | inr filled ↦ limited-Passes filled
    ]

  true-false : true ≡ false → ⊥
  true-false e = cc

  guards-Passes : (body : Option FolderSuggestionRequest) → Passes body
  unfolding guards
  guards-Passes none = elim (Bool-cases s.available) [
    | inr off ↦ inl (404, rw off refl, shut off)
    | inl on ↦ inl (400, rw on refl, unread on refl)
  ]
  guards-Passes (some r) = elim (Bool-cases s.available) [
    | inr off ↦ inl (404, rw off refl, shut off)
    | inl on ↦ elim (Bool-cases (fine_request r)) [
      | inr bad ↦ inl (
        400,
        rw (on, bad) refl,
        malformed r on refl (λ w. true-false (sym (WellFormed-fine_request r w) ∙ bad)),
      )
      | inl fine ↦ sent-Passes r on fine
    ]
  ]

  Suggestion-cases :
      (x : Suggestion)
      → ((answer : List Folder) × (x ≡ groups answer)) ⊎ ((x ≡ permanent) ⊎ (x ≡ passing))
  Suggestion-cases (groups answer) = inl (answer, refl)
  Suggestion-cases permanent = inr (inl refl)
  Suggestion-cases passing = inr (inr refl)

  module _ (body : Option FolderSuggestionRequest) (r : FolderSuggestionRequest)
      (rows : List PodcastSuggestionMetadata) (admitted : Admitted s body r)
      (known : s.metadata r.uuids ≡ some rows) (miss : s.cached (key_for s r rows) ≡ none) where
    repaired-Outcome :
        (answer : List Folder)
        → answer ≡ found_groups (s.suggest (language_for s r) rows) rows
        → s.suggest (language_for s r) rows ≢ permanent
        → let done = repaired s r (language_for s r) (key_for s r rows) answer in
          Outcome s body done.0 done.1
    unfolding repaired
    repaired-Outcome answer from lasting =
        let other = localized_other (language_for s r) in
        let result = repair_folder_assignments s.to_lower answer r.uuids other in
        let fit : Repaired r.uuids other result =
          repair_folder_assignments-Repaired s.to_lower answer r.uuids other in
        fresh r rows (s.encode result) admitted known miss lasting (record {
          rows = result;
          source = ap (λ a. repair_folder_assignments s.to_lower a r.uuids other) from;
          printed = refl;
          fit = fit;
          once = λ u i.
              omega (arith, fit.each u, admitted.sent.formed.single u, copies-In u r.uuids i);
        })

    missed-Outcome : let done = suggest_for s r rows in Outcome s body done.0 done.1
    unfolding suggest_for
    missed-Outcome = elim (Suggestion-cases (s.suggest (language_for s r) rows)) [
      | inr (inl gone) ↦ rw (suggest_for, miss, gone) (closed r rows admitted known miss gone)
      | inr (inr later) ↦
          rw (suggest_for, miss, later)
            (repaired-Outcome (category_folder_fallback rows) (rw later refl)
              (λ e. absurd (distinct (sym later ∙ e))))
      | inl (answer, found) ↦
          rw (suggest_for, miss, found)
            (repaired-Outcome answer (rw found refl) (λ e. absurd (other_than (sym found ∙ e))))
    ]
      where
        distinct : passing ≡ permanent → ⊥
        distinct e = cc

        other_than : {a : List Folder} → groups a ≡ permanent → ⊥
        other_than e = cc

  -- Every request ends in one of five ways. A check refuses it, with the check's own status: the
  -- provider is shut, the body does not decode or does not hold one to a thousand different uuids, the
  -- installation is not known, the rate limiter fails or says no, there is no store. Or it is admitted
  -- by all of them, and the query fails; the text that is stored under the request's key is answered;
  -- nothing is stored and the provider is off for good, a 404; or nothing is stored and the answer is
  -- fresh. Its folders are the repair of the provider's, or of those by category, are well formed, with
  -- the rest under its name in the supported language, and hold each uuid of the request once. A fresh
  -- answer, and no other, is sent to the cache, for seven days.
  pub post_suggest_folders-Outcome :
      (body : Option FolderSuggestionRequest)
      → let done = post_suggest_folders s body in Outcome s body done.0 done.1
  unfolding post_suggest_folders suggest_for
  post_suggest_folders-Outcome body = elim (guards-Passes body) [
    | inl (n, stop, why) ↦ rw (post_suggest_folders, stop) (refused n why)
    | inr (r, pass, admitted) ↦ elim (Option-cases (s.metadata r.uuids)) [
      | inl gone ↦ rw (post_suggest_folders, pass, gone) (faulty r admitted gone)
      | inr (rows, known) ↦ elim (Option-cases (s.cached (key_for s r rows))) [
        | inr (text, stored) ↦
            rw (post_suggest_folders, pass, known, suggest_for, stored)
              (hit r rows text admitted known stored)
        | inl miss ↦
            rw (post_suggest_folders, pass, known) (missed-Outcome body r rows admitted known miss)
      ]
    ]
  ]
