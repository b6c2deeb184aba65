-- ===== src/Tests/Folders.antt =====
-- The suggestion of folders: an answer that gives one podcast two folders, and one that leaves out a
-- podcast and names one that was not submitted.
use podcast_backend.Prelude.{
  String, List, [], ◌∷◌, true, some, none, map, ◌≡◌, refl, sort_by, select,
}
use podcast_backend.Db.Keys.{get, modify, remove}
use podcast_backend.Moderation.{trim_space}
use podcast_backend.Folders.{Folder, repair_folder_assignments, has_text, value_of}
use podcast_backend.Folders.Language.{supported_folder_language, localized_other}
use podcast_backend.Folders.Suggest.{
  FolderSuggestionRequest, PodcastSuggestionMetadata, Surroundings, passing,
  category_folder_fallback, before_comma, ok, status, groups, allowed, post_suggest_folders,
}
use podcast_backend.Folders.Suggest.Ends.{Outcome}
use podcast_backend.Folders.Suggest.Once.{post_suggest_folders-Outcome}
use podcast_backend.Folders.Repaired.{Repaired, repair_folder_assignments-Repaired}

abbrev submitted : List String
submitted = "a" ∷ "b" ∷ "c" ∷ "d" ∷ []

abbrev answer : List Folder
answer =
    record { name = " News "; uuids = "b" ∷ "a" ∷ "x" ∷ [] }
    ∷ record { name = "Art"; uuids = "c" ∷ [] }
    ∷ []

keeps_the_pair : repair_folder_assignments (λ s. s) answer submitted "Other" ≡ (
    record { name = "Other"; uuids = "c" ∷ "d" ∷ [] }
    ∷ record { name = "News"; uuids = "a" ∷ "b" ∷ [] }
    ∷ [])
unfolding repair_folder_assignments get has_text sort_by trim_space value_of modify remove select
keeps_the_pair = refl

repair_folder_assignments-Repaired_example :
    Repaired submitted "Other" (repair_folder_assignments (λ s. s) answer submitted "Other")
repair_folder_assignments-Repaired_example =
    repair_folder_assignments-Repaired (λ s. s) answer submitted "Other"

-- A provider that leaves the second uuid out.
abbrev around : Surroundings
around = record {
  to_lower = λ s. s;
  to_upper = λ s. s;
  available = true;
  installation = "10.0.0.1";
  limited = λ key limit seconds. allowed;
  has_metadata = true;
  metadata = λ uuids. some [];
  cache_key = λ language uuids rows. language;
  cached = λ key. none;
  suggest = λ language rows.
      groups (record { name = "News"; uuids = "3f2504e0-4f89-11d3-9a0c-0305e82c3301" ∷ [] } ∷ []);
  encode = λ rows. elim rows [ [] ↦ "" | f ∷ fs ↦ f.name ];
}

abbrev request : FolderSuggestionRequest
request = record {
  language = "fr_ca";
  uuids = "3f2504e0-4f89-11d3-9a0c-0305e82c3301" ∷ "3f2504e0-4f89-11d3-9a0c-0305e82c3302" ∷ [];
}

answers_in_french :
    post_suggest_folders around (some request)
    ≡ (ok "Autres", some (record { key = "fr"; value = "Autres"; seconds = 604800 }))
unfolding post_suggest_folders value_of repair_folder_assignments supported_folder_language get
    sort_by trim_space localized_other remove select modify
answers_in_french = refl

refuses_twice :
    post_suggest_folders around (
      some (record request {
        uuids =
            "3f2504e0-4f89-11d3-9a0c-0305e82c3301" ∷ "3f2504e0-4f89-11d3-9a0c-0305e82c3301" ∷ [];
      }))
    ≡ (status 400, none)
unfolding post_suggest_folders
refuses_twice = refl

-- The fallback's name for podcasts without a category stays English in every language.
abbrev uncategorised : String → PodcastSuggestionMetadata
uncategorised u = record { uuid = u; title = ""; author = ""; category = " "; description = "" }

other_in_spanish :
    post_suggest_folders
      (record around {
        suggest = λ language rows. passing;
        metadata = λ us. some (map uncategorised us);
      })
      (some (record request { language = "es" }))
    ≡ (ok "Other", some (record { key = "es"; value = "Other"; seconds = 604800 }))
unfolding post_suggest_folders value_of repair_folder_assignments supported_folder_language get
    sort_by trim_space localized_other remove select modify category_folder_fallback before_comma
other_in_spanish = refl

post_suggest_folders-Outcome_example :
    Outcome around
      (some request)
      (post_suggest_folders around (some request)).0
      (post_suggest_folders around (some request)).1
post_suggest_folders-Outcome_example = post_suggest_folders-Outcome around (some request)
