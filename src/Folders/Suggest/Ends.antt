-- ===== src/Folders/Suggest/Ends.antt =====
-- How PostSuggestFolders may end (handlers/folders.go).
use Prim.Native.String.{◌++◌}
use podcast_backend.Prelude.{
  ℕ, String, true, false, Option, none, some, List, [], str_eq, ◌≡◌, ◌≢◌, In,
}
use podcast_backend.Folders.{Folder, repair_folder_assignments}
use podcast_backend.Folders.Language.{supported_folder_language, localized_other}
use podcast_backend.Folders.Tables.{total}
use podcast_backend.Folders.Repaired.{Repaired}
use podcast_backend.Folders.Suggest.{
  PodcastSuggestionMetadata, FolderSuggestionRequest, Suggestion, Limited, Surroundings, Answer,
  SetCall, ok, status, failed, groups, permanent, passing, allowed, denied, broken,
  folder_cache_key, category_folder_fallback,
}
use podcast_backend.Folders.Suggest.WellFormed.{WellFormed}

-- The folders that are repaired: the provider's, or those by category where it failed for now.
abbrev pub found_groups : Suggestion → List PodcastSuggestionMetadata → List Folder
found_groups (groups answer) rows = answer
found_groups permanent rows = []
found_groups passing rows = category_folder_fallback rows

module _ (s : Surroundings) where
  abbrev pub language_for : FolderSuggestionRequest → String
  language_for r = supported_folder_language s.to_lower s.to_upper r.language

  abbrev pub key_for : FolderSuggestionRequest → List PodcastSuggestionMetadata → String
  key_for r rows = folder_cache_key s (language_for r) r.uuids rows

  -- The rate limiter's verdict: five requests of an installation in a minute.
  abbrev pub verdict : Limited
  verdict = s.limited ("folders:" ++ s.installation) 5 60

  -- A well-formed request that arrived while the provider was there.
  pub record Sent (body : Option FolderSuggestionRequest) (r : FolderSuggestionRequest)
      : Type 0 where
    pub up : s.available ≡ true
    pub read : body ≡ some r
    pub formed : WellFormed r

  -- One that the limiter let through, too, with a store to ask.
  pub record Admitted (body : Option FolderSuggestionRequest) (r : FolderSuggestionRequest)
      : Type 0 where
    pub sent : Sent body r
    pub known : str_eq s.installation "" ≡ false
    pub within : verdict ≡ allowed
    pub store : s.has_metadata ≡ true

  -- Why a request is refused, and with which status.
  pub data Refusal (body : Option FolderSuggestionRequest) : ℕ → Type 0 where
    shut : s.available ≡ false → Refusal body 404
    unread : s.available ≡ true → body ≡ none → Refusal body 400
    malformed :
        (r : FolderSuggestionRequest)
        → s.available ≡ true
        → body ≡ some r
        → (WellFormed r → ⊥)
        → Refusal body 400
    nameless :
        (r : FolderSuggestionRequest)
        → Sent body r
        → str_eq s.installation "" ≡ true
        → Refusal body 400
    unlimited :
        (r : FolderSuggestionRequest)
        → Sent body r
        → str_eq s.installation "" ≡ false
        → verdict ≡ broken
        → Refusal body 503
    too_many :
        (r : FolderSuggestionRequest)
        → Sent body r
        → str_eq s.installation "" ≡ false
        → verdict ≡ denied
        → Refusal body 429
    storeless :
        (r : FolderSuggestionRequest)
        → Sent body r
        → str_eq s.installation "" ≡ false
        → verdict ≡ allowed
        → s.has_metadata ≡ false
        → Refusal body 501

  -- A fresh answer: the folders that the request gets, and the text that carries them.
  pub record Fresh (r : FolderSuggestionRequest) (metadata : List PodcastSuggestionMetadata)
      (text : String) : Type 0 where
    pub rows : List Folder
    pub source :
        rows
        ≡ repair_folder_assignments s.to_lower
            (found_groups (s.suggest (language_for r) metadata) metadata)
            r.uuids
            (localized_other (language_for r))
    pub printed : text ≡ s.encode rows
    pub fit : Repaired r.uuids (localized_other (language_for r)) rows
    pub once : (u : String) → In u r.uuids → total u rows ≡ 1

  -- How a request can end, with what is sent to the cache.
  pub data Outcome (body : Option FolderSuggestionRequest) : Answer → Option SetCall → Type 0 where
    refused : (n : ℕ) → Refusal body n → Outcome body (status n) none
    faulty :
        (r : FolderSuggestionRequest)
        → Admitted body r
        → s.metadata r.uuids ≡ none
        → Outcome body failed none
    hit :
        (r : FolderSuggestionRequest) (rows : List PodcastSuggestionMetadata) (text : String)
        → Admitted body r
        → s.metadata r.uuids ≡ some rows
        → s.cached (key_for r rows) ≡ some text
        → Outcome body (ok text) none
    closed :
        (r : FolderSuggestionRequest) (rows : List PodcastSuggestionMetadata)
        → Admitted body r
        → s.metadata r.uuids ≡ some rows
        → s.cached (key_for r rows) ≡ none
        → s.suggest (language_for r) rows ≡ permanent
        → Outcome body (status 404) none
    fresh :
        (r : FolderSuggestionRequest) (rows : List PodcastSuggestionMetadata) (text : String)
        → Admitted body r
        → s.metadata r.uuids ≡ some rows
        → s.cached (key_for r rows) ≡ none
        → s.suggest (language_for r) rows ≢ permanent
        → Fresh r rows text
        → Outcome body
            (ok text)
            (some (record { key = key_for r rows; value = text; seconds = 604800 }))
