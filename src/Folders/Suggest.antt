-- ===== src/Folders/Suggest.antt =====
-- handlers/folders.go: PostSuggestFolders and categoryFolderFallback. Redis is outside: what
-- it answers to a Get is given, and what is sent to it by a Set is returned beside the answer; the
-- handler ignores whether that succeeds.
use Prim.Native.Char.{code}
use Prim.Native.String.{◌++◌}
use podcast_backend.Prelude.{
  ℕ, String, Bool, true, false, not, ◌||◌, Option, none, some, List, [], ◌∷◌, length, ltb, ◌==◌,
  str_eq, or_else, if◌then◌else◌, ◌⊎◌, inl, inr, sort_by,
}
use podcast_backend.Moderation.{trim_space}
use podcast_backend.Social.Guards.{matches_uuid_pattern}
use podcast_backend.Folders.{
  Folder, append_to, before_text, has_text, value_of, repair_folder_assignments,
}
use podcast_backend.Folders.Language.{supported_folder_language, localized_other}
pub mod WellFormed
pub mod Ends
pub mod Once

pub record PodcastSuggestionMetadata : Type 0 where
  pub uuid : String
  pub title : String
  pub author : String
  pub category : String
  pub description : String

pub record FolderSuggestionRequest : Type 0 where
  pub language : String
  pub uuids : List String

-- What Suggest of the provider returns: its groups, or an error, which may be errPermanentGemini.
pub data Suggestion : Type 0 where
  groups : List Folder → Suggestion
  permanent : Suggestion
  passing : Suggestion

-- redisLimit
pub data Limited : Type 0 where
  allowed : Limited
  denied : Limited
  broken : Limited

-- What the handler has around it: the provider, the installation, the rate limiter by its key, limit
-- and seconds, the metadata store and its rows, the codec of the answer, the digest of the cache's
-- key, Redis.Get (none for a miss or an error), and the case tables.
pub record Surroundings : Type 0 where
  pub to_lower : String → String
  pub to_upper : String → String
  pub available : Bool
  pub installation : String
  pub limited : String → ℕ → ℕ → Limited
  pub has_metadata : Bool
  pub metadata : List String → Option (List PodcastSuggestionMetadata)
  pub cache_key : String → List String → List PodcastSuggestionMetadata → String
  pub cached : String → Option String
  pub suggest : String → List PodcastSuggestionMetadata → Suggestion
  pub encode : List Folder → String

-- A body, a status alone, or what writeError makes of an error of the query.
pub data Answer : Type 0 where
  ok : String → Answer
  status : ℕ → Answer
  failed : Answer

-- A call of Redis.Set, with the seconds that the entry is to live.
pub record SetCall : Type 0 where
  pub key : String
  pub value : String
  pub seconds : ℕ

abbrev pub Reply : Type 0
Reply = Answer × Option SetCall

-- strings.Split(s, ",")[0]
unfoldable pub before_comma : String → String
before_comma String.[] = ""
before_comma (String.◌∷◌ c s) = if code c == b',' then "" else String.◌∷◌ c (before_comma s)

unfoldable pub fallback_name : PodcastSuggestionMetadata → String
unfolding before_comma
fallback_name podcast =
    let name = trim_space (before_comma podcast.category) in
    if str_eq name "" then "Other" else name

unfoldable pub fallback_from : List PodcastSuggestionMetadata → List Folder → List Folder
unfolding fallback_name append_to
fallback_from [] result = result
fallback_from (podcast ∷ rest) result =
    fallback_from rest (append_to (fallback_name podcast) (podcast.uuid ∷ []) result)

unfoldable pub category_folder_fallback : List PodcastSuggestionMetadata → List Folder
unfolding fallback_from
category_folder_fallback metadata = fallback_from metadata []

-- The loop over the uuids of the request: each is one, and none comes twice.
unfoldable pub fine_uuids : List String → List String → Bool
unfolding has_text matches_uuid_pattern
fine_uuids seen [] = true
fine_uuids seen (u ∷ us) =
    if not (matches_uuid_pattern u)
    then false
    else if has_text u seen
    then false
    else fine_uuids (u ∷ seen) us

unfoldable pub fine_request : FolderSuggestionRequest → Bool
unfolding fine_uuids
fine_request r =
    if length r.uuids == 0 || ltb 1000 (length r.uuids) then false else fine_uuids [] r.uuids

module _ (s : Surroundings) where
  -- folderCacheKey; the digest of the sorted uuids and rows is a parameter.
  unfoldable pub folder_cache_key : String → List String → List PodcastSuggestionMetadata → String
  unfolding before_text
  folder_cache_key language uuids metadata =
      s.cache_key language (sort_by before_text uuids)
        (sort_by (λ a b. before_text a.uuid b.uuid) metadata)

  -- The checks before the first query.
  unfoldable pub guards : Option FolderSuggestionRequest → ℕ ⊎ FolderSuggestionRequest
  unfolding fine_request
  guards body = if not s.available then inl 404 else elim body [
    | none ↦ inl 400
    | some r ↦
        if not (fine_request r)
        then inl 400
        else if str_eq s.installation ""
        then inl 400
        else elim (s.limited ("folders:" ++ s.installation) 5 60) [
          | broken ↦ inl 503
          | denied ↦ inl 429
          | allowed ↦ if s.has_metadata then inr r else inl 501
        ]
  ]

  unfoldable pub repaired : FolderSuggestionRequest → String → String → List Folder → Reply
  repaired r language key answer =
      let result = repair_folder_assignments s.to_lower answer r.uuids (localized_other language) in
      (ok (s.encode result), some (record { key = key; value = s.encode result; seconds = 604800 }))

  unfoldable pub suggest_for : FolderSuggestionRequest → List PodcastSuggestionMetadata → Reply
  unfolding repaired folder_cache_key category_folder_fallback
  suggest_for r metadata =
      let language = supported_folder_language s.to_lower s.to_upper r.language in
      let key = folder_cache_key language r.uuids metadata in
      elim (s.cached key) [
        | some found ↦ (ok found, none)
        | none ↦ elim (s.suggest language metadata) [
          | permanent ↦ (status 404, none)
          | passing ↦ repaired r language key (category_folder_fallback metadata)
          | groups found ↦ repaired r language key found
        ]
      ]

  unfoldable pub post_suggest_folders : Option FolderSuggestionRequest → Reply
  unfolding guards suggest_for
  post_suggest_folders body = elim (guards body) [
    | inl code ↦ (status code, none)
    | inr r ↦ elim (s.metadata r.uuids) [
      | none ↦ (failed, none)
      | some metadata ↦ suggest_for r metadata
    ]
  ]
