-- ===== src/Social/Queries.antt =====
-- db/queries.sql.go: the statements on the social tables. `now` is the database's now().
use podcast_backend.Prelude.{
  ℕ, ℤ, String, Bool, true, false, ◌&&◌, ◌||◌, not, Option, none, some, List, [], ◌∷◌, ◌==◌, str_eq,
  if◌then◌else◌,
}
use podcast_backend.Db.Keys.{get, remove, modify}
use podcast_backend.Social.Rows.{
  Account, SocialProfile, SocialFollow, SocialRelationship, account_key, profile_key, follow_key,
  relationship_key, pair, triple,
}
use podcast_backend.Social.Handler.{Store}

-- GetUserByUUID
unfoldable pub user_by_uuid : String → List Account → Option Account
user_by_uuid uuid [] = none
user_by_uuid uuid (u ∷ us) =
    if str_eq u.uuid uuid && not u.deleted then some u else user_by_uuid uuid us

unfoldable pub profile_by_handle : String → List SocialProfile → Option SocialProfile
profile_by_handle handle [] = none
profile_by_handle handle (p ∷ ps) =
    if str_eq p.handle handle then some p else profile_by_handle handle ps

abbrev pub get_user_by_uuid : String → Store → Option Account
get_user_by_uuid uuid s = user_by_uuid uuid s.users

abbrev pub get_social_profile_by_user_id : ℕ → Store → Option SocialProfile
get_social_profile_by_user_id user s = get user s.profiles

abbrev pub get_social_profile_by_handle : String → Store → Option SocialProfile
get_social_profile_by_handle handle s = profile_by_handle handle s.profiles

-- IsBlockedEither, HasSocialRelationship
abbrev pub some? : {A : Type 0} → Option A → Bool
some? none = false
some? (some a) = true

unfoldable pub has_social_relationship : ℕ → ℕ → ℕ → List SocialRelationship → Bool
has_social_relationship user target kind rows = some? (get (triple user target kind) rows)

unfoldable pub is_blocked_either : ℕ → ℕ → List SocialRelationship → Bool
unfolding has_social_relationship
is_blocked_either user target rows =
    has_social_relationship user target 0 rows || has_social_relationship target user 0 rows

-- ON CONFLICT DO NOTHING
unfoldable pub upsert_social_relationship :
    ℕ → ℕ → ℕ → List SocialRelationship → List SocialRelationship
unfolding has_social_relationship
upsert_social_relationship user target kind rows =
    if has_social_relationship user target kind rows
    then rows
    else record { user_id = user; target_user_id = target; kind = kind } ∷ rows

unfoldable pub delete_social_relationship :
    ℕ → ℕ → ℕ → List SocialRelationship → List SocialRelationship
delete_social_relationship user target kind rows = remove (triple user target kind) rows

-- The follow graph.
unfoldable pub get_follow_state : ℕ → ℕ → List SocialFollow → Option ℕ
get_follow_state follower followee rows = elim (get (pair follower followee) rows) [
  | none ↦ none
  | some f ↦ some f.status
]

-- UpsertFollow: the rows inserted, and the table. ON CONFLICT DO NOTHING.
unfoldable pub upsert_follow : ℤ → ℕ → ℕ → ℕ → List SocialFollow → ℕ × List SocialFollow
upsert_follow now follower followee status rows = elim (get (pair follower followee) rows) [
  | some f ↦ (0, rows)
  | none ↦ (
    1,
    record {
      follower_user_id = follower;
      followee_user_id = followee;
      status = status;
      created_at = now;
      approved_at = if status == 1 then some now else none;
    }
        ∷ rows,
  )
]

unfoldable pub delete_follow : ℕ → ℕ → List SocialFollow → List SocialFollow
delete_follow follower followee rows = remove (pair follower followee) rows

-- ApproveFollow sets a row whose status is 0 to active.
unfoldable pub approved : ℤ → SocialFollow → SocialFollow
approved now f = if f.status == 0 then record f { status = 1; approved_at = some now } else f

unfoldable pub is_pending : ℕ → ℕ → List SocialFollow → Bool
is_pending follower followee rows = elim (get (pair follower followee) rows) [
  | none ↦ false
  | some f ↦ f.status == 0
]

unfoldable pub approve_follow : ℤ → ℕ → ℕ → List SocialFollow → ℕ × List SocialFollow
unfolding approved is_pending
approve_follow now follower followee rows = (
  if is_pending follower followee rows then 1 else 0,
  modify (pair follower followee) (approved now) rows,
)
