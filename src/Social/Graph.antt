-- ===== src/Social/Graph.antt =====
-- handlers/graph.go and handlers/social.go: follows, and the four changes of a block or a mute.
use podcast_backend.Prelude.{
  ℕ, ltb, Bool, true, false, ◌&&◌, not, Option, none, List, ◌∷◌, ◌==◌, if◌then◌else◌,
}
use podcast_backend.Social.Rows.{SocialFollow, SocialRelationship, SocialProfile}
use podcast_backend.Social.Messages.{
  FollowRequest, UnfollowRequest, FollowApprovalRequest, BlockRequest, FollowState,
  follow_state_active, follow_state_pending,
}
use podcast_backend.Social.Handler.{
  Store, Handler, refused, bare, ack, follow_state, found, refuse_if, run, change, answer, pure,
  ◌>>=◌, ◌>>◌,
}
use podcast_backend.Social.Queries.{
  get_social_profile_by_handle, get_user_by_uuid, has_social_relationship, get_follow_state,
  upsert_follow, delete_follow, approve_follow, upsert_social_relationship,
  delete_social_relationship,
}
use podcast_backend.Social.Guards.{
  Context, matches_uuid_pattern, normalize_handle, invalid_request, bind_proto, current_db_user,
  require_joined, resolve_follow_target,
}

abbrev pub follow_status_pending : ℕ
follow_status_pending = 0

abbrev pub follow_status_active : ℕ
follow_status_active = 1

abbrev pub relationship_block : ℕ
relationship_block = 0

abbrev pub relationship_mute : ℕ
relationship_mute = 1

abbrev with_follows : Store → ℕ × List SocialFollow → ℕ × Store
with_follows s (n, rows) = (n, record s { follows = rows })

abbrev pub run_follows : (List SocialFollow → ℕ × List SocialFollow) → Handler ℕ
run_follows f = run (λ s. with_follows s (f s.follows))

abbrev pub on_follows : (List SocialFollow → List SocialFollow) → Store → Store
on_follows f s = record s { follows = f s.follows }

abbrev pub on_relationships : (List SocialRelationship → List SocialRelationship) → Store → Store
on_relationships f s = record s { relationships = f s.relationships }

-- h.notifySocial with no data.
unfoldable pub notify_social : ℕ → ℕ → SocialProfile → Store → Store
notify_social target push_type actor s = record s {
  pushes =
      record {
        target_user_id = target;
        push_type = push_type;
        actor_handle = actor.handle;
        actor_display_name = actor.display_name;
        group_id = none;
      }
      ∷ s.pushes;
}

abbrev state_of : ℕ → FollowState
state_of stored =
    if stored == follow_status_active then follow_state_active else follow_state_pending

-- A new follower, or a request.
abbrev follow_push : ℕ → ℕ
follow_push stored = if stored == follow_status_active then 3 else 1

-- Only a new row notifies, and only a target that has not muted the caller.
unfoldable pub notify_follow : ℕ → ℕ → ℕ → ℕ → SocialProfile → Store → Store
unfolding notify_social
notify_follow inserted stored target user actor s =
    if ltb 0 inserted && not (has_social_relationship target user relationship_mute s.relationships)
    then notify_social target (follow_push stored) actor s
    else s

-- Only a real transition to active notifies.
unfoldable pub notify_approved : ℕ → ℕ → SocialProfile → Store → Store
unfolding notify_social
notify_approved affected requester actor s =
    if ltb 0 affected then notify_social requester 2 actor s else s

abbrev pub status_for : SocialProfile → ℕ
status_for target =
    if target.require_follow_approval then follow_status_pending else follow_status_active

module _ (c : Context) where
  unfoldable pub post_follow : Option FollowRequest → Handler Unit
  post_follow body = do
    req ← bind_proto body
    joined ← require_joined c
    target ← resolve_follow_target c joined.0.id req.handle
    inserted ← run_follows (upsert_follow c.now joined.0.id target.user_id (status_for target))
    stored ← found (λ s. get_follow_state joined.0.id target.user_id s.follows) (bare 404)
    change (notify_follow inserted stored target.user_id joined.0.id joined.1)
    answer (follow_state (state_of stored))

  unfoldable pub post_unfollow : Option UnfollowRequest → Handler Unit
  post_unfollow body = do
    req ← bind_proto body
    joined ← require_joined c
    target ← found (get_social_profile_by_handle (normalize_handle c.filter req.handle)) (bare 404)
    change (on_follows (delete_follow joined.0.id target.user_id))
    answer ack

  -- The rows affected: an approval counts the pending one, a refusal is not asked.
  unfoldable pub decide : ℕ → ℕ → Bool → Handler ℕ
  decide requester user true = run_follows (approve_follow c.now requester user)
  decide requester user false = do change (on_follows (delete_follow requester user)); pure 0

  unfoldable pub post_follow_approve : Option FollowApprovalRequest → Handler Unit
  post_follow_approve body = do
    req ← bind_proto body
    joined ← require_joined c
    requester ←
        found (get_social_profile_by_handle (normalize_handle c.filter req.requester_handle))
          (bare 404)
    affected ← decide requester.user_id joined.0.id req.accept
    change (notify_approved affected requester.user_id joined.1)
    answer ack

  -- A block severs the follow graph in both directions.
  sever : ℕ → ℕ → ℕ → List SocialFollow → List SocialFollow
  sever user target kind rows =
      if kind == relationship_block
      then delete_follow target user (delete_follow user target rows)
      else rows

  unfoldable pub relate : ℕ → ℕ → ℕ → Bool → Handler Unit
  unfolding sever
  relate user target kind true = do
    change (on_relationships (upsert_social_relationship user target kind))
    change (on_follows (sever user target kind))
  relate user target kind false =
      change (on_relationships (delete_social_relationship user target kind))

  unfoldable pub set_relationship : ℕ → Bool → Option BlockRequest → Handler Unit
  set_relationship kind add body = do
    req ← bind_proto body
    refuse_if (not (matches_uuid_pattern req.target_user_id)) invalid_request
    user ← current_db_user c
    target ← found (get_user_by_uuid (c.filter.to_lower req.target_user_id)) (bare 404)
    refuse_if (target.id == user.id) (refused 400 "cannot target yourself")
    relate user.id target.id kind add
    answer ack
