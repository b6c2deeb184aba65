-- ===== src/Social/Moves/Refines.antt =====
-- Every endpoint keeps to the moves.
use podcast_backend.Prelude.{
  ℕ, Bool, true, false, Option, ◌≡◌, ◌≢◌, ◌==◌, if◌then◌else◌, refl, ◌∙◌, arith,
}
use podcast_backend.Social.Rows.{SocialProfile}
use podcast_backend.Social.Messages.{
  FollowRequest, UnfollowRequest, FollowApprovalRequest, BlockRequest,
}
use podcast_backend.Social.Handler.{Store, Handler, and_then}
use podcast_backend.Social.Handler.Ends.{or_answer-Ends, refuse_if-Ends, next-Ends, nested-Ends}
use podcast_backend.Social.Queries.{delete_follow, upsert_social_relationship}
use podcast_backend.Social.Guards.{Context, current_db_user}
use podcast_backend.Social.Graph.{
  post_follow, post_unfollow, post_follow_approve, set_relationship, decide, relate, notify_follow,
  notify_approved,
}
use podcast_backend.Social.Served.{
  Request, group_create, group_update, group_delete, group_join, group_leave, group_invite,
  group_invite_respond, group_kick, group_alert, follow, unfollow, follow_approve, block, unblock,
  mute, unmute, erase, handle, serve,
}
use podcast_backend.Social.Moves.{Moves}
use podcast_backend.Social.Links.{Link, Links}
use podcast_backend.Social.Moves.Steps.{
  Kept, stays, linked, linked_to, require_joined-Ends, resolve_follow_target-Ends,
}
use podcast_backend.Social.Moves.Groups.{create-Kept, update-Kept, delete-Kept}
use podcast_backend.Social.Moves.Members.{
  join-Kept, leave-Kept, invite-Kept, respond-Kept, kick-Kept, alert-Kept, erase-Kept,
}

-- A push is in no table.
record Pushed (s s' : Store) : Type 0 where
  tables : s'.tables ≡ s.tables
  follows : s'.follows ≡ s.follows
  relationships : s'.relationships ≡ s.relationships

notify_follow-Pushed :
    (i n w u : ℕ) (p : SocialProfile) (s : Store) → Pushed s (notify_follow i n w u p s)
unfolding notify_follow
notify_follow-Pushed i n w u p s = record {
  tables = ground arith;
  follows = ground arith;
  relationships = ground arith;
}

notify_approved-Pushed :
    (n w : ℕ) (p : SocialProfile) (s : Store) → Pushed s (notify_approved n w p s)
unfolding notify_approved
notify_approved-Pushed n w p s = record {
  tables = ground arith;
  follows = ground arith;
  relationships = ground arith;
}

module _ (c : Context) (s : Store) where
  follow-Kept : (body : Option FollowRequest) → Kept c s (post_follow c body s).1
  unfolding post_follow
  follow-Kept body = or_answer-Ends (Kept c s) body _ _ s (stays c s) λ req e.
      require_joined-Ends (Kept c s) c _ s (stays c s) λ a p who.
        resolve_follow_target-Ends (Kept c s) c _ _ _ s (stays c s) λ t known other free.
          next-Ends (Kept c s) _ _ _ (
            or_answer-Ends (Kept c s) _ _ _ _
              (linked c s a _ refl who (Link.follow _ t known other free))
              λ n stored. next-Ends (Kept c s) _ _ _ (
                let pushed = notify_follow-Pushed _ n t.user_id a.id p _ in
                linked_to c s a _ _ _ pushed.tables pushed.follows pushed.relationships who
                  (Link.follow _ t known other free)))

  unfollow-Kept : (body : Option UnfollowRequest) → Kept c s (post_unfollow c body s).1
  unfolding post_unfollow
  unfollow-Kept body = or_answer-Ends (Kept c s) body _ _ s (stays c s) λ req e.
      require_joined-Ends (Kept c s) c _ s (stays c s) λ a p who.
        or_answer-Ends (Kept c s) _ _ _ s (stays c s)
          λ t known. next-Ends (Kept c s) _ _ _ (linked c s a _ refl who (Link.unfollow t.user_id))

  decide-Ends :
      (w u : ℕ) (accept : Bool) (f : ℕ → Handler Unit)
      → ((n : ℕ) (s' : Store)
          → s'.tables ≡ s.tables
          → Link c.now u s s'.follows s'.relationships
          → Kept c s (f n s').1)
      → Kept c s (and_then (decide c w u accept s) f).1
  unfolding decide
  decide-Ends w u true f k = next-Ends (Kept c s) _ f _ (k _ _ refl (Link.approve w))
  decide-Ends w u false f k =
      nested-Ends (Kept c s) _ _ f
        (next-Ends (Kept c s) _ _ _ (next-Ends (Kept c s) _ f _ (k _ _ refl (Link.decline w))))

  approve-Kept : (body : Option FollowApprovalRequest) → Kept c s (post_follow_approve c body s).1
  unfolding post_follow_approve
  approve-Kept body = or_answer-Ends (Kept c s) body _ _ s (stays c s) λ req e.
      require_joined-Ends (Kept c s) c _ s (stays c s) λ a p who.
        or_answer-Ends (Kept c s) _ _ _ s (stays c s) λ t known.
          decide-Ends t.user_id a.id req.accept _ λ n s' same l. next-Ends (Kept c s) _ _ _ (
            let pushed = notify_approved-Pushed n t.user_id p s' in
            linked_to c s a _ _ _ (pushed.tables ∙ same) pushed.follows pushed.relationships who l)

  -- A relationship of the kind may be made.
  abbrev Relates : ℕ → Type 0
  Relates kind =
      (u w : ℕ)
      → w ≢ u
      → Link c.now u s
          (if kind == 0 then delete_follow w u (delete_follow u w s.follows) else s.follows)
          (upsert_social_relationship u w kind s.relationships)

  relate-Ends :
      (u w kind : ℕ) (add : Bool) (f : Unit → Handler Unit)
      → w ≢ u
      → Relates kind
      → ((s' : Store)
          → s'.tables ≡ s.tables
          → Link c.now u s s'.follows s'.relationships
          → Kept c s (f tt s').1)
      → Kept c s (and_then (relate c u w kind add s) f).1
  unfolding relate
  relate-Ends u w kind true f other makes k =
      nested-Ends (Kept c s) _ _ f
        (next-Ends (Kept c s) _ _ _ (next-Ends (Kept c s) _ f _ (k _ refl (makes u w other))))
  relate-Ends u w kind false f other makes k =
      next-Ends (Kept c s) _ f _ (k _ refl (Link.unrelate w kind))

  relation-Kept :
      (kind : ℕ) (add : Bool) (body : Option BlockRequest)
      → Relates kind
      → Kept c s (set_relationship c kind add body s).1
  unfolding set_relationship current_db_user
  relation-Kept kind add body makes = or_answer-Ends (Kept c s) body _ _ s (stays c s) λ req e.
      refuse_if-Ends (Kept c s) _ _ _ s (stays c s) λ g.
        or_answer-Ends (Kept c s) _ _ _ s (stays c s) λ a who.
          or_answer-Ends (Kept c s) _ _ _ s (stays c s) λ t there.
            refuse_if-Ends (Kept c s) _ _ _ s (stays c s) λ other.
              relate-Ends a.id t.id kind add _ (λ q. ground arith) makes
                λ s' same l. linked c s a s' same who l

  handle-Kept : (r : Request) → Kept c s (handle c r s).1
  unfolding handle
  handle-Kept (group_create body) = create-Kept c s body
  handle-Kept (group_update body) = update-Kept c s body
  handle-Kept (group_delete body) = delete-Kept c s body
  handle-Kept (group_join body) = join-Kept c s body
  handle-Kept (group_leave body) = leave-Kept c s body
  handle-Kept (group_invite body) = invite-Kept c s body
  handle-Kept (group_invite_respond body) = respond-Kept c s body
  handle-Kept (group_kick body) = kick-Kept c s body
  handle-Kept (group_alert body) = alert-Kept c s body
  handle-Kept (follow body) = follow-Kept body
  handle-Kept (unfollow body) = unfollow-Kept body
  handle-Kept (follow_approve body) = approve-Kept body
  handle-Kept (block body) = relation-Kept 0 true body (λ u w other. Link.block w other)
  handle-Kept (unblock body) = relation-Kept 0 false body (λ u w other. Link.block w other)
  handle-Kept (mute body) = relation-Kept 1 true body (λ u w other. Link.mute w other)
  handle-Kept (unmute body) = relation-Kept 1 false body (λ u w other. Link.mute w other)
  handle-Kept (erase body) = erase-Kept c s body

-- Whatever request comes, and whoever sends it, the groups change by one move of its caller, or not
-- at all. A move creates a group with its caller as the owner; changes, without making a private
-- group public, or deletes a group that the caller owns; joins a public group without a ban; leaves
-- a group, unless as its owner or banned; invites, as a member and while a private group has a seat,
-- a user without a row; accepts an own invitation while there is a seat, or declines it; kicks or
-- bans another user, as one with the owner's role; sets the caller's alert; or erases the caller.
pub serve-Moves : (c : Context) (r : Request) (s : Store) → Moves c s (serve (c, r) s).tables
unfolding serve Kept
serve-Moves c r s = (handle-Kept c s r).0

-- Whatever request comes, and whoever sends it, the follow graph, the blocks and the mutes change by
-- one move of its caller, or not at all. A move follows another user, where neither blocks the
-- other, and waits for approval where the target's profile asks for it; ends an own follow; approves
-- or declines a follow of the caller; blocks another user, which ends the follows in both directions;
-- mutes another user; takes back an own block or mute; or erases the caller's rows.
pub serve-Links : (c : Context) (r : Request) (s : Store) → Links c s (serve (c, r) s)
unfolding serve Kept
serve-Links c r s = (handle-Kept c s r).1
