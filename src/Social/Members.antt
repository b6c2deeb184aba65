-- ===== src/Social/Members.antt =====
-- handlers/groups.go: the endpoints that change who is in a group. Each is the whole handler, from
-- the decoded body (none where it does not decode) to the answer.
use podcast_backend.Prelude.{
  ℕ, pos, pos_part, leb_ℤ, Bool, true, false, ◌&&◌, ◌||◌, not, Option, none, some, ◌∷◌, leb, ◌==◌,
  str_eq, if◌then◌else◌,
}
use podcast_backend.Social.Rows.{SocialProfile, SocialGroupMember}
use podcast_backend.Social.Messages.{
  GroupJoinRequest, GroupLeaveRequest, GroupInviteRequest, GroupInviteRespondRequest,
  GroupKickRequest, GroupAlertRequest,
}
use podcast_backend.Social.Handler.{
  GroupTables, Store, Handler, refused, bare, ack, found, refuse_if, ask, change, answer, pure,
  ◌>>=◌, ◌>>◌,
}
use podcast_backend.Social.Queries.{get_social_profile_by_handle, has_social_relationship}
use podcast_backend.Social.GroupQueries.{
  GetSocialGroupRow, get_social_group, get_group_member, upsert_group_member, delete_group_member,
  set_group_member_notify, is_active_role,
}
use podcast_backend.Social.Guards.{
  Context, normalize_handle, invalid_request, bind_proto, require_joined, resolve_follow_target,
}
use podcast_backend.Social.Groups.{
  group_private_cap, group_role_member, group_role_owner, group_role_invited, group_role_banned,
  group_vis_private, group_vis_public, group_not_found, on_tables, run_tables,
}

-- group.Visibility == groupVisPrivate && int(group.MemberCount) >= groupPrivateCap
abbrev pub is_full : GetSocialGroupRow → Bool
is_full row = row.group.visibility == group_vis_private && leb group_private_cap row.member_count

module _ (c : Context) where
  unfoldable pub post_group_join : Option GroupJoinRequest → Handler Unit
  post_group_join body = do
    req ← bind_proto body
    refuse_if (leb_ℤ req.id (pos 0)) invalid_request
    joined ← require_joined c
    row ← found (get_social_group (pos_part req.id) joined.0.id) group_not_found
    refuse_if (not (row.group.visibility == group_vis_public)) group_not_found
    refuse_if (row.your_role == group_role_banned) (refused 403 "cannot join this group")
    refuse_if (is_active_role row.your_role) ack
    change
        (on_tables (upsert_group_member c.now (pos_part req.id) joined.0.id group_role_member none))
    answer ack

  unfoldable pub post_group_leave : Option GroupLeaveRequest → Handler Unit
  post_group_leave body = do
    req ← bind_proto body
    refuse_if (leb_ℤ req.id (pos 0)) invalid_request
    joined ← require_joined c
    member ← found (get_group_member (pos_part req.id) joined.0.id) group_not_found
    refuse_if (member.role == group_role_banned) group_not_found
    refuse_if (member.role == group_role_owner) (refused 400 "owners delete their group instead")
    change (on_tables (delete_group_member (pos_part req.id) joined.0.id))
    answer ack

  -- The push of an invitation, unless the target has muted the caller.
  unfoldable pub notify_invite : ℕ → ℕ → ℕ → SocialProfile → Store → Store
  notify_invite group target user actor s =
      if has_social_relationship target user 1 s.relationships then s else record s {
        pushes =
            record {
              target_user_id = target;
              push_type = 7;
              actor_handle = actor.handle;
              actor_display_name = actor.display_name;
              group_id = some group;
            }
            ∷ s.pushes;
      }

  -- The answer where the target has a row already.
  unfoldable pub already_in : Option SocialGroupMember → Handler Unit
  already_in none = pure tt
  already_in (some m) = do
    refuse_if (m.role == group_role_banned) (refused 404 "profile not found")
    answer ack

  unfoldable pub post_group_invite : Option GroupInviteRequest → Handler Unit
  post_group_invite body = do
    req ← bind_proto body
    refuse_if (leb_ℤ req.group_id (pos 0) || str_eq req.handle "") invalid_request
    joined ← require_joined c
    let id = pos_part req.group_id
    member ← found (get_group_member id joined.0.id) group_not_found
    refuse_if (not (is_active_role member.role)) group_not_found
    row ← found (get_social_group id joined.0.id) (bare 404)
    refuse_if (is_full row) (refused 409 "group is full")
    target ← resolve_follow_target c joined.0.id req.handle
    existing ← ask (get_group_member id target.user_id)
    already_in existing
    change (
        on_tables
          (upsert_group_member c.now id target.user_id group_role_invited (some joined.0.id)))
    change (notify_invite id target.user_id joined.0.id joined.1)
    answer ack

  -- The two ways to answer an invitation.
  unfoldable pub respond : ℕ → ℕ → Bool → Handler Unit
  respond id user true = do
    row ← found (get_social_group id user) (bare 404)
    refuse_if (is_full row) (refused 409 "group is full")
    change (on_tables (upsert_group_member c.now id user group_role_member none))
  respond id user false = change (on_tables (delete_group_member id user))

  unfoldable pub post_group_invite_respond : Option GroupInviteRespondRequest → Handler Unit
  post_group_invite_respond body = do
    req ← bind_proto body
    refuse_if (leb_ℤ req.group_id (pos 0)) invalid_request
    joined ← require_joined c
    let id = pos_part req.group_id
    member ← found (get_group_member id joined.0.id) (refused 404 "invite not found")
    refuse_if (not (member.role == group_role_invited)) (refused 404 "invite not found")
    respond id joined.0.id req.accept
    answer ack

  -- What a kick does to the row of its target.
  unfoldable pub kicked : ℕ → ℕ → Bool → GroupTables → GroupTables
  kicked id target true t = upsert_group_member c.now id target group_role_banned none t
  kicked id target false t = delete_group_member id target t

  unfoldable pub post_group_kick : Option GroupKickRequest → Handler Unit
  post_group_kick body = do
    req ← bind_proto body
    refuse_if (leb_ℤ req.group_id (pos 0) || str_eq req.handle "") invalid_request
    joined ← require_joined c
    let id = pos_part req.group_id
    member ← found (get_group_member id joined.0.id) group_not_found
    refuse_if (not (member.role == group_role_owner)) group_not_found
    target ←
        found (get_social_profile_by_handle (normalize_handle c.filter req.handle))
          (refused 404 "member not found")
    refuse_if (target.user_id == joined.0.id) (refused 404 "member not found")
    change (on_tables (kicked id target.user_id req.ban))
    answer ack

  unfoldable pub post_group_alert : Option GroupAlertRequest → Handler Unit
  post_group_alert body = do
    req ← bind_proto body
    refuse_if (leb_ℤ req.group_id (pos 0)) invalid_request
    joined ← require_joined c
    affected ← run_tables (set_group_member_notify (pos_part req.group_id) joined.0.id req.enabled)
    refuse_if (affected == 0) group_not_found
    answer ack
