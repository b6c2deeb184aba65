-- ===== src/Social/Erase.antt =====
-- handlers/social.go: socialErase, the erasure of a user's social profile, on the tables of the
-- profiles, the follows, the groups and the relationships. Its other statements write tables that
-- no handler here reads (reviews, shared items, comments, lists, group posts, milestones, the
-- handles and the avatar).
use podcast_backend.Prelude.{
  ℕ, ℤ, ltb_ℤ, Bool, false, ◌&&◌, ◌||◌, not, Option, none, some, List, [], ◌∷◌, map, ◌==◌, select,
  if◌then◌else◌, sort_by,
}
use podcast_backend.Db.Keys.{remove, modify}
use podcast_backend.Social.Rows.{
  SocialGroup, SocialGroupMember, profile_key, group_key, member_key, pair,
}
use podcast_backend.Social.Messages.{EraseRequest}
use podcast_backend.Social.Handler.{GroupTables, Store, Handler, ack, change, answer, ◌>>=◌, ◌>>◌}
use podcast_backend.Social.GroupQueries.{drop_group}
use podcast_backend.Social.Groups.{group_vis_private, group_vis_public, group_role_owner}
use podcast_backend.Social.Guards.{Context, bind_proto, current_db_user}

-- GetOwnedPublicGroupIDs
unfoldable pub get_owned_public_group_ids : ℕ → List SocialGroup → List ℕ
get_owned_public_group_ids owner rows =
    map (λ g. g.id)
      (select (λ g. g.owner_user_id == owner && g.visibility == group_vis_public) rows)

-- FindGroupSuccessor: ORDER BY created_at ASC LIMIT 1
unfoldable pub first_user : List SocialGroupMember → Option ℕ
first_user [] = none
first_user (m ∷ ms) = some m.user_id

abbrev pub joined_before : SocialGroupMember → SocialGroupMember → Bool
joined_before a b = ltb_ℤ a.created_at b.created_at

unfoldable pub find_group_successor : ℕ → ℕ → List SocialGroupMember → Option ℕ
unfolding first_user
find_group_successor group user rows = first_user (
    sort_by joined_before
      (select (λ m. m.group_id == group && (m.role == 1 && not (m.user_id == user))) rows))

-- TransferGroupOwner and PromoteGroupMemberToOwner
unfoldable pub transfer_group_owner : ℤ → ℕ → ℕ → GroupTables → GroupTables
transfer_group_owner now id owner t = record t {
  groups = modify id (λ g. record g { owner_user_id = owner; updated_at = now }) t.groups;
}

unfoldable pub promote_group_member_to_owner : ℕ → ℕ → GroupTables → GroupTables
promote_group_member_to_owner group user t = record t {
  members = modify (pair group user) (λ m. record m { role = group_role_owner }) t.members;
}

-- One turn of the loop over the user's public groups.
unfoldable pub pass_on : ℤ → ℕ → ℕ → GroupTables → GroupTables
unfolding transfer_group_owner promote_group_member_to_owner
pass_on now user id t = elim (find_group_successor id user t.members) [
  | none ↦ drop_group id t
  | some successor ↦
      promote_group_member_to_owner id successor (transfer_group_owner now id successor t)
]

-- The loop over the ids.
abbrev pub for_each : (ℕ → GroupTables → GroupTables) → List ℕ → GroupTables → GroupTables
for_each f [] t = t
for_each f (id ∷ ids) t = for_each f ids (f id t)

unfoldable pub delete_owned_private_groups : ℕ → GroupTables → GroupTables
delete_owned_private_groups user t =
    for_each drop_group
      (map (λ g. g.id)
        (select (λ g. g.owner_user_id == user && g.visibility == group_vis_private) t.groups))
      t

-- DeleteGroupMembershipsForUser and ClearGroupInviteAttributionForUser
unfoldable pub delete_group_memberships_for_user : ℕ → GroupTables → GroupTables
delete_group_memberships_for_user user t = record t {
  members = select (λ m. not (m.user_id == user)) t.members;
}

invited_by_user : ℕ → Option ℕ → Bool
invited_by_user user none = false
invited_by_user user (some u) = u == user

unfoldable pub clear_invite : ℕ → SocialGroupMember → SocialGroupMember
unfolding invited_by_user
clear_invite user m =
    if invited_by_user user m.invited_by then record m { invited_by = none } else m

unfoldable pub clear_group_invite_attribution_for_user : ℕ → GroupTables → GroupTables
unfolding clear_invite
clear_group_invite_attribution_for_user user t = record t {
  members = map (clear_invite user) t.members;
}

unfoldable pub erase_groups : ℤ → ℕ → GroupTables → GroupTables
unfolding pass_on delete_owned_private_groups delete_group_memberships_for_user
    clear_group_invite_attribution_for_user
erase_groups now user t = clear_group_invite_attribution_for_user user (
    delete_group_memberships_for_user user (
      delete_owned_private_groups user
        (for_each (pass_on now user) (get_owned_public_group_ids user t.groups) t)))

unfoldable pub social_erase : ℤ → ℕ → Store → Store
unfolding erase_groups
social_erase now user s = record s {
  profiles = remove user s.profiles;
  follows = select (λ f. not (f.follower_user_id == user || f.followee_user_id == user)) s.follows;
  tables = erase_groups now user s.tables;
  relationships = select (λ r. not (r.user_id == user || r.target_user_id == user)) s.relationships;
}

module _ (c : Context) where
  unfoldable pub post_social_erase : Option EraseRequest → Handler Unit
  unfolding social_erase
  post_social_erase body = do
    req ← bind_proto body
    user ← current_db_user c
    change (social_erase c.now user.id)
    answer ack
