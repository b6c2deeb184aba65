-- ===== src/Social/GroupQueries.antt =====
-- db/queries.sql.go: the statements on the groups and their members.
use podcast_backend.Prelude.{
  ℕ, suc, ℤ, String, Bool, false, ◌&&◌, ◌||◌, not, Option, none, some, List, ◌∷◌, ◌==◌, length,
  select, if◌then◌else◌,
}
use podcast_backend.Db.Keys.{get, remove, modify}
use podcast_backend.Social.Rows.{
  SocialProfile, SocialGroup, SocialGroupMember, profile_key, group_key, member_key, pair,
}
use podcast_backend.Social.Handler.{GroupTables, Store}

abbrev pub is_active_role : ℕ → Bool
is_active_role role = role == 1 || role == 2

unfoldable pub count_group_members : ℕ → List SocialGroupMember → ℕ
count_group_members id rows = length (select (λ m. m.group_id == id && is_active_role m.role) rows)

pub record GetSocialGroupRow : Type 0 where
  pub group : SocialGroup
  pub owner_handle : String
  pub owner_display_name : String
  pub member_count : ℕ
  pub your_role : ℕ
  pub notify_posts : Bool

unfoldable pub role_or_zero : Option SocialGroupMember → ℕ
role_or_zero none = 0
role_or_zero (some m) = m.role

notify_or_false : Option SocialGroupMember → Bool
notify_or_false none = false
notify_or_false (some m) = m.notify_posts

-- The join with the owner's profile.
unfoldable pub with_owner :
    Store → ℕ → SocialGroup → Option SocialProfile → Option GetSocialGroupRow
unfolding role_or_zero notify_or_false
with_owner s viewer g none = none
with_owner s viewer g (some p) = some (record {
  group = g;
  owner_handle = p.handle;
  owner_display_name = p.display_name;
  member_count = count_group_members g.id s.tables.members;
  your_role = role_or_zero (get (pair g.id viewer) s.tables.members);
  notify_posts = notify_or_false (get (pair g.id viewer) s.tables.members);
})

unfoldable pub group_row : Store → ℕ → Option SocialGroup → Option GetSocialGroupRow
unfolding with_owner
group_row s viewer none = none
group_row s viewer (some g) = with_owner s viewer g (get g.owner_user_id s.profiles)

unfoldable pub get_social_group : ℕ → ℕ → Store → Option GetSocialGroupRow
unfolding group_row
get_social_group id viewer s = group_row s viewer (get id s.tables.groups)

abbrev pub get_group_member : ℕ → ℕ → Store → Option SocialGroupMember
get_group_member group user s = get (pair group user) s.tables.members

-- CreateSocialGroup: the identity column gives the id.
unfoldable pub create_social_group :
    ℤ
    → ℕ
    → (title description : String) → ℕ
    → (podcast_uuid podcast_title : String) → GroupTables
    → ℕ × GroupTables
create_social_group now owner title description visibility podcast_uuid podcast_title t = (
  t.next_id,
  record t {
    groups =
        record {
          id = t.next_id;
          owner_user_id = owner;
          title = title;
          description = description;
          visibility = visibility;
          podcast_uuid = podcast_uuid;
          podcast_title = podcast_title;
          created_at = now;
          updated_at = now;
        }
        ∷ t.groups;
    next_id = suc t.next_id;
  },
)

-- ON CONFLICT … DO UPDATE SET role WHERE role <> 4 OR EXCLUDED.role = 4: a ban stays.
unfoldable pub with_role : ℕ → SocialGroupMember → SocialGroupMember
with_role role m = if not (m.role == 4) || role == 4 then record m { role = role } else m

unfoldable pub put_member :
    ℤ
    → ℕ
    → ℕ
    → ℕ
    → Option ℕ
    → Option SocialGroupMember
    → List SocialGroupMember
    → List SocialGroupMember
unfolding with_role
put_member now group user role invited_by (some m) rows =
    modify (pair group user) (with_role role) rows
put_member now group user role invited_by none rows =
    record {
      group_id = group;
      user_id = user;
      role = role;
      invited_by = invited_by;
      notify_posts = false;
      created_at = now;
    }
    ∷ rows

unfoldable pub upsert_group_member : ℤ → ℕ → ℕ → ℕ → Option ℕ → GroupTables → GroupTables
unfolding put_member
upsert_group_member now group user role invited_by t = record t {
  members = put_member now group user role invited_by (get (pair group user) t.members) t.members;
}

unfoldable pub delete_group_member : ℕ → ℕ → GroupTables → GroupTables
delete_group_member group user t = record t { members = remove (pair group user) t.members }

-- UpdateSocialGroup and DeleteSocialGroup touch a row only WHERE owner_user_id = $2.
unfoldable pub owns : ℕ → ℕ → List SocialGroup → Bool
owns id owner rows = elim (get id rows) [ none ↦ false | some g ↦ g.owner_user_id == owner ]

-- Its SET clause.
unfoldable pub set_group : ℤ → ℕ → (title description : String) → ℕ → GroupTables → GroupTables
set_group now id title description visibility t = record t {
  groups =
      modify id
        (λ g. record g {
          title = title;
          description = description;
          visibility = visibility;
          updated_at = now;
        })
        t.groups;
}

unfoldable pub update_social_group :
    ℤ → ℕ → ℕ → (title description : String) → ℕ → GroupTables → ℕ × GroupTables
unfolding owns set_group
update_social_group now id owner title description visibility t =
    if owns id owner t.groups then (1, set_group now id title description visibility t) else (0, t)

-- ON DELETE CASCADE: the members go with the group.
unfoldable pub drop_group : ℕ → GroupTables → GroupTables
drop_group id t = record t {
  groups = remove id t.groups;
  members = select (λ m. not (m.group_id == id)) t.members;
}

unfoldable pub delete_social_group : ℕ → ℕ → GroupTables → ℕ × GroupTables
unfolding owns drop_group
delete_social_group id owner t = if owns id owner t.groups then (1, drop_group id t) else (0, t)

-- SetGroupMemberNotify: WHERE … role IN (1, 2)
unfoldable pub with_notify : Bool → SocialGroupMember → SocialGroupMember
with_notify on m = if is_active_role m.role then record m { notify_posts = on } else m

unfoldable pub set_group_member_notify : ℕ → ℕ → Bool → GroupTables → ℕ × GroupTables
unfolding with_notify role_or_zero
set_group_member_notify group user on t = (
  if is_active_role (role_or_zero (get (pair group user) t.members)) then 1 else 0,
  record t { members = modify (pair group user) (with_notify on) t.members },
)
