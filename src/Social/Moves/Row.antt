-- ===== src/Social/Moves/Row.antt =====
-- What a read of a group tells about roles, visibility and seats.
use podcast_backend.Prelude.{
  ℕ, false, Option, none, some, ◌==◌, ◌≡◌, ◌≢◌, refl, sym, subst, arith, some-inj,
}
use podcast_backend.Db.Keys.{get}
use podcast_backend.Db.Keys.Laws.{get-key}
use podcast_backend.Social.Rows.{
  SocialGroup, SocialProfile, SocialGroupMember, profile_key, group_key, member_key, pair,
}
use podcast_backend.Social.Handler.{GroupTables, Store}
use podcast_backend.Social.GroupQueries.{
  GetSocialGroupRow, get_social_group, count_group_members, get_group_member, is_active_role,
  role_or_zero, with_owner, group_row,
}
use podcast_backend.Social.Roles.{role_of, visibility_of, role_in}

pub record Reads (g u : ℕ) (t : GroupTables) (row : GetSocialGroupRow) : Type 0 where
  pub visible : visibility_of g t ≡ some row.group.visibility
  pub counted : row.member_count ≡ count_group_members g t.members
  pub banned : (row.your_role == 4) ≡ false → role_of g u t ≢ some 4
  pub active : is_active_role row.your_role ≡ false → role_of g u t ≢ some 2

none-some : {A : Type 0} {a : A} → none ≡ some a → ⊥
none-some e = cc

not-banned : (o : Option SocialGroupMember) → (role_or_zero o == 4) ≡ false → role_in o ≢ some 4
unfolding role_or_zero
not-banned none h e = cc
not-banned (some m) h e = ground arith

not-active :
    (o : Option SocialGroupMember) → is_active_role (role_or_zero o) ≡ false → role_in o ≢ some 2
unfolding role_or_zero
not-active none h e = cc
not-active (some m) h e = ground arith

with_owner-Reads :
    (u : ℕ) (s : Store) (x : SocialGroup) (o : Option SocialProfile) (row : GetSocialGroupRow)
    → get x.id s.tables.groups ≡ some x
    → with_owner s u x o ≡ some row
    → Reads x.id u s.tables row
unfolding with_owner role_of visibility_of
with_owner-Reads u s x none row e h = absurd (cc)
with_owner-Reads u s x (some p) row e h = subst (Reads x.id u s.tables) (some-inj h) (record {
  visible = rw e refl;
  counted = refl;
  banned = not-banned (get (pair x.id u) s.tables.members);
  active = not-active (get (pair x.id u) s.tables.members);
})

group_row-Reads :
    (g u : ℕ) (s : Store) (o : Option SocialGroup) (row : GetSocialGroupRow)
    → get g s.tables.groups ≡ o
    → group_row s u o ≡ some row
    → Reads g u s.tables row
unfolding group_row
group_row-Reads g u s none row e h = absurd (none-some h)
group_row-Reads g u s (some x) row e h =
    let key : x.id ≡ g = get-key g s.tables.groups x e in
    subst (λ k. Reads k u s.tables row) key
      (with_owner-Reads u s x (get x.owner_user_id s.profiles) row
        (subst (λ k. get k s.tables.groups ≡ some x) (sym key) e) h)

pub get_social_group-Reads :
    (g u : ℕ) (s : Store) (row : GetSocialGroupRow)
    → get_social_group g u s ≡ some row
    → Reads g u s.tables row
unfolding get_social_group
get_social_group-Reads g u s row h = group_row-Reads g u s (get g s.tables.groups) row refl h

-- A member's own row.
pub member-role :
    (g u : ℕ) (s : Store) (m : SocialGroupMember)
    → get_group_member g u s ≡ some m
    → role_of g u s.tables ≡ some m.role
unfolding role_of
member-role g u s m e = rw e refl
