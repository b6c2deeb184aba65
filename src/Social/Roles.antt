-- ===== src/Social/Roles.antt =====
-- The groups as the endpoints see them: who has which role, who owns a group, how it is visible,
-- and what each statement does to that.
pub mod Owner
pub mod Erased
use podcast_backend.Prelude.{
  ℕ, ℤ, Bool, true, false, ◌||◌, not, Option, none, some, List, ◌==◌, ◌≡◌, refl, ap, ◌∙◌, inl, inr,
  arith, if◌then◌else◌, Bool-cases,
}
use podcast_backend.Db.Keys.{get, modify}
use podcast_backend.Db.Keys.Laws.{get-select, get-modify, get-remove}
use podcast_backend.Social.Rows.{
  SocialGroup, SocialGroupMember, group_key, member_key, pair, same_pair, same_pair_iff,
}
use podcast_backend.Social.Handler.{GroupTables}
use podcast_backend.Social.GroupQueries.{
  upsert_group_member, with_role, put_member, delete_group_member, drop_group, with_notify,
  set_group_member_notify,
}

abbrev pub role_in : Option SocialGroupMember → Option ℕ
role_in none = none
role_in (some m) = some m.role

unfoldable pub role_of : ℕ → ℕ → GroupTables → Option ℕ
role_of g u t = role_in (get (pair g u) t.members)

abbrev pub owner_in : Option SocialGroup → Option ℕ
owner_in none = none
owner_in (some g) = some g.owner_user_id

unfoldable pub owner_of : ℕ → GroupTables → Option ℕ
owner_of g t = owner_in (get g t.groups)

abbrev pub visibility_in : Option SocialGroup → Option ℕ
visibility_in none = none
visibility_in (some g) = some g.visibility

unfoldable pub visibility_of : ℕ → GroupTables → Option ℕ
visibility_of g t = visibility_in (get g t.groups)

-- The role that a row has after an upsert: a ban stays.
abbrev pub role_after : ℕ → Option ℕ → ℕ
role_after role none = role
role_after role (some old) = if not (old == 4) || role == 4 then role else old

abbrev pub each_role : (ℕ → ℕ) → Option ℕ → Option ℕ
each_role ρ none = none
each_role ρ (some r) = some (ρ r)

pub with_notify-key :
    (on : Bool) (m : SocialGroupMember)
    → pair (with_notify on m).group_id (with_notify on m).user_id ≡ pair m.group_id m.user_id
unfolding with_notify
with_notify-key on m = ground arith

with_notify-role : (on : Bool) (m : SocialGroupMember) → (with_notify on m).role ≡ m.role
unfolding with_notify
with_notify-role on m = ground arith

-- An update that treats the rows by their role.
pub role-modify :
    (i j : ℕ × ℕ) (f : SocialGroupMember → SocialGroupMember) (ρ : ℕ → ℕ)
    (rows : List SocialGroupMember)
    → ((m : SocialGroupMember) → pair (f m).group_id (f m).user_id ≡ pair m.group_id m.user_id)
    → ((m : SocialGroupMember) → (f m).role ≡ ρ m.role)
    → role_in (get j (modify i f rows))
      ≡ (if same_pair j i then each_role ρ (role_in (get j rows)) else role_in (get j rows))
role-modify i j f ρ rows keyed roles =
    ap role_in (get-modify i j f rows keyed) ∙ split (same_pair j i) (get j rows)
  where
    split :
        (b : Bool) (o : Option SocialGroupMember)
        → role_in (if b then elim o [ none ↦ none | some r ↦ some (f r) ] else o)
          ≡ (if b then each_role ρ (role_in o) else role_in o)
    split true none = refl
    split true (some m) = ap some (roles m)
    split false o = refl

pub with_role-key :
    (role : ℕ) (m : SocialGroupMember)
    → pair (with_role role m).group_id (with_role role m).user_id ≡ pair m.group_id m.user_id
unfolding with_role
with_role-key role m = ground arith

with_role-role :
    (role : ℕ) (m : SocialGroupMember) → (with_role role m).role ≡ role_after role (some m.role)
unfolding with_role
with_role-role role m = ground arith

module _ (g u h w : ℕ) where
  role-put_member :
      (now : ℤ) (role : ℕ) (by : Option ℕ) (o : Option SocialGroupMember)
      (rows : List SocialGroupMember)
      → get (pair g u) rows ≡ o
      → role_in (get (pair h w) (put_member now g u role by o rows)) ≡ (
          if same_pair (h, w) (g, u)
          then some (role_after role (role_in o))
          else role_in (get (pair h w) rows))
  unfolding put_member get
  role-put_member now role by none rows e = ground arith
  role-put_member now role by (some m) rows e =
      role-modify (pair g u) (pair h w) (with_role role) (λ r. role_after role (some r)) rows
        (with_role-key role) (with_role-role role)
      ∙ elim (Bool-cases (same_pair (h, w) (g, u))) [
        | inl same ↦
            let at : get (pair h w) rows ≡ some m =
              ap (λ k. get k rows) ((same_pair_iff (pair h w) (pair g u)).0 same) ∙ e in
            rw (same, at) refl
        | inr other ↦ rw other refl
      ]

module _ (g u h w : ℕ) (t : GroupTables) where
  pub role_of-upsert :
      (now : ℤ) (role : ℕ) (by : Option ℕ)
      → role_of h w (upsert_group_member now g u role by t) ≡ (
          if same_pair (h, w) (g, u) then some (role_after role (role_of g u t)) else role_of h w t)
  unfolding role_of upsert_group_member
  role_of-upsert now role by =
      role-put_member g u h w now role by (get (pair g u) t.members) t.members refl

  pub role_of-delete :
      role_of h w (delete_group_member g u t)
      ≡ (if same_pair (h, w) (g, u) then none else role_of h w t)
  unfolding role_of delete_group_member
  role_of-delete =
      ap role_in (get-remove (pair g u) (pair h w) t.members) ∙ split (same_pair (h, w) (g, u))
    where
      split :
          (b : Bool)
          → role_in (if b then none else get (pair h w) t.members)
            ≡ (if b then none else role_in (get (pair h w) t.members))
      split true = refl
      split false = refl

  pub role_of-drop : role_of h w (drop_group g t) ≡ (if h == g then none else role_of h w t)
  unfolding role_of drop_group
  role_of-drop =
      ap role_in (get-select (λ (k : ℕ × ℕ). not (k.0 == g)) (pair h w) t.members) ∙ split (h == g)
    where
      split :
          (b : Bool)
          → role_in (if not b then get (pair h w) t.members else none)
            ≡ (if b then none else role_in (get (pair h w) t.members))
      split true = refl
      split false = refl

  pub role_of-notify :
      (on : Bool) → role_of h w (set_group_member_notify g u on t).1 ≡ role_of h w t
  unfolding role_of set_group_member_notify
  role_of-notify on =
      role-modify (pair g u) (pair h w) (with_notify on) (λ r. r) t.members (with_notify-key on)
        (with_notify-role on)
      ∙ split (same_pair (h, w) (g, u)) (role_in (get (pair h w) t.members))
    where
      split : (b : Bool) (o : Option ℕ) → (if b then each_role (λ r. r) o else o) ≡ o
      split true none = refl
      split true (some r) = refl
      split false o = refl

-- Of the groups' own rows.
module _ (g h : ℕ) (t : GroupTables) where
  pub owner_of-drop : owner_of h (drop_group g t) ≡ (if h == g then none else owner_of h t)
  unfolding owner_of drop_group
  owner_of-drop = ap owner_in (get-remove g h t.groups) ∙ split (h == g)
    where
      split :
          (b : Bool)
          → owner_in (if b then none else get h t.groups)
            ≡ (if b then none else owner_in (get h t.groups))
      split true = refl
      split false = refl

  pub visibility_of-drop :
      visibility_of h (drop_group g t) ≡ (if h == g then none else visibility_of h t)
  unfolding visibility_of drop_group
  visibility_of-drop = ap visibility_in (get-remove g h t.groups) ∙ split (h == g)
    where
      split :
          (b : Bool)
          → visibility_in (if b then none else get h t.groups)
            ≡ (if b then none else visibility_in (get h t.groups))
      split true = refl
      split false = refl

module _ (h g u : ℕ) (t : GroupTables) (now : ℤ) (role : ℕ) (by : Option ℕ) where
  pub owner_of-upsert : owner_of h (upsert_group_member now g u role by t) ≡ owner_of h t
  unfolding owner_of upsert_group_member
  owner_of-upsert = refl

  pub visibility_of-upsert :
      visibility_of h (upsert_group_member now g u role by t) ≡ visibility_of h t
  unfolding visibility_of upsert_group_member
  visibility_of-upsert = refl

module _ (h g u : ℕ) (t : GroupTables) (on : Bool) where
  pub owner_of-notify : owner_of h (set_group_member_notify g u on t).1 ≡ owner_of h t
  unfolding owner_of set_group_member_notify
  owner_of-notify = refl

  pub visibility_of-notify :
      visibility_of h (set_group_member_notify g u on t).1 ≡ visibility_of h t
  unfolding visibility_of set_group_member_notify
  visibility_of-notify = refl
