-- ===== src/Social/Moves/Seat.antt =====
-- A statement that writes the row of one user in one group.
use podcast_backend.Prelude.{
  ℕ, ℤ, Option, none, some, ◌==◌, ◌≡◌, ◌≢◌, ◌⊎◌, inl, inr, refl, ap, ◌∙◌, arith, if◌then◌else◌,
  Bool-cases,
}
use podcast_backend.Social.Rows.{same_pair}
use podcast_backend.Social.Handler.{GroupTables}
use podcast_backend.Social.GroupQueries.{upsert_group_member, delete_group_member, drop_group}
use podcast_backend.Social.Roles.{
  role_of, owner_of, visibility_of, role_after, role_of-upsert, role_of-delete, role_of-drop,
  owner_of-drop, visibility_of-drop,
}

pub record Seat (g x : ℕ) (new : Option ℕ) (t t' : GroupTables) : Type 0 where
  pub roles : (h w : ℕ) → role_of h w t' ≡ (if same_pair (h, w) (g, x) then new else role_of h w t)
  pub owners : (h : ℕ) → owner_of h t' ≡ owner_of h t
  pub visibilities : (h : ℕ) → visibility_of h t' ≡ visibility_of h t

-- The one row, or another.
pub record Here (g x : ℕ) (new : Option ℕ) (t t' : GroupTables) (h w : ℕ) : Type 0 where
  pub group : h ≡ g
  pub user : w ≡ x
  pub was : role_of h w t ≡ role_of g x t
  pub becomes : role_of h w t' ≡ new

pub Seat-cases :
    {g x : ℕ} {new : Option ℕ} {t t' : GroupTables}
    → ((h w : ℕ) → role_of h w t' ≡ (if same_pair (h, w) (g, x) then new else role_of h w t))
    → (h w : ℕ) → Here g x new t t' h w ⊎ (role_of h w t' ≡ role_of h w t)
Seat-cases {g} {x} {new} {t} {t'} roles h w = elim (Bool-cases (same_pair (h, w) (g, x))) [
  | inl same ↦
      let group : h ≡ g = ground arith in
      let user : w ≡ x = ground arith in
      inl (record {
        group = group;
        user = user;
        was = ap (λ k. role_of k w t) group ∙ ap (λ k. role_of g k t) user;
        becomes = roles h w ∙ rw same refl;
      })
  | inr other ↦ inr (roles h w ∙ rw other refl)
]

module _ (g x : ℕ) (t : GroupTables) where
  pub upsert-Seat :
      (now : ℤ) (role : ℕ) (by : Option ℕ)
      → Seat g x (some (role_after role (role_of g x t))) t (upsert_group_member now g x role by t)
  unfolding owner_of visibility_of upsert_group_member
  upsert-Seat now role by = record {
    roles = λ h w. role_of-upsert g x h w t now role by;
    owners = λ h. refl;
    visibilities = λ h. refl;
  }

  pub delete-Seat : Seat g x none t (delete_group_member g x t)
  unfolding owner_of visibility_of delete_group_member
  delete-Seat = record {
    roles = λ h w. role_of-delete g x h w t;
    owners = λ h. refl;
    visibilities = λ h. refl;
  }

-- A statement that makes one user the owner of one group.
pub record Crown (g v : ℕ) (t t' : GroupTables) : Type 0 where
  pub roles :
      (h w : ℕ) → role_of h w t' ≡ (if same_pair (h, w) (g, v) then some 2 else role_of h w t)
  pub owners : (h : ℕ) → owner_of h t' ≡ (if h == g then some v else owner_of h t)

pub Crown-cases :
    {g v : ℕ} {t t' : GroupTables}
    → Crown g v t t'
    → (h : ℕ) → ((h ≡ g) × (owner_of h t' ≡ some v)) ⊎ ((h ≢ g) × (owner_of h t' ≡ owner_of h t))
Crown-cases {g} {v} {t} {t'} crown h = elim (Bool-cases (h == g)) [
  | inl same ↦ inl (ground arith, crown.owners h ∙ rw same refl)
  | inr other ↦ inr ((λ e. ground arith), crown.owners h ∙ rw other refl)
]

-- A group that goes, with its members.
pub record Gone (g : ℕ) (t : GroupTables) (h : ℕ) : Type 0 where
  pub group : h ≡ g
  pub role : (w : ℕ) → role_of h w (drop_group g t) ≡ none
  pub owner : owner_of h (drop_group g t) ≡ none
  pub visibility : visibility_of h (drop_group g t) ≡ none

pub record Spared (g : ℕ) (t : GroupTables) (h : ℕ) : Type 0 where
  pub group : h ≢ g
  pub role : (w : ℕ) → role_of h w (drop_group g t) ≡ role_of h w t
  pub owner : owner_of h (drop_group g t) ≡ owner_of h t
  pub visibility : visibility_of h (drop_group g t) ≡ visibility_of h t

pub drop-cases : (g : ℕ) (t : GroupTables) (h : ℕ) → Gone g t h ⊎ Spared g t h
drop-cases g t h = elim (Bool-cases (h == g)) [
  | inl same ↦ inl (record {
    group = ground arith;
    role = λ w. role_of-drop g 0 h w t ∙ rw same refl;
    owner = owner_of-drop g h t ∙ rw same refl;
    visibility = visibility_of-drop g h t ∙ rw same refl;
  })
  | inr other ↦ inr (record {
    group = λ e. ground arith;
    role = λ w. role_of-drop g 0 h w t ∙ rw other refl;
    owner = owner_of-drop g h t ∙ rw other refl;
    visibility = visibility_of-drop g h t ∙ rw other refl;
  })
]
