-- ===== src/Social/Moves.antt =====
-- What a user may do to the groups: the contract of the group endpoints, in terms of roles, owners
-- and visibility.
pub mod Row
pub mod Erasing
pub mod Tidy
pub mod Successor
pub mod Loop
pub mod Erases
pub mod Fates
pub mod Seat
pub mod Owned
pub mod Crowned
pub mod Sound
pub mod Bans
pub mod Joining
pub mod Tally
pub mod Confined
pub mod Steps
pub mod Groups
pub mod Members
pub mod Refines
use podcast_backend.Prelude.{
  ℕ, ◌<◌, ℤ, String, Bool, true, false, not, ◌&&◌, ◌||◌, Option, none, some, ◌==◌, ◌≡◌, ◌≢◌, ◌⊎◌,
}
use podcast_backend.Social.Rows.{Account}
use podcast_backend.Social.Handler.{GroupTables, Store}
use podcast_backend.Social.GroupQueries.{
  count_group_members, create_social_group, set_group, drop_group, upsert_group_member,
  delete_group_member, set_group_member_notify, is_active_role,
}
use podcast_backend.Social.Guards.{Context, caller}
use podcast_backend.Social.Groups.{group_private_cap}
use podcast_backend.Social.Erase.{erase_groups}
use podcast_backend.Social.Roles.{role_of, owner_of, visibility_of}

-- A private group has a seat left.
abbrev pub HasSeat : ℕ → GroupTables → Type 0
HasSeat g t = visibility_of g t ≡ some 1 → count_group_members g t.members < group_private_cap

abbrev pub IsActive : Option ℕ → Type 0
IsActive role = (role ≡ some 1) ⊎ (role ≡ some 2)

abbrev pub IsVisibility : ℕ → Type 0
IsVisibility v = (v ≡ 1) ⊎ (v ≡ 2)

-- The moves of the user u at the time now.
pub data Move (now : ℤ) (u : ℕ) (t : GroupTables) : GroupTables → Type 0 where
  create :
      (title description : String) (visibility : ℕ) (podcast_uuid podcast_title : String)
      → IsVisibility visibility
      → Move now u t (
          upsert_group_member now t.next_id u 2 none
            (create_social_group now u title description visibility podcast_uuid podcast_title t).1)
  -- A private group does not become public.
  update :
      (g : ℕ) (title description : String) (visibility : ℕ)
      → owner_of g t ≡ some u
      → IsVisibility visibility
      → (visibility_of g t ≡ some 1 → visibility ≢ 2)
      → Move now u t (set_group now g title description visibility t)
  delete : (g : ℕ) → owner_of g t ≡ some u → Move now u t (drop_group g t)
  -- Only into a public group, and not past a ban.
  join :
      (g : ℕ)
      → visibility_of g t ≡ some 2
      → role_of g u t ≢ some 4
      → role_of g u t ≢ some 2
      → Move now u t (upsert_group_member now g u 1 none t)
  -- Out of a group, or no to an invitation. A ban cannot be left, nor can an owner leave.
  leave :
      (g : ℕ)
      → role_of g u t ≢ some 4
      → role_of g u t ≢ some 2
      → Move now u t (delete_group_member g u t)
  invite :
      (g w : ℕ)
      → IsActive (role_of g u t)
      → HasSeat g t
      → role_of g w t ≡ none
      → Move now u t (upsert_group_member now g w 3 (some u) t)
  accept :
      (g : ℕ)
      → role_of g u t ≡ some 3
      → HasSeat g t
      → Move now u t (upsert_group_member now g u 1 none t)
  kick : (g w : ℕ) → role_of g u t ≡ some 2 → w ≢ u → Move now u t (delete_group_member g w t)
  ban :
      (g w : ℕ)
      → role_of g u t ≡ some 2
      → w ≢ u
      → Move now u t (upsert_group_member now g w 4 none t)
  alert : (g : ℕ) (on : Bool) → Move now u t (set_group_member_notify g u on t).1
  erase : Move now u t (erase_groups now u t)

-- What a request does to the groups: nothing, or a move of its caller.
abbrev pub Moves : Context → Store → GroupTables → Type 0
Moves c s t = (t ≡ s.tables) ⊎ ((a : Account) × (caller c s ≡ some a) × Move c.now a.id s.tables t)
