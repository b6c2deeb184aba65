-- ===== src/Social/Moves/Joining.antt =====
-- Nobody is made a member of a group by someone else.
use podcast_backend.Prelude.{ℕ, ℤ, none, some, ◌≡◌, ◌≢◌, ◌⊎◌, refl, sym, subst, ◌∙◌, inl, inr}
use podcast_backend.Social.Handler.{GroupTables}
use podcast_backend.Social.GroupQueries.{delete_group_member}
use podcast_backend.Social.Roles.{role_of, visibility_of, role_of-notify, role_after}
use podcast_backend.Social.Roles.Owner.{role_of-set}
use podcast_backend.Social.Roles.Erased.{role_of-clear}
use podcast_backend.Social.Moves.{Move, HasSeat}
use podcast_backend.Social.Moves.Erasing.{Erasing, Erasure-ind}
use podcast_backend.Social.Moves.Erases.{erase_groups-Erasure}
use podcast_backend.Social.Moves.Seat.{Seat, Seat-cases, upsert-Seat, delete-Seat, drop-cases}
use podcast_backend.Social.Moves.Sound.{Sound, role_after-other}
use podcast_backend.Social.Moves.Crowned.{some-none, pass-Crown, create-Crown, forget-cases}

-- A user u who becomes a member of the group g does so by the own request: by joining a public group
-- without a ban, or by accepting an invitation while there is a seat.
abbrev pub Joins : ℕ → ℕ → ℕ → GroupTables → Type 0
Joins u g w t =
    (w ≡ u)
    × (((visibility_of g t ≡ some 2) × (role_of g w t ≢ some 4))
        ⊎ ((role_of g w t ≡ some 3) × HasSeat g t))

two-one : {a : ℕ} → a ≡ 2 → some a ≡ some 1 → ⊥
two-one two e = cc

none-one : {r : ℕ} → none ≡ some r → ⊥
none-one e = cc

module _ (u g w : ℕ) where
  Erasing-member :
      (t t' : GroupTables) → Erasing u t t' → role_of g w t' ≡ some 1 → role_of g w t ≡ some 1
  Erasing-member t _ (Erasing.pass now h v own public member other) e =
      elim (Seat-cases (pass-Crown now h v t (some-none own) member).roles g w) [
        | inl here ↦ absurd (two-one refl (sym here.becomes ∙ e))
        | inr kept ↦ sym kept ∙ e
      ]
  Erasing-member t _ (Erasing.drop h own alone) e = elim (drop-cases h t g) [
    | inl gone ↦ absurd (none-one (sym (gone.role w) ∙ e))
    | inr left ↦ sym (left.role w) ∙ e
  ]
  Erasing-member t _ (Erasing.forget alone) e = elim (forget-cases u g w t) [
    | inl (same, gone) ↦ absurd (none-one (sym gone ∙ e))
    | inr (other, kept) ↦ sym kept ∙ e
  ]
  Erasing-member t _ Erasing.clear e = sym (role_of-clear g w t u) ∙ e

  delete-member :
      (h x : ℕ) (t : GroupTables)
      → role_of g w (delete_group_member h x t) ≡ some 1
      → role_of g w t ≡ some 1
  delete-member h x t e = elim (Seat-cases (Seat.roles (delete-Seat h x t)) g w) [
    | inl here ↦ absurd (none-one (sym here.becomes ∙ e))
    | inr other ↦ sym other ∙ e
  ]

  -- An upsert to another role makes no member.
  upsert-member :
      (role h x : ℕ) (t t' : GroupTables)
      → Seat h x (some (role_after role (role_of h x t))) t t'
      → role ≢ 1
      → role_of g w t' ≡ some 1
      → role_of g w t ≡ some 1
  upsert-member role h x t t' seat other e = elim (Seat-cases seat.roles g w) [
    | inl here ↦ here.was ∙ role_after-other 1 role (role_of h x t) other (sym here.becomes ∙ e)
    | inr kept ↦ sym kept ∙ e
  ]

  -- An upsert of u's own row, to membership.
  own-member :
      (now : ℤ) (h : ℕ) (t t' : GroupTables)
      → Seat h u (some (role_after 1 (role_of h u t))) t t'
      → ((visibility_of h t ≡ some 2) × (role_of h u t ≢ some 4))
        ⊎ ((role_of h u t ≡ some 3) × HasSeat h t)
      → role_of g w t' ≡ some 1
      → (role_of g w t ≡ some 1) ⊎ Joins u g w t
  own-member now h t t' seat allowed e = elim (Seat-cases seat.roles g w) [
    | inl here ↦ inr (
        subst (λ k. Joins u k w t) (sym here.group)
          (subst (λ k. Joins u h k t) (sym here.user) (refl, allowed)))
    | inr kept ↦ inl (sym kept ∙ e)
  ]

pub Move-Joins :
    (now : ℤ) (u g w : ℕ) (t t' : GroupTables)
    → Move now u t t'
    → Sound t
    → role_of g w t' ≡ some 1
    → (role_of g w t ≡ some 1) ⊎ Joins u g w t
Move-Joins now u g w t _ (Move.create title description v p q allowed) o e =
    elim (Seat-cases (create-Crown now u title description v p q t o.tidy o.owned).roles g w) [
      | inl here ↦ absurd (two-one refl (sym here.becomes ∙ e))
      | inr kept ↦ inl (sym kept ∙ e)
    ]
Move-Joins now u g w t _ (Move.update h title description v own allowed kept) o e =
    inl (sym (role_of-set g t now title description v w h) ∙ e)
Move-Joins now u g w t _ (Move.delete h own) o e = elim (drop-cases h t g) [
  | inl gone ↦ absurd (none-one (sym (gone.role w) ∙ e))
  | inr left ↦ inl (sym (left.role w) ∙ e)
]
Move-Joins now u g w t _ (Move.join h public clear out) o e =
    own-member u g w now h t _ (upsert-Seat h u t now 1 none) (inl (public, clear)) e
Move-Joins now u g w t _ (Move.leave h clear out) o e = inl (delete-member u g w h u t e)
Move-Joins now u g w t _ (Move.invite h x active seat absent) o e =
    inl (upsert-member u g w 3 h x t _ (upsert-Seat h x t now 3 (some u)) (λ n. cc) e)
Move-Joins now u g w t _ (Move.accept h invited seat) o e =
    own-member u g w now h t _ (upsert-Seat h u t now 1 none) (inr (invited, seat)) e
Move-Joins now u g w t _ (Move.kick h x own other) o e = inl (delete-member u g w h x t e)
Move-Joins now u g w t _ (Move.ban h x own other) o e =
    inl (upsert-member u g w 4 h x t _ (upsert-Seat h x t now 4 none) (λ n. cc) e)
Move-Joins now u g w t _ (Move.alert h on) o e = inl (sym (role_of-notify h u g w t on) ∙ e)
Move-Joins now u g w t _ Move.erase o e = inl (
    Erasure-ind (λ a. role_of g w a ≡ some 1 → role_of g w t ≡ some 1)
      (λ a b step back e'. back (Erasing-member u g w a b step e'))
      (erase_groups-Erasure now u t o.tidy) (λ e'. e') e)
