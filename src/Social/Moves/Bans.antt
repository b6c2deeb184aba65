-- ===== src/Social/Moves/Bans.antt =====
-- A ban holds against everyone but the group's owner.
use podcast_backend.Prelude.{
  ℕ, ℤ, Option, none, some, ◌==◌, ◌≡◌, ◌≢◌, ◌⊎◌, refl, sym, ap, ◌∙◌, arith, inl, inr, some-inj,
  Bool-cases,
}
use podcast_backend.Social.Handler.{GroupTables}
use podcast_backend.Social.GroupQueries.{delete_group_member}
use podcast_backend.Social.Erase.{erase_groups}
use podcast_backend.Social.Roles.{role_of, owner_of, role_of-notify, role_after}
use podcast_backend.Social.Roles.Owner.{role_of-set}
use podcast_backend.Social.Roles.Erased.{role_of-clear, owner_of-clear, owner_of-forget}
use podcast_backend.Social.Moves.{Move}
use podcast_backend.Social.Moves.Erasing.{Erasing, Erasure-ind}
use podcast_backend.Social.Moves.Tidy.{new_id}
use podcast_backend.Social.Moves.Erases.{erase_groups-Erasure}
use podcast_backend.Social.Moves.Seat.{
  Seat, Crown-cases, Seat-cases, upsert-Seat, delete-Seat, drop-cases,
}
use podcast_backend.Social.Moves.Sound.{Sound}
use podcast_backend.Social.Moves.Crowned.{some-none, pass-Crown, create-Crown, forget-cases}

ban-stays : (role : ℕ) → role_after role (some 4) ≡ 4
ban-stays role = ground arith

-- A ban in a group that is not u's.
abbrev Banned : ℕ → ℕ → ℕ → GroupTables → Type 0
Banned u g w t = (role_of g w t ≡ some 4) × (owner_of g t ≢ some u)

module _ (u g w : ℕ) where
  -- An upsert does not lift a ban.
  upsert-ban :
      (now : ℤ) (h x role : ℕ) (by : Option ℕ) (t t' : GroupTables)
      → Seat h x (some (role_after role (role_of h x t))) t t'
      → role_of g w t ≡ some 4
      → role_of g w t' ≡ some 4
  upsert-ban now h x role by t t' seat ban = elim (Seat-cases seat.roles g w) [
    | inl here ↦
        here.becomes
        ∙ ap (λ o. some (role_after role o)) (sym here.was ∙ ban)
        ∙ ap some (ban-stays role)
    | inr other ↦ other ∙ ban
  ]

  Erasing-Banned : u ≢ w → (t t' : GroupTables) → Erasing u t t' → Banned u g w t → Banned u g w t'
  Erasing-Banned out t _ (Erasing.pass now h v own public member other) (ban, free) =
      let crown = pass-Crown now h v t (some-none own) member in
      (
        elim (Seat-cases crown.roles g w) [
          | inl here ↦ absurd (free (ap (λ k. owner_of k t) here.group ∙ own))
          | inr kept ↦ kept ∙ ban
        ],
        λ e. elim (Crown-cases crown g) [
          | inl (same, new) ↦ other (some-inj (sym new ∙ e))
          | inr (apart, kept) ↦ free (sym kept ∙ e)
        ],
      )
  Erasing-Banned out t _ (Erasing.drop h own alone) (ban, free) = elim (drop-cases h t g) [
    | inl gone ↦ absurd (free (ap (λ k. owner_of k t) gone.group ∙ own))
    | inr left ↦ (left.role w ∙ ban, λ e. free (sym left.owner ∙ e))
  ]
  Erasing-Banned out t _ (Erasing.forget alone) (ban, free) = (
    elim (forget-cases u g w t) [
      | inl (same, gone) ↦ absurd (out (sym same))
      | inr (other, kept) ↦ kept ∙ ban
    ],
    λ e. free (sym (owner_of-forget g u t) ∙ e),
  )
  Erasing-Banned out t _ Erasing.clear (ban, free) =
      (role_of-clear g w t u ∙ ban, λ e. free (sym (owner_of-clear g u t) ∙ e))

  -- A deletion does not, where it is not of the banned row.
  delete-ban :
      (h x : ℕ) (t : GroupTables)
      → role_of h x t ≢ some 4 ⊎ (h ≢ g)
      → role_of g w t ≡ some 4
      → role_of g w (delete_group_member h x t) ≡ some 4
  delete-ban h x t spared ban = elim (Seat-cases (Seat.roles (delete-Seat h x t)) g w) [
    | inl here ↦ elim spared [
      | inl free ↦ absurd (free (sym here.was ∙ ban))
      | inr apart ↦ absurd (apart (sym here.group))
    ]
    | inr other ↦ other ∙ ban
  ]

  erase-Banned :
      (now : ℤ) (t : GroupTables)
      → Sound t
      → u ≢ w
      → Banned u g w t
      → role_of g w (erase_groups now u t) ≡ some 4
  erase-Banned now t o out b =
      let steps = erase_groups-Erasure now u t o.tidy in
      (Erasure-ind (Banned u g w) (Erasing-Banned out) steps b).0

-- What the move of one who does not own the group leaves of a ban: all of it, except that the
-- banned user can erase the profile.
abbrev pub StillBanned : ℤ → ℕ → ℕ → ℕ → GroupTables → GroupTables → Type 0
StillBanned now u g w t t' = (role_of g w t' ≡ some 4) ⊎ ((u ≡ w) × (t' ≡ erase_groups now u t))

pub Move-StillBanned :
    (now : ℤ) (u g w : ℕ) (t t' : GroupTables)
    → Move now u t t'
    → Sound t
    → owner_of g t ≢ some u
    → role_of g w t ≡ some 4
    → StillBanned now u g w t t'
Move-StillBanned now u g w t _ (Move.create title description v p q allowed) o free ban =
    let crown = create-Crown now u title description v p q t o.tidy o.owned in
    elim (Seat-cases crown.roles g w) [
      | inl here ↦
          let empty = o.owned.exists t.next_id u (new_id t o.tidy) in
          absurd (some-none (sym here.was ∙ ban) empty)
      | inr other ↦ inl (other ∙ ban)
    ]
Move-StillBanned now u g w t _ (Move.update h title description v own allowed kept) o free ban =
    inl (role_of-set g t now title description v w h ∙ ban)
Move-StillBanned now u g w t _ (Move.delete h own) o free ban = elim (drop-cases h t g) [
  | inl gone ↦ absurd (free (ap (λ k. owner_of k t) gone.group ∙ own))
  | inr left ↦ inl (left.role w ∙ ban)
]
Move-StillBanned now u g w t _ (Move.join h public clear out) o free ban =
    inl (upsert-ban u g w now h u 1 none t _ (upsert-Seat h u t now 1 none) ban)
Move-StillBanned now u g w t _ (Move.leave h clear out) o free ban =
    inl (delete-ban u g w h u t (inl clear) ban)
Move-StillBanned now u g w t _ (Move.invite h x active seat absent) o free ban =
    inl (upsert-ban u g w now h x 3 (some u) t _ (upsert-Seat h x t now 3 (some u)) ban)
Move-StillBanned now u g w t _ (Move.accept h invited seat) o free ban =
    inl (upsert-ban u g w now h u 1 none t _ (upsert-Seat h u t now 1 none) ban)
Move-StillBanned now u g w t _ (Move.kick h x own other) o free ban =
    inl (delete-ban u g w h x t (inr (theirs own)) ban)
  where
    theirs : role_of h u t ≡ some 2 → h ≢ g
    theirs own' e = elim (o.owned.owned h u own') [
      | inl never ↦ never
      | inr mine ↦ free (ap (λ k. owner_of k t) (sym e) ∙ mine)
    ]
Move-StillBanned now u g w t _ (Move.ban h x own other) o free ban =
    inl (upsert-ban u g w now h x 4 none t _ (upsert-Seat h x t now 4 none) ban)
Move-StillBanned now u g w t _ (Move.alert h on) o free ban =
    inl (role_of-notify h u g w t on ∙ ban)
Move-StillBanned now u g w t _ Move.erase o free ban = elim (Bool-cases (u == w)) [
  | inl same ↦ inr (ground arith, refl)
  | inr other ↦ inl (erase-Banned u g w now t o (λ e. ground arith) (ban, free))
]
