-- ===== src/Social/Histories.antt =====
-- What holds of the groups after requests in any order.
use podcast_backend.Prelude.{ℕ, some, List, [], ◌∷◌, ◌≡◌, ◌≢◌, ◌⊎◌, sym, subst, inl, inr}
use podcast_backend.Social.Rows.{Account}
use podcast_backend.Social.Handler.{Store, GroupTables}
use podcast_backend.Social.Guards.{Context, caller}
use podcast_backend.Social.Erase.{erase_groups}
use podcast_backend.Social.Served.{Request, serve, serve_all}
use podcast_backend.Social.Roles.{role_of, owner_of}
use podcast_backend.Social.Moves.{Move}
use podcast_backend.Social.Moves.Refines.{serve-Moves}
use podcast_backend.Social.Moves.Sound.{Sound, Move-Sound}
use podcast_backend.Social.Moves.Bans.{Move-StillBanned}
use podcast_backend.Social.Moves.Joining.{Joins, Move-Joins}
use podcast_backend.Social.Moves.Confined.{Confined, Move-Confined}

-- What every move keeps, a request keeps.
serve-keeps :
    (P : GroupTables → Type 0) (c : Context) (r : Request) (s : Store)
    → ((a : Account) (t' : GroupTables) → Move c.now a.id s.tables t' → P s.tables → P t')
    → P s.tables
    → P (serve (c, r) s).tables
serve-keeps P c r s each p = elim (serve-Moves c r s) [
  | inl same ↦ subst P (sym same) p
  | inr (a, who, m) ↦ each a _ m p
]

serve-Sound :
    (c : Context) (r : Request) (s : Store) → Sound s.tables → Sound (serve (c, r) s).tables
serve-Sound c r s o =
    serve-keeps Sound c r s (λ a t' m o'. Move-Sound c.now a.id s.tables t' m o') o

-- After any requests, in tables that started so: the primary keys hold, no id is given twice, each
-- group is private or public, a user has the owner's role in a group exactly if the group's row
-- names that user as its owner, and every member, invitation and ban is of a group that exists. An
-- erasure, which passes groups on and drops others, is among the requests.
pub serve_all-Sound :
    (qs : List (Context × Request)) (s : Store) → Sound s.tables → Sound (serve_all qs s).tables
unfolding serve_all
serve_all-Sound [] s o = o
serve_all-Sound ((c, r) ∷ qs) s o = serve_all-Sound qs (serve (c, r) s) (serve-Sound c r s o)

-- A group that is not public and has at most a hundred members stays so, whatever is requested: it
-- is not made public, and neither joins nor accepted invitations take it past the cap. Where it has
-- been deleted, its id does not come back as a public group.
pub serve_all-Confined :
    (g : ℕ) (qs : List (Context × Request)) (s : Store)
    → Sound s.tables
    → Confined g s.tables
    → Confined g (serve_all qs s).tables
unfolding serve_all
serve_all-Confined g [] s o c = c
serve_all-Confined g ((c, r) ∷ qs) s o k =
    serve_all-Confined g qs (serve (c, r) s) (serve-Sound c r s o) (
      serve-keeps (Confined g) c r s (λ a t' m k'. Move-Confined c.now a.id g s.tables t' m o k') k)

module _ (c : Context) (r : Request) (s : Store) (o : Sound s.tables) (g w : ℕ) where
  -- A request of anyone but the group's owner leaves a ban in place, with one exception: the banned
  -- user's own erasure of the social profile, which deletes the row of the ban.
  pub serve-StillBanned :
      ((a : Account) → caller c s ≡ some a → owner_of g s.tables ≢ some a.id)
      → role_of g w s.tables ≡ some 4
      → (role_of g w (serve (c, r) s).tables ≡ some 4)
        ⊎ ((a : Account) × (caller c s ≡ some a)
            × (a.id ≡ w)
            × ((serve (c, r) s).tables ≡ erase_groups c.now a.id s.tables))
  serve-StillBanned stranger ban = elim (serve-Moves c r s) [
    | inl same ↦ inl (subst (λ t. role_of g w t ≡ some 4) (sym same) ban)
    | inr (a, who, m) ↦ elim (Move-StillBanned c.now a.id g w s.tables _ m o (stranger a who) ban) [
      | inl still ↦ inl still
      | inr (self, erased) ↦ inr (a, who, self, erased)
    ]
  ]

  -- Who becomes a member of a group is the caller: by joining, where the group is public and the
  -- caller not banned, or by accepting an own invitation, where a private group has a seat left.
  pub serve-Joins :
      role_of g w (serve (c, r) s).tables ≡ some 1
      → (role_of g w s.tables ≡ some 1)
        ⊎ ((a : Account) × (caller c s ≡ some a) × Joins a.id g w s.tables)
  serve-Joins member = elim (serve-Moves c r s) [
    | inl same ↦ inl (subst (λ t. role_of g w t ≡ some 1) same member)
    | inr (a, who, m) ↦ elim (Move-Joins c.now a.id g w s.tables _ m o member) [
      | inl before ↦ inl before
      | inr joins ↦ inr (a, who, joins)
    ]
  ]
