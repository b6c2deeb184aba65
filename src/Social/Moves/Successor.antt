-- ===== src/Social/Moves/Successor.antt =====
-- Who a public group goes to.
use podcast_backend.Prelude.{
  ℕ, Bool, ◌&&◌, not, Option, none, some, List, [], ◌∷◌, ◌==◌, ◌≡◌, ◌≢◌, refl, ap, subst, ◌∙◌, inl,
  arith, In, select, sort_by, sort_by-In, In-sort_by, select-In, In-select, some-inj,
}
use podcast_backend.Db.Keys.{get}
use podcast_backend.Db.Keys.Laws.{get-key}
use podcast_backend.Db.Keys.Unique.{Unique, get-In, In-get}
use podcast_backend.Social.Rows.{SocialGroupMember, member_key, pair}
use podcast_backend.Social.Erase.{find_group_successor, first_user, joined_before}
use podcast_backend.Social.Roles.{role_in}

first_user-In :
    (xs : List SocialGroupMember) (v : ℕ)
    → first_user xs ≡ some v
    → (m : SocialGroupMember) × In m xs × (m.user_id ≡ v)
unfolding first_user
first_user-In [] v e = absurd (cc)
first_user-In (m ∷ ms) v e = (m, inl refl, some-inj e)

first_user-none :
    (xs : List SocialGroupMember) (m : SocialGroupMember) → first_user xs ≡ none → In m xs → ⊥
unfolding first_user
first_user-none [] m e i = elim i [ ]
first_user-none (x ∷ xs) m e i = cc

abbrev heir : ℕ → ℕ → SocialGroupMember → Bool
heir g u m = m.group_id == g && (m.role == 1 && not (m.user_id == u))

module _ (g u v : ℕ) (rows : List SocialGroupMember) where
  pub successor-some :
      Unique (ℕ × ℕ) rows
      → find_group_successor g u rows ≡ some v
      → (role_in (get (pair g v) rows) ≡ some 1) × (v ≢ u)
  unfolding find_group_successor
  successor-some d e =
      let (m, i, at) = first_user-In (sort_by joined_before (select (heir g u) rows)) v e in
      let (j, test) =
        In-select (heir g u) m rows (In-sort_by joined_before m (select (heir g u) rows) i) in
      let found : get (pair m.group_id m.user_id) rows ≡ some m = In-get (ℕ × ℕ) m rows d j in
      let here : m.group_id ≡ g = ground arith in
      let role : m.role ≡ 1 = ground arith in
      let other : v ≢ u = λ q. ground arith in
      (
        ap role_in (
              subst (λ k. get (pair k v) rows ≡ some m) here
                (subst (λ k. get (pair m.group_id k) rows ≡ some m) at found))
            ∙ ap some role,
        other,
      )

  pub successor-none :
      find_group_successor g u rows ≡ none → v ≢ u → role_in (get (pair g v) rows) ≢ some 1
  unfolding find_group_successor
  successor-none e other role = at (get (pair g v) rows) refl role
    where
      at : (o : Option SocialGroupMember) → get (pair g v) rows ≡ o → role_in o ≡ some 1 → ⊥
      at none q r = cc
      at (some m) q r =
          let key : pair m.group_id m.user_id ≡ pair g v = get-key (pair g v) rows m q in
          let one : m.role ≡ 1 = some-inj r in
          first_user-none (sort_by joined_before (select (heir g u) rows)) m e (
            sort_by-In joined_before m (select (heir g u) rows)
              (select-In (heir g u) m rows (get-In (ℕ × ℕ) (pair g v) rows m q) (ground arith)))
