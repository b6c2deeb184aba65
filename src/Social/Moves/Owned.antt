-- ===== src/Social/Moves/Owned.antt =====
-- Who owns a group and who has the owner's role agree, and a group with members exists.
use podcast_backend.Prelude.{
  ℕ, true, Option, none, some, ◌≡◌, ◌⊎◌, ◌↔◌, refl, sym, ap, subst, ◌∙◌, arith, inl, inr, some-inj,
}
use podcast_backend.Social.Rows.{same_pair}
use podcast_backend.Social.Handler.{GroupTables}
use podcast_backend.Social.GroupQueries.{drop_group}
use podcast_backend.Social.Roles.{role_of, owner_of}
use podcast_backend.Social.Moves.Seat.{Seat, Seat-cases, Crown, Crown-cases, drop-cases}

-- The users for whom `except` holds may keep an owner's role that is out of date.
pub record Owned (except : ℕ → Type 0) (t : GroupTables) : Type 0 where
  pub owned : (g v : ℕ) → role_of g v t ≡ some 2 → except v ⊎ (owner_of g t ≡ some v)
  pub owns : (g v : ℕ) → owner_of g t ≡ some v → role_of g v t ≡ some 2
  pub exists : (g v : ℕ) → owner_of g t ≡ none → role_of g v t ≡ none

none-some : {a : ℕ} → none ≡ some a → ⊥
none-some e = cc

module _ (except : ℕ → Type 0) (t t' : GroupTables) (o : Owned except t) where
  -- A write to a row leaves the owner's role where it is.
  pub Seat-Owned :
      (g x : ℕ) (new : Option ℕ)
      → Seat g x new t t'
      → (new ≡ some 2) ↔ (role_of g x t ≡ some 2)
      → (owner_of g t ≡ none → new ≡ none)
      → Owned except t'
  Seat-Owned g x new seat role there = record {
    owned = λ h w e. elim (Seat-cases seat.roles h w) [
      | inl here ↦ elim (o.owned h w (here.was ∙ role.0 (sym here.becomes ∙ e))) [
        | inl stale ↦ inl stale
        | inr own ↦ inr (seat.owners h ∙ own)
      ]
      | inr other ↦ elim (o.owned h w (sym other ∙ e)) [
        | inl stale ↦ inl stale
        | inr own ↦ inr (seat.owners h ∙ own)
      ]
    ];
    owns = λ h w e.
        let own = o.owns h w (sym (seat.owners h) ∙ e) in
        elim (Seat-cases seat.roles h w) [
          | inl here ↦ here.becomes ∙ role.1 (sym here.was ∙ own)
          | inr other ↦ other ∙ own
        ];
    exists = λ h w e.
        let empty = sym (seat.owners h) ∙ e in
        elim (Seat-cases seat.roles h w) [
          | inl here ↦ here.becomes ∙ there (subst (λ k. owner_of k t ≡ none) here.group empty)
          | inr other ↦ other ∙ o.exists h w empty
        ];
  }

  -- A statement that leaves roles and owners alone.
  pub same-Owned :
      ((h w : ℕ) → role_of h w t' ≡ role_of h w t)
      → ((h : ℕ) → owner_of h t' ≡ owner_of h t)
      → Owned except t'
  same-Owned roles owners = record {
    owned = λ h w e. elim (o.owned h w (sym (roles h w) ∙ e)) [
      | inl stale ↦ inl stale
      | inr own ↦ inr (owners h ∙ own)
    ];
    owns = λ h w e. roles h w ∙ o.owns h w (sym (owners h) ∙ e);
    exists = λ h w e. roles h w ∙ o.exists h w (sym (owners h) ∙ e);
  }

  -- The new owner of a group, whose former owner is excepted.
  pub Crown-Owned :
      (g v : ℕ) → Crown g v t t' → ((w : ℕ) → role_of g w t ≡ some 2 → except w) → Owned except t'
  Crown-Owned g v crown former = record {
    owned = λ h w e. elim (Seat-cases crown.roles h w) [
      | inl here ↦ elim (Crown-cases crown h) [
        | inl (same, own) ↦ inr (own ∙ ap some (sym here.user))
        | inr (apart, kept) ↦ absurd (apart here.group)
      ]
      | inr other ↦ elim (Crown-cases crown h) [
        | inl (same, own) ↦
            inl (former w (subst (λ k. role_of k w t ≡ some 2) same (sym other ∙ e)))
        | inr (apart, kept) ↦ elim (o.owned h w (sym other ∙ e)) [
          | inl stale ↦ inl stale
          | inr own ↦ inr (kept ∙ own)
        ]
      ]
    ];
    owns = λ h w e. elim (Seat-cases crown.roles h w) [
      | inl here ↦ here.becomes
      | inr other ↦ elim (Crown-cases crown h) [
        | inl (same, own) ↦
            let user : v ≡ w = some-inj (sym own ∙ e) in
            let hit : same_pair (h, w) (g, v) ≡ true = ground arith in crown.roles h w ∙ rw hit refl
        | inr (apart, kept) ↦ other ∙ o.owns h w (sym kept ∙ e)
      ]
    ];
    exists = λ h w e. elim (Crown-cases crown h) [
      | inl (same, own) ↦ absurd (cc)
      | inr (apart, kept) ↦ elim (Seat-cases crown.roles h w) [
        | inl here ↦ absurd (apart here.group)
        | inr other ↦ other ∙ o.exists h w (sym kept ∙ e)
      ]
    ];
  }

module _ (except : ℕ → Type 0) (t : GroupTables) (o : Owned except t) where
  pub drop-Owned : (g : ℕ) → Owned except (drop_group g t)
  drop-Owned g = record {
    owned = λ h w e. elim (drop-cases g t h) [
      | inl gone ↦ absurd (none-some (sym (gone.role w) ∙ e))
      | inr left ↦ elim (o.owned h w (sym (left.role w) ∙ e)) [
        | inl stale ↦ inl stale
        | inr own ↦ inr (left.owner ∙ own)
      ]
    ];
    owns = λ h w e. elim (drop-cases g t h) [
      | inl gone ↦ absurd (none-some (sym gone.owner ∙ e))
      | inr left ↦ left.role w ∙ o.owns h w (sym left.owner ∙ e)
    ];
    exists = λ h w e. elim (drop-cases g t h) [
      | inl gone ↦ gone.role w
      | inr left ↦ left.role w ∙ o.exists h w (sym left.owner ∙ e)
    ];
  }
