-- ===== src/Social/Moves/Sound.antt =====
-- The moves keep the tables tidy, and roles and ownership in agreement.
use podcast_backend.Prelude.{
  ℕ, ℤ, Option, none, some, ==_iff, ◌≡◌, ◌≢◌, refl, sym, ap, ◌∙◌, arith, inl, inr, some-inj,
}
use podcast_backend.Social.Handler.{GroupTables}
use podcast_backend.Social.GroupQueries.{delete_group_member, upsert_group_member}
use podcast_backend.Social.Erase.{erase_groups}
use podcast_backend.Social.Roles.{role_of, owner_of, role_after, role_of-notify, owner_of-notify}
use podcast_backend.Social.Roles.Owner.{role_of-set, owner_of-set}
use podcast_backend.Social.Roles.Erased.{role_of-forget, role_of-clear}
use podcast_backend.Social.Moves.{Move, IsActive}
use podcast_backend.Social.Moves.Erasing.{Erasure-ind}
use podcast_backend.Social.Moves.Tidy.{
  Tidy, Erasing-Tidy, upsert-Tidy, delete-Tidy, notify-Tidy, drop-Tidy, set-Tidy, create-Tidy,
  new_id,
}
use podcast_backend.Social.Moves.Erases.{seen-group, erase_groups-Erasure}
use podcast_backend.Social.Moves.Seat.{upsert-Seat, delete-Seat}
use podcast_backend.Social.Moves.Owned.{Owned, Seat-Owned, same-Owned, Crown-Owned, drop-Owned}
use podcast_backend.Social.Moves.Crowned.{some-none, create-Crown, Erasing-Owned}

pub record Sound (t : GroupTables) : Type 0 where
  pub tidy : Tidy t
  pub owned : Owned (λ v. ⊥) t

-- An upsert gives a role only where it asks for it.
pub role_after-other :
    (n role : ℕ) (o : Option ℕ) → role ≢ n → some (role_after role o) ≡ some n → o ≡ some n
role_after-other n role none other e = absurd (other (some-inj e))
role_after-other n role (some r) other e =
    let e' : role_after role (some r) ≡ n = some-inj e in ap some (ground arith)

widen : (except : ℕ → Type 0) (t : GroupTables) → Owned (λ v. ⊥) t → Owned except t
widen except t o = record {
  owned = λ g v e. elim (o.owned g v e) [ inl never ↦ absurd never | inr own ↦ inr own ];
  owns = o.owns;
  exists = o.exists;
}

role_of-erase : (now : ℤ) (u g : ℕ) (t : GroupTables) → role_of g u (erase_groups now u t) ≡ none
unfolding erase_groups
role_of-erase now u g t =
    role_of-clear g u _ u ∙ role_of-forget g u _ u ∙ rw ((==_iff u u).1 refl) refl

module _ (now : ℤ) (u : ℕ) (t : GroupTables) (o : Sound t) where
  -- A write to a row of a group that exists, to a role below the owner's.
  upsert-Sound :
      (g x role : ℕ) (by : Option ℕ)
      → role ≢ 2
      → owner_of g t ≢ none
      → role_of g x t ≢ some 2
      → Sound (upsert_group_member now g x role by t)
  upsert-Sound g x role by low there free = record {
    tidy = upsert-Tidy t o.tidy now g x role by;
    owned =
        Seat-Owned _ t _ o.owned g x _ (upsert-Seat g x t now role by)
          ((λ e. role_after-other 2 role (role_of g x t) low e), (λ e. absurd (free e)))
          (λ e. absurd (there e));
  }

  delete-Sound : (g x : ℕ) → role_of g x t ≢ some 2 → Sound (delete_group_member g x t)
  delete-Sound g x free = record {
    tidy = delete-Tidy t o.tidy g x;
    owned =
        Seat-Owned _ t _ o.owned g x _ (delete-Seat g x t)
          ((λ e. absurd (some-none e refl)), (λ e. absurd (free e))) (λ e. refl);
  }

  erase-Sound : Sound (erase_groups now u t)
  erase-Sound =
      let steps = erase_groups-Erasure now u t o.tidy in
      let after =
        Erasure-ind (Owned (λ v. v ≡ u)) (Erasing-Owned u) steps (widen (λ v. v ≡ u) t o.owned) in
      record {
        tidy = Erasure-ind Tidy Erasing-Tidy steps o.tidy;
        owned = record {
          owned = λ g v e. elim (after.owned g v e) [
            | inl same ↦ absurd (
                some-none e
                  (ap (λ k. role_of g k (erase_groups now u t)) same ∙ role_of-erase now u g t))
            | inr own ↦ inr own
          ];
          owns = after.owns;
          exists = after.exists;
        };
      }

  has-group : (g x r : ℕ) → role_of g x t ≡ some r → owner_of g t ≢ none
  has-group g x r e n = some-none e (o.owned.exists g x n)

  active-group : (g : ℕ) → IsActive (role_of g u t) → owner_of g t ≢ none
  active-group g (inl member) = has-group g u 1 member
  active-group g (inr owner) = has-group g u 2 owner

  not-owner : (g x : ℕ) → role_of g u t ≡ some 2 → x ≢ u → role_of g x t ≢ some 2
  not-owner g x own other e = elim (o.owned.owned g x e) [
    | inl never ↦ never
    | inr theirs ↦ elim (o.owned.owned g u own) [
      | inl never ↦ never
      | inr mine ↦ other (some-inj (sym theirs ∙ mine))
    ]
  ]

pub Move-Sound : (now : ℤ) (u : ℕ) (t t' : GroupTables) → Move now u t t' → Sound t → Sound t'
Move-Sound now u t _ (Move.create title description v p q allowed) o = record {
  tidy =
      upsert-Tidy _ (create-Tidy t o.tidy now u title description v p q allowed) now t.next_id u 2
        none;
  owned =
      Crown-Owned _ t _ o.owned t.next_id u
        (create-Crown now u title description v p q t o.tidy o.owned)
        (λ w e. absurd (some-none e (o.owned.exists t.next_id w (new_id t o.tidy))));
}
Move-Sound now u t _ (Move.update g title description v own allowed kept) o = record {
  tidy = set-Tidy t o.tidy now g title description v allowed;
  owned =
      same-Owned _ t _ o.owned (λ h w. role_of-set h t now title description v w g)
        (λ h. owner_of-set h t now title description v g);
}
Move-Sound now u t _ (Move.delete g own) o = record {
  tidy = drop-Tidy t o.tidy g;
  owned = drop-Owned _ t o.owned g;
}
Move-Sound now u t _ (Move.join g public free out) o =
    upsert-Sound now u t o g u 1 none (λ e. cc) (seen-group g 2 t public) out
Move-Sound now u t _ (Move.leave g free out) o = delete-Sound now u t o g u out
Move-Sound now u t _ (Move.invite g w active seat absent) o =
    upsert-Sound now u t o g w 3 (some u) (λ e. cc) (active-group now u t o g active) (λ e. cc)
Move-Sound now u t _ (Move.accept g invited seat) o =
    upsert-Sound now u t o g u 1 none (λ e. cc) (has-group now u t o g u 3 invited)
      (λ e. ground arith)
Move-Sound now u t _ (Move.kick g w own other) o =
    delete-Sound now u t o g w (not-owner now u t o g w own other)
Move-Sound now u t _ (Move.ban g w own other) o =
    upsert-Sound now u t o g w 4 none (λ e. cc) (has-group now u t o g u 2 own)
      (not-owner now u t o g w own other)
Move-Sound now u t _ (Move.alert g on) o = record {
  tidy = notify-Tidy t o.tidy g u on;
  owned =
      same-Owned _ t _ o.owned (λ h w. role_of-notify g u h w t on)
        (λ h. owner_of-notify h g u t on);
}
Move-Sound now u t _ Move.erase o = erase-Sound now u t o
