-- ===== src/Social/Moves/Confined.antt =====
-- A private group stays private and within its cap.
use podcast_backend.Prelude.{
  ℕ, ℤ, ◌+◌, ◌≤◌, ◌<◌, Bool, true, false, ◌&&◌, Option, none, some, String, ◌==◌, ◌≡◌, ◌≢◌, ◌⊎◌,
  refl, sym, ap, subst, ◌∙◌, arith, inl, inr, some-inj, if◌then◌else◌, Option-cases,
}
use podcast_backend.Db.Keys.Tally.{one}
use podcast_backend.Social.Handler.{GroupTables}
use podcast_backend.Social.GroupQueries.{
  create_social_group, set_group, drop_group, upsert_group_member, delete_group_member,
  set_group_member_notify, is_active_role,
}
use podcast_backend.Social.Erase.{
  promote_group_member_to_owner, transfer_group_owner, delete_group_memberships_for_user,
  clear_group_invite_attribution_for_user,
}
use podcast_backend.Social.Roles.{
  role_of, owner_of, visibility_of, each_role, visibility_of-drop, visibility_of-upsert,
  visibility_of-notify,
}
use podcast_backend.Social.Roles.Owner.{visibility_of-set, visibility_of-create}
use podcast_backend.Social.Roles.Erased.{
  role_of-transfer, visibility_of-promote, visibility_of-transfer, visibility_of-forget,
  visibility_of-clear,
}
use podcast_backend.Social.Moves.{Move, IsVisibility}
use podcast_backend.Social.Moves.Erasing.{Erasing, Erasure-ind}
use podcast_backend.Social.Moves.Tidy.{Tidy, Erasing-Tidy, create-Tidy, transfer-Tidy}
use podcast_backend.Social.Moves.Erases.{erase_groups-Erasure, owned-seen}
use podcast_backend.Social.Moves.Sound.{Sound}
use podcast_backend.Social.Moves.Crowned.{some-none}
use podcast_backend.Social.Moves.Seat.{delete-Seat}
use podcast_backend.Social.Moves.Tally.{
  active, active-upsert, active-delete, active-drop, active-forget, active-clear, active-notify,
  active-promote,
}

-- The group is or was there, it is not public, and its members are at most the cap.
pub record Confined (g : ℕ) (t : GroupTables) : Type 0 where
  pub known : g < t.next_id
  pub hidden : visibility_of g t ≢ some 2
  pub seats : active g t ≤ 100

bound :
    {n m : ℕ} (here raised : Bool)
    → n ≤ m + one (here && raised)
    → m ≤ 100
    → (raised ≡ false) ⊎ (here ≡ true → m < 100)
    → n ≤ 100
bound true true le cap (inl low) = absurd (cc)
bound true true le cap (inr free) = omega (arith, free refl)
bound true false le cap any = omega arith
bound false raised le cap any = omega arith

set-hidden :
    (v : ℕ) (o : Option ℕ) (here : Bool)
    → o ≢ some 2
    → ((x : ℕ) → o ≡ some x → IsVisibility x)
    → (here ≡ true → o ≡ some 1 → v ≢ 2)
    → (if here then each_role (λ r. v) o else o) ≢ some 2
set-hidden v o false hidden known kept e = hidden e
set-hidden v none true hidden known kept e = cc
set-hidden v (some x) true hidden known kept e = elim (known x refl) [
  | inl one' ↦ kept refl (ap some one') (some-inj e)
  | inr two ↦ hidden (ap some two)
]

module _ (g : ℕ) (t : GroupTables) (d : Tidy t) (c : Confined g t) where
  -- An upsert that makes no member of g, or one where there is a seat.
  upsert-Confined :
      (now : ℤ) (h x role : ℕ) (by : Option ℕ)
      → is_active_role role ≡ false ⊎ (h ≡ g → active g t < 100)
      → Confined g (upsert_group_member now h x role by t)
  unfolding upsert_group_member
  upsert-Confined now h x role by seat = record {
    known = c.known;
    hidden = λ e. c.hidden (sym (visibility_of-upsert g h x t now role by) ∙ e);
    seats =
        bound (h == g) (is_active_role role) (active-upsert g t now h x role by d) c.seats
          (elim seat [ inl low ↦ inl low | inr free ↦ inr (λ same. free (ground arith)) ]);
  }

  delete-Confined : (h x : ℕ) → Confined g (delete_group_member h x t)
  unfolding delete_group_member
  delete-Confined h x = record {
    known = c.known;
    hidden = λ e. c.hidden (sym ((delete-Seat h x t).visibilities g) ∙ e);
    seats = omega (arith, active-delete g t h x, c.seats);
  }

  drop-Confined : (h : ℕ) → Confined g (drop_group h t)
  unfolding drop_group
  drop-Confined h = record {
    known = c.known;
    hidden = λ e. c.hidden (ground (arith, visibility_of-drop h g t));
    seats = omega (arith, active-drop g t h, c.seats);
  }

  set-Confined :
      (now : ℤ) (h : ℕ) (title description : String) (v : ℕ)
      → (visibility_of h t ≡ some 1 → v ≢ 2)
      → Confined g (set_group now h title description v t)
  unfolding set_group
  set-Confined now h title description v kept = record {
    known = c.known;
    hidden = λ e.
        set-hidden v (visibility_of g t) (g == h) c.hidden (d.visible g)
          (λ same private. kept (ap (λ k. visibility_of k t) (ground arith) ∙ private))
          (sym (visibility_of-set g t now title description v h) ∙ e);
    seats = c.seats;
  }

  create-Confined :
      (now : ℤ) (u : ℕ) (title description : String) (v : ℕ) (podcast_uuid podcast_title : String)
      → Confined g (create_social_group now u title description v podcast_uuid podcast_title t).1
  unfolding create_social_group
  create-Confined now u title description v p q = record {
    known = omega (arith, c.known);
    hidden = λ e.
        let k = c.known in
        c.hidden (ground (arith, visibility_of-create g t now u title description v p q));
    seats = c.seats;
  }

  pass-Confined :
      (now : ℤ) (h v : ℕ)
      → role_of h v t ≡ some 1
      → Confined g (promote_group_member_to_owner h v (transfer_group_owner now h v t))
  unfolding promote_group_member_to_owner transfer_group_owner
  pass-Confined now h v member = record {
    known = c.known;
    hidden = λ e.
        c.hidden (sym (visibility_of-promote g h v _ ∙ visibility_of-transfer g t now h v) ∙ e);
    seats = omega (
      arith,
      active-promote g (transfer_group_owner now h v t) h v (transfer-Tidy t d now h v)
          (role_of-transfer h v t now h v ∙ member),
      c.seats,
    );
  }

  forget-Confined : (u : ℕ) → Confined g (delete_group_memberships_for_user u t)
  unfolding delete_group_memberships_for_user
  forget-Confined u = record {
    known = c.known;
    hidden = λ e. c.hidden (sym (visibility_of-forget g u t) ∙ e);
    seats = omega (arith, active-forget g t u, c.seats);
  }

  clear-Confined : (u : ℕ) → Confined g (clear_group_invite_attribution_for_user u t)
  unfolding clear_group_invite_attribution_for_user
  clear-Confined u = record {
    known = c.known;
    hidden = λ e. c.hidden (sym (visibility_of-clear g u t) ∙ e);
    seats = omega (arith, active-clear g t u, c.seats);
  }

  notify-Confined : (h x : ℕ) (on : Bool) → Confined g (set_group_member_notify h x on t).1
  unfolding set_group_member_notify
  notify-Confined h x on = record {
    known = c.known;
    hidden = λ e. c.hidden (sym (visibility_of-notify g h x t on) ∙ e);
    seats = omega (arith, active-notify g t h x on, c.seats);
  }

  -- A group of which there is a member or an invitation exists, so it is private.
  private : (h u r : ℕ) → Sound t → role_of h u t ≡ some r → h ≡ g → visibility_of h t ≡ some 1
  private h u r o role same = elim (Option-cases (owner_of h t)) [
    | inl gone ↦ absurd (some-none role (o.owned.exists h u gone))
    | inr (w, own) ↦
        let (v, seen) = owned-seen h w t own in
        elim (d.visible h v seen) [
          | inl one' ↦ seen ∙ ap some one'
          | inr two ↦
              absurd (c.hidden (ap (λ k. visibility_of k t) (sym same) ∙ seen ∙ ap some two))
        ]
  ]

Erasing-Confined :
    (u g : ℕ) (t t' : GroupTables)
    → Erasing u t t'
    → Tidy t × Confined g t
    → Tidy t' × Confined g t'
Erasing-Confined u g t _ (Erasing.pass now h v own public member other) (d, c) = (
  Erasing-Tidy t _ (Erasing.pass now h v own public member other) d,
  pass-Confined g t d c now h v member,
)
Erasing-Confined u g t _ (Erasing.drop h own alone) (d, c) =
    (Erasing-Tidy t _ (Erasing.drop h own alone) d, drop-Confined g t d c h)
Erasing-Confined u g t _ (Erasing.forget free) (d, c) =
    (Erasing-Tidy t _ (Erasing.forget free) d, forget-Confined g t d c u)
Erasing-Confined u g t _ Erasing.clear (d, c) =
    (Erasing-Tidy {u = u} t _ Erasing.clear d, clear-Confined g t d c u)

pub Move-Confined :
    (now : ℤ) (u g : ℕ) (t t' : GroupTables)
    → Move now u t t'
    → Sound t
    → Confined g t
    → Confined g t'
Move-Confined now u g t _ (Move.create title description v p q allowed) o c =
    upsert-Confined g _ (create-Tidy t o.tidy now u title description v p q allowed)
      (create-Confined g t o.tidy c now u title description v p q) now t.next_id u 2 none
      (inr (λ e. let k = c.known in absurd (omega arith)))
Move-Confined now u g t _ (Move.update h title description v own allowed kept) o c =
    set-Confined g t o.tidy c now h title description v kept
Move-Confined now u g t _ (Move.delete h own) o c = drop-Confined g t o.tidy c h
Move-Confined now u g t _ (Move.join h public clear out) o c =
    upsert-Confined g t o.tidy c now h u 1 none
      (inr (λ e. absurd (c.hidden (ap (λ k. visibility_of k t) (sym e) ∙ public))))
Move-Confined now u g t _ (Move.leave h clear out) o c = delete-Confined g t o.tidy c h u
Move-Confined now u g t _ (Move.invite h x active seat absent) o c =
    upsert-Confined g t o.tidy c now h x 3 (some u) (inl refl)
Move-Confined now u g t _ (Move.accept h invited seat) o c =
    upsert-Confined g t o.tidy c now h u 1 none
      (inr (λ e. subst (λ k. active k t < 100) e (seat (private g t o.tidy c h u 3 o invited e))))
Move-Confined now u g t _ (Move.kick h x own other) o c = delete-Confined g t o.tidy c h x
Move-Confined now u g t _ (Move.ban h x own other) o c =
    upsert-Confined g t o.tidy c now h x 4 none (inl refl)
Move-Confined now u g t _ (Move.alert h on) o c = notify-Confined g t o.tidy c h u on
Move-Confined now u g t _ Move.erase o c =
    (Erasure-ind (λ a. Tidy a × Confined g a) (Erasing-Confined u g)
      (erase_groups-Erasure now u t o.tidy) (o.tidy, c)).1
