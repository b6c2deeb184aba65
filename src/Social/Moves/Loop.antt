-- ===== src/Social/Moves/Loop.antt =====
-- The loops of an erasure over groups of the user.
use podcast_backend.Prelude.{ℕ, some, List, [], ◌∷◌, ◌≡◌, ◌≢◌, refl, sym, subst, ◌∙◌, inl, inr, In}
use podcast_backend.Social.Rows.{group_key}
use podcast_backend.Social.Handler.{GroupTables}
use podcast_backend.Social.Erase.{for_each}
use podcast_backend.Social.Roles.{owner_of, visibility_of}
use podcast_backend.Social.Moves.Erasing.{Erasure, append, Erasure-ind}
use podcast_backend.Social.Moves.Tidy.{Tidy, Erasing-Tidy}

-- The body of a loop over groups of u that are visible as v.
pub record Body (u v : ℕ) (act : ℕ → GroupTables → GroupTables) : Type 0 where
  pub steps :
      (id : ℕ) (t : GroupTables)
      → Tidy t
      → owner_of id t ≡ some u
      → visibility_of id t ≡ some v
      → Erasure u t (act id t)
  pub owner_else : (id h : ℕ) (t : GroupTables) → h ≢ id → owner_of h (act id t) ≡ owner_of h t
  pub visibility_else :
      (id h : ℕ) (t : GroupTables) → h ≢ id → visibility_of h (act id t) ≡ visibility_of h t
  pub gone : (id : ℕ) (t : GroupTables) → Tidy t → owner_of id (act id t) ≢ some u

-- The ids of the loop: u's groups that are visible as v, each once.
pub record Todo (u v : ℕ) (ids : List ℕ) (t : GroupTables) : Type 0 where
  pub mine : (id : ℕ) → In id ids → (owner_of id t ≡ some u) × (visibility_of id t ≡ some v)
  pub all : (id : ℕ) → owner_of id t ≡ some u → visibility_of id t ≡ some v → In id ids

abbrev pub Distinct : List ℕ → Type 0
Distinct [] = Unit
Distinct (x ∷ xs) = (In x xs → ⊥) × Distinct xs

-- What u still owns after the loop, it owned before, and it is not visible as v.
pub record Left (u v : ℕ) (t t' : GroupTables) : Type 0 where
  pub steps : Erasure u t t'
  pub owned : (h : ℕ) → owner_of h t' ≡ some u → owner_of h t ≡ some u
  pub visibility : (h : ℕ) → owner_of h t' ≡ some u → visibility_of h t' ≡ visibility_of h t
  pub other : (h : ℕ) → owner_of h t' ≡ some u → visibility_of h t' ≢ some v

module _ (u v : ℕ) (act : ℕ → GroupTables → GroupTables) (body : Body u v act) where
  pub loop :
      (ids : List ℕ) (t : GroupTables)
      → Tidy t
      → Distinct ids
      → Todo u v ids t
      → Left u v t (for_each act ids t)
  loop [] t d u1 todo = record {
    steps = Erasure.done;
    owned = λ h e. e;
    visibility = λ h e. refl;
    other = λ h e w. todo.all h e w;
  }
  loop (id ∷ ids) t d (new, rest) todo =
      let (own, seen) = todo.mine id (inl refl) in
      let here : Erasure u t (act id t) = body.steps id t d own seen in
      let d' : Tidy (act id t) = Erasure-ind Tidy Erasing-Tidy here d in
      let gone = body.gone id t d in
      let apart : (h : ℕ) → owner_of h (act id t) ≡ some u → h ≢ id =
        λ h e q. gone (subst (λ k. owner_of k (act id t) ≡ some u) q e) in
      let done = loop ids (act id t) d' rest (record {
        mine = λ h i.
            let out : h ≢ id = λ q. new (subst (λ k. In k ids) q i) in
            let known = todo.mine h (inr i) in
            (body.owner_else id h t out ∙ known.0, body.visibility_else id h t out ∙ known.1);
        all = λ h e w.
            let out = apart h e in
            elim (todo.all h (sym (body.owner_else id h t out) ∙ e)
              (sym (body.visibility_else id h t out) ∙ w)) [ inl q ↦ absurd (out q) | inr i ↦ i ];
      }) in
      record {
        steps = append here done.steps;
        owned = λ h e. let e' = done.owned h e in sym (body.owner_else id h t (apart h e')) ∙ e';
        visibility =
            λ h e. done.visibility h e ∙ body.visibility_else id h t (apart h (done.owned h e));
        other = done.other;
      }
