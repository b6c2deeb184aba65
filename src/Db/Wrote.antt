-- ===== src/Db/Wrote.antt =====
-- What a batch of upserts under one token may do to the tables of one user's library.
pub mod Upserts
pub mod Rules
use podcast_backend.Prelude.{ℕ, ℤ, List, In, ◌≡◌, refl, sym, ◌∙◌, subst, ◌⊎◌, inl, inr, Bool-cases}
use podcast_backend.Db.Table.{Keyed, at, put, Unique}
use podcast_backend.Db.Table.Laws.{at-eq, In-put, put-In, put-In_ne, put-Unique}
use podcast_backend.Db.Rows.{
  UserPodcast, UserEpisode, Folder, Playlist, Bookmark, podcast_key, episode_key, folder_key,
  playlist_key, bookmark_key,
}
use podcast_backend.Errs.{ok}
use podcast_backend.Db.Tx.{Db, Session, Tx}

module _ {R : Type 0} ⦃k : Keyed R⦄ where
  -- A row of `t'` under the key of `x` that carries the token.
  abbrev pub Replaced : (R → ℤ) → ℕ → ℤ → List R → R → Type 0
  Replaced modified user token t' x =
      (y : R) × In y t'
      × (k.user y ≡ user)
      × (k.user x ≡ k.user y)
      × (k.name x ≡ k.name y)
      × (modified y ≡ token)

  -- Each row of `t'` is one of `t`, or the user's under the token; each row of `t` is still there,
  -- or replaced by one under the token; the primary key is kept.
  pub record TableWrote (modified : R → ℤ) (user : ℕ) (token : ℤ) (t t' : List R) : Type 0 where
    pub from : (x : R) → In x t' → In x t ⊎ ((k.user x ≡ user) × (modified x ≡ token))
    pub kept : (x : R) → In x t → In x t' ⊎ Replaced modified user token t' x
    pub unique : Unique t → Unique t'

module _ {R : Type 0} ⦃k : Keyed R⦄ (modified : R → ℤ) (user : ℕ) (token : ℤ) where
  pub TableWrote-refl : (t : List R) → TableWrote modified user token t t
  TableWrote-refl t = record { from = λ x h. inl h; kept = λ x h. inl h; unique = λ h. h }

  pub TableWrote-trans :
      (t u v : List R)
      → TableWrote modified user token t u
      → TableWrote modified user token u v
      → TableWrote modified user token t v
  TableWrote-trans t u v a b = record {
    from = λ x h. elim (b.from x h) [ inl i ↦ a.from x i | inr w ↦ inr w ];
    kept = λ x h. elim (a.kept x h) [
      | inl i ↦ b.kept x i
      | inr (y, i, eu, ku, kn, m) ↦ elim (b.kept y i) [
        | inl j ↦ inr (y, j, eu, ku, kn, m)
        | inr (z, j, fu, lu, ln, n) ↦ inr (z, j, fu, ku ∙ lu, kn ∙ ln, n)
      ]
    ];
    unique = λ h. b.unique (a.unique h);
  }

  pub TableWrote-put :
      (r : R) (t : List R)
      → k.user r ≡ user
      → modified r ≡ token
      → TableWrote modified user token t (put r t)
  TableWrote-put r t eu em = record {
    from = λ x h. elim (In-put r x t h) [
      | inl e ↦
          inr (subst (λ z. k.user z ≡ user) (sym e) eu, subst (λ z. modified z ≡ token) (sym e) em)
      | inr i ↦ inl i
    ];
    kept = λ x h. elim (Bool-cases (at (k.user r) (k.name r) x)) [
      | inl e ↦
          let (ku, kn) = at-eq (k.user r) (k.name r) x e in inr (r, put-In r t, eu, ku, kn, em)
      | inr e ↦ inl (put-In_ne r x t h e)
    ];
    unique = put-Unique r t;
  }

pub record Wrote (user : ℕ) (token : ℤ) (d d' : Db) : Type 0 where
  pub podcasts : TableWrote (λ (r : UserPodcast). r.modified_at) user token d.podcasts d'.podcasts
  pub episodes : TableWrote (λ (r : UserEpisode). r.modified_at) user token d.episodes d'.episodes
  pub folders : TableWrote (λ (r : Folder). r.modified_at) user token d.folders d'.folders
  pub playlists : TableWrote (λ (r : Playlist). r.modified_at) user token d.playlists d'.playlists
  pub bookmarks : TableWrote (λ (r : Bookmark). r.modified_at) user token d.bookmarks d'.bookmarks
  pub users : d'.users ≡ d.users
  pub catalog : d'.catalog ≡ d.catalog
  pub up_next : d'.up_next ≡ d.up_next
  pub history : d'.history ≡ d.history
  pub settings : d'.settings ≡ d.settings

module _ (user : ℕ) (token : ℤ) where
  pub Wrote-refl : (d : Db) → Wrote user token d d
  Wrote-refl d = record {
    podcasts = TableWrote-refl _ user token d.podcasts;
    episodes = TableWrote-refl _ user token d.episodes;
    folders = TableWrote-refl _ user token d.folders;
    playlists = TableWrote-refl _ user token d.playlists;
    bookmarks = TableWrote-refl _ user token d.bookmarks;
    users = refl;
    catalog = refl;
    up_next = refl;
    history = refl;
    settings = refl;
  }

  pub Wrote-trans :
      (d e f : Db) → Wrote user token d e → Wrote user token e f → Wrote user token d f
  Wrote-trans d e f a b = record {
    podcasts = TableWrote-trans _ user token _ _ _ a.podcasts b.podcasts;
    episodes = TableWrote-trans _ user token _ _ _ a.episodes b.episodes;
    folders = TableWrote-trans _ user token _ _ _ a.folders b.folders;
    playlists = TableWrote-trans _ user token _ _ _ a.playlists b.playlists;
    bookmarks = TableWrote-trans _ user token _ _ _ a.bookmarks b.bookmarks;
    users = b.users ∙ a.users;
    catalog = b.catalog ∙ a.catalog;
    up_next = b.up_next ∙ a.up_next;
    history = b.history ∙ a.history;
    settings = b.settings ∙ a.settings;
  }

-- A query that returns has written so.
abbrev pub Writes : {A : Type 0} → ℕ → ℤ → Tx A → Type 0
Writes {A} user token m =
    (s : Session) (a : A) (s' : Session) → m s ≡ ok (a, s') → Wrote user token s.db s'.db
