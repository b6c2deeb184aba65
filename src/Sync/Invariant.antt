-- ===== src/Sync/Invariant.antt =====
-- The invariant behind incremental sync: no row of a user's library carries a token past the user's
-- sync_last_modified, and the tables keep their primary keys. So the token that a response returns
-- covers every row that was there.
use podcast_backend.Prelude.{ℕ, ℤ, ◌≤ℤ◌, ◌<ℤ◌, some, List, In, ◌≡◌, sym, subst, inl, inr, arith}
use podcast_backend.Db.Table.{Keyed, Unique}
use podcast_backend.Db.Rows.{
  User, UserPodcast, UserEpisode, Folder, Playlist, Bookmark, podcast_key, episode_key, folder_key,
  playlist_key, bookmark_key,
}
use podcast_backend.Db.Tx.{Db}
use podcast_backend.Db.Users.{find_user}
use podcast_backend.Db.Wrote.{Wrote, TableWrote}

module _ {R : Type 0} ⦃k : Keyed R⦄ where
  -- Every row of the user is at most at the token, and no two rows share a key.
  pub record TableUpTo (modified : R → ℤ) (user : ℕ) (token : ℤ) (t : List R) : Type 0 where
    pub bound : (x : R) → In x t → k.user x ≡ user → modified x ≤ℤ token
    pub unique : Unique t

pub record LibraryUpTo (user : ℕ) (token : ℤ) (db : Db) : Type 0 where
  pub podcasts : TableUpTo (λ (r : UserPodcast). r.modified_at) user token db.podcasts
  pub episodes : TableUpTo (λ (r : UserEpisode). r.modified_at) user token db.episodes
  pub folders : TableUpTo (λ (r : Folder). r.modified_at) user token db.folders
  pub playlists : TableUpTo (λ (r : Playlist). r.modified_at) user token db.playlists
  pub bookmarks : TableUpTo (λ (r : Bookmark). r.modified_at) user token db.bookmarks

-- The invariant, for one user.
abbrev pub IsSynced : ℕ → Db → Type 0
IsSynced user db =
    (u : User) → find_user user db.users ≡ some u → LibraryUpTo user u.sync_last_modified db

module _ {R : Type 0} ⦃k : Keyed R⦄ (modified : R → ℤ) (user : ℕ) (old token : ℤ) where
  TableWrote-UpTo :
      (t t' : List R)
      → old <ℤ token
      → TableWrote modified user token t t'
      → TableUpTo modified user old t
      → TableUpTo modified user token t'
  TableWrote-UpTo t t' h w b = record {
    bound = λ x i e. elim (w.from x i) [
      | inl j ↦ let q = b.bound x j e in omega arith
      | inr (eu, em) ↦ subst (λ m. m ≤ℤ token) (sym em) (omega arith)
    ];
    unique = w.unique b.unique;
  }

-- A batch under a later token keeps the library under that token.
pub Wrote-LibraryUpTo :
    (user : ℕ) (old token : ℤ) (d d' : Db)
    → old <ℤ token
    → Wrote user token d d'
    → LibraryUpTo user old d
    → LibraryUpTo user token d'
Wrote-LibraryUpTo user old token d d' h w b = record {
  podcasts = TableWrote-UpTo _ user old token d.podcasts d'.podcasts h w.podcasts b.podcasts;
  episodes = TableWrote-UpTo _ user old token d.episodes d'.episodes h w.episodes b.episodes;
  folders = TableWrote-UpTo _ user old token d.folders d'.folders h w.folders b.folders;
  playlists = TableWrote-UpTo _ user old token d.playlists d'.playlists h w.playlists b.playlists;
  bookmarks = TableWrote-UpTo _ user old token d.bookmarks d'.bookmarks h w.bookmarks b.bookmarks;
}
