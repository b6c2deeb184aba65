-- ===== src/Sync/Served.antt =====
-- What one request of the sync engine does to the library and to the sync tokens.
pub mod Rules
pub mod Writers
pub mod Stored
pub mod Queues
pub mod Ready
pub mod Requests
use podcast_backend.Prelude.{ℕ, ℤ, some, ◌≡◌, refl, ◌∙◌, ◌⊎◌}
use podcast_backend.Db.Rows.{User}
use podcast_backend.Db.Tx.{Db}
use podcast_backend.Db.Users.{find_user, update_user}
use podcast_backend.Db.Wrote.{Wrote}
use podcast_backend.Sync.Token.{next_token}
use podcast_backend.Sync.Update.Parts.{with_token}

pub record SameLibrary (d d' : Db) : Type 0 where
  pub podcasts : d'.podcasts ≡ d.podcasts
  pub episodes : d'.episodes ≡ d.episodes
  pub folders : d'.folders ≡ d.folders
  pub playlists : d'.playlists ≡ d.playlists
  pub bookmarks : d'.bookmarks ≡ d.bookmarks

-- The library and every user's sync token are as before.
pub record Mild (d d' : Db) : Type 0 where
  pub library : SameLibrary d d'
  pub tokens :
      (id : ℕ) (u' : User)
      → find_user id d'.users ≡ some u'
      → (u : User) × (find_user id d.users ≡ some u)
        × (u.sync_last_modified ≡ u'.sync_last_modified)

-- The user's rows are written under the user's next token, and the user then carries it.
pub record Moved (clock : ℕ → ℤ) (user : ℕ) (d d' : Db) : Type 0 where
  pub old : User
  pub tick : ℕ
  pub batch : Db
  pub found : find_user user d.users ≡ some old
  pub wrote : Wrote user (next_token (clock tick) old.sync_last_modified) d batch
  pub library : SameLibrary batch d'
  pub users :
      d'.users
      ≡ update_user user (with_token (next_token (clock tick) old.sync_last_modified)) d.users

abbrev pub Served : (ℕ → ℤ) → ℕ → Db → Db → Type 0
Served clock user d d' = Mild d d' ⊎ Moved clock user d d'

pub SameLibrary-refl : (d : Db) → SameLibrary d d
SameLibrary-refl d = record {
  podcasts = refl;
  episodes = refl;
  folders = refl;
  playlists = refl;
  bookmarks = refl;
}

pub Mild-refl : (d : Db) → Mild d d
Mild-refl d = record { library = SameLibrary-refl d; tokens = λ id u f. (u, f, refl) }

pub Mild-trans : (d e f : Db) → Mild d e → Mild e f → Mild d f
Mild-trans d e f a b = record {
  library = record {
    podcasts = b.library.podcasts ∙ a.library.podcasts;
    episodes = b.library.episodes ∙ a.library.episodes;
    folders = b.library.folders ∙ a.library.folders;
    playlists = b.library.playlists ∙ a.library.playlists;
    bookmarks = b.library.bookmarks ∙ a.library.bookmarks;
  };
  tokens = λ id u h.
      let (v, g, e1) = b.tokens id u h in let (w, k, e2) = a.tokens id v g in (w, k, e2 ∙ e1);
}
