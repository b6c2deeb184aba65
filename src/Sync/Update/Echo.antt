-- ===== src/Sync/Update/Echo.antt =====
-- A client that is up to date gets back what its own batch wrote.
use podcast_backend.Prelude.{ℕ, ℤ, ◌<ℤ◌, String, some, List, In, ◌≡◌, sym, subst, inl, inr, arith}
use podcast_backend.Errs.{ok}
use podcast_backend.Wire.Sync.{Record, SyncUpdateRequest, SyncUpdateResponse}
use podcast_backend.Db.Table.{Keyed}
use podcast_backend.Db.Rows.{User, podcast_key, episode_key, folder_key, playlist_key, bookmark_key}
use podcast_backend.Db.Tx.{Db}
use podcast_backend.Db.Users.{find_user}
use podcast_backend.Db.Wrote.{Wrote, TableWrote}
use podcast_backend.Sync.Env.{Env}
use podcast_backend.Sync.Invariant.{LibraryUpTo, TableUpTo}
use podcast_backend.Sync.Collect.Since.{ChangedSince, AnyToken}
use podcast_backend.Sync.Update.{apply_update}
use podcast_backend.Sync.Update.Theorems.{IsReady, apply_update-Parts, apply_update_complete}

module _ {R : Type 0} ⦃k : Keyed R⦄ (modified : R → ℤ) (user : ℕ) (old token : ℤ) where
  -- A row past the old token was written by the batch.
  written_token :
      (t t' : List R) (x : R)
      → TableWrote modified user token t t'
      → TableUpTo modified user old t
      → In x t'
      → k.user x ≡ user
      → old <ℤ modified x
      → modified x ≡ token
  written_token t t' x w b i eu later = elim (w.from x i) [
    | inl j ↦ let q = b.bound x j eu in absurd (omega arith)
    | inr (_, em) ↦ em
  ]

module _ (env : Env) (user : ℕ) (old token : ℤ) (d batch : Db) (w : Wrote user token d batch)
    (b : LibraryUpTo user old d) (us : List User) where
  Since-Written :
      (r : Record)
      → ChangedSince env user old AnyToken (record batch { users = us }) r
      → ChangedSince env user old (λ t. t ≡ token) (record batch { users = us }) r
  Since-Written _ (ChangedSince.folder row i eu a _) =
      ChangedSince.folder row i eu a
        (written_token _ user old token d.folders batch.folders row w.folders b.folders i eu a)
  Since-Written _ (ChangedSince.podcast row i eu a _) =
      ChangedSince.podcast row i eu a
        (written_token _ user old token d.podcasts batch.podcasts row w.podcasts b.podcasts i eu a)
  Since-Written _ (ChangedSince.episode row i eu a _) =
      ChangedSince.episode row i eu a
        (written_token _ user old token d.episodes batch.episodes row w.episodes b.episodes i eu a)
  Since-Written _ (ChangedSince.playlist row i eu a _) = ChangedSince.playlist row i eu a (
      written_token _ user old token d.playlists batch.playlists row w.playlists b.playlists i eu a)
  Since-Written _ (ChangedSince.bookmark row i eu a _) = ChangedSince.bookmark row i eu a (
      written_token _ user old token d.bookmarks batch.bookmarks row w.bookmarks b.bookmarks i eu a)

-- A client whose token is the user's own gets back only rows that its batch wrote: each record of
-- the response is the conversion of a row of the user that carries the response's token.
pub apply_update_echo :
    (env : Env) (clock : ℕ → ℤ) (db_now : ℤ) (user_id : ℕ) (req : SyncUpdateRequest) (d : Db)
    (resp : SyncUpdateResponse) (feeds : List String) (d' : Db)
    → IsReady env clock db_now user_id req d
    → ((u : User) → find_user user_id d.users ≡ some u → u.sync_last_modified ≡ req.last_modified)
    → apply_update env clock db_now user_id req d ≡ (ok (resp, feeds), d')
    → (r : Record) → In r resp.records
    → ChangedSince env user_id req.last_modified (λ t. t ≡ resp.last_modified) d' r
apply_update_echo env clock db_now user_id req d resp feeds d' ready current h r i =
    let p = apply_update-Parts env clock db_now user_id req d resp feeds d' h in
    let since =
      ((apply_update_complete env clock db_now user_id req d resp feeds d' ready h).1 r).0 i in
    let up =
      subst (λ t. LibraryUpTo user_id t d) (current p.user p.found) (ready.synced p.user p.found) in
    subst (λ z. ChangedSince env user_id req.last_modified (λ t. t ≡ resp.last_modified) z r)
      (sym p.after)
      (Since-Written env user_id req.last_modified resp.last_modified d p.batch p.wrote up _ r
        (subst (λ z. ChangedSince env user_id req.last_modified AnyToken z r) p.after since))
