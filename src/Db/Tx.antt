-- ===== src/Db/Tx.antt =====
-- db/store.go: queries and transactions. A query is a function of the session to a value or an
-- error, with the session as it is then: what an error leaves may hold writes of the queries before
-- it. The tables of the session are the transaction's own until InTx commits them or rolls back.
pub mod Laws
use mathlib.Core.Bool.{true, false}
use Prim.Native.Char.{code}
use podcast_backend.Prelude.{
  ◌==◌, ℕ, suc, ℤ, String, Bool, Option, none, some, List, [], if◌then◌else◌,
}
use podcast_backend.Errs.{
  Error, Attempt, native, Result, ok, err, no_rows, invalid_byte, invalid_uuid, is_no_rows,
}
use podcast_backend.Db.Rows.{
  User, Podcast, UserPodcast, UserEpisode, Folder, Playlist, Bookmark, Device, UpNextItem, History,
  Milestone, UserSettings,
}

pub record Db : Type 0 where
  pub users : List User
  pub catalog : List Podcast
  pub podcasts : List UserPodcast
  pub episodes : List UserEpisode
  pub folders : List Folder
  pub playlists : List Playlist
  pub bookmarks : List Bookmark
  pub devices : List Device
  pub up_next : List UpNextItem
  pub history : List History
  pub milestones : List Milestone
  pub settings : List UserSettings

-- What one request sees while it runs: the tables, how often it has read the clock, and the feed
-- URLs that it has handed to its callback.
pub record Session : Type 0 where
  pub db : Db
  pub ticks : ℕ
  pub unknown_feeds : List String

-- What a query comes to.
abbrev pub Ran : Type 0 → Type 0
Ran A = Attempt (Error × Session) (A × Session)

-- A query, or a chain of them.
abbrev pub Tx : Type 0 → Type 0
Tx A = Session → Ran A

infixl 5 ◌>>=◌ ◌>>◌
abbrev pub ◌>>=◌ : {A B : Type 0} → Tx A → (A → Tx B) → Tx B
◌>>=◌ m f s = elim (m s) [ err e ↦ err e | ok (a, s') ↦ f a s' ]

abbrev pub ◌>>◌ : {A B : Type 0} → Tx A → Tx B → Tx B
m >> n = m >>= λ _. n

abbrev pub pure : {A : Type 0} → A → Tx A
pure a s = ok (a, s)

abbrev pub fail : {A : Type 0} → Error → Tx A
fail e s = err (e, s)

abbrev pub read : {A : Type 0} → (Db → A) → Tx A
read f s = ok (f s.db, s)

abbrev pub write : (Db → Db) → Tx Unit
write f s = ok (tt, record s { db = f s.db })

-- A call whose error is returned as it is.
abbrev pub lift : {A : Type 0} → Result A → Tx A
lift (ok a) s = ok (a, s)
lift (err e) s = err (e, s)

-- A :one query: pgx.ErrNoRows where no row matches.
abbrev pub one : {A : Type 0} → Option A → Tx A
one none s = err (native no_rows, s)
one (some a) s = ok (a, s)

abbrev uuid_checked : Bool → String → Tx Unit
uuid_checked true u s = ok (tt, s)
uuid_checked false u s = err (native (invalid_uuid u), s)

-- Postgres refuses a text that is no uuid where a UUID column is compared or written.
abbrev pub uuid_param : (String → Bool) → String → Tx Unit
uuid_param is_uuid u = uuid_checked (is_uuid u) u

-- A TEXT column does not hold the character NUL, which Postgres refuses in a parameter.
unfoldable pub no_nul : String → Bool
no_nul String.[] = true
no_nul (String.◌∷◌ c s) = if code c == 0 then false else no_nul s

abbrev pub text_checked : Bool → Tx Unit
text_checked true s = ok (tt, s)
text_checked false s = err (native invalid_byte, s)

abbrev tolerate : {A : Type 0} → Bool → Session → Error → Ran (Option A)
tolerate true s e = ok (none, s)
tolerate false s e = err (e, s)

abbrev no_rows_is_none : {A : Type 0} → Ran A → Ran (Option A)
no_rows_is_none (ok (a, s)) = ok (some a, s)
no_rows_is_none (err (e, s)) = tolerate (is_no_rows e) s e

-- The caller's `errors.Is(err, pgx.ErrNoRows)` on a read: none where no row matched.
abbrev pub or_no_rows : {A : Type 0} → Tx A → Tx (Option A)
or_no_rows m s = no_rows_is_none (m s)

-- time.Now().UnixMilli(): the next reading of the clock.
abbrev pub now : (ℕ → ℤ) → Tx ℤ
now clock s = ok (clock s.ticks, record s { ticks = suc s.ticks })

-- Commit and Rollback, on the database and the session of the transaction.
abbrev commit : Db → Session → Db
commit db s = s.db

abbrev roll_back : Db → Session → Db
roll_back db s = db

-- InTx: the result, and the database that the request leaves behind.
unfoldable pub in_tx : {A : Type 0} → Tx A → Db → Result (A × List String) × Db
in_tx body db = elim (body (record { db = db; ticks = 0; unknown_feeds = [] })) [
  | ok (a, s) ↦ (ok (a, s.unknown_feeds), commit db s)
  | err (e, s) ↦ (err e, roll_back db s)
]
