-- ===== src/Lib.antt =====
-- podcast-backend: the sync engine and the social endpoints.
--
-- The program is the server of a podcast player. Its core is the sync engine (syncsvc/): a client
-- sends the records that changed on the device, the server merges them into the user's rows and
-- answers with every row that changed since the client's token. Beside it stand the social
-- endpoints (handlers/), where users follow and block each other and meet in groups. Both rest on
-- the database (db/, generated from db/queries.sql), the errors (errs/) and the wire messages
-- (protos/).
--
-- Parts and files:
--   Prelude           lists, integers, sorting and Boolean tests that the parts share.
--   Errs              errs/errs.go: the error chain (E, OpStack, KindIs).
--   Errs/Http         errs/httperrors.go: HTTPErrorResponse.
--   Errs/Chain        what of an error reaches the client; the stack of operations.
--   Wire/*            protos/api/api.pb.go: the messages, an absent wrapper as none.
--   Db/Rows, Db/Table db/models.go: the rows; a table as a list of rows under a primary key.
--   Db/Tx             db/store.go: a query as a function of the session to an error or a value
--                     and the next session; InTx commits or restores the tables.
--   Db/Users, Db/Library, Db/Milestones, Db/Queue, Db/Lists
--                     db/queries.sql.go: the statements that the engine runs.
--   Db/Queue/Latest, Db/Queue/Cap
--                     the history's upsert, read back, and its trim.
--   Db/Wrote          what a batch of upserts under one token may do to the tables.
--   Sync/Token        syncsvc/token.go: NextToken.
--   Sync/Convert      syncsvc/convert.go: rows to messages.
--   Sync/Settings     syncsvc/settings.go: the settings, merged key by key.
--   Sync/Episode, Sync/Podcast, Sync/Bookmark, Sync/Simple, Sync/Milestones, Sync/Collect
--                     syncsvc/engine.go: one file for each apply function, the milestones, and the
--                     read of the changed rows.
--   Sync/Update       syncsvc/engine.go: ApplyUpdate.
--   Sync/Realtime     syncsvc/updates.go: UpdateSettings, UpdateEpisode, UpdateEpisodeStar.
--   Sync/UpNext       syncsvc/upnext.go: SyncUpNext.
--   Sync/History      syncsvc/history.go: SyncHistory.
--   Sync/Library      syncsvc/library.go: PodcastEpisodes, BookmarkList, StarredList.
--   Sync/Invariant, Sync/Served
--                     the invariant of the tokens, and what a request of any kind does to it.
--   Db/Keys           tables under a primary key of any type: reads, writes, uniqueness, counts.
--   Moderation        moderation/textfilter.go: CheckDisplayName, CheckBio, CheckText; and
--                     truncateRunes of handlers/inbox.go. Moderation/Accepts: what they let
--                     through.
--   Social/Rows, Social/Messages, Social/Queries, Social/GroupQueries
--                     db/models.go, protos/api/api.pb.go and db/queries.sql.go for these handlers.
--   Social/Handler    a handler as a function of the store to an answer and the next store.
--   Social/Guards     currentDbUser, requireJoined, resolveFollowTarget, normalizeHandle.
--   Social/Groups, Social/Members
--                     handlers/groups.go: the endpoints that change a group, and who is in it.
--   Social/Graph      handlers/graph.go and setRelationship of handlers/social.go: follows, blocks
--                     and mutes.
--   Social/Erase      handlers/social.go: socialErase, on the tables that these handlers read.
--   Social/Served     the routes of main.go for them, and sequences of requests.
--   Social/Roles      groups by their users' roles, owner and visibility.
--   Social/Moves, Social/Links
--                     the contracts of the group and of the follow endpoints, as step relations,
--                     that the handlers refine; and what the moves keep.
--   Social/Histories, Social/Apart, Social/Approval
--                     what holds after requests in any order.
--   Folders           handlers/folders.go: repairFolderAssignments, the repair of the folders that
--                     the provider suggests. Folders/Tables and Folders/Loops: what its loops keep;
--                     Folders/Repaired: what it returns.
--   Folders/Suggest   PostSuggestFolders; Folders/Suggest/WellFormed: the requests that it takes;
--                     Folders/Suggest/Ends, Folders/Suggest/Once: how it may end, and that it does.
--                     Folders/Language: supportedFolderLanguage and localizedOther.
--   Tests             concrete runs.
--
-- Correspondence: a handler of the engine is a function of the user, the request and the database
-- to its result and the next database. A function of Go with an error result returns Result; a
-- chain of calls inside a transaction is a do block over Db/Tx, whose binds return at the first
-- error as `if err != nil { return err }` does; an error carries the session with what was written
-- before it, and InTx commits or rolls back. `errors.Is(err, pgx.ErrNoRows)` is or_no_rows. The
-- row lock of GetUserForUpdate serialises the requests of one user, so a request sees no other
-- between its statements.
--
-- A social handler is a do block over Social/Handler. A check that writes an error and returns is
-- refuse_if, a query for one row with its answer for pgx.ErrNoRows is found, and a statement that
-- writes is change or run. The body is none where it does not decode. These handlers take no lock:
-- Social/Served runs them one after the other, so an interleaving of two handlers' statements is
-- outside the model; the cap of a group, which a handler reads before it writes, holds for requests
-- that do not overlap.
--
-- Parameters (Sync/Env): Postgres's test of a uuid, the JSON codecs of the messages, the protobuf
-- descriptors and the canonical form of a feed URL. The clock is a function from the number of
-- earlier readings in the request to milliseconds, with no assumption that it moves forward;
-- db_now is the database's own now(). Social/Guards.Context and Moderation.Filter: the user of the
-- token, the database's now(), the case table of strings.ToLower and the blocklist.
-- Folders takes the case tables as well, and Folders/Suggest.Surroundings the verdict of the rate
-- limiter, the installation id, the provider's answer, the query's rows, Redis, the digest and the codec.
-- A map of Go that a loop walks over is a list, whose order is any: the theorems hold for each.
--
-- Bounds: int64 stamps are integers, NextToken's increment wraps around at 64 bits and int32
-- conversions keep the low 32 bits; the theorems that need a token to grow assume that it is not
-- at the largest int64. Doubles are their bits. Every loop is a recursion on a list, so there is no
-- fuel.
--
-- Not modelled: the other handlers, the list pages and posts of the groups, the profile pages, the
-- crawler, the background tasks and the other services, the other list endpoints of
-- syncsvc/library.go, the Gemini client, logging, and failures of the connection to the database.
-- An erasure also writes reviews, comments, lists, posts, handles and avatars, which no modelled
-- handler reads. Postgres refuses the character NUL in a text: InsertUpNextItem models that, the
-- other statements take their texts to be free of it. Two spellings of one uuid are two texts
-- here.
pub mod Prelude
pub mod Errs
pub mod Wire
pub mod Db
pub mod Sync
pub mod Moderation
pub mod Social
pub mod Folders
pub mod Tests
