-- ===== src/Social/Handler.antt =====
-- What a handler of the social endpoints reads and writes, and how it answers.
pub mod Ends
use podcast_backend.Prelude.{ℕ, String, Bool, true, false, Option, none, some, List}
use podcast_backend.Social.Rows.{
  Account, SocialProfile, SocialFollow, SocialRelationship, SocialGroup, SocialGroupMember,
}
use podcast_backend.Social.Messages.{SocialGroup as GroupMessage, FollowState}

-- social_groups, social_group_members, and the next value of the identity column.
pub record GroupTables : Type 0 where
  pub groups : List SocialGroup
  pub members : List SocialGroupMember
  pub next_id : ℕ

-- A call of h.notifySocial; `group_id` is the data map's entry, where there is one.
pub record Push : Type 0 where
  pub target_user_id : ℕ
  pub push_type : ℕ
  pub actor_handle : String
  pub actor_display_name : String
  pub group_id : Option ℕ

-- The tables, and the pushes sent, the latest first.
pub record Store : Type 0 where
  pub users : List Account
  pub profiles : List SocialProfile
  pub follows : List SocialFollow
  pub relationships : List SocialRelationship
  pub tables : GroupTables
  pub pushes : List Push

-- pcerrors.Write with access_denied is `refused`, w.WriteHeader alone `bare`, and writeProto of a
-- message with status 200 one of the others. (writeError of pgx.ErrNoRows is a bare 404.)
pub data Reply : Type 0 where
  refused : ℕ → String → Reply
  bare : ℕ → Reply
  ack : Reply
  created : GroupMessage → Reply
  follow_state : FollowState → Reply

-- A part of a handler: it answers, which ends the handler, or goes on with a value.
pub data Step (A : Type 0) : Type 0 where
  reply : Reply → Step A
  next : A → Step A

abbrev pub Handler : Type 0 → Type 0
Handler A = Store → Step A × Store

unfoldable pub and_then : {A B : Type 0} → Step A × Store → (A → Handler B) → Step B × Store
and_then (reply r, s) f = (reply r, s)
and_then (next a, s) f = f a s

infixl 5 ◌>>=◌ ◌>>◌
abbrev pub ◌>>=◌ : {A B : Type 0} → Handler A → (A → Handler B) → Handler B
◌>>=◌ m f s = and_then (m s) f

abbrev pub ◌>>◌ : {A B : Type 0} → Handler A → Handler B → Handler B
m >> n = m >>= λ _. n

abbrev pub pure : {A : Type 0} → A → Handler A
pure a s = (next a, s)

-- if b { answer r; return }
unfoldable pub refuse_if : Bool → Reply → Handler Unit
refuse_if true r s = (reply r, s)
refuse_if false r s = (next tt, s)

unfoldable pub or_answer : {A : Type 0} → Option A → Reply → Handler A
or_answer none r s = (reply r, s)
or_answer (some a) r s = (next a, s)

-- A :one query whose caller answers r where no row matches.
abbrev pub found : {A : Type 0} → (Store → Option A) → Reply → Handler A
found q r s = or_answer (q s) r s

abbrev pub ask : {A : Type 0} → (Store → A) → Handler A
ask q s = (next (q s), s)

-- A statement that writes; its value is the number of rows affected, or nothing.
abbrev pub gone_on : {A : Type 0} → A × Store → Step A × Store
gone_on (a, s) = (next a, s)

abbrev pub run : {A : Type 0} → (Store → A × Store) → Handler A
run f s = gone_on (f s)

abbrev pub change : (Store → Store) → Handler Unit
change f s = (next tt, f s)

abbrev pub answer : Reply → Handler Unit
answer r s = (reply r, s)
