-- ===== src/Social/Guards.antt =====
-- What the social handlers check before they act: the body, the caller, the target
-- (handlers/account.go, handlers/graph.go, handlers/social.go, handlers/refresh.go).
use Prim.Native.Char.{code}
use podcast_backend.Prelude.{
  ℕ, suc, ◌-◌, ◌%◌, ℤ, pos, negsuc, String, Bool, ◌&&◌, ◌||◌, Option, none, some, leb, ltb, ◌==◌,
  if◌then◌else◌,
}
use podcast_backend.Moderation.{Filter, trim_space}
use podcast_backend.Social.Rows.{Account, SocialProfile}
use podcast_backend.Social.Handler.{
  Store, Handler, Reply, refused, bare, found, refuse_if, ask, pure, ◌>>=◌, ◌>>◌,
}
use podcast_backend.Social.Queries.{
  get_user_by_uuid, get_social_profile_by_user_id, get_social_profile_by_handle, is_blocked_either,
}

-- What surrounds a request: the text filter, the database's now(), and the user of the token, if
-- there is one (getUser).
pub record Context : Type 0 where
  pub filter : Filter
  pub now : ℤ
  pub user_uuid : Option String

-- uuidPattern
is_hex : ℕ → Bool
is_hex c = (leb 48 c && leb c 57) || ((leb 97 c && leb c 102) || (leb 65 c && leb c 70))

is_dash_place : ℕ → Bool
is_dash_place i = i == 8 || (i == 13 || (i == 18 || i == 23))

uuid_from : ℕ → String → Bool
unfolding is_hex is_dash_place
uuid_from i String.[] = i == 36
uuid_from i (String.◌∷◌ c s) =
    (ltb i 36 && (if is_dash_place i then code c == 45 else is_hex (code c))) && uuid_from (suc i) s

unfoldable pub matches_uuid_pattern : String → Bool
unfolding uuid_from
matches_uuid_pattern s = uuid_from 0 s

-- strings.TrimPrefix(s, "@")
trim_at : String → String
trim_at String.[] = String.[]
trim_at (String.◌∷◌ c s) = if code c == 64 then s else String.◌∷◌ c s

unfoldable pub normalize_handle : Filter → String → String
unfolding trim_at
normalize_handle f raw = f.to_lower (trim_at (trim_space raw))

-- int16(v) keeps the low 16 bits.
signed_16 : ℕ → ℤ
signed_16 n = if ltb n 32768 then pos n else negsuc (65535 - n)

unfoldable pub to_int16 : ℤ → ℤ
unfolding signed_16
to_int16 (pos n) = signed_16 (n % 65536)
to_int16 (negsuc n) = signed_16 (65535 - n % 65536)

abbrev pub invalid_request : Reply
invalid_request = refused 400 "invalid request"

-- bindProto: none is a body that does not decode.
abbrev pub bind_proto : {A : Type 0} → Option A → Handler A
bind_proto body = found (λ s. body) invalid_request

module _ (c : Context) where
  -- currentDbUser
  unfoldable pub caller : Store → Option Account
  caller s = elim c.user_uuid [ none ↦ none | some uuid ↦ get_user_by_uuid uuid s ]

  unfoldable pub current_db_user : Handler Account
  unfolding caller
  current_db_user = found caller (bare 401)

  -- requireJoined
  unfoldable pub require_joined : Handler (Account × SocialProfile)
  unfolding current_db_user
  require_joined = do
    user ← current_db_user
    profile ← found (get_social_profile_by_user_id user.id) (refused 403 "join required")
    pure (user, profile)

  -- resolveFollowTarget
  unfoldable pub resolve_follow_target : ℕ → String → Handler SocialProfile
  unfolding normalize_handle
  resolve_follow_target caller_id raw = do
    target ← found (get_social_profile_by_handle (normalize_handle c.filter raw)) (bare 404)
    refuse_if (target.user_id == caller_id) (refused 400 "cannot target yourself")
    blocked ← ask (λ s. is_blocked_either caller_id target.user_id s.relationships)
    refuse_if blocked (bare 404)
    pure target
