-- ===== src/Tests/Social.antt =====
-- The social endpoints, on test data: a private group, a guest, and a user who is banned.
use podcast_backend.Prelude.{
  ℕ, pos, true, false, String, some, List, [], ◌∷◌, ◌≡◌, ◌≢◌, ◌⊎◌, refl, sym, ap, ◌∙◌, arith,
  some-inj,
}
use podcast_backend.Social.Rows.{Account}
use podcast_backend.Social.Handler.{Store}
use podcast_backend.Social.Guards.{Context}
use podcast_backend.Social.Served.{
  Request, group_create, group_invite, group_invite_respond, group_kick, group_join, follow, serve,
  serve_all,
}
use podcast_backend.Prelude.{select}
use podcast_backend.Db.Keys.{get, modify}
use podcast_backend.Moderation.{
  check_display_name, check_bio, check_text, trim_space, is_space, rune_count, truncate_runes,
  has_bad_rune, has_line_break, has_blocked, is_control, is_dangerous_format_rune,
}
use podcast_backend.Social.Handler.{and_then, or_answer, refuse_if}
use podcast_backend.Social.Queries.{
  user_by_uuid, profile_by_handle, is_blocked_either, has_social_relationship,
}
use podcast_backend.Social.GroupQueries.{
  create_social_group, upsert_group_member, put_member, with_role, get_social_group, group_row,
  with_owner, role_or_zero, count_group_members,
}
use podcast_backend.Social.Guards.{
  require_joined, current_db_user, caller, to_int16, resolve_follow_target, normalize_handle,
}
use podcast_backend.Social.Groups.{post_group_create, check_texts}
use podcast_backend.Social.Members.{
  post_group_invite_respond, respond, post_group_join, post_group_invite, post_group_kick,
  already_in, notify_invite, kicked,
}
use podcast_backend.Social.Served.{handle}
use podcast_backend.Social.Roles.{role_of, owner_of, visibility_of}
use podcast_backend.Social.Moves.{Moves}
use podcast_backend.Social.Moves.Tally.{active}
use podcast_backend.Social.Moves.Confined.{Confined}
use podcast_backend.Social.Moves.Joining.{Joins}
use podcast_backend.Social.Moves.Fates.{Erased, erase_groups-Erased}
use podcast_backend.Social.Links.{Links}
use podcast_backend.Social.Approval.{Activates, serve-Activates}
use podcast_backend.Social.Graph.{post_follow, notify_follow, notify_social}
use podcast_backend.Social.Queries.{upsert_follow, get_follow_state}
use podcast_backend.Social.Apart.{Apart, serve_all-Apart}
use podcast_backend.Social.Erase.{erase_groups}
use podcast_backend.Social.Moves.Refines.{serve-Moves, serve-Links}
use podcast_backend.Social.Moves.Sound.{Sound}
use podcast_backend.Social.Histories.{
  serve_all-Sound, serve_all-Confined, serve-StillBanned, serve-Joins,
}

abbrev of_user : String → Context
of_user uuid = record {
  filter = record { to_lower = λ s. s; blocklist = [] };
  now = pos 5;
  user_uuid = some uuid;
}

abbrev start : Store
start = record {
  users =
      record { id = 1; uuid = "u1"; deleted = false }
      ∷ record { id = 2; uuid = "u2"; deleted = false }
      ∷ record { id = 3; uuid = "u3"; deleted = false }
      ∷ [];
  profiles =
      record { user_id = 1; handle = "ann"; display_name = "Ann"; require_follow_approval = false }
      ∷ record { user_id = 2; handle = "bob"; display_name = "Bob"; require_follow_approval = true }
      ∷ record {
        user_id = 3;
        handle = "cat";
        display_name = "Cat";
        require_follow_approval = false;
      }
      ∷ [];
  follows = [];
  relationships = [];
  tables = record { groups = []; members = []; next_id = 1 };
  pushes = [];
}

-- Ann makes a private group, invites Bob, and bans Cat.
abbrev story : List (Context × Request)
story =
    (
      of_user "u1",
      group_create (
          some (record {
            title = "club";
            description = "";
            visibility = pos 1;
            podcast_uuid = "";
            podcast_title = "";
          })),
    )
    ∷ (of_user "u1", group_invite (some (record { group_id = pos 1; handle = "bob" })))
    ∷ (of_user "u1", group_kick (some (record { group_id = pos 1; handle = "cat"; ban = true })))
    ∷ []

abbrev club : Store
club = serve_all story start

abbrev bob_accepts : Context × Request
bob_accepts =
    (of_user "u2", group_invite_respond (some (record { group_id = pos 1; accept = true })))

abbrev cat_joins : Request
cat_joins = group_join (some (record { id = pos 1 }))

record Facts : Type 0 where
  role_bob : role_of 1 2 club.tables ≡ some 3
  role_cat : role_of 1 3 club.tables ≡ some 4
  owner : owner_of 1 club.tables ≡ some 1
  visible : visibility_of 1 club.tables ≡ some 1
  active_one : active 1 club.tables ≡ 1
  next : club.tables.next_id ≡ 2
  cat : caller (of_user "u3") club ≡ some (record { id = 3; uuid = "u3"; deleted = false })
  accepted : role_of 1 2 (serve bob_accepts club).tables ≡ some 1
  kept_out : role_of 1 3 (serve (of_user "u3", cat_joins) club).tables ≡ some 4

facts : Facts
unfolding serve_all serve handle role_of owner_of visibility_of post_group_create post_group_invite
    post_group_kick and_then or_answer refuse_if check_texts check_display_name check_bio check_text
    trim_space is_space rune_count truncate_runes has_bad_rune has_line_break has_blocked
    require_joined current_db_user caller user_by_uuid get to_int16 create_social_group
    upsert_group_member put_member with_role resolve_follow_target normalize_handle
    profile_by_handle is_blocked_either has_social_relationship get_social_group group_row
    with_owner role_or_zero count_group_members select is_control is_dangerous_format_rune
    already_in notify_invite kicked modify post_group_invite_respond respond post_group_join
facts = record {
  role_bob = refl;
  role_cat = refl;
  owner = refl;
  visible = refl;
  active_one = refl;
  next = refl;
  cat = refl;
  accepted = refl;
  kept_out = refl;
}

start-Sound : Sound start.tables
unfolding role_of owner_of visibility_of get
start-Sound = record {
  tidy = record {
    groups = tt;
    members = tt;
    visible = λ g v e. absurd (cc);
    fresh = λ g e. absurd (e refl);
  };
  owned = record {
    owned = λ g v e. absurd (cc);
    owns = λ g v e. absurd (cc);
    exists = λ g v e. refl;
  };
}

serve_all-Sound_example : Sound club.tables
serve_all-Sound_example = serve_all-Sound story start start-Sound

club-Sound : Sound club.tables
club-Sound = serve_all-Sound story start start-Sound

club-Confined : Confined 1 club.tables
club-Confined = record {
  known = omega (arith, facts.next);
  hidden = λ e. one-two refl (sym facts.visible ∙ e);
  seats = omega (arith, facts.active_one);
}
  where
    one-two : {n : ℕ} → n ≡ 1 → some n ≢ some 2
    one-two one e = omega (arith, one, some-inj e)

serve_all-Confined_example : Confined 1 (serve_all (bob_accepts ∷ []) club).tables
serve_all-Confined_example = serve_all-Confined 1 (bob_accepts ∷ []) club club-Sound club-Confined

-- Cat does not own the club.
stranger : (a : Account) → caller (of_user "u3") club ≡ some a → owner_of 1 club.tables ≢ some a.id
stranger a who own =
    let same : 3 ≡ a.id = ap (λ x. x.id) (some-inj (sym facts.cat ∙ who)) in
    let other : 1 ≡ a.id = some-inj (sym facts.owner ∙ own) in omega arith

serve-StillBanned_example :
    (role_of 1 3 (serve (of_user "u3", cat_joins) club).tables ≡ some 4)
    ⊎ ((a : Account) × (caller (of_user "u3") club ≡ some a)
        × (a.id ≡ 3)
        × ((serve (of_user "u3", cat_joins) club).tables ≡ erase_groups (pos 5) a.id club.tables))
serve-StillBanned_example =
    serve-StillBanned (of_user "u3") cat_joins club club-Sound 1 3 stranger facts.role_cat

serve-Joins_example :
    (role_of 1 2 club.tables ≡ some 1)
    ⊎ ((a : Account) × (caller (of_user "u2") club ≡ some a) × Joins a.id 1 2 club.tables)
serve-Joins_example = serve-Joins (of_user "u2") bob_accepts.1 club club-Sound 1 2 facts.accepted

serve-Moves_example : Moves (of_user "u2") club (serve bob_accepts club).tables
serve-Moves_example = serve-Moves (of_user "u2") bob_accepts.1 club

abbrev ann_follows : Request
ann_follows = follow (some (record { handle = "bob" }))

serve-Links_example : Links (of_user "u1") start (serve (of_user "u1", ann_follows) start)
serve-Links_example = serve-Links (of_user "u1") ann_follows start

abbrev ann_follows_cat : Request
ann_follows_cat = follow (some (record { handle = "cat" }))

follows_cat : get_follow_state 1 3 (serve (of_user "u1", ann_follows_cat) start).follows ≡ some 1
unfolding serve handle post_follow and_then or_answer refuse_if require_joined current_db_user
    caller user_by_uuid get resolve_follow_target normalize_handle trim_space is_space
    profile_by_handle is_blocked_either has_social_relationship upsert_follow get_follow_state
    notify_follow notify_social
follows_cat = refl

serve-Activates_example :
    (get_follow_state 1 3 start.follows ≡ some 1)
    ⊎ ((a : Account) × (caller (of_user "u1") start ≡ some a) × Activates a.id 1 3 start)
serve-Activates_example = serve-Activates (of_user "u1") ann_follows_cat start 1 3 follows_cat

start-Apart : Apart start.follows start.relationships
unfolding get
start-Apart = record {
  others = λ x y e. absurd (e refl);
  unblocked = λ x y e b. b refl;
  unblocking = λ x y e b. b refl;
}

abbrev follows : List (Context × Request)
follows = (of_user "u1", ann_follows) ∷ []

serve_all-Apart_example :
    Apart (serve_all follows start).follows (serve_all follows start).relationships
serve_all-Apart_example = serve_all-Apart follows start start-Apart

-- Ann erases her profile, and the club goes.
erase_groups-Erased_example : Erased 1 club.tables (erase_groups (pos 9) 1 club.tables)
erase_groups-Erased_example = erase_groups-Erased (pos 9) 1 club.tables club-Sound.tidy
