-- ===== src/Social/Groups.antt =====
-- handlers/groups.go: the endpoints that create, change and delete a group. Each is the whole handler,
-- from the decoded body (none where it does not decode) to the answer.
use podcast_backend.Prelude.{
  ℕ, ℤ, pos, pos_part, leb_ℤ, eq_ℤ, String, Bool, true, false, ◌&&◌, ◌||◌, not, Option, none, some,
  ◌==◌, str_eq,
}
use podcast_backend.Moderation.{check_display_name, check_bio, truncate_runes, TextError}
use podcast_backend.Social.Messages.{GroupCreateRequest, GroupUpdateRequest, GroupDeleteRequest}
use podcast_backend.Social.Handler.{
  GroupTables, Store, Handler, Reply, refused, ack, created, found, refuse_if, run, change, answer,
  ◌>>=◌, ◌>>◌,
}
use podcast_backend.Social.GroupQueries.{
  get_social_group, create_social_group, upsert_group_member, update_social_group,
  delete_social_group,
}
use podcast_backend.Social.Guards.{
  Context, matches_uuid_pattern, to_int16, invalid_request, bind_proto, require_joined,
}

abbrev pub group_title_max_len : ℕ
group_title_max_len = 100

abbrev pub group_desc_max_len : ℕ
group_desc_max_len = 500

abbrev pub max_title_len : ℕ
max_title_len = 300

abbrev pub group_private_cap : ℕ
group_private_cap = 100

abbrev pub group_role_member : ℕ
group_role_member = 1

abbrev pub group_role_owner : ℕ
group_role_owner = 2

abbrev pub group_role_invited : ℕ
group_role_invited = 3

abbrev pub group_role_banned : ℕ
group_role_banned = 4

abbrev pub group_vis_private : ℕ
group_vis_private = 1

abbrev pub group_vis_public : ℕ
group_vis_public = 2

abbrev pub group_not_found : Reply
group_not_found = refused 404 "group not found"

-- A statement on the group tables.
abbrev pub on_tables : (GroupTables → GroupTables) → Store → Store
on_tables f s = record s { tables = f s.tables }

abbrev with_value : {A : Type 0} → Store → A × GroupTables → A × Store
with_value s (a, t) = (a, record s { tables = t })

abbrev pub run_tables : {A : Type 0} → (GroupTables → A × GroupTables) → Handler A
run_tables f = run (λ s. with_value s (f s.tables))

-- `err != nil` of a check.
abbrev pub fails : Option TextError → Bool
fails none = false
fails (some e) = true

-- vis != groupVisPrivate && vis != groupVisPublic
abbrev pub is_visibility : ℤ → Bool
is_visibility v = eq_ℤ v (pos 1) || eq_ℤ v (pos 2)

module _ (c : Context) where
  -- The checks that creating and changing a group share.
  unfoldable pub check_texts : String → String → Handler Unit
  check_texts title description = do
    refuse_if (fails (check_display_name c.filter title)) (refused 422 "title rejected")
    refuse_if (fails (check_bio c.filter description)) (refused 422 "description rejected")

  unfoldable pub post_group_create : Option GroupCreateRequest → Handler Unit
  unfolding check_texts
  post_group_create body = do
    req ← bind_proto body
    refuse_if (str_eq req.title "") invalid_request
    refuse_if (not (is_visibility (to_int16 req.visibility))) (refused 400 "invalid visibility")
    refuse_if (not (str_eq req.podcast_uuid "") && not (matches_uuid_pattern req.podcast_uuid))
        (refused 400 "invalid podcast")
    check_texts req.title req.description
    joined ← require_joined c
    let vis = pos_part (to_int16 req.visibility)
    let title = truncate_runes req.title group_title_max_len
    let description = truncate_runes req.description group_desc_max_len
    let podcast_title = truncate_runes req.podcast_title max_title_len
    id ←
        run_tables (
          create_social_group c.now joined.0.id title description vis req.podcast_uuid
            podcast_title)
    change (on_tables (upsert_group_member c.now id joined.0.id group_role_owner none))
    answer (
        created (record {
          id = id;
          owner_handle = joined.1.handle;
          owner_display_name = joined.1.display_name;
          title = title;
          description = description;
          visibility = vis;
          podcast_uuid = req.podcast_uuid;
          podcast_title = podcast_title;
          member_count = 1;
          your_role = group_role_owner;
          notify_posts = false;
          created_at = c.now;
        }))

  unfoldable pub post_group_update : Option GroupUpdateRequest → Handler Unit
  unfolding check_texts
  post_group_update body = do
    req ← bind_proto body
    refuse_if (leb_ℤ req.id (pos 0) || str_eq req.title "") invalid_request
    refuse_if (not (is_visibility (to_int16 req.visibility))) (refused 400 "invalid visibility")
    check_texts req.title req.description
    joined ← require_joined c
    let vis = pos_part (to_int16 req.visibility)
    current ← found (get_social_group (pos_part req.id) joined.0.id) group_not_found
    refuse_if (current.group.visibility == group_vis_private && vis == group_vis_public)
        (refused 409 "a private group cannot be made public")
    affected ← run_tables (
        update_social_group c.now (pos_part req.id) joined.0.id
          (truncate_runes req.title group_title_max_len)
          (truncate_runes req.description group_desc_max_len) vis)
    refuse_if (affected == 0) group_not_found
    answer ack

  unfoldable pub post_group_delete : Option GroupDeleteRequest → Handler Unit
  post_group_delete body = do
    req ← bind_proto body
    refuse_if (leb_ℤ req.id (pos 0)) invalid_request
    joined ← require_joined c
    affected ← run_tables (delete_social_group (pos_part req.id) joined.0.id)
    refuse_if (affected == 0) group_not_found
    answer ack
