-- ===== src/Social/Served.antt =====
-- The endpoints of the social handlers, as one function of the request.
use podcast_backend.Prelude.{Option, List, [], ◌∷◌, true, false}
use podcast_backend.Social.Messages.{
  GroupCreateRequest, GroupUpdateRequest, GroupDeleteRequest, GroupJoinRequest, GroupLeaveRequest,
  GroupInviteRequest, GroupInviteRespondRequest, GroupKickRequest, GroupAlertRequest, FollowRequest,
  UnfollowRequest, FollowApprovalRequest, BlockRequest, EraseRequest,
}
use podcast_backend.Social.Handler.{Store, Handler}
use podcast_backend.Social.Guards.{Context}
use podcast_backend.Social.Groups.{post_group_create, post_group_update, post_group_delete}
use podcast_backend.Social.Members.{
  post_group_join, post_group_leave, post_group_invite, post_group_invite_respond, post_group_kick,
  post_group_alert,
}
use podcast_backend.Social.Graph.{
  post_follow, post_unfollow, post_follow_approve, set_relationship, relationship_block,
  relationship_mute,
}
use podcast_backend.Social.Erase.{post_social_erase}

pub data Request : Type 0 where
  group_create : Option GroupCreateRequest → Request
  group_update : Option GroupUpdateRequest → Request
  group_delete : Option GroupDeleteRequest → Request
  group_join : Option GroupJoinRequest → Request
  group_leave : Option GroupLeaveRequest → Request
  group_invite : Option GroupInviteRequest → Request
  group_invite_respond : Option GroupInviteRespondRequest → Request
  group_kick : Option GroupKickRequest → Request
  group_alert : Option GroupAlertRequest → Request
  follow : Option FollowRequest → Request
  unfollow : Option UnfollowRequest → Request
  follow_approve : Option FollowApprovalRequest → Request
  block unblock mute unmute : Option BlockRequest → Request
  erase : Option EraseRequest → Request

-- The route's handler.
unfoldable pub handle : Context → Request → Handler Unit
handle c (group_create body) = post_group_create c body
handle c (group_update body) = post_group_update c body
handle c (group_delete body) = post_group_delete c body
handle c (group_join body) = post_group_join c body
handle c (group_leave body) = post_group_leave c body
handle c (group_invite body) = post_group_invite c body
handle c (group_invite_respond body) = post_group_invite_respond c body
handle c (group_kick body) = post_group_kick c body
handle c (group_alert body) = post_group_alert c body
handle c (follow body) = post_follow c body
handle c (unfollow body) = post_unfollow c body
handle c (follow_approve body) = post_follow_approve c body
handle c (block body) = set_relationship c relationship_block true body
handle c (unblock body) = set_relationship c relationship_block false body
handle c (mute body) = set_relationship c relationship_mute true body
handle c (unmute body) = set_relationship c relationship_mute false body
handle c (erase body) = post_social_erase c body

-- The store after one request, and after a sequence of them.
unfoldable pub serve : Context × Request → Store → Store
unfolding handle
serve (c, r) s = (handle c r s).1

unfoldable pub serve_all : List (Context × Request) → Store → Store
unfolding serve
serve_all [] s = s
serve_all (q ∷ qs) s = serve_all qs (serve q s)
