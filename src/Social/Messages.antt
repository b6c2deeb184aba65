-- ===== src/Social/Messages.antt =====
-- protos/api/api.pb.go: the messages of the group, follow and block endpoints. An enum is an
-- int32, since proto3 keeps a value that it does not know.
use podcast_backend.Prelude.{ℕ, ℤ, String, Bool}

pub record GroupCreateRequest : Type 0 where
  pub title : String
  pub description : String
  pub visibility : ℤ
  pub podcast_uuid : String
  pub podcast_title : String

pub record GroupUpdateRequest : Type 0 where
  pub id : ℤ
  pub title : String
  pub description : String
  pub visibility : ℤ

pub record GroupDeleteRequest : Type 0 where
  pub id : ℤ

pub record GroupJoinRequest : Type 0 where
  pub id : ℤ

pub record GroupLeaveRequest : Type 0 where
  pub id : ℤ

pub record GroupInviteRequest : Type 0 where
  pub group_id : ℤ
  pub handle : String

pub record GroupInviteRespondRequest : Type 0 where
  pub group_id : ℤ
  pub accept : Bool

pub record GroupKickRequest : Type 0 where
  pub group_id : ℤ
  pub handle : String
  pub ban : Bool

pub record GroupAlertRequest : Type 0 where
  pub group_id : ℤ
  pub enabled : Bool

pub record SocialGroup : Type 0 where
  pub id : ℕ
  pub owner_handle : String
  pub owner_display_name : String
  pub title : String
  pub description : String
  pub visibility : ℕ
  pub podcast_uuid : String
  pub podcast_title : String
  pub member_count : ℕ
  pub your_role : ℕ
  pub notify_posts : Bool
  pub created_at : ℤ

pub record FollowRequest : Type 0 where
  pub handle : String

pub record UnfollowRequest : Type 0 where
  pub handle : String

pub record FollowApprovalRequest : Type 0 where
  pub requester_handle : String
  pub accept : Bool

pub record BlockRequest : Type 0 where
  pub target_user_id : String

pub data FollowState : Type 0 where
  follow_state_none follow_state_active follow_state_pending : FollowState

abbrev pub EraseRequest : Type 0
EraseRequest = Unit {0}
