-- ===== src/Social/Rows.antt =====
-- db/models.go: the rows of the social tables, without the columns that no handler here reads or
-- writes. A stored id is a natural number (an identity column counts from 1); an instant is its
-- milliseconds; a SMALLINT column, which the handlers only ever fill from small constants, is a
-- natural number.
use podcast_backend.Prelude.{ℕ, ℤ, String, Bool, true, ◌&&◌, Option, ◌==◌, ==_iff, ◌≡◌, ◌↔◌, arith}
use podcast_backend.Db.Keys.{Key}

-- users; `deleted` is deleted_at IS NOT NULL.
pub record Account : Type 0 where
  pub id : ℕ
  pub uuid : String
  pub deleted : Bool

pub record SocialProfile : Type 0 where
  pub user_id : ℕ
  pub handle : String
  pub display_name : String
  pub require_follow_approval : Bool

pub record SocialFollow : Type 0 where
  pub follower_user_id : ℕ
  pub followee_user_id : ℕ
  pub status : ℕ
  pub created_at : ℤ
  pub approved_at : Option ℤ

pub record SocialRelationship : Type 0 where
  pub user_id : ℕ
  pub target_user_id : ℕ
  pub kind : ℕ

pub record SocialGroup : Type 0 where
  pub id : ℕ
  pub owner_user_id : ℕ
  pub title : String
  pub description : String
  pub visibility : ℕ
  pub podcast_uuid : String
  pub podcast_title : String
  pub created_at : ℤ
  pub updated_at : ℤ

pub record SocialGroupMember : Type 0 where
  pub group_id : ℕ
  pub user_id : ℕ
  pub role : ℕ
  pub invited_by : Option ℕ
  pub notify_posts : Bool
  pub created_at : ℤ

-- The primary keys.
abbrev pub pair : ℕ → ℕ → ℕ × ℕ
pair a b = (a, b)

abbrev pub triple : ℕ → ℕ → ℕ → ℕ × ℕ × ℕ
triple a b c = (a, b, c)

abbrev pub same_pair : ℕ × ℕ → ℕ × ℕ → Bool
same_pair (a, b) (c, d) = a == c && b == d

pub same_pair_iff : (p q : ℕ × ℕ) → (same_pair p q ≡ true) ↔ (p ≡ q)
same_pair_iff (a, b) (c, d) = ground arith

abbrev pub same_triple : ℕ × ℕ × ℕ → ℕ × ℕ × ℕ → Bool
same_triple (a, b, e) (c, d, f) = a == c && (b == d && e == f)

pub same_triple_iff : (p q : ℕ × ℕ × ℕ) → (same_triple p q ≡ true) ↔ (p ≡ q)
same_triple_iff (a, b, e) (c, d, f) = ground arith

instance abbrev pub account_key : Key ℕ Account
account_key = record { key = λ r. r.id; same = ◌==◌; same_iff = ==_iff }

instance abbrev pub profile_key : Key ℕ SocialProfile
profile_key = record { key = λ r. r.user_id; same = ◌==◌; same_iff = ==_iff }

instance abbrev pub follow_key : Key (ℕ × ℕ) SocialFollow
follow_key = record {
  key = λ r. (r.follower_user_id, r.followee_user_id);
  same = same_pair;
  same_iff = same_pair_iff;
}

instance abbrev pub relationship_key : Key (ℕ × ℕ × ℕ) SocialRelationship
relationship_key = record {
  key = λ r. (r.user_id, r.target_user_id, r.kind);
  same = same_triple;
  same_iff = same_triple_iff;
}

instance abbrev pub group_key : Key ℕ SocialGroup
group_key = record { key = λ r. r.id; same = ◌==◌; same_iff = ==_iff }

instance abbrev pub member_key : Key (ℕ × ℕ) SocialGroupMember
member_key = record {
  key = λ r. (r.group_id, r.user_id);
  same = same_pair;
  same_iff = same_pair_iff;
}
