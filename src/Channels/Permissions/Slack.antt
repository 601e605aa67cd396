-- ===== src/Channels/Permissions/Slack.antt =====
-- packages/channel-slack/src/permissions.ts.
use openpalm.Base.{
  ◌≡◌, ◌⊎◌, ◌↔◌, arith, List, [], Text, text_eq, codes, Map, get, or_else, if◌then◌else◌,
}
use openpalm.Channels.Permissions.{
  PermissionResult, allowed, user_blocked, user_not_allowed, channel_not_allowed, is_blocked,
  is_kept_out, parse_id_list,
}
use openpalm.Channels.Permissions.Ids.{Among, Admits, is_kept_out_iff, is_blocked_iff}

pub record PermissionConfig : Type 0 where
  pub allowed_channels : List Text
  pub allowed_users : List Text
  pub blocked_users : List Text

pub record UserInfo : Type 0 where
  pub user_id : Text
  pub channel_id : Text

unfoldable pub load_permission_config : Map Text Text → PermissionConfig
load_permission_config env = record {
  allowed_channels = parse_id_list (or_else (get (codes "SLACK_ALLOWED_CHANNELS") env) []);
  allowed_users = parse_id_list (or_else (get (codes "SLACK_ALLOWED_USERS") env) []);
  blocked_users = parse_id_list (or_else (get (codes "SLACK_BLOCKED_USERS") env) []);
}

unfoldable pub check_permissions : PermissionConfig → UserInfo → PermissionResult
check_permissions config user =
    if is_blocked config.blocked_users user.user_id
    then user_blocked
    else if is_kept_out config.allowed_users user.user_id
    then user_not_allowed
    else if is_kept_out config.allowed_channels user.channel_id
    then channel_not_allowed
    else allowed

-- What the configuration asks of a user: not to be blocked, and to be among the allowed users and
-- to write in an allowed channel, wherever such a list is given.
pub record Permitted (config : PermissionConfig) (user : UserInfo) : Type 0 where
  pub unblocked : (user.user_id ≡ []) ⊎ (¬ (Among user.user_id config.blocked_users))
  pub named : Admits config.allowed_users user.user_id
  pub channel : Admits config.allowed_channels user.channel_id

-- A Slack user is let in exactly when the lists permit it: not blocked, and among the allowed
-- users and in an allowed channel, wherever such a list is given.
pub slack_allowed_iff :
    (config : PermissionConfig) (user : UserInfo)
    → (check_permissions config user ≡ allowed) ↔ Permitted config user
unfolding check_permissions
slack_allowed_iff config user = ground (
  arith,
  is_blocked_iff config.blocked_users user.user_id,
  is_kept_out_iff config.allowed_users user.user_id,
  is_kept_out_iff config.allowed_channels user.channel_id,
)
