-- ===== src/Channels/Permissions/Discord.antt =====
-- packages/channel-discord/src/permissions.ts.
use openpalm.Base.{
  ◌&&◌, ◌≡◌, ◌⊎◌, ◌↔◌, arith, not, List, [], Text, text_eq, codes, Map, get, any_by, or_else,
  if◌then◌else◌,
}
use openpalm.Channels.Permissions.{
  PermissionResult, allowed, user_blocked, user_not_allowed, guild_not_allowed, role_not_allowed,
  is_blocked, is_kept_out, has_id, is_none, parse_id_list,
}
use openpalm.Channels.Permissions.Ids.{
  Among, Admits, shares_iff, is_none_iff, is_kept_out_iff, is_blocked_iff,
}

pub record PermissionConfig : Type 0 where
  pub allowed_guilds : List Text
  pub allowed_roles : List Text
  pub allowed_users : List Text
  pub blocked_users : List Text

pub record UserInfo : Type 0 where
  pub user_id : Text
  pub guild_id : Text
  pub roles : List Text

-- The environment is a map; a missing variable reads as empty.
unfoldable pub load_permission_config : Map Text Text → PermissionConfig
load_permission_config env = record {
  allowed_guilds = parse_id_list (or_else (get (codes "DISCORD_ALLOWED_GUILDS") env) []);
  allowed_roles = parse_id_list (or_else (get (codes "DISCORD_ALLOWED_ROLES") env) []);
  allowed_users = parse_id_list (or_else (get (codes "DISCORD_ALLOWED_USERS") env) []);
  blocked_users = parse_id_list (or_else (get (codes "DISCORD_BLOCKED_USERS") env) []);
}

unfoldable pub check_permissions : PermissionConfig → UserInfo → PermissionResult
check_permissions config user =
    if is_blocked config.blocked_users user.user_id
    then user_blocked
    else if is_kept_out config.allowed_users user.user_id
    then user_not_allowed
    else if is_kept_out config.allowed_guilds user.guild_id
    then guild_not_allowed
    else if not (is_none config.allowed_roles)
        && not (any_by (λ r. has_id config.allowed_roles r) user.roles)
    then role_not_allowed
    else allowed

-- What the configuration asks of a user: not to be blocked, and to be among the allowed users, to
-- write in an allowed guild and to have an allowed role, wherever such a list is given.
pub record Permitted (config : PermissionConfig) (user : UserInfo) : Type 0 where
  pub unblocked : (user.user_id ≡ []) ⊎ (¬ (Among user.user_id config.blocked_users))
  pub named : Admits config.allowed_users user.user_id
  pub guild : Admits config.allowed_guilds user.guild_id
  pub role :
      (config.allowed_roles ≡ []) ⊎ ((r : Text) × Among r user.roles × Among r config.allowed_roles)

-- A Discord user is let in exactly when the lists permit it: not blocked, and among the allowed
-- users, in an allowed guild and with an allowed role, wherever such a list is given.
pub discord_allowed_iff :
    (config : PermissionConfig) (user : UserInfo)
    → (check_permissions config user ≡ allowed) ↔ Permitted config user
unfolding check_permissions
discord_allowed_iff config user = ground (
  arith,
  is_blocked_iff config.blocked_users user.user_id,
  is_kept_out_iff config.allowed_users user.user_id,
  is_kept_out_iff config.allowed_guilds user.guild_id,
  shares_iff config.allowed_roles user.roles,
  is_none_iff config.allowed_roles,
)
