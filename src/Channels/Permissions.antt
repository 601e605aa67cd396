-- ===== src/Channels/Permissions.antt =====
-- packages/channel-discord/src/permissions.ts and packages/channel-slack/src/permissions.ts. A Set
-- is the list that it is made from: it is only asked whether it is empty or holds an id. The log
-- lines are left out, and so is the name of the user, which only they use.
pub mod Ids
pub mod Discord
pub mod Slack
pub mod Tests
use openpalm.Base.{
  ℕ, Bool, true, false, ◌&&◌, ◌||◌, not, List, [], ◌∷◌, Option, none, some, Text, text_eq, codes,
  Map, get, map, trim, keep, any_by, is_empty, or_else, split, ◌==◌, if◌then◌else◌,
}

abbrev pub is_none : List Text → Bool
is_none [] = true
is_none (x ∷ xs) = false

abbrev pub has_id : List Text → Text → Bool
has_id ids id = any_by (λ i. i == id) ids

-- A missing variable is the empty text.
unfoldable pub parse_id_list : Text → List Text
parse_id_list raw =
    if is_empty raw then [] else keep (λ s. not (is_empty s)) (map trim (split b',' raw))

pub data PermissionResult : Type 0 where
  allowed : PermissionResult
  user_blocked : PermissionResult
  user_not_allowed : PermissionResult
  guild_not_allowed : PermissionResult
  channel_not_allowed : PermissionResult
  role_not_allowed : PermissionResult

-- `config.allowed.size > 0` and `!id || !config.allowed.has(id)`
abbrev pub is_kept_out : List Text → Text → Bool
is_kept_out ids id = not (is_none ids) && (is_empty id || not (has_id ids id))

-- `id && config.blocked.has(id)`
abbrev pub is_blocked : List Text → Text → Bool
is_blocked ids id = not (is_empty id) && has_id ids id
