-- ===== src/Channels/Permissions/Tests.antt =====
-- Permissions at concrete lists.
use openpalm.Base.{arith, ◌≡◌, ◌↔◌, refl, [], ◌∷◌, Text, text_eq, codes, Map, get, split, trim}
use openpalm.Channels.Permissions.{parse_id_list, allowed, guild_not_allowed, user_blocked}
use openpalm.Channels.Permissions.Ids.{IsPlain}
use openpalm.Channels.Permissions.Discord
use openpalm.Channels.Permissions.Slack

abbrev env : Map Text Text
env =
    (codes "DISCORD_ALLOWED_GUILDS", codes " g1 , g2,,")
    ∷ (codes "DISCORD_BLOCKED_USERS", codes "u9")
    ∷ (codes "SLACK_BLOCKED_USERS", codes "u9")
    ∷ []

abbrev member : Discord.UserInfo
member = record { user_id = codes "u1"; guild_id = codes "g2"; roles = codes "r1" ∷ [] }

lets_in : Discord.check_permissions (Discord.load_permission_config env) member ≡ allowed
unfolding Discord.check_permissions Discord.load_permission_config parse_id_list split trim get
lets_in = refl

keeps_out :
    Discord.check_permissions (Discord.load_permission_config env) (record member { guild_id = [] })
    ≡ guild_not_allowed
unfolding Discord.check_permissions Discord.load_permission_config parse_id_list split trim get
keeps_out = refl

discord_allowed_iff_example :
    (Discord.check_permissions (Discord.load_permission_config env) member ≡ allowed)
    ↔ Discord.Permitted (Discord.load_permission_config env) member
discord_allowed_iff_example =
    Discord.discord_allowed_iff (Discord.load_permission_config env) member

abbrev writer : Slack.UserInfo
writer = record { user_id = codes "u9"; channel_id = codes "c1" }

blocks : Slack.check_permissions (Slack.load_permission_config env) writer ≡ user_blocked
unfolding Slack.check_permissions Slack.load_permission_config parse_id_list split trim get
blocks = refl

u1-IsPlain : IsPlain (codes "u1")
unfolding trim
u1-IsPlain = ((λ e. cc), refl, omega arith)
