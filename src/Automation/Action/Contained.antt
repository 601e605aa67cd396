-- ===== src/Automation/Action/Contained.antt =====
-- What an automation cannot do.
use openpalm.Base.{
  ◌≡◌, ◌⊎◌, inl, inr, refl, arith, ◌++◌, Bool, true, false, ◌||◌, not, List, [], ◌∷◌, none, some,
  Option-cases, Bool-cases, Text, text_eq, codes, Map, get, set, delete, get-set, get-delete,
  or_else, is_empty, ◌==◌, any_by, All,
}
use openpalm.Automation.Config.{AutomationAction}
use openpalm.Automation.Action.{
  Network, Settings, Outgoing, is_safe_path, api_headers, json_body, execute_api_action,
  shell_safe_env_keys,
}

api_headers-token :
    (token : Text) (action : AutomationAction)
    → get (codes "x-admin-token") (api_headers token action) ≡ some token
unfolding api_headers
api_headers-token token action =
    let kept =
      delete (codes "authorization") (delete (codes "x-admin-token") (or_else action.headers [])) in
    let own = set (codes "x-admin-token") token kept in
    let named = set (codes "x-requested-by") (codes "automation") own in
    ground (
      arith,
      get-set (codes "x-admin-token") (codes "x-admin-token") token kept,
      get-set (codes "x-requested-by") (codes "x-admin-token") (codes "automation") own,
      get-set (codes "content-type") (codes "x-admin-token") (codes "application/json") named,
    )

api_headers-authorization :
    (token : Text) (action : AutomationAction)
    → get (codes "authorization") (api_headers token action) ≡ none
unfolding api_headers
api_headers-authorization token action =
    let given = delete (codes "x-admin-token") (or_else action.headers []) in
    let kept = delete (codes "authorization") given in
    let own = set (codes "x-admin-token") token kept in
    let named = set (codes "x-requested-by") (codes "automation") own in
    ground (
      arith,
      get-delete (codes "authorization") (codes "authorization") given,
      get-set (codes "x-admin-token") (codes "authorization") token kept,
      get-set (codes "x-requested-by") (codes "authorization") (codes "automation") own,
      get-set (codes "content-type") (codes "authorization") (codes "application/json") named,
    )

-- The headers that the scheduler sets or takes away.
abbrev pub own_headers : List Text
own_headers =
    codes "x-admin-token"
    ∷ codes "authorization"
    ∷ codes "x-requested-by"
    ∷ codes "content-type"
    ∷ []

api_headers-other :
    (token : Text) (action : AutomationAction) (k : Text)
    → All (λ own. (own == k) ≡ false) own_headers
    → get k (api_headers token action) ≡ get k (or_else action.headers [])
unfolding api_headers
api_headers-other token action k h =
    let headers = or_else action.headers [] in
    let given = delete (codes "x-admin-token") headers in
    let kept = delete (codes "authorization") given in
    let own = set (codes "x-admin-token") token kept in
    let named = set (codes "x-requested-by") (codes "automation") own in
    ground (
      arith,
      h.0,
      h.1.0,
      h.1.1.0,
      h.1.1.1.0,
      get-delete (codes "x-admin-token") k headers,
      get-delete (codes "authorization") k given,
      get-set (codes "x-admin-token") k token kept,
      get-set (codes "x-requested-by") k (codes "automation") own,
      get-set (codes "content-type") k (codes "application/json") named,
    )

module _ (net : Network) (settings : Settings) where
  -- The one request of an API action.
  pub record Calls (token : Text) (action : AutomationAction) (w w' : net.World) : Type 0 where
    pub request : Outgoing
    pub path : Text
    pub given : action.path ≡ some path
    pub safe : is_safe_path path ≡ true
    pub url : request.url ≡ settings.admin_url ++ path
    pub with_token : get (codes "x-admin-token") request.headers ≡ some token
    pub without_own : get (codes "authorization") request.headers ≡ none
    pub others :
        (k : Text)
        → All (λ own. (own == k) ≡ false) own_headers
        → get k request.headers ≡ get k (or_else action.headers [])
    pub called : w' ≡ (net.fetch request w).1

  -- An API action makes no request, or one: to the admin interface under the path of the action,
  -- which starts with /admin/, holds no two dots in a row and no other signs than those of a plain
  -- path; its headers have the scheduler's token under the name x-admin-token and no header under
  -- the name authorization, both in small letters, and under any name but these two,
  -- x-requested-by and content-type what the automation gives: so an `Authorization` with a capital
  -- is passed on.
  pub api_action-Calls :
      (token : Text) (action : AutomationAction) (w : net.World)
      → let r = execute_api_action net settings token action w in
        (r.1 ≡ w) ⊎ Calls token action w r.1
  unfolding execute_api_action
  api_action-Calls token action w = elim (Option-cases action.path) [
    | inl e ↦ inl (ground (arith, e))
    | inr (path, e) ↦ elim (Bool-cases (is_empty path || not (is_safe_path path))) [
      | inl early ↦ inl (ground (arith, e))
      | inr on ↦ inr (record {
        request = record {
          url = settings.admin_url ++ path;
          method = action.method;
          headers = api_headers token action;
          body = json_body action.body;
          timeout = action.timeout;
        };
        path = path;
        given = e;
        safe = ground arith;
        url = refl;
        with_token = api_headers-token token action;
        without_own = api_headers-authorization token action;
        others = api_headers-other token action;
        called = ground (arith, e);
      })
    ]
  ]

-- One of the keys.
abbrev pub IsOneOf : Text → List Text → Type 0
IsOneOf k keys = any_by (λ i. i == k) keys ≡ true

module _ (net : Network) (settings : Settings) where
  -- The one process of a shell action.
  pub record Runs (action : AutomationAction) (w : net.World) (r : Bool × net.World) : Type 0 where
    pub program : Text
    pub arguments : List Text
    pub env : Map Text Text
    pub command : action.command ≡ some (program ∷ arguments)
    pub safe :
        (k v : Text)
        → get k env ≡ some v
        → IsOneOf k shell_safe_env_keys × (get k settings.env ≡ some v)
    pub ran : r ≡ net.exec program arguments env action.timeout w
