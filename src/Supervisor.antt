-- ===== src/Supervisor.antt =====
-- The typed operations of the Home Assistant Supervisor
-- (smart-home-agent/internal/supervisor/supervisor.go). The transport, the JSON decoders and
-- `strings.TrimSpace` are parameters; a reply may depend on all earlier requests. A method adds its
-- requests to the log, newest first.
use Prim.Native.Char.{code}
use Prim.Native.String.{◌++◌}
use smart_home_edge.Prelude.{
  String, Bool, true, false, Option, none, some, List, [], ◌∷◌, Dict, not, ◌==◌, nat_eq,
  if◌then◌else◌,
}
use smart_home_edge.Json.{Json}
use smart_home_edge.Fleet.{Addon, resolves}

pub data Method : Type 0 where
  get post : Method

pub data Body : Type 0 where
  no_body : Body
  repository : String → Body
  options : Dict Json → Body
  auto_update : Bool → Body

-- `slow` tells the install timeout from the call timeout.
pub record Request : Type 0 where
  pub method : Method
  pub endpoint : String
  pub body : Body
  pub slow : Bool

-- `rejected` is the Supervisor's own `*Error`; any other failure is `unreachable`.
pub data Reply : Type 0 where
  answer : String → Reply
  rejected : String → Reply
  unreachable : String → Reply

pub data Error : Type 0 where
  supervisor : String → Error
  transport : String → Error
  decoding : String → Error

pub data Result (A : Type 0) : Type 0 where
  ok : A → Result A
  err : Error → Result A

pub record AddonBody : Type 0 where
  pub version : String
  pub state : String
  pub auto_update : Bool
  pub update_available : Bool
  pub options : Dict Json

pub record AddonInfo : Type 0 where
  pub slug : String
  pub installed : Bool
  pub version : String
  pub state : String
  pub auto_update : Bool
  pub update_available : Bool
  pub options : Dict Json

pub record VersionInfo : Type 0 where
  pub version : String
  pub latest : String

pub record Api : Type 0 where
  pub reply : List Request → Request → Reply
  pub decode_repositories : String → Option (List String)
  pub decode_store : String → Option (List String)
  pub decode_addon : String → Option AddonBody
  pub decode_version : String → Option VersionInfo
  pub trim_space : String → String

abbrev pub Log : Type 0
Log = List Request

abbrev pub Exec : Type 0 → Type 0
Exec A = Log → Result A × Log

abbrev pub pure : {A : Type 0} → A → Exec A
pure a l = (ok a, l)

abbrev pub raise : {A : Type 0} → Error → Exec A
raise e l = (err e, l)

abbrev pub continue : {A B : Type 0} → (A → Exec B) → Result A × Log → Result B × Log
continue f (ok a, l) = f a l
continue f (err e, l) = (err e, l)

infixl 5 ◌>>=◌ ◌>>◌
abbrev pub ◌>>=◌ : {A B : Type 0} → Exec A → (A → Exec B) → Exec B
◌>>=◌ m f l = continue f (m l)

abbrev pub ◌>>◌ : {A B : Type 0} → Exec A → Exec B → Exec B
m >> k = m >>= λ _. k

abbrev pub decoded : {A : Type 0} → String → Option A → Exec A
decoded what none = raise (decoding what)
decoded what (some a) = pure a

abbrev pub request : Method → String → Body → Bool → Request
request method endpoint body slow = record {
  method = method;
  endpoint = endpoint;
  body = body;
  slow = slow;
}

abbrev pub as_result : Reply → Result String
as_result (answer raw) = ok raw
as_result (rejected m) = err (supervisor m)
as_result (unreachable m) = err (transport m)

module _ (api : Api) where
  -- `c.t.Call`.
  unfoldable pub call : Method → String → Body → Bool → Exec String
  call method endpoint body slow l =
      let r = request method endpoint body slow in (as_result (api.reply l r), r ∷ l)

  abbrev nonempty_urls : List String → List String
  nonempty_urls [] = []
  nonempty_urls (u ∷ us) = if u == "" then nonempty_urls us else u ∷ nonempty_urls us

  unfoldable pub store_repositories : Exec (List String)
  unfolding call
  store_repositories = do
    raw ← call get "/store/repositories" no_body false
    urls ← decoded "store repositories" (api.decode_repositories raw)
    pure (nonempty_urls urls)

  -- The outcome of a best-effort call is dropped.
  abbrev best_effort : {A : Type 0} → Exec A → Exec (Unit {0})
  best_effort m l = (ok tt, (m l).1)

  unfoldable pub add_store_repository : String → Exec (Unit {0})
  unfolding call
  add_store_repository url = do
    call post "/store/repositories" (repository url) false
    best_effort (call post "/store/reload" no_body false)

  abbrev pub first_resolved : Addon → List String → Option String
  first_resolved a [] = none
  first_resolved a (s ∷ rest) = if resolves a s then some s else first_resolved a rest

  -- `none` is `found = false`.
  unfoldable pub resolve_addon_slug : Addon → Exec (Option String)
  unfolding call
  resolve_addon_slug a = if not (a.slug == "") then pure (some a.slug) else (do
    raw ← call get "/store" no_body false
    slugs ← decoded "resolve" (api.decode_store raw)
    pure (first_resolved a slugs))

  abbrev absent : String → AddonInfo
  absent slug = record {
    slug = slug;
    installed = false;
    version = "";
    state = "";
    auto_update = false;
    update_available = false;
    options = [];
  }

  abbrev present : String → AddonBody → AddonInfo
  present slug b = record {
    slug = slug;
    installed = not (b.version == "");
    version = b.version;
    state = b.state;
    auto_update = b.auto_update;
    update_available = b.update_available;
    options = b.options;
  }

  -- A rejection by the Supervisor means: known, and not installed.
  abbrev info_of : String → Result String × Log → Result AddonInfo × Log
  info_of slug (ok raw, l) =
      (decoded "addon info" (api.decode_addon raw) >>= λ b. pure (present slug b)) l
  info_of slug (err (supervisor m), l) = (ok (absent slug), l)
  info_of slug (err (transport m), l) = (err (transport m), l)
  info_of slug (err (decoding m), l) = (err (decoding m), l)

  unfoldable pub addon_info : String → Exec AddonInfo
  unfolding call
  addon_info slug l = info_of slug (call get ("/addons/" ++ slug ++ "/info") no_body false l)

  -- Only a rejection of the store form is tried again in the older form.
  abbrev pub or_legacy : Exec String → Result String × Log → Result (Unit {0}) × Log
  or_legacy legacy (ok raw, l) = (ok tt, l)
  or_legacy legacy (err (supervisor m), l) = (legacy >>= λ _. pure tt) l
  or_legacy legacy (err (transport m), l) = (err (transport m), l)
  or_legacy legacy (err (decoding m), l) = (err (decoding m), l)

  unfoldable pub addon_mutate : String → String → Exec (Unit {0})
  unfolding call
  addon_mutate slug action l =
      or_legacy (call post ("/addons/" ++ slug ++ "/" ++ action) no_body true)
        (call post ("/store/addons/" ++ slug ++ "/" ++ action) no_body true l)

  unfoldable pub install_addon : String → Exec (Unit {0})
  unfolding addon_mutate
  install_addon slug = addon_mutate slug "install"

  unfoldable pub update_addon_latest : String → Exec (Unit {0})
  unfolding addon_mutate
  update_addon_latest slug = addon_mutate slug "update"

  abbrev done : Exec String → Exec (Unit {0})
  done m = m >>= λ _. pure tt

  unfoldable pub set_addon_options : String → Dict Json → Exec (Unit {0})
  unfolding call
  set_addon_options slug o = done (call post ("/addons/" ++ slug ++ "/options") (options o) false)

  unfoldable pub set_addon_auto_update : String → Bool → Exec (Unit {0})
  unfolding call
  set_addon_auto_update slug enabled =
      done (call post ("/addons/" ++ slug ++ "/options") (auto_update enabled) false)

  unfoldable pub start_addon : String → Exec (Unit {0})
  unfolding call
  start_addon slug = done (call post ("/addons/" ++ slug ++ "/start") no_body false)

  unfoldable pub restart_addon : String → Exec (Unit {0})
  unfolding call
  restart_addon slug = done (call post ("/addons/" ++ slug ++ "/restart") no_body false)

  unfoldable pub version_info : String → Exec VersionInfo
  unfolding call
  version_info path = do
    raw ← call get path no_body false
    decoded "version info" (api.decode_version raw)

  unfoldable pub os_info : Exec VersionInfo
  unfolding version_info
  os_info = version_info "/os/info"

  unfoldable pub core_info : Exec VersionInfo
  unfolding version_info
  core_info = version_info "/core/info"

  unfoldable pub update_os_latest : Exec (Unit {0})
  unfolding call
  update_os_latest = done (call post "/os/update" no_body true)

  unfoldable pub update_core_latest : Exec (Unit {0})
  unfolding call
  update_core_latest = done (call post "/core/update" no_body true)

  unfoldable pub agent_version : String → Exec String
  unfolding addon_info
  agent_version slug = do info ← addon_info slug; pure info.version

  -- `strings.TrimPrefix(s, "v")`.
  abbrev without_v : String → String
  without_v String.[] = ""
  without_v (String.◌∷◌ c s) = if nat_eq (code c) b'v' then s else String.◌∷◌ c s

  unfoldable pub normalize_version : String → String
  normalize_version v = without_v (api.trim_space v)

  unfoldable pub versions_equal : String → String → Bool
  unfolding normalize_version
  versions_equal a b = normalize_version a == normalize_version b
