-- ===== src/Ginorion/Routes.antt =====
-- ginorion/routes.go: the routes of the server on a gin router. A
-- router is its routes, whether it lists them and is an engine, and the handlers of `Use`. What gin
-- says of a route that cannot be added is the parameter `clash`: the message of its panic.
pub mod Matching
use orionis.Base.{
  ℕ, ◌≡◌, refl, Bool, true, false, not, ◌&&◌, ◌||◌, Option, none, some, List, [], ◌∷◌, ◌++◌,
  if◌then◌else◌, is_nil, is_some, ◌==◌,
}
use orionis.Authroute
use orionis.Text.{
  Text, codes, text_eq, cut_prefix, contains_by, contains_text, is_space, is_control,
}

pub data Handler : Type 0 where
  token_handler jwks_handler discovery_handler health_handler other_handler : Handler

pub record Route : Type 0 where
  pub method : Text
  pub path : Text
  pub handler : Handler

pub record Router : Type 0 where
  pub routes : List Route
  pub lists_routes : Bool
  pub is_engine : Bool
  pub fallbacks : List (Text × Handler)

pub data Mounted : Type 0 where
  mounted : Router → Mounted
  panicked : Text → Mounted

-- The routes to mount; the server may be nil.
pub record AuthRoutes : Type 0 where
  pub has_auth : Bool
  pub token_path : Text
  pub jwks_path : Text
  pub discovery_path : Text
  pub health_path : Text
  pub ready_path : Text
  pub ready_explicit : Bool

unfoldable pub auth : Bool → Option AuthRoutes
auth has_auth = some (record {
  has_auth = has_auth;
  token_path = Authroute.token;
  jwks_path = Authroute.jwks;
  discovery_path = Authroute.discovery;
  health_path = Authroute.health;
  ready_path = Authroute.ready;
  ready_explicit = false;
})

unfoldable pub set_token_path : Option AuthRoutes → Text → Option AuthRoutes
set_token_path none path = none
set_token_path (some r) path = some (if is_nil path then r else record r { token_path = path })

unfoldable pub set_jwks_path : Option AuthRoutes → Text → Option AuthRoutes
set_jwks_path none path = none
set_jwks_path (some r) path = some (if is_nil path then r else record r { jwks_path = path })

unfoldable pub set_discovery_path : Option AuthRoutes → Text → Option AuthRoutes
set_discovery_path none path = none
set_discovery_path (some r) path =
    some (if is_nil path then r else record r { discovery_path = path })

unfoldable pub set_health_path : Option AuthRoutes → Text → Option AuthRoutes
set_health_path none path = none
set_health_path (some r) path = some (if is_nil path then r else record r { health_path = path })

unfoldable pub set_ready_path : Option AuthRoutes → Text → Option AuthRoutes
set_ready_path none path = none
set_ready_path (some r) path =
    some (if is_nil path then r else record r { ready_path = path; ready_explicit = true })

-- `strings.Split(s, "/")`
add_char : ℕ → List Text → List Text
add_char c [] = (c ∷ []) ∷ []
add_char c (w ∷ ws) = (c ∷ w) ∷ ws

unfoldable pub split_path : Text → List Text
unfolding add_char
split_path [] = [] ∷ []
split_path (c ∷ s) = if c == b'/' then [] ∷ split_path s else add_char c (split_path s)

-- `strings.TrimPrefix(path, "/")`
unfoldable pub trim_slash : Text → Text
trim_slash path = elim (cut_prefix path (codes "/")) [ some rest ↦ rest | none ↦ path ]

unfoldable pub starts_with : ℕ → Text → Bool
starts_with c [] = false
starts_with c (d ∷ s) = d == c

-- The loop over the parts of the pattern.
unfoldable pub parts_cover : List Text → List Text → Bool
parts_cover [] targets = is_nil targets
parts_cover (part ∷ parts) [] = false
parts_cover (part ∷ parts) (target ∷ targets) =
    let rest = parts_cover parts targets in
    if starts_with b'*' part
    then true
    else if starts_with b':' part
    then (if is_nil target then false else rest)
    else if text_eq part target
    then rest
    else false

unfoldable pub gin_route_covers : Text → Text → Bool
gin_route_covers pattern target =
    parts_cover (split_path (trim_slash pattern)) (split_path (trim_slash target))

abbrev pub get : Text
get = codes "GET"

unfoldable pub any_get_covers : List Route → Text → Bool
any_get_covers [] target = false
any_get_covers (route ∷ routes) target =
    (text_eq route.method get && gin_route_covers route.path target) || any_get_covers routes target

unfoldable pub has_existing_get_route : Router → Text → Bool
has_existing_get_route router target =
    if not router.lists_routes
    then false
    else any_get_covers router.routes (codes "/" ++ trim_slash target)

unfoldable pub is_gin_route_conflict : Text → Bool
is_gin_route_conflict message =
    contains_text message (codes "handlers are already registered for path")
    || contains_text message (codes "conflicts with existing wildcard")
    || contains_text message (codes "conflicts with existing path segment")

bad_ready_path : Text
bad_ready_path = codes "ginorion: readiness path must be a static absolute URL path"

is_dynamic : ℕ → Bool
is_dynamic c = c == b':' || c == b'*' || c == b'?' || c == b'#' || is_control c || is_space c

-- Whether `validateReadyPath` lets the path pass.
unfoldable pub is_ready_path : Text → Bool
unfolding is_dynamic
is_ready_path path = is_some (cut_prefix path (codes "/")) && not (contains_by is_dynamic path)

module _ (clash : List Route → Route → Option Text) where
  unfoldable pub add_route : Router → Route → Mounted
  add_route router route = elim (clash router.routes route) [
    | some message ↦ panicked message
    | none ↦ mounted (record router { routes = router.routes ++ route ∷ [] })
  ]

  unless_panicked : Mounted → (Router → Mounted) → Mounted
  unless_panicked (panicked message) f = panicked message
  unless_panicked (mounted router) f = f router

  -- `recover`: a conflict leaves the router as it was.
  recovered : Router → Mounted → Mounted
  recovered router (mounted added) = mounted added
  recovered router (panicked message) =
      if is_gin_route_conflict message then mounted router else panicked message

  unfoldable pub mount_compatible_get : Router → Text → Handler → Mounted
  unfolding recovered bad_ready_path
  mount_compatible_get router path handler =
      if not (is_ready_path path)
      then panicked bad_ready_path
      else if has_existing_get_route router path
      then mounted router
      else recovered router
          (add_route router (record { method = get; path = path; handler = handler }))

  unfoldable pub mount_engine_fallback_get : Router → Text → Handler → Mounted
  unfolding bad_ready_path
  mount_engine_fallback_get router path handler =
      if not (is_ready_path path)
      then panicked bad_ready_path
      else mounted (record router { fallbacks = router.fallbacks ++ (path, handler) ∷ [] })

  mount_ready : AuthRoutes → Router → Mounted
  mount_ready r router =
      if r.ready_explicit
      then mount_compatible_get router r.ready_path health_handler
      else if router.is_engine
      then mount_engine_fallback_get router r.ready_path health_handler
      else mounted router

  mount_all : List Route → (Router → Mounted) → Router → Mounted
  unfolding unless_panicked
  mount_all [] f router = f router
  mount_all (route ∷ routes) f router =
      unless_panicked (add_route router route) (λ added. mount_all routes f added)

  -- The four routes of `Mount`, in its order.
  auth_routes : AuthRoutes → List Route
  auth_routes r =
      record { method = codes "POST"; path = r.token_path; handler = token_handler }
      ∷ record { method = get; path = r.jwks_path; handler = jwks_handler }
      ∷ record { method = get; path = r.discovery_path; handler = discovery_handler }
      ∷ record { method = get; path = r.health_path; handler = health_handler }
      ∷ []

  unfoldable pub mount : Option AuthRoutes → Router → Mounted
  unfolding mount_all mount_ready auth_routes
  mount none router = mounted router
  mount (some r) router =
      if not r.has_auth then mounted router else mount_all (auth_routes r) (mount_ready r) router

-- Whether the handler of `mountEngineFallbackGET` answers a request itself.
unfoldable pub fallback_answers : Text → Text → Text → Text → Bool
fallback_answers path method url_path full_path =
    text_eq method get && text_eq url_path path && is_nil full_path
