-- ===== src/Authapp/Routes.antt =====
-- internal/authapp/routes.go: the routes of the application. `join_paths` is what gin makes of the base
-- path of a group and a path.
pub mod Tokens
use orionis.Base.{ℕ, some, List, [], ◌∷◌}
use orionis.Authroute
use orionis.Text.{Text, codes}
use orionis.Server.Config.{Server}
use orionis.Server.Http.{post, get, token_http, jwks_http, discovery_http, health_http}
use orionis.Authapp.Runtime.{ResolvedConfig}
use orionis.Authapp.Security.{Handler, wrapped, handlers, new_runtime_security}

pub record AuthRoute : Type 0 where
  pub method : Text
  pub path : Text
  pub handlers : List Handler

-- The handlers of one application share one limiter.
unfoldable pub mount_auth_routes :
    {Clock : Type 0}
    → (Text → Text → Text)
    → (Text → List ℕ)
    → Server Clock
    → ResolvedConfig
    → List AuthRoute
mount_auth_routes join_paths sum256 auth cfg =
    let security = new_runtime_security cfg in
    let path = join_paths cfg.base_path in
    record {
      method = post;
      path = path Authroute.token;
      handlers =
          handlers security (codes "token") cfg.token_limit
            (λ c. some (token_http sum256 c.environment auth c.request));
    }
    ∷ record {
      method = get;
      path = path Authroute.jwks;
      handlers = wrapped (λ c. jwks_http auth c.request) ∷ [];
    }
    ∷ record {
      method = get;
      path = path Authroute.discovery;
      handlers = wrapped (λ c. some (discovery_http auth c.request)) ∷ [];
    }
    ∷ record {
      method = get;
      path = path Authroute.health;
      handlers = wrapped (λ c. some health_http) ∷ [];
    }
    ∷ record {
      method = get;
      path = path Authroute.ready;
      handlers = handlers security (codes "readyz") cfg.readyz_limit (λ c. some health_http);
    }
    ∷ []
