-- ===== src/Tests/Mounting.antt =====
-- A request for a token to a mounted application, the first of a new limiter.
use orionis.Base.{◌≡◌, refl, none, some, ◌++◌, inl, is_nil}
use orionis.Base.Int.{pos, ◌+ℤ◌, ◌-ℤ◌}
use orionis.Text.{Text, codes, text_eq}
use orionis.Text.Dict.{lookup, insert, filter_values}
use orionis.Server.Http.{post, token_http}
use orionis.Server.Http.Token.{IsServed}
use orionis.Authroute
use orionis.Authapp.Ratelimit.{new_fixed_window_rate_limiter, allow, sweep_expired, live}
use orionis.Authapp.Security.{
  Incoming, handlers, new_runtime_security, run_chain, limiter_key, remote_ip_from_request,
  reply_of,
}
use orionis.Authapp.Routes.{AuthRoute, mount_auth_routes}
use orionis.Authapp.Routes.Tokens.{mounted-IsServed}
use orionis.Tests.Issuing.{digest, environment, answer}
use orionis.Tests.Serving.{serve, server, request}
use orionis.Tests.Running.{ready}

abbrev join_paths : Text → Text → Text
join_paths base path = base ++ path

abbrev token_route : AuthRoute
token_route = record {
  method = post;
  path = Authroute.token;
  handlers =
      handlers (new_runtime_security ready) (codes "token") ready.token_limit
        (λ c. some (token_http digest c.environment server c.request));
}

abbrev incoming : Incoming
incoming = record {
  request = request;
  environment = environment;
  full_path = codes "/oauth/token";
  url_path = codes "/oauth/token";
  remote_addr = codes "10.0.0.1:4711";
  posted = none;
  now = pos 5;
  elapsed = 0;
}

mounted-IsServed_example :
    (token_route.method ≡ post)
    × (token_route.path ≡ join_paths ready.base_path Authroute.token)
    × IsServed digest environment server request answer
unfolding serve mount_auth_routes run_chain handlers new_runtime_security allow lookup insert
    sweep_expired live text_eq limiter_key remote_ip_from_request reply_of
    new_fixed_window_rate_limiter is_nil filter_values ◌+ℤ◌ ◌-ℤ◌
mounted-IsServed_example =
    mounted-IsServed (λ addr. some addr) (λ d. d) join_paths digest server ready token_route
      new_fixed_window_rate_limiter incoming (token_http digest environment server request) answer
      (inl refl) refl refl
