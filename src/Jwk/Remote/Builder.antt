-- ===== src/Jwk/Remote/Builder.antt =====
-- jwk/remote.go: the builder of a remote provider, which may be nil.
use orionis.Base.{Option, none, some, List, [], ◌∷◌, if◌then◌else◌}
use orionis.Base.Int.{ℤ, pos, ltb_ℤ}
use orionis.Text.{Text, trim_space}
use orionis.Jwk.Remote.{RemoteConfig, RemoteProvider, new_remote_provider}

module _ {C : Type 0} where
  unfoldable pub set_url : Option (RemoteConfig C) → Text → Option (RemoteConfig C)
  set_url none url = none
  set_url (some b) url = some (record b { url = trim_space url })

  unfoldable pub set_http_client : Option (RemoteConfig C) → Option C → Option (RemoteConfig C)
  set_http_client none hc = none
  set_http_client (some b) hc = some (record b { http_client = hc })

  unfoldable pub refresh_every : Option (RemoteConfig C) → ℤ → Option (RemoteConfig C)
  refresh_every none interval = none
  refresh_every (some b) interval =
      if ltb_ℤ (pos 0) interval then some (record b { refresh_interval = interval }) else some b

  unfoldable pub set_max_stale : Option (RemoteConfig C) → ℤ → Option (RemoteConfig C)
  set_max_stale none max_stale = none
  set_max_stale (some b) max_stale =
      if ltb_ℤ (pos 0) max_stale then some (record b { max_stale = max_stale }) else some b

  unfoldable pub remote : List Text → Option (RemoteConfig C)
  unfolding set_url
  remote [] =
      some (record { url = []; http_client = none; refresh_interval = pos 0; max_stale = pos 0 })
  remote (url ∷ urls) =
      set_url
        (some
          (record { url = []; http_client = none; refresh_interval = pos 0; max_stale = pos 0 }))
        url

  unfoldable pub build : Option (RemoteConfig C) → Option RemoteProvider
  build none = none
  build (some b) = new_remote_provider b
