-- ===== src/Server/Config/Builder.antt =====
-- server/config.go: the builder of a configuration, which may be nil.
use orionis.Base.{Option, none, some, List, [], ◌∷◌, ◌++◌, if◌then◌else◌}
use orionis.Base.Int.{ℤ, pos, ltb_ℤ}
use orionis.Text.{Text, trim_space, trim_right_slash}
use orionis.Server.Client.{Client}
use orionis.Server.Store.{ClientStore}
use orionis.Server.Config.{Signer, Config, Built, build_failed, nil_builder, build_server}

module _ {Clock : Type 0} where
  unfoldable pub empty_config : Config Clock
  empty_config = record {
    issuer = [];
    store = none;
    signers = [];
    active_kid = [];
    access_token_ttl = pos 0;
    max_token_request_body = pos 0;
    now = none;
    clients = [];
  }

  unfoldable pub from_config : Config Clock → Option (Config Clock)
  from_config cfg = some cfg

  unfoldable pub set_issuer : Option (Config Clock) → Text → Option (Config Clock)
  set_issuer none issuer = none
  set_issuer (some b) issuer = some (record b { issuer = trim_right_slash (trim_space issuer) })

  unfoldable pub set_store : Option (Config Clock) → Option ClientStore → Option (Config Clock)
  set_store none store = none
  set_store (some b) none = some b
  set_store (some b) (some store) = some (record b { store = some store })

  unfoldable pub add_client : Option (Config Clock) → Client → Option (Config Clock)
  add_client none client = none
  add_client (some b) client = some (record b { clients = b.clients ++ client ∷ [] })

  unfoldable pub add_clients : Option (Config Clock) → List Client → Option (Config Clock)
  unfolding add_client
  add_clients b [] = b
  add_clients b (client ∷ clients) = add_clients (add_client b client) clients

  unfoldable pub add_signer : Option (Config Clock) → Option Signer → Option (Config Clock)
  add_signer none signer = none
  add_signer (some b) none = some b
  add_signer (some b) (some signer) = some (record b { signers = b.signers ++ some signer ∷ [] })

  unfoldable pub add_signers : Option (Config Clock) → List (Option Signer) → Option (Config Clock)
  unfolding add_signer
  add_signers b [] = b
  add_signers b (signer ∷ signers) = add_signers (add_signer b signer) signers

  unfoldable pub set_active_kid : Option (Config Clock) → Text → Option (Config Clock)
  set_active_kid none kid = none
  set_active_kid (some b) kid = some (record b { active_kid = trim_space kid })

  unfoldable pub set_access_token_ttl : Option (Config Clock) → ℤ → Option (Config Clock)
  set_access_token_ttl none ttl = none
  set_access_token_ttl (some b) ttl =
      if ltb_ℤ (pos 0) ttl then some (record b { access_token_ttl = ttl }) else some b

  unfoldable pub max_body : Option (Config Clock) → ℤ → Option (Config Clock)
  max_body none size = none
  max_body (some b) size =
      if ltb_ℤ (pos 0) size then some (record b { max_token_request_body = size }) else some b

  unfoldable pub set_clock : Option (Config Clock) → Option Clock → Option (Config Clock)
  set_clock none now = none
  set_clock (some b) none = some b
  set_clock (some b) (some now) = some (record b { now = some now })

  unfoldable pub build : Clock → Option (Config Clock) → Built Clock
  build system_clock none = build_failed nil_builder
  build system_clock (some b) = build_server system_clock b
