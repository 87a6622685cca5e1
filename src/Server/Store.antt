-- ===== src/Server/Store.antt =====
-- server/store.go: the client store in memory. A lock is held during each operation, so an operation
-- is one step.
pub mod Laws
pub mod Filling
use orionis.Base.{
  ◌≡◌, refl, Bool, true, false, Option, none, some, List, [], ◌∷◌, if◌then◌else◌, is_nil,
}
use orionis.Text.{Text, trim_space}
use orionis.Text.Dict.{lookup, insert}
use orionis.Server.Client.{Client, normalize}

-- What `FindClient` of a store answers; `client_not_found` is an error that is ErrClientNotFound,
-- `find_unauthorized` one that is ErrUnauthorized, and `find_failed` any other error of a store.
pub data FindResult : Type 0 where
  client_found : Client → FindResult
  client_not_found : FindResult
  find_unauthorized : FindResult
  find_failed : FindResult

-- The interface `ClientStore`.
abbrev pub ClientStore : Type 0
ClientStore = Text → FindResult

pub record MemoryClientStore : Type 0 where
  pub clients : List (Text × Client)

unfoldable pub upsert : MemoryClientStore → Client → MemoryClientStore
upsert s client =
    if is_nil (normalize client).id
    then s
    else record { clients = insert (normalize client).id (normalize client) s.clients }

pub upsert_all : MemoryClientStore → List Client → MemoryClientStore
upsert_all s [] = s
upsert_all s (client ∷ clients) = upsert_all (upsert s client) clients

unfoldable pub new_memory_client_store : List Client → MemoryClientStore
unfolding upsert_all
new_memory_client_store clients = upsert_all (record { clients = [] }) clients

find_in : Option Client → FindResult
find_in none = client_not_found
find_in (some client) = if client.disabled then client_not_found else client_found client

unfoldable pub find_client : MemoryClientStore → Text → FindResult
unfolding find_in
find_client s id = find_in (lookup (trim_space id) s.clients)
