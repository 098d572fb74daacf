-- ===== src/Jwt/Stores/Default.antt =====
-- jwt/store.go: `defaultTokenStore` keeps what `JWT` relies on.
use glibs.Base.{list_eq}
use glibs.Base.Dict.{lookup-insert_self, lookup-erase_self}
use glibs.Base.Bytes.{Bytes}
use glibs.Jwt.{get_jwt_key}
use glibs.Jwt.Session.{IsTokenStore}
use glibs.Jwt.Stores.{default_token_store}

-- The store in memory gives back what was last written for an id, and nothing behind a deletion.
pub default_token_store-IsTokenStore : IsTokenStore default_token_store
default_token_store-IsTokenStore = record {
  get-set_self = λ now later id t s. lookup-insert_self (get_jwt_key id) t s;
  get-del_self = λ later id s. lookup-erase_self (get_jwt_key id) s;
}
