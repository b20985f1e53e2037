-- ===== src/Service/Loaders.antt =====
-- imap/loader.go and imap/service.go: the registration of a map's loader or backing store.
use medusa.Base.{◌≡◌, Bytes, none, some, arith, if◌then◌else◌, same}
use medusa.GoMap
use medusa.GoMap.{lookup-insert}
use medusa.Service.{
  Node, MapLoader, MapStore, Registered, read_only, read_write, loader_of, map_store_of,
}

-- `loaderRegistry.set`
abbrev set_loader : Node → Bytes → Registered → Node
set_loader n name l = record {
  self = n.self;
  table = n.table;
  addrs = n.addrs;
  store = n.store;
  wal = n.wal;
  loaders = GoMap.insert name l n.loaders;
}

-- `SetMapLoader`, whose argument may have the methods of a `MapStore` too
abbrev set_map_loader : Node → Bytes → Registered → Node
set_map_loader n name l = set_loader n name l

abbrev set_map_store : Node → Bytes → MapStore → Node
set_map_store n name m = set_loader n name (read_write m)

-- A map's loader is the one that was set last for its name.
loader_of-set_map_store :
    (n : Node) (name other : Bytes) (m : MapStore)
    → loader_of (set_map_store n name m) other
      ≡ (if same name other then some m.loads else loader_of n other)
unfolding loader_of
loader_of-set_map_store n name other m =
    ground (arith, lookup-insert name other (read_write m) n.loaders)

-- A loader that only reads takes a map's writes off the backing store that was set before it.
map_store_of-set_map_loader :
    (n : Node) (name other : Bytes) (l : MapLoader)
    → map_store_of (set_map_loader n name (read_only l)) other
      ≡ (if same name other then none else map_store_of n other)
unfolding map_store_of
map_store_of-set_map_loader n name other l =
    ground (arith, lookup-insert name other (read_only l) n.loaders)
