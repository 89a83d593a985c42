-- ===== src/Sockets/Stealing.antt =====
-- socket_endpoint_node_create of src/cyberd/socket_endpoint_node.c for the name of an endpoint that exists.
use cyberd.Base.{
  ℕ, Bool, true, false, List, none, some, length, leb, ◌≡◌, ◌<◌, refl, arith, Ordering, lt, eq, gt,
  if◌then◌else◌, strcmp,
}
use cyberd.Configuration.Names.{strcmp_refl}
use cyberd.Sockets.{
  Switch, Kernel, endpoint_path, sockaddr_un_maxlen, write_file, bind_endpoint,
  socket_endpoint_node_create,
}

-- bind(2) fails on a path that exists.
abbrev pub BindsNewPaths : Kernel → Type 0
BindsNewPaths k = (sw : Switch) (path : List ℕ) → sw.files path ≡ true → k.bind sw path ≡ false

pub write_file_same :
    (files : List ℕ → Bool) (path : List ℕ) (there : Bool)
    → write_file files path there path ≡ there
write_file_same files path there = picks (strcmp path path) (strcmp_refl path)
  where
    picks :
        (o : Ordering)
        → o ≡ eq
        → (if elim o [ eq ↦ true | _ ↦ false ] then there else files path) ≡ there
    picks eq h = refl
    picks lt h = absurd cc
    picks gt h = absurd cc

-- To create an endpoint with the name of one that exists fails, and unlinks the path of the
-- existing one, whose node stays: bind(2) fails on a path that exists, malloc(3) and socket(2)
-- succeed, and the path fits.
pub socket_endpoint_node_create_steals :
    (k : Kernel) (directory name : List ℕ) (sw : Switch) (capabilities fd : ℕ)
    → BindsNewPaths k
    → k.malloc sw ≡ true
    → k.socket sw ≡ some fd
    → length (endpoint_path directory name) < sockaddr_un_maxlen
    → sw.files (endpoint_path directory name) ≡ true
    → let r = socket_endpoint_node_create k directory sw name capabilities in
      (r.1 ≡ none) × (r.0.files (endpoint_path directory name) ≡ false) × (r.0.nodes ≡ sw.nodes)
unfolding socket_endpoint_node_create bind_endpoint
socket_endpoint_node_create_steals k directory name sw capabilities fd b m s l f =
    let path = endpoint_path directory name in
    let short : leb sockaddr_un_maxlen (length path) ≡ false = ground (arith, l) in
    rw (m, s, short, b sw path f) ((refl, write_file_same sw.files path false, refl))
