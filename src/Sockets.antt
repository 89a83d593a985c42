-- ===== src/Sockets.antt =====
-- The sockets of cyberd: src/cyberd/socket_switch.c, socket_node.c, socket_endpoint_node.c and the node of
-- socket_connection_node.c.
--
-- A node is known by its descriptor, which it has from its creation to its end; `nodes` has what its
-- structure holds while it is allocated. What the kernel answers is a `Kernel`, and `files` are the
-- paths that sockets are bound to.
pub mod Kept
pub mod Removing
pub mod Acting
pub mod Serving
pub mod Stealing
pub mod Closing
use cyberd.Base.{
  ℕ, zero, suc, ◌+◌, ◌-◌, ◌≤◌, compare, Ordering, Bool, true, false, not, List, [], ◌∷◌, ◌++◌, ltb,
  leb, ◌==◌, if◌then◌else◌, Option, none, some, length, same_string, Outcome, ok, fault,
  out_of_bounds, null_dereference, use_after_free, assert, ◌>>=◌, ◌>>◌,
}
use cyberd.Tree.{Node, null, Tree, tree_insert, tree_remove, tree_find, tree_last, tree_mutate}
use cyberd.Capabilities.{capset_all}
use cyberd.Connection.{
  Parser, Action, queue_reboot, create_endpoint, start, stop, reload, finish, Howto, parser_feed,
  new_parser,
}
use cyberd.Daemons.{System, daemon_start, daemon_stop, daemon_reload, daemon_end}
use cyberd.Configuration.{Config, Environment, Element, address, configuration_find}

-- FD_SETSIZE, and the size of `sun_path`.
abbrev pub fd_setsize : ℕ
fd_setsize = 1024

abbrev pub sockaddr_un_maxlen : ℕ
sockaddr_un_maxlen = 108

-- `struct socket_endpoint_node`, with the path that getsockname(2) tells, and
-- `struct socket_connection_node`.
pub data SocketNode : Type 0 where
  endpoint : List ℕ → ℕ → SocketNode
  connection : Parser → SocketNode

pub record Switch : Type 0 where
  pub snodes : Node ℕ
  pub nodes : ℕ → Option SocketNode
  pub activeset : ℕ → Bool
  pub readset : ℕ → Bool
  pub files : List ℕ → Bool

-- The state of the process, with the requests that it queued to itself by sigqueue(3).
pub record World : Type 0 where
  pub config : Config
  pub switch : Switch
  pub queued : List Howto

-- The answers of the kernel and of malloc(3); `none` and `false` are errors, and a read(2) of no byte is
-- the end of the connection.
pub record Kernel : Type 0 where
  pub malloc : Switch → Bool
  pub socket : Switch → Option ℕ
  pub bind : Switch → List ℕ → Bool
  pub listen : Switch → Bool
  pub accept : Switch → ℕ → Option ℕ
  pub set_cloexec : Switch → ℕ → Bool
  pub getsockname : Switch → ℕ → Bool
  pub read : Switch → ℕ → Option (List ℕ)

abbrev pub write {ℓ} : {A : Type ℓ} → (ℕ → A) → ℕ → A → ℕ → A
write f n a m = if m == n then a else f m

-- A file that is there, or not, from now on.
abbrev pub write_file : (List ℕ → Bool) → List ℕ → Bool → List ℕ → Bool
write_file files path there name = if same_string name path then there else files name

-- The difference of two descriptors has their order.
unfoldable pub socket_nodes_compare : ℕ → ℕ → Ordering
socket_nodes_compare a b = compare a b

abbrev pub tree_of : Switch → Tree ℕ
tree_of sw = record { compare = socket_nodes_compare; root = sw.snodes }

-- FD_SET and FD_CLR write at a descriptor, which is not checked.
unfoldable pub fd_write : (ℕ → Bool) → ℕ → Bool → Outcome (ℕ → Bool)
fd_write set fd there = if ltb fd fd_setsize then ok (write set fd there) else fault out_of_bounds

unfoldable pub socket_switch_insert : Switch → ℕ → SocketNode → Outcome Switch
socket_switch_insert sw fd snode = do
  active ← fd_write sw.activeset fd true
  t ← tree_insert (tree_of sw) fd
  ok (record sw { snodes = t.root; nodes = write sw.nodes fd (some snode); activeset = active })

-- A read of the structure of a node.
unfoldable pub fetch_node : Switch → ℕ → Outcome SocketNode
fetch_node sw fd = elim (sw.nodes fd) [ none ↦ fault use_after_free | some snode ↦ ok snode ]

-- `snode->class->destroy(snode)`: socket_endpoint_node_destroy or socket_connection_node_destroy.
unfoldable pub socket_node_destroy : Kernel → Switch → ℕ → Outcome Switch
socket_node_destroy k sw fd = do
  snode ← fetch_node sw fd
  let closed = record sw { nodes = write sw.nodes fd none }
  ok (elim snode [
    | endpoint path capabilities ↦
        if k.getsockname sw fd
        then record closed { files = write_file sw.files path false }
        else closed
    | connection parser ↦ closed
  ])

-- `removed == snode`
abbrev is_removed : Option ℕ → ℕ → Bool
is_removed none fd = false
is_removed (some removed) fd = removed == fd

unfoldable pub socket_switch_remove : Kernel → Switch → ℕ → Outcome Switch
socket_switch_remove k sw fd = do
  (t, removed, freed) ← tree_remove (tree_of sw) fd
  assert (is_removed removed fd)
  active ← fd_write sw.activeset fd false
  socket_node_destroy k (record sw { snodes = t.root; activeset = active }) fd

-- The set for pselect(2), and its first argument.
unfoldable pub socket_switch_prepare : Switch → Switch × ℕ
socket_switch_prepare sw = (
  record sw { readset = sw.activeset },
  elim (tree_last (tree_of sw)) [ none ↦ 0 | some fd ↦ fd + 1 ],
)

unfoldable pub socket_switch_find : Switch → ℕ → Option ℕ
socket_switch_find sw fd = tree_find (tree_of sw) fd

-- `"%s/%s"`
abbrev pub endpoint_path : List ℕ → List ℕ → List ℕ
endpoint_path directory name = directory ++ b'/' ∷ name

-- socket_endpoint_node_create from bind(2) on: a failure of bind or listen unlinks the path.
unfoldable pub bind_endpoint : Kernel → Switch → ℕ → List ℕ → ℕ → Switch × Option (ℕ × SocketNode)
bind_endpoint k sw fd path capabilities =
    let unlinked = record sw { files = write_file sw.files path false } in
    let bound = record sw { files = write_file sw.files path true } in
    if k.bind sw path
    then if k.listen bound then (bound, some (fd, endpoint path capabilities)) else (unlinked, none)
    else (unlinked, none)

unfoldable pub socket_endpoint_node_create :
    Kernel → List ℕ → Switch → List ℕ → ℕ → Switch × Option (ℕ × SocketNode)
socket_endpoint_node_create k directory sw name capabilities =
    if k.malloc sw
    then elim (k.socket sw) [
      | none ↦ (sw, none)
      | some fd ↦
          if leb sockaddr_un_maxlen (length (endpoint_path directory name))
          then (sw, none)
          else bind_endpoint k sw fd (endpoint_path directory name) capabilities
    ]
    else (sw, none)

-- socket_connection_node_create
unfoldable pub socket_connection_node_create : Kernel → Switch → ℕ → Option SocketNode
socket_connection_node_create k sw capabilities =
    if k.malloc sw then some (connection (new_parser capabilities)) else none

-- socket_endpoint_node_operate: a connection with the capabilities of its endpoint.
unfoldable pub socket_endpoint_node_operate : Kernel → Switch → ℕ → ℕ → Outcome Switch
socket_endpoint_node_operate k sw fd capabilities = elim (k.accept sw fd) [
  | none ↦ ok sw
  | some new ↦
      if k.set_cloexec sw new
      then elim (socket_connection_node_create k sw capabilities) [
        | none ↦ ok sw
        | some snode ↦ socket_switch_insert sw new snode
      ]
      else ok sw
]

-- `if (snode != NULL) socket_switch_insert(snode);`
unfoldable pub insert_created : Switch × Option (ℕ × SocketNode) → Outcome Switch
insert_created (sw, none) = ok sw
insert_created (sw, some (fd, snode)) = socket_switch_insert sw fd snode

-- `if (daemon != NULL) action(daemon);`
unfoldable pub act_on : (System → ℕ → Outcome System) → World → List ℕ → Outcome World
act_on act w name = elim (configuration_find w.config name) [
  | none ↦ ok w
  | some r ↦ do
    p ← address r
    s ← act w.config.system p
    ok (record w { config = record (w.config) { system = s } })
]

-- What the parser asks for, done.
unfoldable pub run_action : Environment → Kernel → List ℕ → Action → World → Outcome World
run_action env k directory (queue_reboot howto) w =
    ok (record w { queued = w.queued ++ howto ∷ [] })
run_action env k directory (create_endpoint name capabilities) w = do
  sw ← insert_created (socket_endpoint_node_create k directory w.switch name capabilities)
  ok (record w { switch = sw })
run_action env k directory (start name) w = act_on (λ s p. daemon_start s p (env.fork s)) w name
run_action env k directory (stop name) w = act_on daemon_stop w name
run_action env k directory (reload name) w = act_on daemon_reload w name
run_action env k directory (finish name) w = act_on daemon_end w name

unfoldable pub run_actions : Environment → Kernel → List ℕ → List Action → World → Outcome World
run_actions env k directory [] w = ok w
run_actions env k directory (a ∷ rest) w =
    run_action env k directory a w >>= λ w'. run_actions env k directory rest w'

-- What parser_feed does to the world: what it asked for is done, also before a fault, and the node keeps
-- the parser.
unfoldable pub run_fed :
    Environment → Kernel → List ℕ → World → ℕ → List Action × Outcome Parser → Outcome World
run_fed env k directory w fd (asked, fed) = do
  w' ← run_actions env k directory asked w
  p ← fed
  ok (record w' {
    switch = record (w'.switch) { nodes = write w'.switch.nodes fd (some (connection p)) };
  })

-- socket_connection_node_operate, on a host that is little-endian or not.
unfoldable pub socket_connection_node_operate :
    Bool → Environment → Kernel → List ℕ → World → ℕ → Parser → Outcome World
socket_connection_node_operate little_endian env k directory w fd parser =
    elim (k.read w.switch fd) [
      | none ↦ do sw ← socket_switch_remove k w.switch fd; ok (record w { switch = sw })
      | some [] ↦ do sw ← socket_switch_remove k w.switch fd; ok (record w { switch = sw })
      | some (c ∷ bytes) ↦
          run_fed env k directory w fd (parser_feed little_endian parser (c ∷ bytes))
    ]

-- `snode->class->operate(snode)`
unfoldable pub socket_node_operate :
    Bool → Environment → Kernel → List ℕ → World → ℕ → Outcome World
socket_node_operate little_endian env k directory w fd = do
  snode ← fetch_node w.switch fd
  elim snode [
    | endpoint path capabilities ↦ do
      sw ← socket_endpoint_node_operate k w.switch fd capabilities
      ok (record w { switch = sw })
    | connection parser ↦ socket_connection_node_operate little_endian env k directory w fd parser
  ]

-- The loop of socket_switch_operate, with so many descriptors left below FD_SETSIZE.
unfoldable pub operate_from :
    ℕ → Bool → Environment → Kernel → List ℕ → ℕ → ℕ → World → Outcome World
operate_from zero little_endian env k directory fd nfds w = ok w
operate_from (suc left) little_endian env k directory fd nfds w = elim (nfds == 0) [
  | true ↦ ok w
  | false ↦ elim (w.switch.readset fd) [
    | false ↦ operate_from left little_endian env k directory (fd + 1) nfds w
    | true ↦ elim (socket_switch_find w.switch fd) [
      | none ↦ fault null_dereference
      | some found ↦ do
        w' ← socket_node_operate little_endian env k directory w found
        operate_from left little_endian env k directory (fd + 1) (nfds - 1) w'
    ]
  ]
]

unfoldable pub socket_switch_operate :
    Bool → Environment → Kernel → List ℕ → ℕ → World → Outcome World
socket_switch_operate little_endian env k directory nfds w =
    operate_from fd_setsize little_endian env k directory 0 nfds w

-- socket_switch_setup; `made` says if mkdir(2) succeeded or the directory was there.
unfoldable pub socket_switch_setup : Kernel → List ℕ → Bool → List ℕ → Switch → Outcome Switch
socket_switch_setup k directory made root sw =
    if made
    then insert_created (socket_endpoint_node_create k directory sw root capset_all)
    else ok sw

-- socket_switch_teardown
unfoldable pub socket_switch_teardown : Kernel → Switch → Outcome Switch
socket_switch_teardown k sw =
    tree_mutate (tree_of sw) (λ fd m. m >>= λ sw'. socket_node_destroy k sw' fd) (ok sw)
