-- ===== src/Configuration.antt =====
-- The storage of daemons and its loading: src/cyberd/configuration.c.
--
-- The daemons stand in the store of the system; the tree refers to them by address and is ordered by
-- their names, which a comparison reads in the store. A configuration file is the list of its lines.
pub mod Names
pub mod Held
pub mod Moving
pub mod Creating
pub mod Inserting
pub mod Removing
pub mod Loading
pub mod Entries
pub mod Reloading
pub mod Destroying
pub mod Renewal
pub mod Finding
use cyberd.Base.{
  ℕ, Ordering, Bool, true, false, List, [], ◌∷◌, ◌==◌, if◌then◌else◌, Option, none, some, Outcome,
  ok, fault, use_after_free, ◌>>=◌, strcmp,
}
use cyberd.Tree.{Node, null, Tree, tree_insert, tree_remove, tree_find, tree_mutate, tree_deinit}
use cyberd.DaemonConf.{DaemonConf, daemon_conf_init}
use cyberd.DaemonConf.Values.{Host}
use cyberd.DaemonConf.Files.{daemon_conf_parse}
use cyberd.Daemons.{Daemon, System, fetch, put, daemon_create, daemon_destroy, daemon_start}

-- An element of the tree: an allocated daemon, or the one with a name that lives on the stack.
pub data Element : Type 0 where
  stored : ℕ → Element
  named : List ℕ → Element

-- `daemons`, with the system that its elements live in.
pub record Config : Type 0 where
  pub system : System
  pub daemons : Node Element

-- What the C library and the kernel answer in a system: malloc(3) with what the memory holds as a
-- pid, whether strdup(3) succeeds, and fork(2).
pub record Environment : Type 0 where
  pub host : Host
  pub default_umask : ℕ
  pub malloc : System → Option (ℕ × ℕ)
  pub strdup : System → Bool
  pub fork : System → Option ℕ

-- A `struct dirent`, and the lines of its file if it can be opened.
pub record Dirent : Type 0 where
  pub d_name : List ℕ
  pub opened : Option (List (List ℕ))

abbrev pub stored_name : Option Daemon → List ℕ
stored_name none = []
stored_name (some d) = d.name

-- `daemon->name` of an element. To read the name of a freed daemon is undefined in C; here it is empty.
unfoldable pub name_of : (ℕ → Option Daemon) → Element → List ℕ
name_of store (stored p) = stored_name (store p)
name_of store (named name) = name

unfoldable pub daemons_compare : (ℕ → Option Daemon) → Element → Element → Ordering
daemons_compare store a b = strcmp (name_of store a) (name_of store b)

abbrev pub tree_of : System → Node Element → Tree Element
tree_of s root = record { compare = daemons_compare s.store; root = root }

abbrev pub address : Element → Outcome ℕ
address (stored p) = ok p
address (named name) = fault use_after_free

-- daemons_remove_element: the tree that is left, and the element.
unfoldable pub daemons_remove_element :
    System → Node Element → List ℕ → Outcome (Node Element × Option Element)
daemons_remove_element s root name = do
  (t, found, freed) ← tree_remove (tree_of s root) (named name)
  ok (t.root, found)

unfoldable pub daemons_destroy_element : Element → System → Outcome System
daemons_destroy_element r s = do p ← address r; daemon_destroy s p

unfoldable pub configuration_find : Config → List ℕ → Option Element
configuration_find c name = tree_find (tree_of c.system c.daemons) (named name)

-- `tree_insert(&daemons, daemon)`
unfoldable pub insert_daemon : Config → ℕ → Outcome Config
insert_daemon c p = do
  t ← tree_insert (tree_of c.system c.daemons) (stored p)
  ok (record c { daemons = t.root })

-- `if (wanted) daemon_start(daemon);`
unfoldable pub start_if : Environment → Bool → Config → ℕ → Outcome Config
start_if env false c p = ok c
start_if env true c p = do
  s ← daemon_start c.system p (env.fork c.system)
  ok (record c { system = s })

-- configuration_load_daemon after daemon_conf_parse, by what it leaves and whether it returns zero.
unfoldable pub load_parsed : Environment → Config → ℕ → DaemonConf × Bool → Outcome Config
load_parsed env c p (conf, true) = do
  inserted ← insert_daemon c p
  start_if env conf.start.load inserted p
load_parsed env c p (conf, false) = do s ← daemon_destroy c.system p; ok (record c { system = s })

-- configuration_load_daemon after daemon_create.
unfoldable pub load_created : Environment → Config → ℕ → List (List ℕ) → Outcome Config
load_created env c p lines = do
  d ← fetch c.system p
  parsed ← daemon_conf_parse env.host d.conf lines
  load_parsed env (record c { system = put c.system p (record d { conf = parsed.0 }) }) p parsed

-- configuration_load_daemon with what daemon_create left and returned.
unfoldable pub load_new : Environment → Config → System × Option ℕ → List (List ℕ) → Outcome Config
load_new env c (s, none) lines = ok (record c { system = s })
load_new env c (s, some p) lines = load_created env (record c { system = s }) p lines

unfoldable pub configuration_load_daemon :
    Environment → Config → List ℕ → List (List ℕ) → Outcome Config
configuration_load_daemon env c name lines =
    load_new env c
      (daemon_create env.default_umask c.system (env.malloc c.system) (env.strdup c.system) name)
      lines

-- The new configuration of a daemon that was loaded before, by what daemon_conf_parse left and whether
-- it returned zero.
unfoldable pub reload_parsed :
    Environment → Config → ℕ → Daemon → DaemonConf × Bool → Outcome Config
reload_parsed env c p d (newconf, true) =
    start_if env newconf.start.reload
      (record c { system = put c.system p (record d { conf = newconf }) }) p
reload_parsed env c p d (newconf, false) = ok c

unfoldable pub reload_conf : Environment → Config → ℕ → List (List ℕ) → Outcome Config
reload_conf env c p lines = do
  parsed ← daemon_conf_parse env.host (daemon_conf_init env.default_umask) lines
  d ← fetch c.system p
  reload_parsed env c p d parsed

-- configuration_reload_daemon with the daemon that daemons_remove_element returned.
unfoldable pub reload_found :
    Environment → Config → Option Element → List ℕ → List (List ℕ) → Outcome Config
reload_found env c none name lines = configuration_load_daemon env c name lines
reload_found env c (some r) name lines = do
  p ← address r
  c' ← reload_conf env c p lines
  insert_daemon c' p

-- The second part of its result is `*olddaemons`.
unfoldable pub configuration_reload_daemon :
    Environment → Config → Node Element → List ℕ → List (List ℕ) → Outcome (Config × Node Element)
configuration_reload_daemon env c olddaemons name lines = do
  (left, found) ← daemons_remove_element c.system olddaemons name
  c' ← reload_found env c found name lines
  ok (c', left)

-- `*entry->d_name == '.'`
abbrev pub is_hidden : List ℕ → Bool
is_hidden [] = false
is_hidden (c ∷ name) = c == b'.'

-- One round of the loop of configuration_load, then of that of configuration_reload.
unfoldable pub load_entry : Environment → Config → Dirent → Outcome Config
load_entry env c entry = if is_hidden entry.d_name then ok c else elim (entry.opened) [
  | none ↦ ok c
  | some lines ↦ configuration_load_daemon env c entry.d_name lines
]

unfoldable pub reload_entry :
    Environment → Config → Node Element → Dirent → Outcome (Config × Node Element)
reload_entry env c old entry = if is_hidden entry.d_name then ok (c, old) else elim (entry.opened) [
  | none ↦ ok (c, old)
  | some lines ↦ configuration_reload_daemon env c old entry.d_name lines
]

-- The loops on readdir(3), over the entries that it gives before it ends or fails.
unfoldable pub load_entries : Environment → Config → List Dirent → Outcome Config
load_entries env c [] = ok c
load_entries env c (entry ∷ entries) =
    load_entry env c entry >>= λ next. load_entries env next entries

unfoldable pub reload_entries :
    Environment → Config → Node Element → List Dirent → Outcome (Config × Node Element)
reload_entries env c old [] = ok (c, old)
reload_entries env c old (entry ∷ entries) =
    reload_entry env c old entry >>= λ next. reload_entries env next.0 next.1 entries

-- tree_mutate with daemons_destroy_element, then tree_deinit, which frees nodes only.
unfoldable pub destroy_daemons : System → Node Element → Outcome System
destroy_daemons s root =
    tree_mutate (tree_of s root) (λ r m. m >>= daemons_destroy_element r) (ok s)

-- opendir(3) fails or gives the entries.
unfoldable pub configuration_load : Environment → Config → Option (List Dirent) → Outcome Config
configuration_load env c none = ok c
configuration_load env c (some entries) = load_entries env c entries

unfoldable pub configuration_reload : Environment → Config → Option (List Dirent) → Outcome Config
configuration_reload env c none = ok c
configuration_reload env c (some entries) = do
  (c', old) ← reload_entries env (record c { daemons = null }) c.daemons entries
  s ← destroy_daemons c'.system old
  ok (record c' { system = s })

unfoldable pub configuration_cleanup : Config → Outcome Config
configuration_cleanup c = do
  s ← destroy_daemons c.system c.daemons
  ok (record { system = s; daemons = null })
