-- ===== src/Lib.antt =====
-- cyberd is an init process: it starts the daemons that configuration files describe, keeps them by
-- name and by pid, takes commands from clients of local sockets, reaps its children and, at the end,
-- stops them all.
--
-- The parts of the program and how they interact:
--
-- - src/cyberd/tree.c, tree.h: an AVL tree over a comparison function, which stores daemons by name,
--   daemons with a process by pid, and socket nodes by descriptor. Tree.antt has its functions:
--   `insert` is tree_node_insert, with `grow_left` and `grow_right` for the rotations after the
--   recursive call; `remove` is tree_node_remove, with `unlink_root`, `successor` and `rebalance` for
--   its parts; `tree_insert`, `tree_remove`, `tree_find`, `tree_last`, `tree_mutate` and `tree_deinit`
--   are the functions of the header. Tree/Sequence.antt says what a tree stands for, a sequence
--   from least to greatest, and Tree/Valid.antt when it is well formed.
-- - src/cyberd/capabilities.h: the bits of a set of capabilities. Capabilities.antt.
-- - src/cyberd/socket_connection_node.c: a connection reads bytes and feeds them to a parser of
--   commands, which acts on daemons and endpoints. Connection.antt has the parser; `Action` is
--   what it asks of the other parts, which `run_action` of Sockets.antt does, in their order and also for
--   what was asked before a fault of the parser.
--   Connection/Relation.antt gives its rounds as a step relation, on which the theorems are proved by
--   induction.
-- - src/cyberd/daemon_conf.c, daemon_conf.h: the configuration of a daemon. DaemonConf.antt has the
--   record and daemon_conf_init, DaemonConf/Values.antt the parsers of single values (`parse_general_user`
--   is daemon_conf_parse_general_user), with strtoul(3), strtol(3) and strcasecmp(3) in
--   DaemonConf/Numbers.antt and DaemonConf/Names.antt. DaemonConf/Arguments.antt has the splitting of
--   arguments in a copy of the value; DaemonConf/Arguments/Splitting.antt says without a buffer which
--   words there are. DaemonConf/Lines.antt has daemon_conf_parse_line on the buffer of getline(3), as
--   `parse_line`, and DaemonConf/Files.antt the tables of sections and values and daemon_conf_parse. How one
--   writes a line is `print_line` of DaemonConf/Lines/Layouts.antt.
-- - src/cyberd/daemon.c, daemon.h, spawns.c and the reaping in src/cyberd/main.c: starting, stopping and
--   ending a daemon, the tree of daemons with a process, and what happens when a child ends.
--   Daemons.antt has these functions under their own names. The structures stand in a store by
--   address, since the tree of spawns holds pointers that the tree of daemons owns and compares the
--   pids that the structures have at that time. Daemons/Consistent.antt has the invariant that
--   spawns.c and daemon.h state in words, Daemons/Reachable.antt the calls as a step relation.
-- - daemon_child_setup of src/cyberd/daemon.c, which runs in the process of a new daemon until execve(2):
--   Child.antt, as a run over the answers of a kernel. Child/Process.antt says what the calls do to a
--   process.
-- - src/cyberd/configuration.c: the tree of daemons by name, which owns them, and its loading and
--   reloading from a directory. Configuration.antt has its functions under their own names, with
--   `load_parsed`, `load_new` and `reload_found` for what follows a call that has several results.
--   Configuration/Held.antt has the invariant of a storage that is well kept.
-- - src/cyberd/socket_switch.c, socket_node.c, socket_endpoint_node.c and the node of
--   socket_connection_node.c: the descriptors that pselect(2) watches. Sockets.antt has these functions; the
--   classes of nodes are the constructors of `SocketNode`, and a call through a class is a case on them.
--   Sockets/Kept.antt has the invariant of a switch that is well kept.
-- - src/cyberd/signals.c: Signals.antt, handlers on flags and masks.
-- - src/cyberd/main.c: Main.antt composes the parts in `setup`, with `rc`, `main_loop` and `teardown`;
--   `main` is the function of that name up to teardown, and a `Process` is the state of all parts, with
--   the flags and masks of signals, which setup and teardown set by signals_setup and signals_alarm.
-- - src/cyberctl.c: Client.antt, what a client writes for its arguments. Client/Exits.antt says what its ends
--   mean, without the functions of the client.
--
-- How the code is read:
--
-- - A result that C leaves undefined, an abort(3) or a failed assert(3) is a fault of `Outcome`
--   (Base/Outcomes.antt): a null pointer, a byte out of bounds, a shift that is too large, a structure that
--   was freed. A theorem that says that code returns says that none of these happens.
-- - Numbers are natural numbers, with the wrap to 32 bits written out where the code can meet it.
--   A pid is positive and below 2 ^ 31, so that the difference of two pids has their order.
-- - The answers of the kernel and of the C library are arguments: the result of fork(2), the
--   children that waitid(2) gives, the address of malloc(3). What is required of them is a named hypothesis:
--   `ForkFresh` and `ReapFresh` (the pid of a new process is that of no process which was not waited
--   for), `OpensFree` (open(2) gives a free descriptor), `DropsPrivileges` (setgid(2) fails after setuid(2) gave up root's privileges), a free address
--   for a new structure. `IsEnvironment` puts the mask, the address and the pid together, `IsKernel` asks
--   for new descriptors below FD_SETSIZE, `BindsNewPaths` for a bind(2) that fails on a path that exists,
--   and `Fits` for an answer that goes with the state: ready descriptors are watched ones, files of the
--   directory have lines that parse and different names, and children that are reaped have ended. The
--   databases of users and groups, whether there is memory for a copy of a
--   string, and the macros of the build are a `Host`, an `Environment` or a `Build`.
-- - Calls of kill(2), that of all processes at the end among them, and of fork(2) are a trace. Logging is left out, since it changes no state.
-- - The loop of the parser runs on fuel, three rounds more than there are bytes, which are enough
--   on every input up to the end of the loop or a fault (Connection/Termination.antt); a read
--   behind the bytes that were received is such a fault, where C, which leaves it undefined, may
--   go on. The loop over the arguments has two rounds more than the value has bytes, which are
--   enough on every value. The loops of main, of rc and of teardown run over the lists of the
--   answers that come; the loop on ready descriptors runs below FD_SETSIZE. All other loops are
--   recursive on their data.
--
-- Not modelled: setsid(2), sync(2) and the logging in setup and teardown, which change no state of the
-- program; daemon_conf_deinit, daemon_conf_list_free and the frees of a build without NDEBUG in the
-- teardown, which only free memory; the ends of the client by an error of the kernel; the test of the tree in
-- test/cyberd-tree.c, the build configuration, the manuals and the examples.
pub mod Base
pub mod Tree
pub mod Capabilities
pub mod Connection
pub mod DaemonConf
pub mod Daemons
pub mod Child
pub mod Configuration
pub mod Sockets
pub mod Signals
pub mod Main
pub mod Client
pub mod Tests
