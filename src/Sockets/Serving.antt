-- ===== src/Sockets/Serving.antt =====
-- socket_switch_operate of src/cyberd/socket_switch.c on the invariants of the daemons and the nodes.
use cyberd.Base.{
  ℕ, zero, suc, ◌≤◌, ◌+◌, ◌-◌, Bool, true, Option, none, some, List, [], ◌∷◌, ◌==◌, ◌≡◌, refl, sym,
  ap, ◌∙◌, subst, arith, Among, inl, inr, Option-cases, Bool-cases, Outcome-cases, Returns, returns,
  Returns->>=, Returns-imp, Outcome, Fault, ok, fault, ◌>>=◌,
}
use cyberd.Tree.Search.{tree_find-lookup}
use cyberd.Tree.Members.{Among-lookup}
use cyberd.Connection.{Action, Parser, parser_feed, new_parser}
use cyberd.Configuration.{Environment}
use cyberd.Configuration.Loading.{IsEnvironment}
use cyberd.Sockets.{
  SocketNode, endpoint, connection, Switch, World, Kernel, fd_setsize, tree_of,
  socket_nodes_compare, socket_switch_remove, socket_switch_find, socket_connection_node_create,
  socket_endpoint_node_operate, socket_connection_node_operate, socket_node_operate, operate_from,
  socket_switch_operate, run_fed,
}
use cyberd.Sockets.Kept.{
  fetch_node-ok, Kept, Serves, descriptors, socket_switch_insert-Kept,
  socket_nodes_compare-IsLawful, compare_same, switch-IsValid,
}
use cyberd.Sockets.Removing.{socket_switch_remove-Removed, written-Kept}
use cyberd.Sockets.Acting.{IsKernel, Sound, Serves-refl, run_actions-Acts}

-- The code returns what satisfies `P`, unless bytes that the kernel gives for a connection make its parser
-- fault.
pub data Served {A : Type 0} (P : A → Type 0) (k : Kernel) (little_endian : Bool) (m : Outcome A)
    : Type 0 where
  served : Returns P m → Served P k little_endian m
  parser_fault :
      (sw : Switch) (fd : ℕ) (parser : Parser) (bytes : List ℕ) (e : Fault)
      → Kept sw
      → sw.nodes fd ≡ some (connection parser)
      → k.read sw fd ≡ some bytes
      → (parser_feed little_endian parser bytes).1 ≡ fault e
      → m ≡ fault e
      → Served P k little_endian m

pub Served->>= :
    {A B : Type 0} {P : A → Type 0} {Q : B → Type 0} {k : Kernel} {b : Bool} {m : Outcome A}
    {f : A → Outcome B}
    → Served P k b m
    → ((w : A) → m ≡ ok w → P w → Served Q k b (f w))
    → Served Q k b (m >>= f)
Served->>= {Q = Q} {k = k} {b = b} {f = f} (served (returns w e p)) g =
    subst (λ n. Served Q k b (n >>= f)) (sym e) (g w e p)
Served->>= {f = f} (parser_fault sw fd parser bytes e c a i q r) g =
    parser_fault sw fd parser bytes e c a i q (ap (λ n. n >>= f) r)

module _ (little_endian : Bool) (env : Environment) (v : IsEnvironment env) (k : Kernel)
    (u : IsKernel k) (directory : List ℕ) (names : List (List ℕ)) where
  -- What operating the node at `fd` leaves.
  abbrev Operated : ℕ → World → World → Type 0
  Operated fd w t = Sound env names t × Serves fd w.switch t.switch

  endpoint-Operated :
      (w : World) (fd capabilities : ℕ)
      → Sound env names w
      → Returns
          (λ t. Kept t × Serves fd w.switch t)
          (socket_endpoint_node_operate k w.switch fd capabilities)
  unfolding socket_endpoint_node_operate socket_connection_node_create
  endpoint-Operated w fd capabilities s =
      let same : Kept w.switch × Serves fd w.switch w.switch = (s.1, Serves-refl fd w.switch) in
      elim (Option-cases (k.accept w.switch fd)) [
        | inl a ↦ rw (a, socket_endpoint_node_operate) (returns w.switch refl same)
        | inr (new, a) ↦ elim (Bool-cases (k.set_cloexec w.switch new)) [
          | inr b ↦ rw (a, b, socket_endpoint_node_operate) (returns w.switch refl same)
          | inl b ↦ elim (Bool-cases (k.malloc w.switch)) [
            | inr c ↦ rw (a, b, c, socket_endpoint_node_operate) (returns w.switch refl same)
            | inl c ↦
                rw (a, b, c, socket_endpoint_node_operate)
                  (Returns-imp
                    (socket_switch_insert-Kept w.switch new (connection (new_parser capabilities))
                      s.1 (u.accept_new w.switch fd new a))
                    λ t g. (g.0, g.1 fd))
          ]
        ]
      ]

  removal-Operated :
      (w : World) (fd : ℕ)
      → Sound env names w
      → Among fd (descriptors w.switch)
      → Served
          (Operated fd w)
          k
          little_endian
          (socket_switch_remove k w.switch fd >>= λ sw. ok (record w { switch = sw }))
  removal-Operated w fd s m = served (
      Returns->>= (socket_switch_remove-Removed k w.switch fd s.1 m)
        λ t _ g. returns (record w { switch = t }) refl ((s.0, g.0), g.1))

  -- The parser is kept after the actions, which leave the node there.
  run_fed-Operated :
      (w : World) (fd : ℕ) (r : List Action × Outcome Parser) (p : Parser)
      → r.1 ≡ ok p
      → Sound env names w
      → Among fd (descriptors w.switch)
      → Returns (Operated fd w) (run_fed env k directory w fd r)
  unfolding run_fed
  run_fed-Operated w fd (asked, fed) p e s m =
      Returns->>= (run_actions-Acts env v names k u directory asked w s) λ t _ g.
        let there = (g.1 (fd + 1)).0 fd (ground arith) m in
        rw e (returns _ refl ((g.0.0, written-Kept t.switch fd (connection p) g.0.1 there), g.1 fd))

  run_fed-fault :
      (w : World) (fd : ℕ) (r : List Action × Outcome Parser) (e : Fault)
      → r.1 ≡ fault e
      → Sound env names w
      → run_fed env k directory w fd r ≡ fault e
  unfolding run_fed
  run_fed-fault w fd (asked, fed) e q s =
      elim (run_actions-Acts env v names k u directory asked w s) [ returns t i g ↦ rw (i, q) refl ]

  connection-Operated :
      (w : World) (fd : ℕ) (parser : Parser)
      → Sound env names w
      → Among fd (descriptors w.switch)
      → w.switch.nodes fd ≡ some (connection parser)
      → Served
          (Operated fd w)
          k
          little_endian
          (socket_connection_node_operate little_endian env k directory w fd parser)
  unfolding socket_connection_node_operate
  connection-Operated w fd parser s m a = go (k.read w.switch fd) refl
    where
      go :
          (o : Option (List ℕ))
          → k.read w.switch fd ≡ o
          → Served (Operated fd w) k little_endian (elim o [
            | none ↦ do sw ← socket_switch_remove k w.switch fd; ok (record w { switch = sw })
            | some [] ↦ do sw ← socket_switch_remove k w.switch fd; ok (record w { switch = sw })
            | some (c ∷ bytes) ↦
                run_fed env k directory w fd (parser_feed little_endian parser (c ∷ bytes))
          ])
      go none i = removal-Operated w fd s m
      go (some []) i = removal-Operated w fd s m
      go (some (c ∷ bytes)) i =
          let r = parser_feed little_endian parser (c ∷ bytes) in
          elim (Outcome-cases (r.1)) [
            | inl (p, e) ↦ served (run_fed-Operated w fd r p e s m)
            | inr (e, q) ↦
                parser_fault w.switch fd parser (c ∷ bytes) e s.1 a i q (run_fed-fault w fd r e q s)
          ]

  fetched-Operated :
      (w : World) (fd : ℕ) (snode : SocketNode)
      → Sound env names w
      → Among fd (descriptors w.switch)
      → w.switch.nodes fd ≡ some snode
      → Served
          (Operated fd w)
          k
          little_endian
          (socket_node_operate little_endian env k directory w fd)
  unfolding socket_node_operate
  fetched-Operated w fd (endpoint path capabilities) s m a =
      rw (fetch_node-ok w.switch fd _ a, socket_node_operate)
        (served (
          Returns->>= (endpoint-Operated w fd capabilities s)
            λ t _ g. returns (record w { switch = t }) refl ((s.0, g.0), g.1)))
  fetched-Operated w fd (connection parser) s m a =
      rw (fetch_node-ok w.switch fd _ a, socket_node_operate)
        (connection-Operated w fd parser s m a)

  node-Operated :
      (w : World) (fd : ℕ)
      → Sound env names w
      → Among fd (descriptors w.switch)
      → Served
          (Operated fd w)
          k
          little_endian
          (socket_node_operate little_endian env k directory w fd)
  node-Operated w fd s m = let (snode, a) = s.1.allocated fd m in fetched-Operated w fd snode s m a

  -- The descriptors from `fd` on that are still to be served have a node.
  abbrev pub Ready : ℕ → Switch → Type 0
  Ready fd sw = (n : ℕ) → fd ≤ n → sw.readset n ≡ true → Among n (descriptors sw)

  later-Ready : (fd : ℕ) (a b : Switch) → Ready fd a → Serves fd a b → Ready (fd + 1) b
  later-Ready fd a b r g n l h =
      g.0 n (ground (arith, l)) (r n (omega (arith, l)) (ap (λ set. set n) (sym g.1) ∙ h))

  operate_from-Served :
      (left fd nfds : ℕ) (w : World)
      → Sound env names w
      → Ready fd w.switch
      → Served
          (Sound env names)
          k
          little_endian
          (operate_from left little_endian env k directory fd nfds w)
  unfolding operate_from socket_switch_find
  operate_from-Served zero fd nfds w s r = served (returns w refl s)
  operate_from-Served (suc left) fd nfds w s r = elim (Bool-cases (nfds == 0)) [
    | inl a ↦ rw (a, operate_from) (served (returns w refl s))
    | inr a ↦ elim (Bool-cases (w.switch.readset fd)) [
      | inr b ↦
          rw (a, b, operate_from)
            (operate_from-Served left (fd + 1) nfds w s (λ n l h. r n (omega (arith, l)) h))
      | inl b ↦
          let m = r fd (omega arith) b in
          let there =
            tree_find-lookup (tree_of w.switch) fd (switch-IsValid w.switch s.1)
            ∙ Among-lookup socket_nodes_compare socket_nodes_compare-IsLawful fd fd
                (descriptors w.switch) s.1.sorted m (compare_same fd) in
          rw (a, b, there, operate_from)
            (Served->>= (node-Operated w fd s m) λ t _ g.
              operate_from-Served left (fd + 1) (nfds - 1) t g.0
                (later-Ready fd w.switch t.switch r g.1))
    ]
  ]

  pub socket_switch_operate-Served :
      (nfds : ℕ) (w : World)
      → Sound env names w
      → Ready 0 w.switch
      → Served
          (Sound env names)
          k
          little_endian
          (socket_switch_operate little_endian env k directory nfds w)
  unfolding socket_switch_operate
  socket_switch_operate-Served nfds w s r = operate_from-Served fd_setsize 0 nfds w s r
