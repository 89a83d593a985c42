-- ===== src/Sockets/Acting.antt =====
-- What the parser of a connection asks for, done on daemons and endpoints: the actions of
-- src/cyberd/socket_connection_node.c on the invariants of their parts.
use cyberd.Base.{
  ℕ, Bool, true, false, Option, none, some, List, [], ◌∷◌, ◌≡◌, refl, ap, ◌∙◌, inl, inr,
  Option-cases, Bool-cases, leb, length, Returns, returns, Returns->>=, Returns-imp, Outcome, ok,
  ◌>>=◌,
}
use cyberd.Connection.{Action, queue_reboot, create_endpoint, start, stop, reload, finish}
use cyberd.Daemons.{Daemon, System, stopping, daemon_start, daemon_stop, daemon_reload, daemon_end}
use cyberd.Daemons.Spawning.{Consistent}
use cyberd.Daemons.Lifecycle.{
  Stops, Signals, signalled, left_alone, daemon_stop-Stops, daemon_reload-Signals,
  daemon_end-Signals,
}
use cyberd.Daemons.Starting.{daemon_start-Starts}
use cyberd.Configuration.{Environment, Element, stored, named, address, configuration_find}
use cyberd.Configuration.Held.{Held, Keeps, KeepsAt-refl, Keeps-Held}
use cyberd.Configuration.Finding.{Finds, is_found, configuration_find-Finds}
use cyberd.Configuration.Loading.{IsEnvironment, changed-Keeps, start-Keeps}
use cyberd.Sockets.{
  SocketNode, Switch, World, Kernel, write_file, endpoint_path, sockaddr_un_maxlen, bind_endpoint,
  socket_endpoint_node_create, insert_created, act_on, run_action, run_actions,
}
use cyberd.Sockets.Kept.{Kept, Serves, IsNew, socket_switch_insert-Kept}
use cyberd.Sockets.Removing.{files-Kept}

-- What the code relies on: a new descriptor is that of no node, and below FD_SETSIZE, since the limit on
-- open files is at most that.
pub record IsKernel (k : Kernel) : Type 0 where
  pub socket_new : (sw : Switch) (fd : ℕ) → k.socket sw ≡ some fd → IsNew sw fd
  pub accept_new : (sw : Switch) (l fd : ℕ) → k.accept sw l ≡ some fd → IsNew sw fd

-- The daemons and the nodes are well kept.
abbrev pub Sound : Environment → List (List ℕ) → World → Type 0
Sound env names w = Held env.host names [] none w.config × Kept w.switch

pub Serves-trans : (n : ℕ) (a b c : Switch) → Serves n a b → Serves n b c → Serves n a c
Serves-trans n a b c f g = ((λ i o m. g.0 i o (f.0 i o m)), g.1 ∙ f.1)

pub Serves-refl : (n : ℕ) (a : Switch) → Serves n a a
Serves-refl n a = ((λ i o m. m), refl)

-- No node is lost.
abbrev pub ServesAll : Switch → Switch → Type 0
ServesAll a b = (n : ℕ) → Serves n a b

module _ (env : Environment) (v : IsEnvironment env) where
  abbrev KeepsAct : (System → ℕ → Outcome System) → Type 0
  KeepsAct act =
      (s : System) (p : ℕ) (d : Daemon)
      → Consistent s
      → s.store p ≡ some d
      → Returns (λ t. Consistent t × Keeps env.host s.store t.store) (act s p)

  same-Keeps : (s t : System) → t.store ≡ s.store → Keeps env.host s.store t.store
  same-Keeps s t q n = rw q (KeepsAt-refl env.host (s.store n))

  start-KeepsAct : KeepsAct (λ s p. daemon_start s p (env.fork s))
  start-KeepsAct s p d c a =
      Returns-imp (daemon_start-Starts s p d (env.fork s) c a (v.fork_fresh s c))
        λ t g. (g.0, start-Keeps env v s t p d (env.fork s) a g.1)

  stop-KeepsAct : KeepsAct daemon_stop
  stop-KeepsAct s p d c a =
      Returns-imp (daemon_stop-Stops s p d c a) λ t g. (g.0, stopped_Keeps t g.1)
    where
      stopped_Keeps : (t : System) → Stops s p d t → Keeps env.host s.store t.store
      stopped_Keeps t (signalled i g) =
          changed-Keeps env.host s.store t.store p d (record d { state = stopping }) a g.1 g.2 refl
            (λ x. x)
      stopped_Keeps t (left_alone i q) = same-Keeps s t (ap (λ x. x.store) q)

  Signals-Keeps :
      {b : Bool} {sent : _} (s t : System) → Signals b s sent t → Keeps env.host s.store t.store
  Signals-Keeps s t (signalled i q) = same-Keeps s t (ap (λ x. x.store) q)
  Signals-Keeps s t (left_alone i q) = same-Keeps s t (ap (λ x. x.store) q)

  reload-KeepsAct : KeepsAct daemon_reload
  reload-KeepsAct s p d c a =
      Returns-imp (daemon_reload-Signals s p d c a) λ t g. (g.0, Signals-Keeps s t g.1)

  end-KeepsAct : KeepsAct daemon_end
  end-KeepsAct s p d c a =
      Returns-imp (daemon_end-Signals s p d c a) λ t g. (g.0, Signals-Keeps s t g.1)

  module _ (names : List (List ℕ)) where
    abbrev pub Acts : World → World → Type 0
    Acts w t = Sound env names t × ServesAll w.switch t.switch

    act_on-Acts :
        (act : System → ℕ → Outcome System) (w : World) (name : List ℕ)
        → KeepsAct act
        → Sound env names w
        → Returns (Acts w) (act_on act w name)
    unfolding act_on
    act_on-Acts act w name k s =
        go (configuration_find w.config name)
          (configuration_find-Finds env.host names w.config name s.0)
      where
        go :
            (o : Option Element)
            → Finds w.config name o
            → Returns (Acts w) (elim o [
              | none ↦ ok w
              | some r ↦ do
                p ← address r
                t ← act w.config.system p
                ok (record w { config = record (w.config) { system = t } })
            ])
        go none f = returns w refl (s, λ n. Serves-refl n w.switch)
        go (some (named n)) f = elim f [ ]
        go (some (stored p)) (is_found q d a i) =
            Returns->>= (k w.config.system q d s.0.consistent a) λ t _ g.
              returns (record w { config = record (w.config) { system = t } }) refl
                (
                  (Keeps-Held env.host names [] none w.config t s.0 g.1 g.0, s.1),
                  λ n. Serves-refl n w.switch,
                )

    module _ (k : Kernel) (u : IsKernel k) (directory : List ℕ) where
      -- A node that was created is new.
      abbrev Creates : Switch → Switch × Option (ℕ × SocketNode) → Type 0
      Creates sw (t, none) = Kept t × ServesAll sw t
      Creates sw (t, some (fd, snode)) = Kept t × ServesAll sw t × IsNew t fd

      files_Serves :
          (sw : Switch) (files : List ℕ → Bool) → ServesAll sw (record sw { files = files })
      files_Serves sw files n = ((λ i o m. m), refl)

      bind_endpoint-Creates :
          (sw : Switch) (fd : ℕ) (path : List ℕ) (capabilities : ℕ)
          → Kept sw
          → IsNew sw fd
          → Creates sw (bind_endpoint k sw fd path capabilities)
      unfolding bind_endpoint
      bind_endpoint-Creates sw fd path capabilities h new =
          let bound = record sw { files = write_file sw.files path true } in
          elim (Bool-cases (k.bind sw path)) [
            | inr b ↦ rw b (
              files-Kept sw (write_file sw.files path false) h,
              files_Serves sw (write_file sw.files path false),
            )
            | inl b ↦ elim (Bool-cases (k.listen bound)) [
              | inr c ↦
                  rw (b, c)
                    (
                      files-Kept sw (write_file sw.files path false) h,
                      files_Serves sw (write_file sw.files path false),
                    )
              | inl c ↦
                  rw (b, c)
                    (
                      files-Kept sw (write_file sw.files path true) h,
                      files_Serves sw (write_file sw.files path true),
                      new,
                    )
            ]
          ]

      create-Creates :
          (sw : Switch) (name : List ℕ) (capabilities : ℕ)
          → Kept sw
          → Creates sw (socket_endpoint_node_create k directory sw name capabilities)
      unfolding socket_endpoint_node_create
      create-Creates sw name capabilities h = elim (Bool-cases (k.malloc sw)) [
        | inr a ↦ rw a (h, λ n. Serves-refl n sw)
        | inl a ↦ elim (Option-cases (k.socket sw)) [
          | inl b ↦ rw (a, b) (h, λ n. Serves-refl n sw)
          | inr (fd, b) ↦
              elim (Bool-cases (leb sockaddr_un_maxlen (length (endpoint_path directory name)))) [
                | inl c ↦ rw (a, b, c) (h, λ n. Serves-refl n sw)
                | inr c ↦
                    rw (a, b, c)
                      (bind_endpoint-Creates sw fd (endpoint_path directory name) capabilities h
                        (u.socket_new sw fd b))
              ]
        ]
      ]

      insert_created-Kept :
          (sw : Switch) (r : Switch × Option (ℕ × SocketNode))
          → Creates sw r
          → Returns (λ t. Kept t × ServesAll sw t) (insert_created r)
      unfolding insert_created
      insert_created-Kept sw (t, none) g = returns t refl g
      insert_created-Kept sw (t, some (fd, snode)) g =
          Returns-imp (socket_switch_insert-Kept t fd snode g.0 g.2)
            λ x f. (f.0, λ n. Serves-trans n sw t x (g.1 n) (f.1 n))

      pub created-Kept :
          (sw : Switch) (name : List ℕ) (capabilities : ℕ)
          → Kept sw
          → Returns
              (λ t. Kept t × ServesAll sw t)
              (insert_created (socket_endpoint_node_create k directory sw name capabilities))
      created-Kept sw name capabilities h =
          insert_created-Kept sw (socket_endpoint_node_create k directory sw name capabilities)
            (create-Creates sw name capabilities h)

      run_action-Acts :
          (a : Action) (w : World)
          → Sound env names w
          → Returns (Acts w) (run_action env k directory a w)
      unfolding run_action
      run_action-Acts (queue_reboot howto) w s = returns _ refl (s, λ n. Serves-refl n w.switch)
      run_action-Acts (create_endpoint name capabilities) w s =
          Returns->>= (created-Kept w.switch name capabilities s.1)
            λ t _ g. returns (record w { switch = t }) refl ((s.0, g.0), g.1)
      run_action-Acts (start name) w s = act_on-Acts _ w name start-KeepsAct s
      run_action-Acts (stop name) w s = act_on-Acts _ w name stop-KeepsAct s
      run_action-Acts (reload name) w s = act_on-Acts _ w name reload-KeepsAct s
      run_action-Acts (finish name) w s = act_on-Acts _ w name end-KeepsAct s

      pub run_actions-Acts :
          (asked : List Action) (w : World)
          → Sound env names w
          → Returns (Acts w) (run_actions env k directory asked w)
      unfolding run_actions
      run_actions-Acts [] w s = returns w refl (s, λ n. Serves-refl n w.switch)
      run_actions-Acts (a ∷ rest) w s = Returns->>= (run_action-Acts a w s) λ t _ g.
          Returns-imp (run_actions-Acts rest t g.0)
            λ x f. (f.0, λ n. Serves-trans n w.switch t.switch x.switch (g.1 n) (f.1 n))
