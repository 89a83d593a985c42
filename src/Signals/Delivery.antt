-- ===== src/Signals/Delivery.antt =====
-- When the handlers of src/cyberd/signals.c run, and what they ask for.
use cyberd.Base.{
  ℕ, true, false, List, [], ◌∷◌, ◌≡◌, ◌⊎◌, refl, subst, inl, inr, none, some, Among, arith,
}
use cyberd.Signals.{
  rb_autoboot, rb_halt_system, rb_power_off, Flags, Signal, term, chld, hup, alrm, sigterm_handler,
  handle, handle_all, Number, sigterm, sigchld, sighup, sigalrm, other, Mask, signals_setup,
  signals_alarm,
}

-- Where no signal has a handler before, signals_setup and then signals_alarm leave exactly those
-- signals blocked that have one, so that no handler runs outside of a wait. The mask of pselect(2)
-- blocks none; that of sigsuspend(2) lets SIGCHLD and SIGALRM through, and neither SIGTERM nor
-- SIGHUP.
pub signals_mask_handlers :
    (m : Mask) (seconds : ℕ)
    → ((n : Number) → m.handled n ≡ false)
    → let (running, waiting) = signals_setup m in
      let (ending, suspended) = signals_alarm seconds running in
      ((n : Number) → running.handled n ≡ running.blocked n)
      × ((n : Number) → waiting n ≡ false)
      × ((n : Number) → ending.handled n ≡ ending.blocked n)
      × (suspended sigchld ≡ false)
      × (suspended sigalrm ≡ false)
      × (suspended sigterm ≡ true)
      × (suspended sighup ≡ true)
unfolding signals_setup signals_alarm
signals_mask_handlers m seconds h =
    (setup_blocked, (λ n. refl), alarm_blocked, refl, refl, refl, refl)
  where
    setup_blocked : (n : Number) → (signals_setup m).0.handled n ≡ (signals_setup m).0.blocked n
    setup_blocked sigterm = refl
    setup_blocked sigchld = refl
    setup_blocked sighup = refl
    setup_blocked sigalrm = h sigalrm
    setup_blocked other = h other

    alarm_blocked :
        (n : Number)
        → (signals_alarm seconds (signals_setup m).0).0.handled n
          ≡ (signals_alarm seconds (signals_setup m).0).0.blocked n
    alarm_blocked sigterm = refl
    alarm_blocked sigchld = refl
    alarm_blocked sighup = refl
    alarm_blocked sigalrm = refl
    alarm_blocked other = h other

-- An action that the loop of main ends for.
abbrev pub IsRequest : ℕ → Type 0
IsRequest value = (value ≡ rb_autoboot) ⊎ (value ≡ rb_halt_system) ⊎ (value ≡ rb_power_off)

-- None, or one of these.
abbrev pub IsReboot : ℕ → Type 0
IsReboot value = (value ≡ 0) ⊎ IsRequest value

-- A SIGTERM that asks for the end.
abbrev pub Asks : Signal → Type 0
Asks (term none) = Unit
Asks (term (some value)) = IsRequest value
Asks chld = ⊥
Asks hup = ⊥
Asks alrm = ⊥

handle-IsReboot : (s : Signal) (f : Flags) → IsReboot f.reboot → IsReboot (handle s f).reboot
unfolding handle sigterm_handler
handle-IsReboot (term none) f r = inr (inr (inr refl))
handle-IsReboot (term (some value)) f r = ground arith
handle-IsReboot chld f r = r
handle-IsReboot hup f r = r
handle-IsReboot alrm f r = r

pub handle_all-IsReboot :
    (xs : List Signal) (f : Flags) → IsReboot f.reboot → IsReboot (handle_all xs f).reboot
unfolding handle_all
handle_all-IsReboot [] f r = r
handle_all-IsReboot (s ∷ xs) f r = handle_all-IsReboot xs (handle s f) (handle-IsReboot s f r)

handle-IsRequest : (s : Signal) (f : Flags) → IsRequest f.reboot → IsRequest (handle s f).reboot
unfolding handle sigterm_handler
handle-IsRequest (term none) f r = inr (inr refl)
handle-IsRequest (term (some value)) f r = ground arith
handle-IsRequest chld f r = r
handle-IsRequest hup f r = r
handle-IsRequest alrm f r = r

kept-IsRequest :
    (xs : List Signal) (f : Flags) → IsRequest f.reboot → IsRequest (handle_all xs f).reboot
unfolding handle_all
kept-IsRequest [] f r = r
kept-IsRequest (s ∷ xs) f r = kept-IsRequest xs (handle s f) (handle-IsRequest s f r)

asked-IsRequest : (s : Signal) (f : Flags) → Asks s → IsRequest (handle s f).reboot
unfolding handle sigterm_handler
asked-IsRequest (term none) f a = inr (inr refl)
asked-IsRequest (term (some value)) f a = ground arith
asked-IsRequest chld f a = absurd a
asked-IsRequest hup f a = absurd a
asked-IsRequest alrm f a = absurd a

pub handle_all-IsRequest :
    (xs : List Signal) (s : Signal) (f : Flags)
    → Among s xs
    → Asks s
    → IsRequest (handle_all xs f).reboot
unfolding handle_all
handle_all-IsRequest [] s f m a = absurd m
handle_all-IsRequest (x ∷ xs) s f (inl q) a =
    kept-IsRequest xs (handle x f) (asked-IsRequest x f (subst Asks q a))
handle_all-IsRequest (x ∷ xs) s f (inr m) a = handle_all-IsRequest xs s (handle x f) m a
