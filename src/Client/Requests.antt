-- ===== src/Client/Requests.antt =====
-- What cyberd does with a command for the system of src/cyberctl.c, up to the flag that ends its loop.
use cyberd.Base.{
  ℕ, ◌≤◌, Bool, [], ◌∷◌, ◌==◌, if◌then◌else◌, some, ◌≡◌, ◌⊎◌, refl, inl, inr, arith, ok,
}
use cyberd.Capabilities.{has, capset_all, system_suspend}
use cyberd.Connection.{
  queue_reboot, parser_feed, feed_loop, feed_state, feed_command_byte, feed_command, capability_of,
  new_parser,
}
use cyberd.Connection.Returning.{requested}
use cyberd.Signals.{Flags, term, handle, sigterm_handler, howto_value}

system-cases : (id : ℕ) → 5 ≤ id → id ≤ 8 → (id ≡ 5) ⊎ (id ≡ 6) ⊎ (id ≡ 7) ⊎ (id ≡ 8)
system-cases id l u = ground arith

-- A connection of the root endpoint, fed with the byte, queues the request; the signal that this is sets the
-- action for reboot(2), except for a suspend, which changes nothing.
abbrev pub Obeyed : ℕ → Type 0
Obeyed id =
    ((little_endian : Bool)
      → parser_feed little_endian (new_parser capset_all) (id ∷ [])
        ≡ (queue_reboot (requested id) ∷ [], ok (new_parser capset_all)))
    × ((f : Flags)
        → (handle (term (some (howto_value (requested id)))) f).reboot
          ≡ (if id == system_suspend then f.reboot else howto_value (requested id)))

pub id-Obeyed : (id : ℕ) → 5 ≤ id → id ≤ 8 → Obeyed id
unfolding parser_feed feed_loop feed_state feed_command_byte feed_command capability_of has
    new_parser handle sigterm_handler
id-Obeyed id l u = elim (system-cases id l u) [
  | inl q ↦ rw q ((λ host. refl), λ f. refl)
  | inr (inl q) ↦ rw q ((λ host. refl), λ f. refl)
  | inr (inr (inl q)) ↦ rw q ((λ host. refl), λ f. refl)
  | inr (inr (inr q)) ↦ rw q ((λ host. refl), λ f. refl)
]
