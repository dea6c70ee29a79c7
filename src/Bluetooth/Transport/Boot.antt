-- ===== src/Bluetooth/Transport/Boot.antt =====
-- How the transport starts.
use mymouse.Base.{
  ℕ, ◌<◌, ◌≤◌, ◌≡◌, refl, Bool, true, false, not, List, [], ◌∷◌, ◌++◌, length, map, take, Option,
  none, some, if◌then◌else◌, Errno, Ret, ok, err, arith, lt→ltb, sym,
}
use mathlib.Core.List.{append-nil, append_assoc}
use mymouse.Bluetooth.{Bluetooth, Address, any, bond, adv_init, adv_next, run_work, advertising_run}
use mymouse.Bluetooth.Order.{put_bonds-append}
use mymouse.Bluetooth.Transport.{
  Transport, Call, conn_cb_register, bt_enable, settings_load, hids_init, init, detect_bootopts,
}

-- The first error ends the initialisation.
abbrev pub result : Option Errno → Option Errno → Ret
result none none = ok 0
result none (some e) = err e
result (some e) settings = err e

abbrev pub steps : Option Errno → Option Errno → List Call
steps none none = conn_cb_register ∷ bt_enable ∷ settings_load ∷ hids_init ∷ []
steps none (some e) = conn_cb_register ∷ bt_enable ∷ settings_load ∷ []
steps (some e) settings = conn_cb_register ∷ bt_enable ∷ []

-- What is advertised to first: any device where the button was down at boot, else the first bond.
abbrev pub first : List ℕ → Bool → List Address
first bonds level = if not level then any ∷ [] else take 1 (map bond bonds)

module _ (max_paired : ℕ) (bonds : List ℕ) (t : Transport) (fits : length bonds ≤ max_paired)
    (room : 0 < max_paired) where
  directed :
      (queue : List Address) (b : Bluetooth)
      → (run_work (adv_next (record b { bonds_queue = queue }))).started ≡ b.started ++ take 1 queue
  unfolding run_work adv_next advertising_run
  directed [] b = sym (append-nil b.started)
  directed (a ∷ queue) b = refl

  started-adv_init :
      (public_adv : Bool) (b : Bluetooth)
      → (run_work (adv_next (adv_init max_paired bonds public_adv b))).started
        ≡ b.started ++ first bonds (not public_adv)
  unfolding adv_init
  started-adv_init true b =
      rw (lt→ltb 0 max_paired room) (directed (any ∷ []) (record b { public_adv_requested = true }))
  started-adv_init false b =
      rw (put_bonds-append max_paired bonds [] (omega arith))
        (directed (map bond bonds) (record b { public_adv_requested = false }))

  -- The transport registers for connections, enables Bluetooth, loads the bonds and registers the
  -- HID service, in this order, and stops with the first error, in which case nothing is
  -- advertised; if there is none, the advertising that it starts goes to any device if the button
  -- was down at boot, and to the first of the bonds otherwise. The queue has room for all bonds.
  pub init-advertising :
      (enable_error settings_error : Option Errno) (level : Bool)
      → let (t', ret) =
          init max_paired bonds enable_error settings_error (detect_bootopts level) t in
        (ret ≡ result enable_error settings_error)
        × (t'.calls ≡ t.calls ++ steps enable_error settings_error)
        × ((run_work t'.bt).started ≡ elim (result enable_error settings_error) [
          | ok n ↦ t.bt.started ++ first bonds level
          | err e ↦ (run_work t.bt).started
        ])
  unfolding init detect_bootopts
  init-advertising (some e) settings_error level = (refl, simp append_assoc, refl)
  init-advertising none (some e) level = (refl, simp append_assoc, refl)
  init-advertising none none true = (refl, simp append_assoc, started-adv_init false t.bt)
  init-advertising none none false = (refl, simp append_assoc, started-adv_init true t.bt)
