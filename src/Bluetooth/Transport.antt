-- ===== src/Bluetooth/Transport.antt =====
-- The transport over Bluetooth: app-nrf/src/transport/bt/transport.c and hids.c, the sink of the
-- reports in app-nrf/src/services/hid/sink/transport.c, and the boot option of
-- app-nrf/src/services/bootopts.c. What the Bluetooth stack and the settings return is an argument;
-- what is asked of them is listed in the state, in order.
pub mod Deliver
pub mod Boot
mod Tests
use mymouse.Base.{
  ℕ, Bool, not, List, [], ◌∷◌, ◌++◌, Option, none, some, if◌then◌else◌, Errno, Ret, ok, err,
}
use mymouse.Base.Int.{ℤ}
use mymouse.Bluetooth.{Bluetooth, available, adv_init, adv_next}
use mymouse.Hid.Report.{Report, to_bytes}

pub data Call : Type 0 where
  conn_cb_register bt_enable settings_load hids_init : Call

-- bt_hids_inp_rep_send: the connection, where `none` is NULL and means every one, the index of the
-- report, and its bytes.
pub record Sent : Type 0 where
  pub conn : Option ℕ
  pub index : ℕ
  pub bytes : List ℕ

pub record Transport : Type 0 where
  pub bt : Bluetooth
  pub calls : List Call
  pub sent : List Sent
  pub levels : List ℤ  -- bt_bas_set_battery_level

unfoldable pub send : Report → Transport → Transport
send report t = record t {
  sent = t.sent ++ record { conn = t.bt.current_client; index = 0; bytes = to_bytes report } ∷ [];
}

-- The result of sending is only logged.
unfoldable pub hid_sink_impl : Report → Transport → Transport
hid_sink_impl report t = if not (available t.bt) then t else send report t

unfoldable pub upd_bat_lvl : ℤ → Transport → Transport
upd_bat_lvl level t = record t { levels = t.levels ++ level ∷ [] }

-- `boot_options.bt_public_adv`, from the level of the button's pin.
unfoldable pub detect_bootopts : Bool → Bool
detect_bootopts level = not level

abbrev pub call : Call → Transport → Transport
call c t = record t { calls = t.calls ++ c ∷ [] }

module _ (max_paired : ℕ) (bonds : List ℕ) where
  unfoldable pub init : Option Errno → Option Errno → Bool → Transport → Transport × Ret
  init enable_error settings_error public_adv t =
      let enabled = call bt_enable (call conn_cb_register t) in
      let loaded = call settings_load enabled in
      let registered = call hids_init loaded in
      elim enable_error [
        | some e ↦ (enabled, err e)
        | none ↦ elim settings_error [
          | some e ↦ (loaded, err e)
          | none ↦ (
            record registered {
              bt = adv_next (adv_init max_paired bonds public_adv registered.bt);
            },
            ok 0,
          )
        ]
      ]
