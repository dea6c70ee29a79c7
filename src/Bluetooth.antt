-- ===== src/Bluetooth.antt =====
-- app-nrf/src/transport/bt/adv.c and conn.c: whom the mouse advertises to, and the connection.
-- Connections and addresses are numbers. The bonds that the Bluetooth stack iterates over are an
-- argument; what the code asks of the stack is listed in the state in order: the advertising that
-- it starts, and the calls of the HID service. `max_paired` is CONFIG_BT_MAX_PAIRED. A reference
-- to a connection is always to be had.
pub mod Order
pub mod Transport
mod Tests
use mymouse.Base.{
  ℕ, Bool, true, false, not, ◌&&◌, ◌||◌, ◌==◌, ltb, if◌then◌else◌, List, [], ◌∷◌, ◌++◌, length,
  Option, none, some,
}

-- BT_ADDR_LE_ANY, or the address of a bond.
pub data Address : Type 0 where
  any : Address
  bond : ℕ → Address

pub data HidsCall : Type 0 where
  hids_connected hids_disconnected : ℕ → HidsCall

pub record Bluetooth : Type 0 where
  pub current_client : Option ℕ
  pub security_level : ℕ  -- BT_SECURITY_L1 is 1
  pub public_adv_requested : Bool
  pub bonds_queue : List Address
  pub adv_work_submitted : Bool
  pub started : List Address  -- bt_le_adv_start
  pub hids : List HidsCall

abbrev pub is_set : Option ℕ → Bool
is_set none = false
is_set (some conn) = true

abbrev pub is_client : Option ℕ → ℕ → Bool
is_client none conn = false
is_client (some c) conn = c == conn

unfoldable pub available : Bluetooth → Bool
available b =
    is_set b.current_client
    && ((b.security_level == 2) || (b.security_level == 3) || (b.security_level == 4))

unfoldable pub adv_next : Bluetooth → Bluetooth
adv_next b = record b { adv_work_submitted = true }

-- The work item: the queue's first address, if there is one.
unfoldable pub advertising_run : Bluetooth → Bluetooth
advertising_run b = elim (b.bonds_queue) [
  | [] ↦ record b { adv_work_submitted = false }
  | a ∷ rest ↦ record b {
    adv_work_submitted = false;
    bonds_queue = rest;
    started = b.started ++ a ∷ [];
  }
]

-- The system work queue runs the item if it was submitted.
unfoldable pub run_work : Bluetooth → Bluetooth
run_work b = if b.adv_work_submitted then advertising_run b else b

module _ (max_paired : ℕ) where
  -- k_msgq_put without waiting: an address for which there is no room is dropped.
  abbrev pub put_address : Address → List Address → List Address
  put_address a queue = if ltb (length queue) max_paired then queue ++ a ∷ [] else queue

  abbrev pub put_bonds : List ℕ → List Address → List Address
  put_bonds [] queue = queue
  put_bonds (p ∷ ps) queue = put_bonds ps (put_address (bond p) queue)

  module _ (bonds : List ℕ) where
    unfoldable pub adv_init : Bool → Bluetooth → Bluetooth
    adv_init public_adv b = record b {
      public_adv_requested = public_adv;
      bonds_queue = if public_adv then put_address any [] else put_bonds bonds [];
    }

    -- `timeout` says that the error is BT_HCI_ERR_ADV_TIMEOUT.
    unfoldable pub connected : ℕ → Bool → Bool → Bluetooth → Bluetooth
    connected conn failed timeout b =
        if failed
        then (if timeout then adv_next b else b)
        else (record b { current_client = some conn; hids = b.hids ++ hids_connected conn ∷ [] })

    unfoldable pub disconnected : ℕ → Bluetooth → Bluetooth
    disconnected conn b =
        if not (is_client b.current_client conn)
        then b
        else (let told = record b { hids = b.hids ++ hids_disconnected conn ∷ [] } in
            let next =
              adv_next (adv_init (told.public_adv_requested && not (available told)) told) in
            record next { current_client = none; security_level = 1 })

    unfoldable pub security_changed : ℕ → ℕ → Bluetooth → Bluetooth
    security_changed conn level b =
        if not (is_client b.current_client conn) then b else (record b { security_level = level })
