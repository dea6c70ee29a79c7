-- ===== src/Bluetooth/Tests.antt =====
-- The theorems on the Bluetooth link at a concrete state.
use mymouse.Base.{ℕ, ◌≡◌, ◌≢◌, ◌≤◌, ◌⊎◌, true, false, [], ◌∷◌, none, arith}
use mymouse.Bluetooth.{
  Bluetooth, bond, any, hids_disconnected, adv_init, adv_next, available, disconnected, connected,
  security_changed, hids_connected,
}
use mymouse.Bluetooth.Order.{time_out_all, adv_init-order, disconnected-advertising}

-- Nobody is connected, after public advertising.
abbrev link : Bluetooth
link = record {
  current_client = none;
  security_level = 1;
  public_adv_requested = true;
  bonds_queue = [];
  adv_work_submitted = false;
  started = any ∷ [];
  hids = [];
}

adv_init-order_example :
    (time_out_all 4 (7 ∷ 8 ∷ []) 2 (adv_next (adv_init 4 (7 ∷ 8 ∷ []) false link))).started
    ≡ any ∷ bond 7 ∷ bond 8 ∷ []
adv_init-order_example = adv_init-order 4 (7 ∷ 8 ∷ []) link (omega arith)

disconnected-advertising_example :
    let level : ℕ = 2 in
    let there = security_changed 4 (7 ∷ 8 ∷ []) 6 2 (connected 4 (7 ∷ 8 ∷ []) 6 false false link) in
    let left = disconnected 4 (7 ∷ 8 ∷ []) 6 there in
    (true ≡ true → level ≡ 1 → (time_out_all 4 (7 ∷ 8 ∷ []) 1 left).started ≡ any ∷ any ∷ [])
    × ((true ≡ false) ⊎ (2 ≤ level)
        → (time_out_all 4 (7 ∷ 8 ∷ []) 2 left).started ≡ any ∷ bond 7 ∷ bond 8 ∷ [])
    × (available left ≡ false)
    × (left.hids ≡ hids_connected 6 ∷ hids_disconnected 6 ∷ [])
    × ((other : ℕ) → other ≢ 6 → disconnected 4 (7 ∷ 8 ∷ []) other there ≡ there)
disconnected-advertising_example =
    disconnected-advertising 4 (7 ∷ 8 ∷ []) 6 2 link (omega arith) (omega arith) (omega arith)
      (omega arith)
