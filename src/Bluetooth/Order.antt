-- ===== src/Bluetooth/Order.antt =====
-- Directed advertising goes to every bond once, in order.
use mymouse.Base.{
  ℕ, zero, suc, ◌+◌, ◌<◌, ◌≤◌, ◌≡◌, refl, ◌∙◌, sym, ap, true, false, List, [], ◌∷◌, ◌++◌, length,
  map, lt→ltb, length-append, arith, none, ◌&&◌, ◌==◌, ◌⊎◌, ◌≢◌, if◌then◌else◌,
}
use mymouse.Bluetooth.{
  Bluetooth, Address, security_changed, put_address, hids_connected, bond, any, adv_next, adv_init,
  advertising_run, run_work, hids_disconnected, connected, put_bonds, disconnected, available,
}

append_assoc : (xs ys zs : List Address) → (xs ++ ys) ++ zs ≡ xs ++ (ys ++ zs)
append_assoc [] ys zs = refl
append_assoc (x ∷ xs) ys zs = ap (λ l. x ∷ l) (append_assoc xs ys zs)

append_nil : (xs : List Address) → xs ++ [] ≡ xs
append_nil [] = refl
append_nil (x ∷ xs) = ap (λ l. x ∷ l) (append_nil xs)

length-map : (ps : List ℕ) → length (map bond ps) ≡ length ps
length-map [] = refl
length-map (p ∷ ps) = ap suc (length-map ps)

module _ (max_paired : ℕ) where
  pub put_bonds-append :
      (bonds : List ℕ) (queue : List Address)
      → length queue + length bonds ≤ max_paired
      → put_bonds max_paired bonds queue ≡ queue ++ map bond bonds
  put_bonds-append [] queue h = sym (append_nil queue)
  put_bonds-append (p ∷ ps) queue h = rw (lt→ltb (length queue) max_paired (omega arith)) (
      put_bonds-append ps (queue ++ bond p ∷ []) (omega (arith, length-append queue (bond p ∷ [])))
      ∙ append_assoc queue (bond p ∷ []) (map bond ps))

  module _ (bonds : List ℕ) where
    -- The submitted work runs, and the advertising that it starts times out, `n` times.
    abbrev pub time_out_all : ℕ → Bluetooth → Bluetooth
    time_out_all zero b = b
    time_out_all (suc n) b = time_out_all n (connected max_paired bonds 0 true true (run_work b))

    queue_served :
        (queue : List Address) (b : Bluetooth)
        → b.bonds_queue ≡ queue
        → b.adv_work_submitted ≡ true
        → (time_out_all (length queue) b).started ≡ b.started ++ queue
    unfolding advertising_run connected adv_next run_work
    queue_served [] b e s = sym (append_nil b.started)
    queue_served (a ∷ queue) b e s =
        rw (s, e) (queue_served queue _ refl refl ∙ append_assoc b.started (a ∷ []) queue)

    -- After directed advertising is initialised and its work submitted, and each advertising times
    -- out, the mouse has advertised to every bond once and in order. The queue has room for all
    -- bonds.
    pub adv_init-order :
        (b : Bluetooth)
        → length bonds ≤ max_paired
        → (time_out_all (length bonds) (adv_next (adv_init max_paired bonds false b))).started
          ≡ b.started ++ map bond bonds
    unfolding adv_init adv_next
    adv_init-order b h =
        let queue : put_bonds max_paired bonds [] ≡ map bond bonds =
          put_bonds-append bonds [] (omega arith) in
        rw (← length-map bonds) (queue_served (map bond bonds) _ queue refl)

    -- What a client that has gone leaves behind.
    left_state :
        (conn level : ℕ) (b : Bluetooth)
        → 1 ≤ level
        → level ≤ 4
        → let left = disconnected max_paired bonds conn (
            security_changed max_paired bonds conn level
              (connected max_paired bonds conn false false b)) in
          let public_adv = b.public_adv_requested && (level == 1) in
          (left.adv_work_submitted ≡ true)
          × (left.started ≡ b.started)
          × (left.bonds_queue ≡ (
              if public_adv then put_address max_paired any [] else put_bonds max_paired bonds []))
          × (left.current_client ≡ none)
          × (left.hids ≡ (b.hids ++ hids_connected conn ∷ []) ++ hids_disconnected conn ∷ [])
    unfolding disconnected adv_init adv_next available security_changed connected
    left_state conn level b l h = ground (arith, l, h)

    other_connection :
        (conn level other : ℕ) (b : Bluetooth)
        → other ≢ conn
        → let there =
            security_changed max_paired bonds conn level
              (connected max_paired bonds conn false false b) in
          disconnected max_paired bonds other there ≡ there
    unfolding disconnected security_changed connected
    other_connection conn level other b ne = ground (arith, ne)

    -- A client connects, its link gets a security level from 1 to 4, and it disconnects. If public
    -- advertising was asked for and the level was 1, the lowest, the mouse advertises to any device
    -- next; otherwise it advertises to every bond once and in order, while each advertising times
    -- out. The link is not available any more, the HID service was told of both, and the disconnection
    -- of another connection before changes nothing. The queue has room for all bonds and one address.
    pub disconnected-advertising :
        (conn level : ℕ) (b : Bluetooth)
        → length bonds ≤ max_paired
        → 0 < max_paired
        → 1 ≤ level
        → level ≤ 4
        → let there =
            security_changed max_paired bonds conn level
              (connected max_paired bonds conn false false b) in
          let left = disconnected max_paired bonds conn there in
          (b.public_adv_requested ≡ true
            → level ≡ 1
            → (time_out_all 1 left).started ≡ b.started ++ any ∷ [])
          × ((b.public_adv_requested ≡ false) ⊎ (2 ≤ level)
              → (time_out_all (length bonds) left).started ≡ b.started ++ map bond bonds)
          × (available left ≡ false)
          × (left.hids ≡ (b.hids ++ hids_connected conn ∷ []) ++ hids_disconnected conn ∷ [])
          × ((other : ℕ) → other ≢ conn → disconnected max_paired bonds other there ≡ there)
    unfolding available
    disconnected-advertising conn level b h p l m =
        let there =
          security_changed max_paired bonds conn level
            (connected max_paired bonds conn false false b) in
        let left = disconnected max_paired bonds conn there in
        let (submitted, same, queue, gone, told) = left_state conn level b l m in
        let all : put_bonds max_paired bonds [] ≡ map bond bonds =
          put_bonds-append bonds [] (omega arith) in
        (
          λ q e.
              queue_served (any ∷ []) left (ground (arith, queue, q, e, lt→ltb 0 max_paired p))
                submitted
              ∙ rw same refl,
          λ q. rw (← length-map bonds) (
              queue_served (map bond bonds) left (ground (arith, queue, q, all)) submitted
              ∙ rw same refl),
          rw gone refl,
          told,
          λ other ne. other_connection conn level other b ne,
        )
