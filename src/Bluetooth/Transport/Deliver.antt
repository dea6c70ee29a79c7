-- ===== src/Bluetooth/Transport/Deliver.antt =====
-- A round of the collector, down to what the host reads.
use mymouse.Base.{
  ℕ, ◌^◌, ◌<◌, ◌≡◌, refl, Bool, List, [], ◌∷◌, ◌++◌, some, if◌then◌else◌, Bool-cases, ap, sym, inl,
  inr,
}
use mymouse.Bitmask.{Ffs}
use mymouse.Bitmask.Order.{scan}
use mymouse.Hid.Report.{Report, IsReport, to_bytes}
use mymouse.Hid.Map.{hid_report_map, hid_report_id}
use mymouse.Hid.Map.Host.{read_report}
use mymouse.Hid.Map.Fields.{values_of, read_report-to_bytes}
use mymouse.Hid.Collector.{KEvent, Thread, serve}
use mymouse.Hid.Collector.Rounds.{serve-scan, taken}
use mymouse.Bluetooth.{available}
use mymouse.Bluetooth.Transport.{Transport, Sent, hid_sink_impl, send}

append_nil : (xs : List Sent) → xs ++ [] ≡ xs
append_nil [] = refl
append_nil (x ∷ xs) = ap (λ l. x ∷ l) (append_nil xs)

-- The sink hands the report over exactly if the transport is available.
sent-hid_sink_impl :
    (r : Report) (t : Transport)
    → (hid_sink_impl r t).sent
      ≡ t.sent
        ++ (if available t.bt
            then (record { conn = t.bt.current_client; index = 0; bytes = to_bytes r }) ∷ []
            else [])
unfolding hid_sink_impl send
sent-hid_sink_impl r t = elim (Bool-cases (available t.bt)) [
  | inl e ↦ rw e refl
  | inr e ↦ rw e (sym (append_nil t.sent))
]

module _ (kernel : KEvent) {S : Type 0} (transport : S → Transport)
    (with_transport : S → Transport → S)
    (transport_lem : (s : S) (t : Transport) → transport (with_transport s t) ≡ t) where
  -- The sink as the thread calls it.
  abbrev pub sink : Thread kernel S → Thread kernel S
  sink t = record t { rest = with_transport t.rest (hid_sink_impl t.report (transport t.rest)) }

  -- A round of the collector, after the fillers have filled a report whose fields fit their widths,
  -- hands it to the HID service once, for the current client, and a host with the
  -- report descriptor, strict on reserved ids or not, reads the values of the report from it, or null
  -- for the one value of the wheel and of each movement below the descriptor's range; but if no client is there whose link
  -- is secure, nothing is sent. The next report starts without movement in both cases.
  pub serve-read_report :
      (ffs : Ffs) (fill : ℕ → Thread kernel S → Thread kernel S) (events : ℕ) (t : Thread kernel S)
      → events < 2 ^ 32
      → let filled = scan fill 32 0 events (taken kernel events t) in
        let before = transport filled.rest in
        let after = serve kernel ffs fill sink events t in
        IsReport filled.report
        → ((transport after.rest).sent
            ≡ before.sent
              ++ (if available before.bt
                  then (record {
                    conn = before.bt.current_client;
                    index = 0;
                    bytes = to_bytes filled.report;
                  })
                    ∷ []
                  else []))
          × (after.report ≡ record (filled.report) { wheel_delta = 0; x_delta = 0; y_delta = 0 })
          × ((strict : Bool)
              → read_report strict hid_report_map (hid_report_id ∷ to_bytes filled.report)
                ≡ some (values_of filled.report))
  serve-read_report ffs fill events t h r =
      let filled = scan fill 32 0 events (taken kernel events t) in
      rw (serve-scan kernel ffs fill sink events t h r) (
        rw (transport_lem filled.rest (hid_sink_impl filled.report (transport filled.rest)))
            (sent-hid_sink_impl filled.report (transport filled.rest)),
        refl,
        λ strict. read_report-to_bytes filled.report r strict,
      )
