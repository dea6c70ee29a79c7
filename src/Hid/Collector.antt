-- ===== src/Hid/Collector.antt =====
-- app-nrf/src/services/hid/collector.c and app-nrf/include/services/hid/collector.h: the sources post
-- event bits, and a thread waits for those of the enabled ones and fills the report.
-- The kernel's event object is not of this repository: it is the parameter `KEvent`, with what the
-- kernel documents of each call. A wait that matches nothing blocks the thread.
pub mod Waiting
pub mod Rounds
pub mod Simple
use Prim.Native.Nat.{bit_and, bit_or}
use mymouse.Base.{
  ℕ, zero, suc, ◌+◌, ◌-◌, ◌^◌, ◌≡◌, Bool, true, false, ltb, ◌==◌, if◌then◌else◌, min, not,
}
use mymouse.Base.Int.{ℤ, pos, negsuc}
use mymouse.Base.Bits.{test_bit, write_bit, bit_not}
use mymouse.Bitmask.{Ffs, for_each_bit, bit_as_bool}
use mymouse.Hid.Report.{Report, empty, clear_non_persistent_data_in_report}

pub record KEvent : Type 1 where
  pub Event : Type 0
  pub bits : Event → ℕ
  pub post : Event → ℕ → Event
  pub set_masked : Event → ℕ → ℕ → Event
  -- The matching events, once there are any; 0 while the caller is blocked.
  pub wait : Event → ℕ → ℕ
  pub bits-post : (e : Event) (m : ℕ) → bits (post e m) ≡ bit_or (bits e) m
  pub bits-set_masked :
      (e : Event) (v m : ℕ)
      → bits (set_masked e v m) ≡ bit_or (bit_and (bits e) (bit_not 32 m)) (bit_and v m)
  pub wait_lem : (e : Event) (m : ℕ) → wait e m ≡ bit_and (bits e) m

abbrev pub max_num_of_hid_sources : ℕ
max_num_of_hid_sources = 31

-- ENABLED_HID_SOURCES_CHANGED_EVENT_MASK.
abbrev pub sources_changed : ℕ
sources_changed = 2 ^ 31

-- BIT_MASK of the number of sources, at most 31 of them.
unfoldable pub get_existing_sources_bitmask : ℕ → ℕ
get_existing_sources_bitmask num_sources =
    2 ^ (if ltb max_num_of_hid_sources num_sources then max_num_of_hid_sources else num_sources) - 1

-- The source ids that have a bit of their own. (The ids are `int`.)
abbrev pub valid_id : ℤ → Bool
valid_id (pos i) = ltb i max_num_of_hid_sources
valid_id (negsuc i) = false

abbrev pub bit_of : ℤ → ℕ
bit_of (pos i) = i
bit_of (negsuc i) = 0

module _ (kernel : KEvent) where
  open kernel use {Event, bits, post, set_masked, wait}

  pub record Collector : Type 0 where
    pub event : Event
    pub enabled_sources : ℕ

  unfoldable pub notify_data_available : ℤ → Collector → Collector
  notify_data_available source_id c =
      if valid_id source_id then record c { event = post c.event (2 ^ bit_of source_id) } else c

  unfoldable pub is_source_id_enabled : ℤ → Collector → Bool
  is_source_id_enabled source_id c =
      if valid_id source_id then bit_as_bool c.enabled_sources (bit_of source_id) else false

  unfoldable pub set_source_id_enabled : ℤ → Bool → Collector → Collector
  set_source_id_enabled source_id enabled c =
      if valid_id source_id
      then (record c {
        enabled_sources = write_bit c.enabled_sources (bit_of source_id) (if enabled then 1 else 0);
        event = post c.event sources_changed;
      })
      else c

  -- What `wait_for_data_events` comes to: the events, or a thread that sleeps in `k_event_wait`.
  pub data Waited : Type 0 where
    ready : ℕ → Collector → Waited
    blocked : Collector → Waited
    no_fuel : Waited

  -- The loop, on fuel. No other thread changes the event object inside of it: a post that comes
  -- while it runs is a post before or after.
  unfoldable pub wait_for_data_events : ℕ → Collector → Waited
  wait_for_data_events zero c = no_fuel
  wait_for_data_events (suc fuel) c =
      let events = wait c.event (bit_or c.enabled_sources sources_changed) in
      let again =
        wait_for_data_events fuel (record c { event = set_masked c.event 0 sources_changed }) in
      if events == 0
      then blocked c
      else (if bit_and events sources_changed == 0 then ready events c else again)

  -- The thread with what its calls work on: the report, and the state `S` of sources and sink.
  pub record Thread (S : Type 0) : Type 0 where
    pub collector : Collector
    pub report : Report
    pub rest : S

  module _ {S : Type 0} where
    -- The thread up to its loop.
    unfoldable pub start : ℕ → Collector → S → Thread S
    start num_sources c s = record {
      collector = record c {
        enabled_sources = bit_and c.enabled_sources (get_existing_sources_bitmask num_sources);
      };
      report = empty;
      rest = s;
    }

    -- The body of the thread's loop after the wait. `fill` is the `report_filler` of a source, by
    -- its id, and `sink` is `hid_sink_impl`.
    unfoldable pub serve :
        Ffs → (ℕ → Thread S → Thread S) → (Thread S → Thread S) → ℕ → Thread S → Thread S
    serve ffs fill sink events t =
        let cleared = record t {
          collector = record (t.collector) { event = set_masked t.collector.event 0 events };
        } in
        let sent = sink (for_each_bit ffs fill 32 events cleared) in
        record sent { report = clear_non_persistent_data_in_report sent.report }
