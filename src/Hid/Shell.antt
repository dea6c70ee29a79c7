-- ===== src/Hid/Shell.antt =====
-- app-nrf/src/shell/hid.c: the source of the shell, and the commands on the sources. The number of
-- registered sources and the id of the shell's own source come from the linker, and are parameters;
-- the arguments of a command are the numbers that strtol reads from them, which are 32 bits long.
pub mod Moves
pub mod Sources
mod Tests
use mymouse.Base.{
  ℕ, zero, suc, ◌+◌, ◌%◌, ◌^◌, Bool, true, false, not, List, [], ◌∷◌, ◌++◌, Option, none, some, leb,
  ltb, if◌then◌else◌, Ret, ok, err, einval,
}
use mymouse.Base.Int.{ℤ, pos, negsuc, ◌+ℤ◌, wrap, ltb_ℤ}
use mymouse.Hid.Report.{Report}
use mymouse.Hid.Collector.{
  KEvent, Collector, max_num_of_hid_sources, is_source_id_enabled, set_source_id_enabled,
  notify_data_available,
}

pub data Status : Type 0 where
  invalid unregistered permanently_disabled enabled disabled : Status

-- `pending_report`, of which only the movement is used: bit fields of 12 bits.
pub record Pending : Type 0 where
  pub x_delta : ℕ
  pub y_delta : ℕ

unfoldable pub report_filler : Pending → Report → Pending × Report
report_filler p report = (
  record { x_delta = 0; y_delta = 0 },
  record report {
    x_delta = (report.x_delta + p.x_delta) % 2 ^ 12;
    y_delta = (report.y_delta + p.y_delta) % 2 ^ 12;
  },
)

module _ (kernel : KEvent) (num_sources : ℕ) where
  unfoldable pub source_id_status : ℤ → Collector kernel → Status
  source_id_status source_id c =
      if ltb_ℤ source_id (pos 0)
      then invalid
      else if not (ltb_ℤ source_id (pos num_sources))
      then unregistered
      else if not (ltb_ℤ source_id (pos max_num_of_hid_sources))
      then permanently_disabled
      else if is_source_id_enabled kernel source_id c
      then enabled
      else disabled

  -- The ids from `id` on, `left` of them, with what is printed of each.
  unfoldable pub list_sources : ℕ → ℕ → Collector kernel → List (ℕ × Status)
  list_sources zero id c = []
  list_sources (suc left) id c = (id, source_id_status (pos id) c) ∷ list_sources left (suc id) c

  unfoldable pub cmd_sources : Collector kernel → List (ℕ × Status)
  cmd_sources c = list_sources num_sources 0 c

  module _ (hid_src_shell : ℤ) where
    -- `enable` says that the command starts with an 'e'; the argument may be left out.
    unfoldable pub cmd_enable_disable : Bool → Option ℤ → Collector kernel → Collector kernel × Ret
    cmd_enable_disable enable none c = (set_source_id_enabled kernel hid_src_shell enable c, ok 0)
    cmd_enable_disable enable (some source_id) c =
        if ltb_ℤ source_id (pos 0)
        then (c, err einval)
        else if not (ltb_ℤ source_id (pos num_sources))
        then (c, err einval)
        else (set_source_id_enabled kernel source_id enable c, ok 0)

    unfoldable pub cmd_report_move : ℤ → ℤ → Pending × Collector kernel → Pending × Collector kernel
    cmd_report_move x y (p, c) = (
      record { x_delta = wrap 12 (pos p.x_delta +ℤ x); y_delta = wrap 12 (pos p.y_delta +ℤ y) },
      notify_data_available kernel hid_src_shell c,
    )
