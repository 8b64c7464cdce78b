-- ===== src/Readout.antt =====
-- src/TSBSSimDecoder.cxx: the hardware address (crate, slot, channel) of a strip, StripToROC,
-- StripToROCD and MakeROCKey, and the map from ROC keys to strip indices, fStripMap. Location
-- numbers and counts are natural numbers. `max_slot` is SIM_MAXSLOT, the smaller of 30 and the
-- analyzer's Decoder::MAXSLOT.
pub mod Addresses
pub mod StripMap
use libsolgem.Base.{ℕ, ◌+◌, ◌-◌, ◌*◌, ◌/◌, ◌%◌, min}
use libsolgem.Database.{Manager, get_n_module_before}

-- Where a strip sits in the detector: the arguments of StripToROCD.
pub record Location : Type 0 where
  pub plane : ℕ
  pub module_ : ℕ
  pub proj : ℕ
  pub chan : ℕ

-- The hardware channel.
pub record Address : Type 0 where
  pub crate : ℕ
  pub slot : ℕ
  pub chan : ℕ

unfoldable pub sim_max_slot : ℕ → ℕ
sim_max_slot decoder_max_slot = min decoder_max_slot 30

module _ {D : Type 0} (fManager : Manager D) where
  -- The conversion by sectors, kept in the source beside StripToROCD.
  unfoldable pub strip_to_roc : (s_plane s_sector s_proj s_chan : ℕ) → Address
  strip_to_roc s_plane s_sector s_proj s_chan =
      let module_ = s_chan / fManager.chan_per_slot in
      let ix =
        module_
        + fManager.modules_per_read_out
          * (s_proj + fManager.n_read_out * (s_plane + fManager.n_chamber * s_sector)) in
      let per_crate = fManager.chambers_per_crate * fManager.modules_per_chamber in
      record {
        crate = ix / per_crate;
        slot = ix % per_crate;
        chan = s_chan % fManager.chan_per_slot;
      }

  -- The total slot number `ix` of StripToROCD.
  unfoldable pub slot_index : Location → ℕ
  unfolding get_n_module_before
  slot_index s = s.proj + 2 * (s.module_ + get_n_module_before fManager s.plane * s.plane)

  module _ (max_slot : ℕ) where
    unfoldable pub strip_to_rocd : Location → Address
    strip_to_rocd s =
        let ix = slot_index s in
        record {
          crate = ix / max_slot;
          slot = ix % max_slot;
          chan = s.chan % fManager.chan_per_slot;
        }

    unfoldable pub make_roc_key : Address → ℕ
    make_roc_key a = a.chan + fManager.chan_per_slot * (a.slot + max_slot * a.crate)
