-- ===== src/Decoder/LoadStrips.antt =====
-- The first loop of DoLoadEvent: the ADC samples of each strip go into the slot arrays of the
-- analyzer, and the strip's index into fStripMap under its ROC key. The slot arrays are a parameter,
-- with `load_data slots address raw` for crateslot[idx(crate,slot)]->loadData("adc",chan,raw,raw);
-- `none` is its SD_ERR.
pub mod RoundTrip
use libsolgem.Base.{
  ◌>>=◌, ℕ, zero, suc, ◌+◌, ℤ, pos, ◌≡◌, refl, Option, none, some, List, [], ◌∷◌, get_or,
}
use libsolgem.Database.{Manager}
use libsolgem.SimEvent.{DigiGemStrip}
use libsolgem.Readout.{Location, Address, strip_to_rocd, make_roc_key}
use libsolgem.Readout.StripMap.{StripMap, insert}

unfoldable pub location : {D : Type 0} → DigiGemStrip D → Location
location s = record { plane = s.plane; module_ = s.module_; proj = s.proj; chan = s.chan }

-- The key under which a strip is stored.
unfoldable pub strip_key : {D : Type 0} → Manager D → ℕ → DigiGemStrip D → ℕ
unfolding location
strip_key fManager max_slot s =
    make_roc_key fManager max_slot (strip_to_rocd fManager max_slot (location s))

module _ (C : Type 0) (load_data : C → Address → ℤ → Option C) where
  -- The loop over the samples, from sample `k` with `left` to go.
  unfoldable pub load_samples : Address → List ℤ → ℕ → ℕ → C → Option C
  load_samples a adc zero k slots = some slots
  load_samples a adc (suc left) k slots =
      load_data slots a (get_or adc k (pos 0)) >>= load_samples a adc left (k + 1)

  module _ {D : Type 0} (fManager : Manager D) (max_slot : ℕ) where
    -- The loop, from strip number `i`; `none` is the return with HED_ERR.
    unfoldable pub load_strips : List (DigiGemStrip D) → ℕ → C → StripMap → Option (C × StripMap)
    unfolding load_samples strip_key
    load_strips [] i slots m = some (slots, m)
    load_strips (s ∷ rest) i slots m =
        load_samples (strip_to_rocd fManager max_slot (location s)) s.adc s.n_samp 0 slots
        >>= λ slots'. load_strips rest (i + 1) slots' (insert (strip_key fManager max_slot s) i m)
