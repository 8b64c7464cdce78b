-- ===== src/Decoder/LoadStrips/RoundTrip.antt =====
-- After the strips of an event are loaded, the hardware address of each strip leads back to it.
use libsolgem.Base.{
  >>=-eq-some, ℕ, zero, suc, ◌+◌, ℤ, pos, ◌≡◌, ◌≢◌, refl, Option, none, some, List, [], ◌∷◌, All,
  ap, sym, ◌∙◌, get_or, get_elem?, arith,
}
use mathlib.Core.Option.{some-injective}
use libsolgem.Database.{Manager}
use libsolgem.SimEvent.{DigiGemStrip}
use libsolgem.Readout.{Address, strip_to_rocd}
use libsolgem.Readout.Addresses.{NoFewerModules, IsStrip, roc_key_inj}
use libsolgem.Readout.StripMap.{
  StripMap, find, insert, strip_from_key, find-insert_self, find-insert_ne, find-insert_keep,
}
use libsolgem.Decoder.LoadStrips.{location, load_samples, strip_key, load_strips}

module _ {D : Type 0} (fManager : Manager D) (max_slot : ℕ) where
  abbrev key : DigiGemStrip D → ℕ
  key = strip_key fManager max_slot

  -- No two strips of the list sit at one place of the detector.
  abbrev pub AreDistinct : List (DigiGemStrip D) → Type 0
  AreDistinct [] = Unit
  AreDistinct (s ∷ rest) = All (λ t. location t ≢ location s) rest × AreDistinct rest

  abbrev pub AreStrips : List (DigiGemStrip D) → Type 0
  AreStrips = All (λ s. IsStrip fManager (location s))

  key-ne :
      (s t : DigiGemStrip D)
      → NoFewerModules fManager
      → IsStrip fManager (location s)
      → IsStrip fManager (location t)
      → location t ≢ location s
      → key t ≢ key s
  unfolding strip_key
  key-ne s t h vs vt ne e = ne (roc_key_inj fManager max_slot (location t) (location s) h vt vs e)

  keys-ne :
      (s : DigiGemStrip D) (rest : List (DigiGemStrip D)) (n : ℕ) (t : DigiGemStrip D)
      → NoFewerModules fManager
      → IsStrip fManager (location s)
      → AreStrips rest
      → All (λ t. location t ≢ location s) rest
      → get_elem? rest n ≡ some t
      → key s ≢ key t
  keys-ne s [] n t h vs vr ne e k = cc
  keys-ne s (r ∷ rest) zero t h vs vr ne e k =
      key-ne s r h vs vr.0 ne.0 (ap key (some-injective _ _ e) ∙ sym k)
  keys-ne s (r ∷ rest) (suc n) t h vs vr ne e k = keys-ne s rest n t h vs vr.1 ne.1 e k

module _ (C : Type 0) (load_data : C → Address → ℤ → Option C) {D : Type 0} (fManager : Manager D)
    (max_slot : ℕ) where
  abbrev load : List (DigiGemStrip D) → ℕ → C → StripMap → Option (C × StripMap)
  load = load_strips C load_data fManager max_slot

  load_strips-cons :
      (s : DigiGemStrip D) (rest : List (DigiGemStrip D)) (i : ℕ) (slots : C) (m : StripMap)
      (out : C × StripMap)
      → load (s ∷ rest) i slots m ≡ some out
      → (slots' : C) × (load rest (i + 1) slots' (insert (key fManager max_slot s) i m) ≡ some out)
  unfolding load_strips
  load_strips-cons s rest i slots m out e =
      let (slots', _, later) =
        >>=-eq-some
          (load_samples C load_data (strip_to_rocd fManager max_slot (location s)) s.adc s.n_samp 0
            slots)
          (λ (c : C). load rest (i + 1) c (insert (key fManager max_slot s) i m)) e in
      (slots', later)

  -- What is in the map stays there.
  load_strips-keep :
      (ss : List (DigiGemStrip D)) (i k v : ℕ) (slots slots' : C) (m m' : StripMap)
      → load ss i slots m ≡ some (slots', m')
      → find k m ≡ some v
      → find k m' ≡ some v
  unfolding load_strips
  load_strips-keep [] i k v slots slots' m m' e f =
      let same : m ≡ m' = ap (λ (p : C × StripMap). p.1) (some-injective _ _ e) in rw (← same) f
  load_strips-keep (s ∷ rest) i k v slots slots' m m' e f =
      let (slots'', later) = load_strips-cons s rest i slots m (slots', m') e in
      load_strips-keep rest (i + 1) k v slots'' slots' (insert (key fManager max_slot s) i m) m'
        later (find-insert_keep k (key fManager max_slot s) i v m f)

  load_strips-find :
      (ss : List (DigiGemStrip D)) (i n : ℕ) (s : DigiGemStrip D) (slots slots' : C)
      (m m' : StripMap)
      → NoFewerModules fManager
      → AreStrips fManager max_slot ss
      → AreDistinct fManager max_slot ss
      → load ss i slots m ≡ some (slots', m')
      → get_elem? ss n ≡ some s
      → find (key fManager max_slot s) m ≡ none
      → find (key fManager max_slot s) m' ≡ some (i + n)
  unfolding load_strips
  load_strips-find [] i n s slots slots' m m' h vs ds e at free = cc
  load_strips-find (t ∷ rest) i zero s slots slots' m m' h vs ds e at free =
      let (slots'', later) = load_strips-cons t rest i slots m (slots', m') e in
      let same : t ≡ s = some-injective _ _ at in
      let here : i ≡ i + 0 = omega arith in
      load_strips-keep rest (i + 1) (key fManager max_slot s) (i + 0) slots'' slots'
        (insert (key fManager max_slot t) i m) m' later
        (rw (same, ← here) (find-insert_self (key fManager max_slot s) i m free))
  load_strips-find (t ∷ rest) i (suc n) s slots slots' m m' h vs ds e at free =
      let (slots'', later) = load_strips-cons t rest i slots m (slots', m') e in
      let next : i + 1 + n ≡ i + suc n = omega arith in
      let apart = keys-ne fManager max_slot t rest n s h vs.0 vs.1 ds.0 at in
      rw (← next) (
        load_strips-find rest (i + 1) n s slots'' slots' (insert (key fManager max_slot t) i m) m' h
          vs.1 ds.1 later at
          (find-insert_ne (key fManager max_slot s) (key fManager max_slot t) i m apart ∙ free))

  -- Suppose that no plane has fewer modules than the plane before it, that the strips of the event
  -- are strips of the detector, and that no two sit at one place. If the loop of DoLoadEvent over the
  -- strips ends without an error, StripFromROC maps the hardware address of the n-th strip back to n.
  pub strip_from_roc_round_trip :
      (ss : List (DigiGemStrip D)) (n : ℕ) (s : DigiGemStrip D) (slots slots' : C) (m : StripMap)
      → NoFewerModules fManager
      → AreStrips fManager max_slot ss
      → AreDistinct fManager max_slot ss
      → load ss 0 slots [] ≡ some (slots', m)
      → get_elem? ss n ≡ some s
      → strip_from_key m (strip_key fManager max_slot s) ≡ pos n
  unfolding strip_from_key
  strip_from_roc_round_trip ss n s slots slots' m h vs ds e at =
      let found = load_strips-find ss 0 n s slots slots' [] m h vs ds e at (unfold find in refl) in
      let whole : 0 + n ≡ n = omega arith in rw (found, strip_from_key, whole)

  load_samples-total :
      ((c : C) (a : Address) (raw : ℤ) → (c' : C) × (load_data c a raw ≡ some c'))
      → (a : Address) (adc : List ℤ) (left k : ℕ) (slots : C)
      → (slots' : C) × (load_samples C load_data a adc left k slots ≡ some slots')
  unfolding load_samples
  load_samples-total ok a adc zero k slots = (slots, refl)
  load_samples-total ok a adc (suc left) k slots =
      let (slots', e) = ok slots a (get_or adc k (pos 0)) in
      rw e (load_samples-total ok a adc left (k + 1) slots')

  -- If the slot arrays accept every sample, the loop over the strips ends without an error.
  pub load_strips_total :
      ((c : C) (a : Address) (raw : ℤ) → (c' : C) × (load_data c a raw ≡ some c'))
      → (ss : List (DigiGemStrip D)) (i : ℕ) (slots : C) (m : StripMap)
      → (slots' : C) × (m' : StripMap) × (load ss i slots m ≡ some (slots', m'))
  unfolding load_strips
  load_strips_total ok [] i slots m = (slots, m, refl)
  load_strips_total ok (s ∷ rest) i slots m =
      let (slots', e) =
        load_samples-total ok (strip_to_rocd fManager max_slot (location s)) s.adc s.n_samp 0
          slots in
      rw e (load_strips_total ok rest (i + 1) slots' (insert (strip_key fManager max_slot s) i m))
