-- ===== src/Readout/StripMap.antt =====
-- fStripMap, a std::map<Int_t,Int_t>, as an association list: `insert` leaves a key that is there
-- alone; and StripFromROC.
use libsolgem.Base.{
  ℕ, ℤ, pos, negsuc, ◌≡◌, ◌≢◌, Option, none, some, List, [], ◌∷◌, ◌==◌, if◌then◌else◌, arith,
}

abbrev pub StripMap : Type 0
StripMap = List (ℕ × ℕ)

unfoldable pub find : ℕ → StripMap → Option ℕ
find key [] = none
find key ((k, v) ∷ m) = if k == key then some v else find key m

abbrev insert_unless : Option ℕ → ℕ → ℕ → StripMap → StripMap
insert_unless (some old) key v m = m
insert_unless none key v m = (key, v) ∷ m

unfoldable pub insert : ℕ → ℕ → StripMap → StripMap
unfolding find
insert key v m = insert_unless (find key m) key v m

abbrev index_or_error : Option ℕ → ℤ
index_or_error (some i) = pos i
index_or_error none = negsuc 0

-- StripFromROC, at the key of its arguments.
unfoldable pub strip_from_key : StripMap → ℕ → ℤ
strip_from_key m key = index_or_error (find key m)

pub find-insert_self :
    (key v : ℕ) (m : StripMap) → find key m ≡ none → find key (insert key v m) ≡ some v
unfolding insert
find-insert_self key v m e = ground (arith, e)

pub find-insert_ne :
    (key key' v : ℕ) (m : StripMap) → key' ≢ key → find key (insert key' v m) ≡ find key m
unfolding insert
find-insert_ne key key' v m ne = ground arith

-- A key that is in the map keeps its value.
pub find-insert_keep :
    (key key' v w : ℕ) (m : StripMap) → find key m ≡ some w → find key (insert key' v m) ≡ some w
unfolding insert
find-insert_keep key key' v w m e = ground (arith, e)
