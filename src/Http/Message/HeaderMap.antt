-- ===== src/Http/Message/HeaderMap.antt =====
-- `std::unordered_map<std::string, std::string>`, the header map of src/networking/http, as an
-- association list with distinct keys.
use pulse_net.Base.{
  Bool, true, false, Option, none, some, List, [], ◌∷◌, ◌≡◌, refl, arith, if◌then◌else◌,
}
use pulse_net.Base.Bytes.{Bytes, equal, equal_iff}

abbrev pub Headers : Type 0
Headers = List (Bytes × Bytes)

unfoldable pub find : Bytes → Headers → Option Bytes
find k [] = none
find k ((j, v) ∷ m) = if equal j k then some v else find k m

-- `m.find(k) != m.end()`
unfoldable pub contains : Bytes → Headers → Bool
contains k [] = false
contains k ((j, v) ∷ m) = if equal j k then true else contains k m

-- `m[k] = v`
unfoldable pub insert_or_assign : Bytes → Bytes → Headers → Headers
insert_or_assign k v [] = (k, v) ∷ []
insert_or_assign k v ((j, w) ∷ m) =
    if equal j k then (j, v) ∷ m else (j, w) ∷ insert_or_assign k v m

-- `m.emplace(k, v)`: an entry that is there stays.
unfoldable pub emplace : Bytes → Bytes → Headers → Headers
emplace k v [] = (k, v) ∷ []
emplace k v ((j, w) ∷ m) = if equal j k then (j, w) ∷ m else (j, w) ∷ emplace k v m

pub find-insert_or_assign :
    (k j v : Bytes) (m : Headers)
    → find j (insert_or_assign k v m) ≡ (if equal k j then some v else find j m)
unfolding find insert_or_assign
find-insert_or_assign k j v [] = refl
find-insert_or_assign k j v ((name, old) ∷ m) =
    ground (arith, equal_iff k j, equal_iff name k, equal_iff name j, find-insert_or_assign k j v m)

-- The first value of a name wins.
pub find-emplace :
    (k j v : Bytes) (m : Headers)
    → find j (emplace k v m)
      ≡ (if equal k j then elim (find k m) [ none ↦ some v | some w ↦ some w ] else find j m)
unfolding find emplace
find-emplace k j v [] = refl
find-emplace k j v ((name, old) ∷ m) =
    ground (arith, equal_iff k j, equal_iff name k, equal_iff name j, find-emplace k j v m)
