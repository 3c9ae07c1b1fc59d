-- ===== src/Utils/Config/Order.antt =====
-- The order of the keys of `m_config` (src/utils/ConfigParser.cpp).
use pulse_net.Base.{
  ◌≡◌, refl, ap, sym, subst, ◌++◌, true, false, [], ◌∷◌, arith, Bool-cases, inl, inr,
}
use pulse_net.Base.Bytes.{Bytes, equal, equal_iff}
use pulse_net.Utils.Config.{Entries, less, assign}

pub less_trans : (a b c : Bytes) → less a b ≡ true → less b c ≡ true → less a c ≡ true
unfolding less
less_trans [] [] c h g = absurd cc
less_trans [] (y ∷ b) [] h g = absurd cc
less_trans [] (y ∷ b) (z ∷ c) h g = refl
less_trans (x ∷ a) [] c h g = absurd cc
less_trans (x ∷ a) (y ∷ b) [] h g = absurd cc
less_trans (x ∷ a) (y ∷ b) (z ∷ c) h g = ground (arith, less_trans a b c)

less_total : (a b : Bytes) → equal a b ≡ false → less a b ≡ false → less b a ≡ true
unfolding less equal
less_total [] [] h g = absurd cc
less_total [] (y ∷ b) h g = absurd cc
less_total (x ∷ a) [] h g = refl
less_total (x ∷ a) (y ∷ b) h g = ground (arith, less_total a b)

-- A smaller key is another key, and not a greater one.
less_asym : (a b : Bytes) → less a b ≡ true → (equal b a ≡ false) × (less b a ≡ false)
unfolding less equal
less_asym [] [] h = absurd cc
less_asym [] (y ∷ b) h = (refl, refl)
less_asym (x ∷ a) [] h = absurd cc
less_asym (x ∷ a) (y ∷ b) h = ground (arith, less_asym a b)

-- `k` stands before all keys.
abbrev pub IsBelow : Bytes → Entries → Type 0
IsBelow k [] = Unit {0}
IsBelow k ((j, w) ∷ m) = (less k j ≡ true) × IsBelow k m

abbrev pub IsSorted : Entries → Type 0
IsSorted [] = Unit {0}
IsSorted ((k, v) ∷ m) = IsBelow k m × IsSorted m

IsBelow-trans : (k j : Bytes) (m : Entries) → less k j ≡ true → IsBelow j m → IsBelow k m
IsBelow-trans k j [] h b = tt
IsBelow-trans k j ((i, w) ∷ m) h b = (less_trans k j i h b.0, IsBelow-trans k j m h b.1)

assign-IsBelow :
    (i k v : Bytes) (m : Entries) → less i k ≡ true → IsBelow i m → IsBelow i (assign k v m)
unfolding assign
assign-IsBelow i k v [] h b = (h, tt)
assign-IsBelow i k v ((j, w) ∷ m) h b = elim (Bool-cases (equal k j)) [
  | inl e ↦ rw e (h, b.1)
  | inr e ↦ elim (Bool-cases (less k j)) [
    | inl f ↦ rw (e, f) (h, b)
    | inr f ↦ rw (e, f) (b.0, assign-IsBelow i k v m h b.1)
  ]
]

pub assign-IsSorted : (k v : Bytes) (m : Entries) → IsSorted m → IsSorted (assign k v m)
unfolding assign
assign-IsSorted k v [] s = (tt, tt)
assign-IsSorted k v ((j, w) ∷ m) s = elim (Bool-cases (equal k j)) [
  | inl e ↦
      let same : k ≡ j = (equal_iff k j).0 e in
      rw e (subst (λ (x : Bytes). IsBelow x m) (sym same) s.0, s.1)
  | inr e ↦ elim (Bool-cases (less k j)) [
    | inl f ↦ rw (e, f) ((f, IsBelow-trans k j m f s.0), s)
    | inr f ↦ rw (e, f) (assign-IsBelow j k v m (less_total k j e f) s.0, assign-IsSorted k v m s.1)
  ]
]

-- Behind all other keys.
abbrev pub IsAbove : Bytes → Entries → Type 0
IsAbove k [] = Unit {0}
IsAbove k ((j, w) ∷ m) = (less j k ≡ true) × IsAbove k m

pub assign_last : (k v : Bytes) (m : Entries) → IsAbove k m → assign k v m ≡ m ++ (k, v) ∷ []
unfolding assign
assign_last k v [] a = refl
assign_last k v ((j, w) ∷ m) a =
    let (differ, not_less) = less_asym j k a.0 in
    rw (differ, not_less) (ap (◌∷◌ (j, w)) (assign_last k v m a.1))
