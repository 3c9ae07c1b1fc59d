-- ===== src/Server/Events/Queues.antt =====
-- The queues of the workers of src/networking/TCPServer.h, and the clients that wait in them.
use pulse_net.Base.{
  ℕ, zero, suc, ◌<◌, ◌%◌, Bool, true, false, ◌≡◌, refl, sym, subst, none, some, Option, List, [],
  ◌∷◌, ◌++◌, ◌==◌, ==_iff, length, length-set, set, get_or, if◌then◌else◌, ◌⊎◌, inl, inr, arith,
  Bool-cases,
}
use pulse_net.Server.Events.{push_id, pop_id}

-- An id stands in a queue.
abbrev pub holds : ℕ → List ℕ → Bool
holds id [] = false
holds id (i ∷ ids) = let rest = holds id ids in if id == i then true else rest

-- The id stands in the queue of the worker that takes it.
unfoldable pub IsQueued : ℕ → List (List ℕ) → Type 0
IsQueued id queues = holds id (get_or queues (id % length queues) []) ≡ true

holds-append :
    (id i : ℕ) (ids : List ℕ)
    → holds id (ids ++ i ∷ []) ≡ (if holds id ids then true else (id == i))
holds-append id i [] = ground arith
holds-append id i (k ∷ ids) = ground (arith, holds-append id i ids)

pub get_or-set :
    (queues : List (List ℕ)) (k j : ℕ) (v : List ℕ)
    → k < length queues
    → get_or (set queues k v) j [] ≡ (if k == j then v else get_or queues j [])
get_or-set [] k j v h = absurd (omega arith)
get_or-set (q ∷ queues) zero zero v h = refl
get_or-set (q ∷ queues) zero (suc j) v h = ground arith
get_or-set (q ∷ queues) (suc k) zero v h = ground arith
get_or-set (q ∷ queues) (suc k) (suc j) v h = ground (arith, get_or-set queues k j v (omega arith))

pub push_id-length : (id : ℕ) (queues : List (List ℕ)) → length (push_id id queues) ≡ length queues
unfolding push_id
push_id-length id queues =
    length-set queues (id % length queues) (get_or queues (id % length queues) [] ++ id ∷ [])

-- A queue that is written, at the place of an id.
IsQueued-set :
    (j k : ℕ) (queues : List (List ℕ)) (v : List ℕ)
    → k < length queues
    → holds j (if k == (j % length queues) then v else get_or queues (j % length queues) []) ≡ true
    → IsQueued j (set queues k v)
unfolding IsQueued
IsQueued-set j k queues v h e =
    rw (length-set queues k v, get_or-set queues k (j % length queues) v h) e

pub push_id-IsQueued :
    (id : ℕ) (queues : List (List ℕ)) → 0 < length queues → IsQueued id (push_id id queues)
unfolding push_id
push_id-IsQueued id queues h =
    let k = id % length queues in
    let room : k < length queues = omega arith in
    IsQueued-set id k queues (get_or queues k [] ++ id ∷ []) room
      (ground (arith, holds-append id id (get_or queues k [])))

pub push_id-others :
    (j id : ℕ) (queues : List (List ℕ))
    → 0 < length queues
    → IsQueued j queues
    → IsQueued j (push_id id queues)
unfolding push_id IsQueued
push_id-others j id queues h q =
    let k = id % length queues in
    let room : k < length queues = omega arith in
    elim (Bool-cases (k == (j % length queues))) [
      | inl e ↦
          let here : holds j (get_or queues k []) ≡ true =
            subst (λ (x : ℕ). holds j (get_or queues x []) ≡ true) (sym ((==_iff k _).0 e)) q in
          IsQueued-set j k queues (get_or queues k [] ++ id ∷ []) room
            (rw e (ground (arith, holds-append j id (get_or queues k []))))
      | inr e ↦ IsQueued-set j k queues (get_or queues k [] ++ id ∷ []) room (rw e q)
    ]

List-cases : (xs : List ℕ) → (xs ≡ []) ⊎ ((x : ℕ) × (ys : List ℕ) × (xs ≡ x ∷ ys))
List-cases [] = inl refl
List-cases (x ∷ xs) = inr (x, xs, refl)

-- The front of a queue that is not empty leaves it, and no other id does.
pub record IsPopped (k id : ℕ) (queues rest : List (List ℕ)) : Type 0 where
  pub size : length rest ≡ length queues
  pub kept : (j : ℕ) → IsQueued j queues → (id == j) ≡ false → IsQueued j rest

in_range :
    (k : ℕ) (queues : List (List ℕ)) (id : ℕ) (ids : List ℕ)
    → get_or queues k [] ≡ id ∷ ids
    → k < length queues
in_range k [] id ids e = absurd cc
in_range zero (q ∷ queues) id ids e = omega arith
in_range (suc k) (q ∷ queues) id ids e = omega (arith, in_range k queues id ids e)

set-IsPopped :
    (k id : ℕ) (ids : List ℕ) (queues : List (List ℕ))
    → get_or queues k [] ≡ id ∷ ids
    → IsPopped k id queues (set queues k ids)
unfolding IsQueued
set-IsPopped k id ids queues e =
    let room = in_range k queues id ids e in
    record {
      size = length-set queues k ids;
      kept = λ j q differ. elim (Bool-cases (k == (j % length queues))) [
        | inl f ↦
            let here : holds j (get_or queues k []) ≡ true =
              subst (λ (x : ℕ). holds j (get_or queues x []) ≡ true) (sym ((==_iff k _).0 f)) q in
            let front : holds j (id ∷ ids) ≡ true = rw e at here in
            IsQueued-set j k queues ids room (rw f (ground arith))
        | inr f ↦ IsQueued-set j k queues ids room (rw f q)
      ];
    }

pub pop_id-IsPopped :
    (k id : ℕ) (queues rest : List (List ℕ))
    → pop_id k queues ≡ some (id, rest)
    → IsPopped k id queues rest
unfolding pop_id
pop_id-IsPopped k id queues rest e = elim (List-cases (get_or queues k [])) [
  | inl empty ↦ absurd (none-some (rw (pop_id, empty) at e))
  | inr (i, ids, full) ↦
      let (same, left) = some-pair (rw (pop_id, full) at e) in
      subst (λ (x : ℕ). IsPopped k x queues rest) same
        (subst (IsPopped k i queues) left (set-IsPopped k i ids queues full))
]
  where
    none-some : {p : ℕ × List (List ℕ)} → none ≡ some p → ⊥
    none-some e = cc

    some-pair :
        {i : ℕ} {ids : List (List ℕ)}
        → Path (Option (ℕ × List (List ℕ))) (some (i, ids)) (some (id, rest))
        → (i ≡ id) × (ids ≡ rest)
    some-pair e = (cc, cc)

-- The worker of a queue that is not empty is given an id.
pub pop_id-some :
    (k j : ℕ) (queues : List (List ℕ))
    → holds j (get_or queues k []) ≡ true
    → (id : ℕ) × (rest : List (List ℕ)) × (pop_id k queues ≡ some (id, rest))
unfolding pop_id
pop_id-some k j queues h = elim (List-cases (get_or queues k [])) [
  | inl empty ↦ absurd (false-true (rw empty at h))
  | inr (i, ids, full) ↦ (i, set queues k ids, rw (pop_id, full) refl)
]
  where
    false-true : false ≡ true → ⊥
    false-true e = cc
