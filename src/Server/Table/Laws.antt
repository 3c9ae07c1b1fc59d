-- ===== src/Server/Table/Laws.antt =====
-- The client table of src/networking/TCPServer.h stays consistent.
use pulse_net.Base.{
  ◌+◌, ℕ, zero, suc, ◌<◌, ◌≤◌, ◌≡◌, refl, ap, sym, ◌∙◌, Option, none, some, List, [], ◌∷◌, ◌++◌,
  length, set, arith, ◌==◌, if◌then◌else◌, length-append, ◌⊎◌, inl, inr, Option-cases,
}
use pulse_net.Base.Bytes.{Bytes}
use pulse_net.Server.Client.{Client, make_client, increase_reference_count}
use pulse_net.Server.Table.{
  ClientTable, empty_table, slot, put, add_client, get_client, terminate_client,
}

-- How often an id stands in a list.
abbrev pub count : ℕ → List ℕ → ℕ
count id [] = 0
count id (j ∷ js) = if j == id then suc (count id js) else count id js

List-cases : (xs : List ℕ) → (xs ≡ []) ⊎ ((x : ℕ) × (ys : List ℕ) × (xs ≡ x ∷ ys))
List-cases [] = inl refl
List-cases (x ∷ xs) = inr (x, xs, refl)

-- 1 for a null entry, 0 for a client and out of range.
abbrev pub vacant : List (Option Client) → ℕ → ℕ
vacant [] id = 0
vacant (none ∷ cs) zero = 1
vacant (some c ∷ cs) zero = 0
vacant (c ∷ cs) (suc id) = vacant cs id

-- The free ids are the ids of the null entries, each once; a client stands at its own id.
pub record IsConsistent (t : ClientTable) : Type 0 where
  pub free : (id : ℕ) → count id t.free_ids ≡ vacant t.client_list id
  pub own : (id : ℕ) (c : Client) → slot t.client_list id ≡ some c → c.id ≡ id

pub slot-set :
    (cs : List (Option Client)) (i j : ℕ) (o : Option Client)
    → i < length cs
    → slot (set cs i o) j ≡ (if i == j then o else slot cs j)
unfolding slot
slot-set [] i j o h = absurd (omega arith)
slot-set (c ∷ cs) zero zero o h = refl
slot-set (c ∷ cs) zero (suc j) o h = ground arith
slot-set (c ∷ cs) (suc i) zero o h = ground arith
slot-set (c ∷ cs) (suc i) (suc j) o h = ground (arith, slot-set cs i j o (omega arith))

vacant-set :
    (cs : List (Option Client)) (i j : ℕ) (o : Option Client)
    → i < length cs
    → vacant (set cs i o) j ≡ (if i == j then elim o [ none ↦ 1 | some c ↦ 0 ] else vacant cs j)
vacant-set [] i j o h = absurd (omega arith)
vacant-set (c ∷ cs) zero zero none h = refl
vacant-set (c ∷ cs) zero zero (some d) h = refl
vacant-set (c ∷ cs) zero (suc j) o h = ground arith
vacant-set (c ∷ cs) (suc i) zero o h = ground arith
vacant-set (c ∷ cs) (suc i) (suc j) o h = ground (arith, vacant-set cs i j o (omega arith))

vacant-in_range : (cs : List (Option Client)) (id : ℕ) → 0 < vacant cs id → id < length cs
vacant-in_range [] id h = absurd (omega arith)
vacant-in_range (c ∷ cs) zero h = omega arith
vacant-in_range (c ∷ cs) (suc id) h = omega (arith, vacant-in_range cs id h)

vacant-slot : (cs : List (Option Client)) (id : ℕ) → 0 < vacant cs id → slot cs id ≡ none
unfolding slot
vacant-slot [] id h = refl
vacant-slot (none ∷ cs) zero h = refl
vacant-slot (some c ∷ cs) zero h = absurd (omega arith)
vacant-slot (c ∷ cs) (suc id) h = vacant-slot cs id h

pub slot-vacant :
    (cs : List (Option Client)) (id : ℕ) (c : Client)
    → slot cs id ≡ some c
    → (vacant cs id ≡ 0) × (id < length cs)
unfolding slot
slot-vacant [] id c h = absurd cc
slot-vacant (none ∷ cs) zero c h = absurd cc
slot-vacant (some d ∷ cs) zero c h = (refl, omega arith)
slot-vacant (d ∷ cs) (suc id) c h = let (a, b) = slot-vacant cs id c h in (a, omega arith)

vacant-push :
    (cs : List (Option Client)) (id : ℕ)
    → vacant (cs ++ none ∷ []) id ≡ (if id == length cs then 1 else vacant cs id)
vacant-push [] zero = refl
vacant-push [] (suc id) = ground arith
vacant-push (c ∷ cs) zero = ground arith
vacant-push (c ∷ cs) (suc id) = ground (arith, vacant-push cs id)

slot-push : (cs : List (Option Client)) (id : ℕ) → slot (cs ++ none ∷ []) id ≡ slot cs id
unfolding slot
slot-push [] zero = refl
slot-push [] (suc id) = refl
slot-push (c ∷ cs) zero = refl
slot-push (c ∷ cs) (suc id) = slot-push cs id

vacant_outside : (cs : List (Option Client)) (id : ℕ) → length cs ≤ id → vacant cs id ≡ 0
vacant_outside [] id h = refl
vacant_outside (c ∷ cs) zero h = absurd (omega arith)
vacant_outside (c ∷ cs) (suc id) h = vacant_outside cs id (omega arith)

slot_outside : (cs : List (Option Client)) (id : ℕ) → length cs ≤ id → slot cs id ≡ none
unfolding slot
slot_outside [] id h = refl
slot_outside (c ∷ cs) zero h = absurd (omega arith)
slot_outside (c ∷ cs) (suc id) h = slot_outside cs id (omega arith)

pub empty_table-IsConsistent : IsConsistent empty_table
unfolding slot
empty_table-IsConsistent = record { free = λ id. refl; own = λ id c h. absurd cc }

-- What `addClient` does, with the choice of the id taken apart.
add_client-free :
    (port : ℕ) (ip : Bytes) (sock len : ℕ) (buffer : Bytes) (t : ClientTable) (id : ℕ)
    (ids : List ℕ)
    → t.free_ids ≡ id ∷ ids
    → add_client port ip sock len buffer t ≡ (
      id,
      record t {
        client_list =
            set t.client_list id
              (some (increase_reference_count (make_client id port ip len sock buffer)));
        free_ids = ids;
      },
    )
unfolding add_client
add_client-free port ip sock len buffer t id ids e = rw e refl

add_client-grow :
    (port : ℕ) (ip : Bytes) (sock len : ℕ) (buffer : Bytes) (t : ClientTable)
    → t.free_ids ≡ []
    → add_client port ip sock len buffer t ≡ (
      length t.client_list,
      record t {
        client_list = set (t.client_list ++ none ∷ []) (length t.client_list) (
            some (
              increase_reference_count
                (make_client (length t.client_list) port ip len sock buffer)));
      },
    )
unfolding add_client
add_client-grow port ip sock len buffer t e = rw e refl

-- A client that is put at its own id, when that id is not free any more.
pub install-IsConsistent :
    (t : ClientTable) (cs : List (Option Client)) (ids : List ℕ) (id : ℕ) (c : Client)
    → id < length cs
    → c.id ≡ id
    → ((j : ℕ) → count j ids ≡ (if id == j then 0 else vacant cs j))
    → ((j : ℕ) (d : Client) → slot cs j ≡ some d → d.id ≡ j)
    → IsConsistent (record t { client_list = set cs id (some c); free_ids = ids })
install-IsConsistent t cs ids id c h e f own = record {
  free = λ j. f j ∙ sym (vacant-set cs id j (some c) h);
  own = λ j d s. ground (arith, slot-set cs id j (some c) h, own j d);
}

abbrev new_client : ℕ → ℕ → Bytes → ℕ → ℕ → Bytes → Client
new_client id port ip sock len buffer =
    increase_reference_count (make_client id port ip len sock buffer)

new_client_id :
    (id port : ℕ) (ip : Bytes) (sock len : ℕ) (buffer : Bytes)
    → (new_client id port ip sock len buffer).id ≡ id
unfolding make_client
new_client_id id port ip sock len buffer = refl

vacant_le_one : (cs : List (Option Client)) (id : ℕ) → vacant cs id ≤ 1
vacant_le_one [] id = omega arith
vacant_le_one (none ∷ cs) zero = omega arith
vacant_le_one (some c ∷ cs) zero = omega arith
vacant_le_one (c ∷ cs) (suc id) = vacant_le_one cs id

-- The id that is taken from the free ids has a null entry, and is free no more.
count_head :
    (cs : List (Option Client)) (id : ℕ) (ids : List ℕ)
    → ((j : ℕ) → count j (id ∷ ids) ≡ vacant cs j)
    → (0 < vacant cs id) × ((j : ℕ) → count j ids ≡ (if id == j then 0 else vacant cs j))
count_head cs id ids f = (ground (arith, f id), λ j. ground (arith, f j, vacant_le_one cs j))

-- The client table stays consistent when a client is added.
pub add_client-IsConsistent :
    (port : ℕ) (ip : Bytes) (sock len : ℕ) (buffer : Bytes) (t : ClientTable)
    → IsConsistent t
    → IsConsistent (add_client port ip sock len buffer t).1
add_client-IsConsistent port ip sock len buffer t s = elim (List-cases t.free_ids) [
  | inl e ↦
      let cs = t.client_list in
      let id = length cs in
      rw (add_client-grow port ip sock len buffer t e) (
        install-IsConsistent t (cs ++ none ∷ []) t.free_ids id
          (new_client id port ip sock len buffer) (omega (arith, length-append cs (none ∷ [])))
          (new_client_id id port ip sock len buffer)
          (λ j. ground (arith, s.free j, vacant-push cs j, vacant_outside cs j))
          (λ j d h. s.own j d (sym (slot-push cs j) ∙ h)))
  | inr (id, ids, e) ↦
      let (room, others) = count_head t.client_list id ids (λ j. ap (count j) (sym e) ∙ s.free j) in
      rw (add_client-free port ip sock len buffer t id ids e) (
        install-IsConsistent t t.client_list ids id (new_client id port ip sock len buffer)
          (vacant-in_range t.client_list id room) (new_client_id id port ip sock len buffer) others
          s.own)
]

-- The client that is added takes an id that no other client has, with one reference, no byte
-- received and nothing to send, and the entries of all other ids stay.
pub add_client-slot :
    (port : ℕ) (ip : Bytes) (sock len : ℕ) (buffer : Bytes) (t : ClientTable)
    → IsConsistent t
    → (slot t.client_list (add_client port ip sock len buffer t).0 ≡ none)
      × ((j : ℕ)
          → slot (add_client port ip sock len buffer t).1.client_list j ≡ (
              if (add_client port ip sock len buffer t).0 == j
              then some (
                  increase_reference_count
                    (make_client (add_client port ip sock len buffer t).0 port ip len sock buffer))
              else slot t.client_list j))
add_client-slot port ip sock len buffer t s = elim (List-cases t.free_ids) [
  | inl e ↦
      let cs = t.client_list in
      rw (add_client-grow port ip sock len buffer t e) (
        slot_outside cs (length cs) (omega arith),
        λ j. rw (sym (slot-push cs j)) (
            slot-set (cs ++ none ∷ []) (length cs) j _
              (omega (arith, length-append cs (none ∷ [])))),
      )
  | inr (id, ids, e) ↦
      let room = (count_head t.client_list id ids (λ j. ap (count j) (sym e) ∙ s.free j)).0 in
      rw (add_client-free port ip sock len buffer t id ids e) (
        vacant-slot t.client_list id room,
        λ j. slot-set t.client_list id j _ (vacant-in_range t.client_list id room),
      )
]

pub get_client-none :
    (id : ℕ) (t : ClientTable) → slot t.client_list id ≡ none → get_client id t ≡ (none, t)
unfolding get_client
get_client-none id t e = rw (get_client, e) refl

pub get_client-some :
    (id : ℕ) (t : ClientTable) (c : Client)
    → slot t.client_list id ≡ some c
    → get_client id t ≡ (some (increase_reference_count c), put id (increase_reference_count c) t)
unfolding get_client
get_client-some id t c e = rw (get_client, e) refl

pub terminate_client-none :
    (id : ℕ) (t : ClientTable) → slot t.client_list id ≡ none → terminate_client id t ≡ t
unfolding terminate_client
terminate_client-none id t e = rw (terminate_client, e) refl

pub terminate_client-some :
    (id : ℕ) (t : ClientTable) (c : Client)
    → slot t.client_list id ≡ some c
    → terminate_client id t ≡ record {
      client_list = set t.client_list id none;
      free_ids = id ∷ t.free_ids;
      closed_sockets = c.sock ∷ t.closed_sockets;
      abandoned_operations = t.abandoned_operations + c.pending_receives + c.pending_sends;
    }
unfolding terminate_client
terminate_client-some id t c e = rw (terminate_client, e) refl

-- The client table stays consistent when a client is looked up.
pub get_client-IsConsistent :
    (id : ℕ) (t : ClientTable) → IsConsistent t → IsConsistent (get_client id t).1
get_client-IsConsistent id t s = elim (Option-cases (slot t.client_list id)) [
  | inl e ↦ rw (get_client-none id t e) s
  | inr (c, e) ↦
      let (full, room) = slot-vacant t.client_list id c e in
      rw (get_client-some id t c e) (
        install-IsConsistent t t.client_list t.free_ids id (increase_reference_count c) room
          (s.own id c e) (λ j. ground (arith, s.free j, full)) s.own)
]

-- The client table stays consistent when a client is terminated.
pub terminate_client-IsConsistent :
    (id : ℕ) (t : ClientTable) → IsConsistent t → IsConsistent (terminate_client id t)
terminate_client-IsConsistent id t s = elim (Option-cases (slot t.client_list id)) [
  | inl e ↦ rw (terminate_client-none id t e) s
  | inr (c, e) ↦
      let (full, room) = slot-vacant t.client_list id c e in
      rw (terminate_client-some id t c e) (record {
        free = λ j. ground (arith, s.free j, vacant-set t.client_list id j none room, full);
        own = λ j d h. ground (arith, slot-set t.client_list id j none room, s.own j d);
      })
]

pub add_client-abandoned :
    (port : ℕ) (ip : Bytes) (sock len : ℕ) (buffer : Bytes) (t : ClientTable)
    → (add_client port ip sock len buffer t).1.abandoned_operations ≡ t.abandoned_operations
add_client-abandoned port ip sock len buffer t = elim (List-cases t.free_ids) [
  | inl e ↦ rw (add_client-grow port ip sock len buffer t e) refl
  | inr (id, ids, e) ↦ rw (add_client-free port ip sock len buffer t id ids e) refl
]

-- No client is in an empty table.
pub no_client : (j : ℕ) (c : Client) → slot empty_table.client_list j ≡ some c → ⊥
unfolding slot
no_client j c e = absurd cc
