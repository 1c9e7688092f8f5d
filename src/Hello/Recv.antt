-- ===== src/Hello/Recv.antt =====
-- `rsvp_hello_recv` and the two timer callbacks of src/pi/rsvp_hello.c: what becomes of a neighbour.
use rsvp_te.Prelude.{
  ℕ, zero, suc, ◌+◌, ◌<◌, ◌≤◌, ◌≡◌, ◌%◌, ◌^◌, refl, subst, true, false, List, [], ◌∷◌, ◌++◌, Option,
  none, some, leb, length, get_or, arith, Bool-cases, Option-cases, inl, inr,
}
use rsvp_te.Hello.{
  Neighbor, Env, zero_neighbor, hit, rsvp_hello_find_neighbor, new_neighbor,
  rsvp_hello_add_neighbor, hello_message, send_message, send_hello, max_neighbors,
}

-- What no call to `send_hello` changes: all but the counter.
send_message-same :
    (env : Env) (n : Neighbor) (msg : Option (List ℕ))
    → (k : ℕ) × ((send_message env n msg).0 ≡ record n { hellos_sent = k })
unfolding send_message
send_message-same env n none = (n.hellos_sent, refl)
send_message-same env n (some msg) = elim (Bool-cases env.send_ok) [
  | inl e ↦ ((n.hellos_sent + 1) % 2 ^ 64, rw e refl)
  | inr e ↦ (n.hellos_sent, rw e refl)
]

pub send_hello-same :
    (env : Env) (n : Neighbor) (c_type : ℕ)
    → (k : ℕ) × ((send_hello env n c_type).0 ≡ record n { hellos_sent = k })
unfolding send_hello
send_hello-same env n c_type = send_message-same env n (hello_message n c_type)

pub find_neighbor-none :
    (ns : List Neighbor) (addr i : ℕ)
    → rsvp_hello_find_neighbor ns addr ≡ none
    → i < length ns
    → hit addr (get_or ns i zero_neighbor) ≡ false
unfolding rsvp_hello_find_neighbor
find_neighbor-none [] addr i e h = absurd (omega arith)
find_neighbor-none (n ∷ ns) addr zero e h = ground arith
find_neighbor-none (n ∷ ns) addr (suc i) e h = elim (Bool-cases (hit addr n)) [
  | inl here ↦ absurd (cc (rw here at e))
  | inr later ↦ elim (Option-cases (rsvp_hello_find_neighbor ns addr)) [
    | inl rest ↦ find_neighbor-none ns addr i rest (omega arith)
    | inr (j, rest) ↦ absurd (cc (rw (later, rest, rsvp_hello_find_neighbor) at e))
  ]
]

pub find_neighbor-some :
    (ns : List Neighbor) (addr i : ℕ)
    → rsvp_hello_find_neighbor ns addr ≡ some i
    → (i < length ns) × (hit addr (get_or ns i zero_neighbor) ≡ true)
unfolding rsvp_hello_find_neighbor
find_neighbor-some [] addr i e = absurd (ground arith)
find_neighbor-some (n ∷ ns) addr i e = elim (Bool-cases (hit addr n)) [
  | inl here ↦
      subst (λ (k : ℕ). (k < length (n ∷ ns)) × (hit addr (get_or (n ∷ ns) k zero_neighbor) ≡ true))
        (let z : 0 ≡ i = ground arith in z) (omega arith, here)
  | inr later ↦ elim (Option-cases (rsvp_hello_find_neighbor ns addr)) [
    | inl rest ↦ absurd (cc (rw (later, rest, rsvp_hello_find_neighbor) at e))
    | inr (j, rest) ↦
        let (below, found) = find_neighbor-some ns addr j rest in
        subst
          (λ (k : ℕ). (k < length (n ∷ ns)) × (hit addr (get_or (n ∷ ns) k zero_neighbor) ≡ true))
          (let z : suc j ≡ i = ground arith in z) (omega arith, found)
  ]
]

-- `rsvp_hello_add_neighbor` for an address: it is in the table, there is no room, or it is added.
pub data Added (env : Env) (ns : List Neighbor) (addr local_addr ifindex : ℕ) : Type 0 where
  known :
      (i : ℕ)
      → rsvp_hello_add_neighbor env ns addr local_addr ifindex ≡ (some i, ns)
      → i < length ns
      → hit addr (get_or ns i zero_neighbor) ≡ true
      → Added env ns addr local_addr ifindex
  full :
      rsvp_hello_add_neighbor env ns addr local_addr ifindex ≡ (none, ns)
      → max_neighbors ≤ length ns
      → rsvp_hello_find_neighbor ns addr ≡ none
      → Added env ns addr local_addr ifindex
  added :
      rsvp_hello_add_neighbor env ns addr local_addr ifindex
        ≡ (some (length ns), ns ++ (new_neighbor env addr local_addr ifindex ∷ []))
      → length ns < max_neighbors
      → ((i : ℕ) → i < length ns → hit addr (get_or ns i zero_neighbor) ≡ false)
      → Added env ns addr local_addr ifindex

pub add_neighbor-Added :
    (env : Env) (ns : List Neighbor) (addr local_addr ifindex : ℕ)
    → Added env ns addr local_addr ifindex
unfolding rsvp_hello_add_neighbor
add_neighbor-Added env ns addr local_addr ifindex =
    elim (Option-cases (rsvp_hello_find_neighbor ns addr)) [
      | inl e ↦ elim (Bool-cases (leb max_neighbors (length ns))) [
        | inl no_room ↦ full (rw (e, rsvp_hello_add_neighbor, no_room) refl) (ground arith) e
        | inr room ↦
            added (rw (e, rsvp_hello_add_neighbor, room) refl) (ground arith)
              λ i h. find_neighbor-none ns addr i e h
      ]
      | inr (i, e) ↦
          let (below, found) = find_neighbor-some ns addr i e in
          known i (rw (e, rsvp_hello_add_neighbor) refl) below found
    ]
