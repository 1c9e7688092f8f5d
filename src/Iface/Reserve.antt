-- ===== src/Iface/Reserve.antt =====
-- Bandwidth admission of src/pi/rsvp_if.c: which reservations compete for the bandwidth of an interface.
use rsvp_te.Prelude.{
  ℕ, zero, suc, ◌+◌, ◌≤◌, ◌<◌, ◌≡◌, refl, Bool, ◌&&◌, List, [], ◌∷◌, Option, none, some, sym, ◌==◌,
  leb, if◌then◌else◌, length, get_or, set, arith, Bool-cases, Option-cases, inl, inr, ap, ◌∙◌,
  get_or-set_self, subst,
}
use rsvp_te.Iface.{
  Double, Iface, pick, search_if, rsvp_if_get, new_if, change, add_reserved, sub_reserved,
  rsvp_if_reserve_bw, rsvp_if_release_bw, sum_reserved, available_on, rsvp_if_available_bw,
  num_priorities,
}

both : {a b c d : Bool} → a ≡ c → b ≡ d → a && b ≡ c && d
both e h = cc

-- A search does not see a change of an entry that it does not test.
search-set :
    (test : Iface → Bool) (g : Iface → Iface)
    → ((f : Iface) → (g f).active ≡ f.active)
    → ((f : Iface) → test (g f) ≡ test f)
    → (fs : List Iface) (i : ℕ) (d : Iface)
    → search_if test (set fs i (g (get_or fs i d))) ≡ search_if test fs
unfolding search_if
search-set test g a t [] i d = refl
search-set test g a t (f ∷ fs) zero d =
    ap (λ (b : Bool). pick b (search_if test fs)) (both (a f) (t f))
search-set test g a t (f ∷ fs) (suc i) d =
    ap (pick (f.active && test f)) (search-set test g a t fs i d)

search-below :
    (test : Iface → Bool) (fs : List Iface) (i : ℕ) → search_if test fs ≡ some i → i < length fs
unfolding search_if
search-below test [] i e = absurd (ground arith)
search-below test (f ∷ fs) i e = elim (Bool-cases (f.active && test f)) [
  | inl here ↦
      subst (λ (k : ℕ). k < length (f ∷ fs)) (let z : 0 ≡ i = cc (rw here at e) in z) (omega arith)
  | inr later ↦ elim (Option-cases (search_if test fs)) [
    | inl none_left ↦ absurd (cc (rw (later, none_left) at e))
    | inr (j, rest) ↦
        let below = search-below test fs j rest in
        subst (λ (k : ℕ). k < length (f ∷ fs)) (let z : suc j ≡ i = cc (rw (later, rest) at e) in z)
          (omega arith)
  ]
]

sum-set :
    (d : Double) (rs : List ℕ) (total count p v : ℕ)
    → count ≤ p
    → sum_reserved d total count (set rs p v) ≡ sum_reserved d total count rs
unfolding sum_reserved
sum-set d rs total zero p v h = refl
sum-set d [] total (suc count) p v h = refl
sum-set d (r ∷ rs) total (suc count) zero v h = absurd (omega arith)
sum-set d (r ∷ rs) total (suc count) (suc p) v h =
    sum-set d rs (d.add total r) count p v (omega arith)

abbrev of_index : ℕ → Iface → Bool
of_index ifindex f = f.ifindex == ifindex

-- A change of an interface that leaves what `at_priority` is asked about.
record Above (d : Double) (at_priority : ℕ) (g : Iface → Iface) : Type 0 where
  active : (f : Iface) → (g f).active ≡ f.active
  ifindex : (f : Iface) → (g f).ifindex ≡ f.ifindex
  available : (f : Iface) → available_on d at_priority (g f) ≡ available_on d at_priority f

abbrev at : List Iface → ℕ → Iface
at fs i = get_or fs i (new_if [] 0)

available_found :
    (d : Double) (fs : List Iface) (ifindex priority i : ℕ)
    → search_if (of_index ifindex) fs ≡ some i
    → rsvp_if_available_bw d fs ifindex priority
      ≡ (if leb num_priorities priority then 0 else available_on d priority (at fs i))
unfolding rsvp_if_available_bw rsvp_if_get
available_found d fs ifindex priority i here = rw here refl

changed :
    (g : Iface → Iface) (fs : List Iface) (o : Option ℕ) (i : ℕ)
    → o ≡ some i
    → change g (o, fs) ≡ set fs i (g (at fs i))
changed g fs none i e = cc
changed g fs (some j) i e = let same : j ≡ i = ground arith in rw same refl

unchanged : (g : Iface → Iface) (fs : List Iface) (o : Option ℕ) → o ≡ none → change g (o, fs) ≡ fs
unchanged g fs none e = refl
unchanged g fs (some j) e = cc

change-available :
    (d : Double) (at_priority : ℕ) (g : Iface → Iface) (fs : List Iface) (ifindex : ℕ)
    → Above d at_priority g
    → rsvp_if_available_bw d (change g (search_if (of_index ifindex) fs, fs)) ifindex at_priority
      ≡ rsvp_if_available_bw d fs ifindex at_priority
change-available d at_priority g fs ifindex above =
    let now = λ (gs : List Iface). rsvp_if_available_bw d gs ifindex at_priority in
    let left = λ (v : ℕ). if leb num_priorities at_priority then 0 else v in
    elim (Option-cases (search_if (of_index ifindex) fs)) [
      | inl missing ↦ ap now (unchanged g fs _ missing)
      | inr (i, here) ↦
          let still =
            search-set (of_index ifindex) g above.active
              (λ x. ap (λ n. n == ifindex) (above.ifindex x)) fs i (new_if [] 0) in
          let self =
            get_or-set_self fs i (g (at fs i)) (new_if [] 0)
              (search-below (of_index ifindex) fs i here) in
          ap now (changed g fs _ i here)
          ∙ available_found d (set fs i (g (at fs i))) ifindex at_priority i (still ∙ here)
          ∙ ap left (ap (available_on d at_priority) self ∙ above.available (at fs i))
          ∙ sym (available_found d fs ifindex at_priority i here)
    ]

-- What is reserved or released at a priority changes nothing for the more important priorities, which have
-- the smaller numbers: whatever the arithmetic of `double` rounds, the same interface has for them exactly
-- what it had before.
pub available-reserve_above :
    (d : Double) (fs : List Iface) (ifindex priority at_priority bw : ℕ)
    → at_priority < priority
    → (rsvp_if_available_bw d (rsvp_if_reserve_bw d fs ifindex priority bw) ifindex at_priority
        ≡ rsvp_if_available_bw d fs ifindex at_priority)
      × (rsvp_if_available_bw d (rsvp_if_release_bw d fs ifindex priority bw) ifindex at_priority
          ≡ rsvp_if_available_bw d fs ifindex at_priority)
unfolding rsvp_if_reserve_bw rsvp_if_release_bw rsvp_if_get
available-reserve_above d fs ifindex priority at_priority bw lt =
    elim (Bool-cases (leb num_priorities priority)) [
      | inl none_such ↦ rw none_such (refl, refl)
      | inr good ↦ rw good (
        change-available d at_priority (add_reserved d priority bw) fs ifindex (record {
          active = λ f. refl;
          ifindex = λ f. refl;
          available = λ f.
              rw
                (sum-set d f.reserved_bw 0 (at_priority + 1) priority
                  (d.add (get_or f.reserved_bw priority 0) bw) (omega arith))
                refl;
        }),
        change-available d at_priority (sub_reserved d priority bw) fs ifindex (record {
          active = λ f. refl;
          ifindex = λ f. refl;
          available = λ f.
              let left = d.sub (get_or f.reserved_bw priority 0) bw in
              rw
                (sum-set d f.reserved_bw 0 (at_priority + 1) priority
                  (if d.less left 0 then 0 else left) (omega arith))
                refl;
        }),
      )
    ]
