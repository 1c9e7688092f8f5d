-- ===== src/Iface.antt =====
-- src/pi/rsvp_if.c: the table of interfaces and the bandwidth that is reserved on them. A bandwidth is the
-- bits of a `double`, of which 0 is 0.0; the arithmetic on them is an argument. A name is its characters
-- without the terminator.
pub mod Reserve
mod Tests
use rsvp_te.Prelude.{
  ℕ, zero, suc, ◌+◌, ◌-◌, Bool, true, false, not, ◌&&◌, List, [], ◌∷◌, ◌++◌, Option, none, some,
  ◌==◌, ltb, leb, if◌then◌else◌, length, get_or, set, take, replicate,
}

-- The arithmetic of `double`: `a + b`, `a - b` and `a < b`.
pub record Double : Type 0 where
  pub add : ℕ → ℕ → ℕ
  pub sub : ℕ → ℕ → ℕ
  pub less : ℕ → ℕ → Bool

-- `struct rsvp_if`
pub record Iface : Type 0 where
  pub name : List ℕ
  pub ifindex : ℕ
  pub rsvp_enabled : Bool
  pub total_bw : ℕ
  pub reservable_bw : ℕ
  pub reserved_bw : List ℕ
  pub hello_interval_ms : ℕ
  pub active : Bool

abbrev pub num_priorities : ℕ
num_priorities = 8

abbrev pub max_if : ℕ
max_if = 64

-- The table after `rsvp_if_init` and `rsvp_if_shutdown`.
abbrev pub rsvp_if_init : List Iface
rsvp_if_init = []

abbrev pub pick : Bool → Option ℕ → Option ℕ
pick true rest = some 0
pick false none = none
pick false (some i) = some (suc i)

-- What a search of the table finds: the place of the first entry in use that passes the test.
unfoldable pub search_if : (Iface → Bool) → List Iface → Option ℕ
search_if test [] = none
search_if test (f ∷ fs) = pick (f.active && test f) (search_if test fs)

unfoldable pub rsvp_if_get : List Iface → ℕ → Option ℕ
rsvp_if_get fs ifindex = search_if (λ f. f.ifindex == ifindex) fs

abbrev pub eq_chars : List ℕ → List ℕ → Bool
eq_chars [] [] = true
eq_chars (a ∷ cs) (b ∷ bs) = let rest = eq_chars cs bs in a == b && rest
eq_chars _ _ = false

-- `IF_NAMESIZE`
abbrev pub if_namesize : ℕ
if_namesize = 16

-- `strncmp(…, IF_NAMESIZE) == 0`
unfoldable pub rsvp_if_get_by_name : List Iface → List ℕ → Option ℕ
rsvp_if_get_by_name fs name =
    search_if (λ f. eq_chars (take if_namesize f.name) (take if_namesize name)) fs

-- A cleared entry with its name, cut to 15 characters; `kernel_index` is what `if_nametoindex` returns.
abbrev pub new_if : List ℕ → ℕ → Iface
new_if name kernel_index = record {
  name = take 15 name;
  ifindex = kernel_index;
  rsvp_enabled = false;
  total_bw = 0;
  reservable_bw = 0;
  reserved_bw = replicate num_priorities 0;
  hello_interval_ms = 5000;
  active = true;
}

unfoldable pub rsvp_if_find_or_create : List Iface → List ℕ → ℕ → Option ℕ × List Iface
rsvp_if_find_or_create fs name kernel_index = elim (rsvp_if_get_by_name fs name) [
  | some i ↦ (some i, fs)
  | none ↦
      if leb max_if (length fs)
      then (none, fs)
      else (some (length fs), fs ++ (new_if name kernel_index ∷ []))
]

-- A change of the entry that a pointer leads to; NULL is left alone.
abbrev pub change : (Iface → Iface) → Option ℕ × List Iface → List Iface
change f (none, fs) = fs
change f (some i, fs) = set fs i (f (get_or fs i (new_if [] 0)))

unfoldable pub rsvp_if_enable : List Iface → List ℕ → ℕ → List Iface
rsvp_if_enable fs name kernel_index =
    change
      (λ f. record f {
        ifindex = if kernel_index == 0 then f.ifindex else kernel_index;
        rsvp_enabled = true;
      })
      (rsvp_if_find_or_create fs name kernel_index)

unfoldable pub rsvp_if_disable : List Iface → List ℕ → List Iface
rsvp_if_disable fs name =
    change (λ f. record f { rsvp_enabled = false }) (rsvp_if_get_by_name fs name, fs)

unfoldable pub rsvp_if_set_bandwidth : List Iface → List ℕ → ℕ → ℕ → ℕ → List Iface
rsvp_if_set_bandwidth fs name kernel_index total_bw reservable_bw =
    change (λ f. record f { total_bw = total_bw; reservable_bw = reservable_bw })
      (rsvp_if_find_or_create fs name kernel_index)

abbrev pub add_reserved : Double → ℕ → ℕ → Iface → Iface
add_reserved d priority bw f = record f {
  reserved_bw = set f.reserved_bw priority (d.add (get_or f.reserved_bw priority 0) bw);
}

-- A difference below 0 becomes 0.
abbrev pub sub_reserved : Double → ℕ → ℕ → Iface → Iface
sub_reserved d priority bw f =
    let left = d.sub (get_or f.reserved_bw priority 0) bw in
    record f { reserved_bw = set f.reserved_bw priority (if d.less left 0 then 0 else left) }

unfoldable pub rsvp_if_reserve_bw : Double → List Iface → ℕ → ℕ → ℕ → List Iface
rsvp_if_reserve_bw d fs ifindex priority bw =
    if leb num_priorities priority
    then fs
    else change (add_reserved d priority bw) (rsvp_if_get fs ifindex, fs)

unfoldable pub rsvp_if_release_bw : Double → List Iface → ℕ → ℕ → ℕ → List Iface
rsvp_if_release_bw d fs ifindex priority bw =
    if leb num_priorities priority
    then fs
    else change (sub_reserved d priority bw) (rsvp_if_get fs ifindex, fs)

-- The loop that adds what is reserved at the priorities from 0 on, `count` of them, to `total`.
unfoldable pub sum_reserved : Double → ℕ → ℕ → List ℕ → ℕ
sum_reserved d total zero rs = total
sum_reserved d total (suc count) [] = total
sum_reserved d total (suc count) (r ∷ rs) = sum_reserved d (d.add total r) count rs

-- What is left for `priority` on an interface.
abbrev pub available_on : Double → ℕ → Iface → ℕ
available_on d priority f =
    let avail = d.sub f.reservable_bw (sum_reserved d 0 (priority + 1) f.reserved_bw) in
    if d.less 0 avail then avail else 0

unfoldable pub rsvp_if_available_bw : Double → List Iface → ℕ → ℕ → ℕ
rsvp_if_available_bw d fs ifindex priority =
    if leb num_priorities priority then 0 else elim (rsvp_if_get fs ifindex) [
      | none ↦ 0
      | some i ↦ available_on d priority (get_or fs i (new_if [] 0))
    ]
