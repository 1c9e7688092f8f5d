-- ===== src/Hello/Inv.antt =====
-- What is true of every entry of the neighbour table of src/pi/rsvp_hello.c.
use rsvp_te.Prelude.{
  ℕ, ◌≡◌, ◌<◌, refl, Bool, true, some, ◌==◌, if◌then◌else◌, arith, Bool-cases, inl, inr, not, ap,
  subst, ◌∙◌, List,
}
use rsvp_te.Hello.{
  Neighbor, Event, Env, is_up, hello_interval, new_neighbor, send_hello, hello_timer_cb,
  dead_timer_cb, timer_after_start, restarted, note_hello, answer_hello, ctype_request, ctype_ack,
}
use rsvp_te.Hello.Recv.{send_hello-same}

-- An entry is in use, its instance is not 0, its Hello timer runs, and while the neighbour is up its
-- dead timer runs, each with its interval.
pub record NeighborOk (n : Neighbor) : Type 0 where
  pub in_use : n.active ≡ true
  pub instance_pos : 0 < n.src_instance
  pub interval : n.hello_interval_ms ≡ hello_interval
  pub dead_interval : n.dead_interval_ms ≡ 15000
  pub hello_runs : n.hello_timer ≡ some hello_interval
  pub dead_runs : is_up n.state ≡ true → n.dead_timer ≡ some 15000

pub new_neighbor-Ok :
    (env : Env) (addr local_addr ifindex : ℕ)
    → 0 < env.instance_id
    → env.hello_timer_ok ≡ true
    → NeighborOk (new_neighbor env addr local_addr ifindex)
new_neighbor-Ok env addr local_addr ifindex h starts = record {
  in_use = refl;
  instance_pos = h;
  interval = refl;
  dead_interval = refl;
  hello_runs = ap (λ (b : Bool). timer_after_start b hello_interval) starts;
  dead_runs = λ up. absurd (ground arith);
}

send_hello-Ok :
    (env : Env) (n : Neighbor) (c_type : ℕ) → NeighborOk n → NeighborOk (send_hello env n c_type).0
send_hello-Ok env n c_type ok =
    let (k, e) = send_hello-same env n c_type in
    rw e (record {
      in_use = ok.in_use;
      instance_pos = ok.instance_pos;
      interval = ok.interval;
      dead_interval = ok.dead_interval;
      hello_runs = ok.hello_runs;
      dead_runs = ok.dead_runs;
    })

-- An entry that is in use gets past the guard of a callback.
pub past_guard {ℓ} :
    {A : Type ℓ} (b : Bool) (early late : A) → b ≡ true → late ≡ (if not b then early else late)
past_guard b early late e = rw e refl

pub hello_timer_cb-Ok :
    (env : Env) (n : Neighbor)
    → env.hello_timer_ok ≡ true
    → NeighborOk n
    → NeighborOk (hello_timer_cb env n).0
unfolding hello_timer_cb
hello_timer_cb-Ok env n starts ok =
    let sent = send_hello-Ok env n ctype_request ok in
    subst (λ (r : Neighbor × List Event). NeighborOk r.0) (past_guard n.active _ _ ok.in_use)
      (record {
        in_use = sent.in_use;
        instance_pos = sent.instance_pos;
        interval = sent.interval;
        dead_interval = sent.dead_interval;
        hello_runs =
            ap
              (λ (b : Bool).
                timer_after_start b (send_hello env n ctype_request).0.hello_interval_ms)
              starts
            ∙ ap some sent.interval;
        dead_runs = sent.dead_runs;
      })

pub dead_timer_cb-Ok : (n : Neighbor) → NeighborOk n → NeighborOk (dead_timer_cb n).0
unfolding dead_timer_cb
dead_timer_cb-Ok n ok =
    subst (λ (r : Neighbor × List Event). NeighborOk r.0) (past_guard n.active _ _ ok.in_use)
      (record {
        in_use = ok.in_use;
        instance_pos = ok.instance_pos;
        interval = ok.interval;
        dead_interval = ok.dead_interval;
        hello_runs = ok.hello_runs;
        dead_runs = λ up. absurd (ground arith);
      })

-- The neighbour after a Hello, apart from what is only counted or shown.
pub record Heard (n n' : Neighbor) (rx_src_instance : ℕ) : Type 0 where
  pub same_addr : n'.addr ≡ n.addr
  pub same_active : n'.active ≡ n.active
  pub same_instance : n'.src_instance ≡ n.src_instance
  pub same_interval : n'.hello_interval_ms ≡ n.hello_interval_ms
  pub same_dead_interval : n'.dead_interval_ms ≡ n.dead_interval_ms
  pub same_hello_timer : n'.hello_timer ≡ n.hello_timer
  pub up : is_up n'.state ≡ true
  pub known : n'.dst_instance ≡ rx_src_instance
  pub dead_restarted : n'.dead_timer ≡ some n.dead_interval_ms

note_hello-Heard :
    (env : Env) (n : Neighbor) (rx_src_instance : ℕ)
    → env.dead_timer_ok ≡ true
    → Heard n (note_hello env n rx_src_instance).0 rx_src_instance
unfolding note_hello
note_hello-Heard env n rx starts = elim (Bool-cases (restarted n rx)) [
  | inl again ↦ rw again (record {
    same_addr = refl;
    same_active = refl;
    same_instance = refl;
    same_interval = refl;
    same_dead_interval = refl;
    same_hello_timer = refl;
    up = refl;
    known = refl;
    dead_restarted = ap (λ (b : Bool). timer_after_start b n.dead_interval_ms) starts;
  })
  | inr same ↦ rw same (elim (Bool-cases (is_up n.state)) [
    | inl was ↦ rw was (record {
      same_addr = refl;
      same_active = refl;
      same_instance = refl;
      same_interval = refl;
      same_dead_interval = refl;
      same_hello_timer = refl;
      up = was;
      known = refl;
      dead_restarted = ap (λ (b : Bool). timer_after_start b n.dead_interval_ms) starts;
    })
    | inr was ↦ rw was (record {
      same_addr = refl;
      same_active = refl;
      same_instance = refl;
      same_interval = refl;
      same_dead_interval = refl;
      same_hello_timer = refl;
      up = refl;
      known = refl;
      dead_restarted = ap (λ (b : Bool). timer_after_start b n.dead_interval_ms) starts;
    })
  ])
]

pub answer_hello-Heard :
    (env : Env) (n : Neighbor) (rx_src_instance c_type : ℕ)
    → env.dead_timer_ok ≡ true
    → Heard n (answer_hello env n rx_src_instance c_type).0 rx_src_instance
unfolding answer_hello
answer_hello-Heard env n rx c_type starts = elim (Bool-cases (c_type == ctype_request)) [
  | inl request ↦
      let heard = note_hello-Heard env n rx starts in
      let (k, e) = send_hello-same env (note_hello env n rx).0 ctype_ack in
      rw (request, e)
        (record {
          same_addr = heard.same_addr;
          same_active = heard.same_active;
          same_instance = heard.same_instance;
          same_interval = heard.same_interval;
          same_dead_interval = heard.same_dead_interval;
          same_hello_timer = heard.same_hello_timer;
          up = heard.up;
          known = heard.known;
          dead_restarted = heard.dead_restarted;
        })
  | inr ack ↦ rw ack (note_hello-Heard env n rx starts)
]

pub Heard-Ok : {n n' : Neighbor} {rx : ℕ} → Heard n n' rx → NeighborOk n → NeighborOk n'
Heard-Ok {n = n} {n' = n'} h ok = record {
  in_use = h.same_active ∙ ok.in_use;
  instance_pos = omega (arith, h.same_instance, ok.instance_pos);
  interval = h.same_interval ∙ ok.interval;
  dead_interval = h.same_dead_interval ∙ ok.dead_interval;
  hello_runs = h.same_hello_timer ∙ ok.hello_runs;
  dead_runs = λ up. h.dead_restarted ∙ ap some ok.dead_interval;
}
