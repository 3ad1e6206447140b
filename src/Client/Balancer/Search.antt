-- ===== src/Client/Balancer/Search.antt =====
-- Which host a call gets, in plugins/clients/apps-client/src/hopeit/apps_client/__init__.py.
use native.Mathlib.Nat.{mod-lt, mod-eq_of_lt, mod-add-mod, mod-eq-sub-mod}
use native.Mathlib.Decide.{dec_le}
use hopeit_engine.Common.{
  ℕ, zero, suc, ◌+◌, ◌-◌, ◌%◌, ◌<◌, ◌≡◌, ◌↔◌, refl, sym, ap, ◌∙◌, Option, some, none, arith, length,
  Bool-cases, inl, inr, true, false,
}
use hopeit_engine.Client.Balancer.{
  Balancer, next_host, randomize_next_host, search_host, next_available_host, is_closed,
}
use hopeit_engine.Client.Balancer.Invariant.{
  IsValid, next_host-IsValid, search_host-IsValid, search_host-hosts,
}

-- The `k`-th host that a search looks at.
abbrev pub in_turn : Balancer → ℕ → ℕ
in_turn b k = (b.host_index + k) % length b.hosts

-- What a search of the given number of rounds has found, by its result.
abbrev pub Finds : ℕ → ℕ → ℕ → Balancer → Option ℕ × Balancer → Type 0
Finds rounds now drawn b (none, b') =
    ((j : ℕ) → j < rounds → is_closed b now (in_turn b j) ≡ false)
    × (b' ≡ record b { host_index = drawn })
Finds rounds now drawn b (some i, b') =
    (k : ℕ) × (k < rounds)
    × (i ≡ in_turn b k)
    × (is_closed b now i ≡ true)
    × ((j : ℕ) → j < k → is_closed b now (in_turn b j) ≡ false)
    × (b' ≡ record b { host_index = (i + 1) % length b.hosts })

in_turn-zero : (b : Balancer) → IsValid b → in_turn b 0 ≡ b.host_index
in_turn-zero b v =
    let e : b.host_index + 0 ≡ b.host_index = omega arith in rw e (mod-eq_of_lt v.next_listed)

in_turn-suc :
    (b : Balancer) (now k : ℕ) → IsValid b → in_turn (next_host b now).1 k ≡ in_turn b (suc k)
unfolding next_host
in_turn-suc b now k v =
    mod-add-mod (b.host_index + 1) (length b.hosts) k
    ∙ ap (λ (t : ℕ). t % length b.hosts) (omega arith)

-- The first host is passed over, and then the others in turn.
passed_over :
    (b : Balancer) (now n : ℕ)
    → IsValid b
    → is_closed b now b.host_index ≡ false
    → ((j : ℕ) → j < n → is_closed b now (in_turn (next_host b now).1 j) ≡ false)
    → (j : ℕ) → j < suc n
    → is_closed b now (in_turn b j) ≡ false
passed_over b now n v first others zero h = rw (in_turn-zero b v) first
passed_over b now n v first others (suc j) h = rw (← in_turn-suc b now j v) (others j (omega arith))

Finds-next :
    (rounds now drawn : ℕ) (b : Balancer) (r : Option ℕ × Balancer)
    → IsValid b
    → is_closed b now b.host_index ≡ false
    → Finds rounds now drawn (next_host b now).1 r
    → Finds (suc rounds) now drawn b r
unfolding next_host
Finds-next rounds now drawn b (none, b') v first (others, e) =
    (passed_over b now rounds v first others, e)
Finds-next rounds now drawn b (some i, b') v first (k, below, at, closed, others, e) =
    (suc k, omega arith, at ∙ in_turn-suc b now k v, closed, passed_over b now k v first others, e)

pub search_host-Finds :
    (rounds now drawn : ℕ) (b : Balancer)
    → IsValid b
    → Finds rounds now drawn b (search_host rounds now drawn b)
unfolding search_host next_host randomize_next_host
search_host-Finds zero now drawn b v = (λ j h. elim h [ ], refl)
search_host-Finds (suc rounds) now drawn b v = elim (Bool-cases (is_closed b now b.host_index)) [
  | inl closed ↦ rw closed (0, omega arith, sym (in_turn-zero b v), closed, λ j h. elim h [ ], refl)
  | inr open_now ↦ rw open_now (
      Finds-next rounds now drawn b _ v open_now
        (search_host-Finds rounds now drawn (next_host b now).1 (next_host-IsValid b now v)))
]

-- A valid balancer gives a call the first host, in turn from the one that is next, whose breaker
-- lets calls through at that time, and the next call starts behind that host. Only if every host is
-- refused it raises, and then a call starts at the host drawn.
pub next_available_host-Finds :
    (now drawn : ℕ) (b : Balancer)
    → IsValid b
    → Finds (length b.hosts) now drawn b (next_available_host b now drawn)
unfolding next_available_host
next_available_host-Finds now drawn b v = search_host-Finds (length b.hosts) now drawn b v

pub next_available_host-IsValid :
    (b : Balancer) (now drawn : ℕ)
    → IsValid b
    → drawn < length b.hosts
    → IsValid (next_available_host b now drawn).1
unfolding next_available_host
next_available_host-IsValid b now drawn v h = search_host-IsValid (length b.hosts) now drawn b v h

pub next_available_host-hosts :
    (b : Balancer) (now drawn : ℕ) → (next_available_host b now drawn).1.hosts ≡ b.hosts
unfolding next_available_host
next_available_host-hosts b now drawn = search_host-hosts (length b.hosts) now drawn b

-- Every host has its turn in a search.
turn_of :
    (b : Balancer) (i : ℕ)
    → IsValid b
    → i < length b.hosts
    → (j : ℕ) × (j < length b.hosts) × (in_turn b j ≡ i)
turn_of b i v h = elim (dec_le b.host_index i) [
  | yes le ↦
      let e : b.host_index + (i - b.host_index) ≡ i = omega arith in
      (i - b.host_index, omega arith, rw e (mod-eq_of_lt h))
  | no gt ↦
      let n : ℕ = length b.hosts in
      let e : b.host_index + (i + n - b.host_index) ≡ i + n = omega arith in
      let back : i + n - n ≡ i = omega arith in
      (
        i + n - b.host_index,
        omega arith,
        rw e (mod-eq-sub-mod {n = i + n} {m = n} (omega arith) ∙ rw back (mod-eq_of_lt h)),
      )
]

none-all :
    (now drawn : ℕ) (b : Balancer) (r : Option ℕ × Balancer)
    → IsValid b
    → Finds (length b.hosts) now drawn b r
    → r.0 ≡ none
    → (i : ℕ) → i < length b.hosts
    → is_closed b now i ≡ false
none-all now drawn b (none, b') v (refused, e) h i below =
    let (j, turn, at) = turn_of b i v below in rw at at (refused j turn)
none-all now drawn b (some k, b') v f h i below = cc

all-none :
    (now drawn : ℕ) (b : Balancer) (r : Option ℕ × Balancer)
    → IsValid b
    → Finds (length b.hosts) now drawn b r
    → ((i : ℕ) → i < length b.hosts → is_closed b now i ≡ false)
    → r.0 ≡ none
all-none now drawn b (none, b') v f h = refl
all-none now drawn b (some i, b') v (k, below, at, closed, others, e) h =
    let refused : is_closed b now i ≡ false =
      h i (rw at (mod-lt (b.host_index + k) (omega arith))) in
    cc (closed, refused)

-- No host is found exactly if every one of the hosts is refused at that time.
pub no_host_iff :
    (now drawn : ℕ) (b : Balancer)
    → IsValid b
    → ((next_available_host b now drawn).0 ≡ none)
      ↔ ((i : ℕ) → i < length b.hosts → is_closed b now i ≡ false)
no_host_iff now drawn b v =
    let f = next_available_host-Finds now drawn b v in
    (none-all now drawn b _ v f, all-none now drawn b _ v f)
