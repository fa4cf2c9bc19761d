-- ===== src/Tests/CoreTests.antt =====
-- Runs of app/core/redis_lock.py, with a store in memory for Redis, and of
-- app/core/task_registry.py.
use infra_scope.Common.{
  ℕ, ◌+◌, Bool, true, false, Option, none, some, List, [], ◌∷◌, String, ltb, if◌then◌else◌, ◌==◌,
  string_eq, ==_refl, arith, ◌≡◌, refl, All, ap, ◌∙◌,
}
use infra_scope.Core.RedisLock.{RedisStrings, acquire_redis_lock}
use infra_scope.Core.RedisLock.Exclusion.{Lease, Reach, Agree, mutual_exclusion, acquire-acquire}
use infra_scope.Core.RedisLock.Exclusion
use infra_scope.Core.TaskRegistry.{start}
use infra_scope.Core.TaskRegistry.Ownership
use infra_scope.Core.TaskRegistry.Ownership.{Loop, one_task_per_key}

-- Under each key a value and the end of its time to live.
abbrev Memory : Type 0
Memory = String → Option (String × ℕ)

abbrev alive : ℕ → Option (String × ℕ) → Option String
alive now none = none
alive now (some (value, until)) = if ltb now until then some value else none

abbrev put : Memory → String → Option (String × ℕ) → Memory
put s key entry k = if k == key then entry else s k

abbrev set_if : Memory → String → String × ℕ → Option String → Memory × Bool
set_if s key entry none = (put s key (some entry), true)
set_if s key entry (some old) = (s, false)

abbrev extended : ℕ → Option (String × ℕ) → Option (String × ℕ)
extended until none = none
extended until (some (value, old)) = some (value, until)

extended_lem :
    (now later ttl : ℕ) (entry : Option (String × ℕ)) (value : String)
    → alive now entry ≡ some value
    → alive later (extended (now + ttl) entry)
      ≡ (if ltb later (now + ttl) then some value else none)
extended_lem now later ttl none value e = ground arith
extended_lem now later ttl (some (v, until)) value e = ground arith

abbrev memory : RedisStrings
memory = record {
  State = Memory;
  get = λ s now key. alive now (s key);
  set_nx_ex = λ s now key value ttl. set_if s key (value, now + ttl) (alive now (s key));
  del = λ s key. put s key none;
  expire = λ s now key ttl. put s key (extended (now + ttl) (s key));
  set-free = λ s now key value ttl e. ap (λ o. (set_if s key (value, now + ttl) o).1) e;
  set-busy = λ s now key value ttl old e. ap (set_if s key (value, now + ttl)) e;
  get-set = λ s now later key value ttl e h.
      ap (λ o. alive later ((set_if s key (value, now + ttl) o).0 key)) e
      ∙ ap (λ b. alive later (if b then some (value, now + ttl) else s key)) (==_refl key);
  get-del = λ s now key. ap (λ b. alive now (if b then none else s key)) (==_refl key);
  get-expire = λ s now later key value ttl e h.
      ap (λ b. alive later (if b then extended (now + ttl) (s key) else s key)) (==_refl key)
      ∙ extended_lem now later ttl (s key) value e;
}

abbrev nothing : Memory
nothing key = none

-- The first caller has the lock until 5; the second is refused at 3.
abbrev locked : Memory
locked = (set_if nothing "lock" ("first", 5) none).0

abbrev leases : List Lease
leases = record { owner = "first"; until = 5 } ∷ []

locked-Reach : Reach memory "lock" nothing locked 3 leases
unfolding acquire_redis_lock
locked-Reach =
    Reach.call 3 (Reach.call 0 Reach.start (omega arith) (Exclusion.acquired "first" 5 refl))
      (omega arith) (Exclusion.refused "second" 5 refl)

mutual_exclusion_example : All (λ l. All (Agree memory "lock" 3 l) leases) leases
mutual_exclusion_example = mutual_exclusion memory "lock" locked-Reach

first_grant : (acquire_redis_lock memory nothing 0 "lock" "first" 5).1 ≡ some "first"
unfolding acquire_redis_lock
first_grant = refl

acquire-acquire_example :
    let s' = (acquire_redis_lock memory nothing 0 "lock" "first" 5).0 in
    (acquire_redis_lock memory s' 9 "lock" "second" 7).1 ≡ some "second"
acquire-acquire_example =
    acquire-acquire memory "lock" nothing 0 9 "first" "second" 5 7 first_grant (omega arith)

-- Task 1 runs under "poll", and a second start of that key was refused.
abbrev key_of_task : ℕ → String
key_of_task task = "poll"

abbrev idle : Loop
idle = record { tasks = []; running = λ t. false; key_of = key_of_task }

accepted : (start idle.running "poll" 1 idle.tasks).1 ≡ true
unfolding start
accepted = refl

abbrev busy : Loop
busy = record {
  tasks = (start idle.running "poll" 1 idle.tasks).0;
  running = Ownership.set_at idle.running 1 true;
  key_of = Ownership.set_at idle.key_of 1 "poll";
}

one_task_per_key_example :
    ((t t' : ℕ)
      → busy.running t ≡ true
      → busy.running t' ≡ true
      → busy.key_of t ≡ busy.key_of t'
      → t ≡ t')
    × ((t task : ℕ)
        → busy.running t ≡ true
        → start busy.running (busy.key_of t) task busy.tasks ≡ (busy.tasks, false))
one_task_per_key_example =
    one_task_per_key
      (Ownership.next (Ownership.empty key_of_task) (Ownership.started "poll" 1 refl accepted))
