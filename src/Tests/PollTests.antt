-- ===== src/Tests/PollTests.antt =====
-- Runs of app/services/poll_resilience.py, with a store in memory for Redis.
use infra_scope.Common.{
  ℕ, ◌+◌, ◌*◌, ◌^◌, ◌≤◌, max, Bool, true, false, Option, none, some, List, [], ◌∷◌, ◌&&◌, ◌||◌, leb,
  ltb, if◌then◌else◌, ◌==◌, nat_eq, string_eq, ==_refl, String, arith, ◌≡◌, ◌≢◌, refl, ap, sym, ◌∙◌,
}
use infra_scope.Poll.Resilience.{Thresholds, decide_poll_state, circuit_open_seconds}
use infra_scope.Poll.Resilience.Store.{
  Field, failures, RedisValue, Payload, merged, Redis, Settings, resilience_key, pause,
  is_circuit_open, decision_of, apply_poll_outcome,
}
use infra_scope.Poll.Resilience.Window.{circuit_open_seconds_bounds}
use infra_scope.Poll.Resilience.Confirm.{
  answered, refused, unreachable, history, trailing, trailing_errors, history_lem, has_answered,
}
use infra_scope.Poll.Resilience.Breaker.{
  IsHealthy, is_circuit_open-opened, is_circuit_open-answered,
}
use infra_scope.Poll.Resilience.Outage.{PollCall, polls, polls-outage, apply-hget_ne}

abbrev thresholds : Thresholds
thresholds = record { offline_confirmations = 2; circuit_failure_threshold = 1 }

history_lem_example :
    let ps = unreachable ∷ refused ∷ answered ∷ [] in
    let s = history thresholds false ps in
    (s.failures ≡ trailing ps)
    × (s.online ≡ (
        (has_answered ps || false) && ltb (trailing ps) (max thresholds.offline_confirmations 1)))
    × (s.circuit_failures ≤ trailing_errors ps)
history_lem_example = history_lem thresholds false (unreachable ∷ refused ∷ answered ∷ [])

circuit_open_seconds_bounds_example :
    (circuit_open_seconds 4 3 60 900 ≤ circuit_open_seconds 30 3 60 900)
    × (60 ≤ circuit_open_seconds 4 3 60 900)
    × (circuit_open_seconds 4 3 60 900 ≤ max 900 60)
    × (max 3 1 + 20 ≤ 4 → max 900 60 ≤ 60 * 2 ^ 20 → circuit_open_seconds 4 3 60 900 ≡ max 900 60)
circuit_open_seconds_bounds_example = circuit_open_seconds_bounds 4 30 3 60 900 (omega arith)

abbrev pub Memory : Type 0
Memory = ℕ → String → Field → Option RedisValue

-- The fields of the key `k` after `hset`, and after `expire`.
abbrev hset_at : Bool → Payload → Field → Option RedisValue → Option RedisValue
hset_at same p f old = if same then merged (p f) old else old

abbrev expire_at : Bool → ℕ → ℕ → ℕ → Option RedisValue → Option RedisValue → Option RedisValue
expire_at same now later ttl frozen old =
    if same && leb now later then (if ltb later (now + ttl) then frozen else none) else old

abbrev after_hset : Memory → String → Payload → Memory
after_hset s key p t k f = hset_at (key == k) p f (s t k f)

abbrev after_expire : Memory → ℕ → String → ℕ → Memory
after_expire s now key ttl t k f = expire_at (key == k) now t ttl (s now k f) (s t k f)

abbrev value_or : Memory → Option Memory → Memory
value_or s none = s
value_or s (some s') = s'

pub wrote :
    (up : Bool) (s s' : Memory) (t : ℕ) (k : String) (f : Field)
    → (if up then some s else none) ≡ some s'
    → s' t k f ≡ s t k f
wrote true s s' t k f e = ap (λ o. value_or s o t k f) (sym e)
wrote false s s' t k f e = ground arith

pub hset_at-ne :
    (key other : String) (p : Payload) (f : Field) (old : Option RedisValue)
    → key ≢ other
    → hset_at (key == other) p f old ≡ old
hset_at-ne key other p f old n = ground (arith, string_eq.beq_iff key other)

pub expire_at_self :
    (now later ttl : ℕ) (key : String) (frozen old : Option RedisValue)
    → now ≤ later
    → expire_at (key == key) now later ttl frozen old
      ≡ (if ltb later (now + ttl) then frozen else none)
expire_at_self now later ttl key frozen old h =
    ground (arith, string_eq.beq_iff key key, ==_refl key)

pub expire_at-ne :
    (now later ttl : ℕ) (key other : String) (frozen old : Option RedisValue)
    → key ≢ other
    → expire_at (key == other) now later ttl frozen old ≡ old
expire_at-ne now later ttl key other frozen old n = ground (arith, string_eq.beq_iff key other)

-- A Redis that answers every call, or none.
abbrev pub memory : Bool → Redis
memory up = record {
  State = Memory;
  answers = λ s. up;
  hget = λ s t k f. s t k f;
  hset = λ s now key p. if up then some (after_hset s key p) else none;
  expire = λ s now key ttl. if up then some (after_expire s now key ttl) else none;
  hget-hset = λ s s' now key p f e.
      wrote up (after_hset s key p) s' now key f e
      ∙ ap (λ b. hset_at b p f (s now key f)) (==_refl key);
  hget-expire = λ s s' now later key ttl f e h.
      wrote up (after_expire s now key ttl) s' later key f e
      ∙ expire_at_self now later ttl key (s now key f) (s later key f) h;
  hget-hset_ne = λ s s' now later key other p f e n.
      wrote up (after_hset s key p) s' later other f e
      ∙ hset_at-ne key other p f (s later other f) n;
  hget-expire_ne = λ s s' now later key other ttl f e n.
      wrote up (after_expire s now key ttl) s' later other f e
      ∙ expire_at-ne now later ttl key other (s now other f) (s later other f) n;
}

memory-IsHealthy : IsHealthy (memory true)
memory-IsHealthy = record {
  answering = λ s. refl;
  writing = λ s now key p. (after_hset s key p, refl);
  expiring = λ s now key ttl. (after_expire s now key ttl, refl);
}

abbrev pub nothing : Memory
nothing t k f = none

abbrev settings : Settings
settings = record {
  thresholds = thresholds;
  open_seconds = 60;
  max_open_seconds = 900;
  state_ttl_seconds = 300;
}

-- One failed poll is enough.
abbrev pub settings_once : Settings
settings_once = record settings {
  thresholds = record { offline_confirmations = 1; circuit_failure_threshold = 1 };
}

is_circuit_open-opened_example :
    is_circuit_open
      (memory true)
      (apply_poll_outcome (memory true) settings_once nothing 1000 "printer" "7" true false true).0
      1030
      "printer"
      "7"
    ≡ ltb 1030 (
        1000
        + pause settings
            (decision_of
              (memory true)
              settings_once
              nothing
              1000
              (resilience_key "printer" "7")
              true
              false
              true).circuit_failures)
unfolding apply_poll_outcome decision_of decide_poll_state
is_circuit_open-opened_example =
    is_circuit_open-opened (memory true) memory-IsHealthy settings_once nothing 1000 1030 "printer"
      "7" true false true (omega arith) refl

is_circuit_open-answered_example :
    is_circuit_open
      (memory true)
      (apply_poll_outcome (memory true) settings nothing 1000 "printer" "7" true true false).0
      1030
      "printer"
      "7"
    ≡ false
is_circuit_open-answered_example =
    is_circuit_open-answered (memory true) memory-IsHealthy settings nothing 1000 1030 "printer" "7"
      true true false (omega arith) refl

abbrev two_polls : List PollCall
two_polls =
    record { now = 1000; answered = false; path_failure = true }
    ∷ record { now = 1300; answered = false; path_failure = true }
    ∷ []

polls-outage_example :
    (polls (memory false) settings "printer" "7" two_polls (nothing, true) ≡ (nothing, true))
    × ((now : ℕ) → is_circuit_open (memory false) nothing now "printer" "7" ≡ false)
polls-outage_example =
    polls-outage (memory false) settings nothing "printer" "7" two_polls refl (omega arith)

apply-hget_ne_example :
    (memory true).hget
      (apply_poll_outcome (memory true) settings nothing 1000 "printer" "7" true false true).0
      1030
      (resilience_key "printer" "8")
      failures
    ≡ (memory true).hget nothing 1030 (resilience_key "printer" "8") failures
apply-hget_ne_example =
    apply-hget_ne (memory true) settings nothing 1000 1030 "printer" "7"
      (resilience_key "printer" "8") true false true failures
      (λ e. ground (
        arith,
        (string_eq.beq_iff (resilience_key "printer" "7") (resilience_key "printer" "8")).1 e,
      ))
