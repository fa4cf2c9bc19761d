-- ===== src/Poll/Resilience/Store.antt =====
-- `is_circuit_open` and `apply_poll_outcome` of app/services/poll_resilience.py over the Redis
-- client, which enters as an interface: the hash commands, whether they answer, and the laws of
-- HSET (a merge of the fields) and EXPIRE (the key is gone after its time to live).
use Prim.Native.String.{◌++◌}
use infra_scope.Common.{
  ℕ, ◌+◌, ◌≤◌, max, ◌≡◌, ◌≢◌, Bool, true, false, Option, none, some, String, ltb, if◌then◌else◌,
}
use infra_scope.Poll.Resilience.{
  PollDecision, PollEvent, circuit_opened, Thresholds, decide_poll_state, circuit_open_seconds,
}

pub data Field : Type 0 where
  failures circuit_failures effective_online updated_at circuit_open_until : Field

-- A stored value is a decimal number, or a text that `int()` refuses.
pub data RedisValue : Type 0 where
  int_text : ℕ → RedisValue
  other_text : RedisValue

abbrev pub to_int : Option RedisValue → ℕ → ℕ
to_int none default = default
to_int (some (int_text n)) default = n
to_int (some other_text) default = default

-- A `mapping=` argument: the fields that it sets.
abbrev pub Payload : Type 0
Payload = Field → Option ℕ

abbrev pub merged : Option ℕ → Option RedisValue → Option RedisValue
merged none old = old
merged (some n) old = some (int_text n)

pub record Redis : Type 1 where
  pub State : Type 0
  -- `get_redis` and the reads of one call answer (or raise one of `REDIS_ERRORS`)
  pub answers : State → Bool
  pub hget : State → ℕ → String → Field → Option RedisValue
  -- `none` is one of `REDIS_ERRORS`
  pub hset : State → ℕ → String → Payload → Option State
  pub expire : State → ℕ → String → ℕ → Option State
  pub hget-hset :
      (s s' : State) (now : ℕ) (key : String) (p : Payload) (f : Field)
      → hset s now key p ≡ some s'
      → hget s' now key f ≡ merged (p f) (hget s now key f)
  pub hget-expire :
      (s s' : State) (now later : ℕ) (key : String) (ttl : ℕ) (f : Field)
      → expire s now key ttl ≡ some s'
      → now ≤ later
      → hget s' later key f ≡ (if ltb later (now + ttl) then hget s now key f else none)
  pub hget-hset_ne :
      (s s' : State) (now later : ℕ) (key other : String) (p : Payload) (f : Field)
      → hset s now key p ≡ some s'
      → key ≢ other
      → hget s' later other f ≡ hget s later other f
  pub hget-expire_ne :
      (s s' : State) (now later : ℕ) (key other : String) (ttl : ℕ) (f : Field)
      → expire s now key ttl ≡ some s'
      → key ≢ other
      → hget s' later other f ≡ hget s later other f

pub record Settings : Type 0 where
  pub thresholds : Thresholds
  pub open_seconds : ℕ
  pub max_open_seconds : ℕ
  pub state_ttl_seconds : ℕ

abbrev pub resilience_key : String → String → String
resilience_key kind entity_id = "poll:resilience:" ++ kind ++ ":" ++ entity_id

-- The pause of an opened circuit, from the settings.
abbrev pub pause : Settings → ℕ → ℕ
pause settings n =
    circuit_open_seconds n settings.thresholds.circuit_failure_threshold
      (max settings.open_seconds 5) settings.max_open_seconds

abbrev pub is_opened : PollEvent → Bool
is_opened circuit_opened = true
is_opened _ = false

-- The pause end that the payload stores, if it stores one.
abbrev pub open_until : Settings → PollDecision → Bool → ℕ → Option ℕ
open_until settings d probed_online now =
    if is_opened d.event
    then some (now + pause settings d.circuit_failures)
    else if probed_online
    then some 0
    else none

abbrev pub payload_of : Settings → PollDecision → Bool → ℕ → Payload
payload_of settings d probed_online now failures = some d.failures
payload_of settings d probed_online now circuit_failures = some d.circuit_failures
payload_of settings d probed_online now effective_online =
    some (if d.effective_online then 1 else 0)
payload_of settings d probed_online now updated_at = some now
payload_of settings d probed_online now circuit_open_until = open_until settings d probed_online now

-- `ttl`, raised where the circuit opens.
abbrev pub ttl_of : Settings → PollDecision → ℕ
ttl_of settings d =
    let ttl = max settings.state_ttl_seconds 300 in
    if is_opened d.event then max ttl (pause settings d.circuit_failures + 60) else ttl

module _ (R : Redis) where
  open R use {State, answers, hget, hset, expire}

  unfoldable pub is_circuit_open : State → ℕ → String → String → Bool
  is_circuit_open s now kind entity_id =
      if answers s
      then ltb now (to_int (hget s now (resilience_key kind entity_id) circuit_open_until) 0)
      else false

  -- The last `try`: a failed HSET stores nothing, a failed EXPIRE leaves the fields stored.
  unfoldable pub save : State → ℕ → String → Payload → ℕ → State
  save s now key p ttl = elim (hset s now key p) [
    | none ↦ s
    | some s' ↦ elim (expire s' now key ttl) [ none ↦ s' | some s'' ↦ s'' ]
  ]

  -- The decision that a call takes, from the counters it could read.
  unfoldable pub decision_of : Settings → State → ℕ → String → Bool → Bool → Bool → PollDecision
  decision_of settings s now key previous probed_online probed_error =
      decide_poll_state settings.thresholds previous probed_online probed_error
        (if answers s then to_int (hget s now key failures) 0 else 0)
        (if answers s then to_int (hget s now key circuit_failures) 0 else 0)

  -- The new store, the event that the metric counts, and the returned `effective_online`.
  unfoldable pub apply_poll_outcome :
      Settings → State → ℕ → String → String → Bool → Bool → Bool → State × PollEvent × Bool
  unfolding decision_of save
  apply_poll_outcome settings s now kind entity_id previous probed_online probed_error =
      let key = resilience_key kind entity_id in
      let d = decision_of settings s now key previous probed_online probed_error in
      (
        if answers s
            then save s now key (payload_of settings d probed_online now) (ttl_of settings d)
            else s,
        d.event,
        d.effective_online,
      )
