-- ===== src/Core/RedisLock.antt =====
-- app/core/redis_lock.py: a lock under one key of Redis, with an owner's token and a time to live.
-- Redis is a parameter: its string commands, each of them atomic, as are the two scripts.
pub mod Exclusion
use infra_scope.Common.{
  ℕ, ◌+◌, ◌≤◌, ◌<◌, ◌≡◌, Bool, true, false, Option, none, some, String, ltb, max, if◌then◌else◌,
  ◌==◌, string_eq,
}

pub record RedisStrings : Type 1 where
  pub State : Type 0
  -- GET at a time
  pub get : State → ℕ → String → Option String
  -- SET key value EX ttl NX: whether it was set
  pub set_nx_ex : State → ℕ → String → String → ℕ → State × Bool
  pub del : State → String → State
  pub expire : State → ℕ → String → ℕ → State
  pub set-free :
      (s : State) (now : ℕ) (key value : String) (ttl : ℕ)
      → get s now key ≡ none
      → (set_nx_ex s now key value ttl).1 ≡ true
  pub set-busy :
      (s : State) (now : ℕ) (key value : String) (ttl : ℕ) (old : String)
      → get s now key ≡ some old
      → set_nx_ex s now key value ttl ≡ (s, false)
  pub get-set :
      (s : State) (now later : ℕ) (key value : String) (ttl : ℕ)
      → get s now key ≡ none
      → now ≤ later
      → get (set_nx_ex s now key value ttl).0 later key
        ≡ (if ltb later (now + ttl) then some value else none)
  pub get-del : (s : State) (now : ℕ) (key : String) → get (del s key) now key ≡ none
  pub get-expire :
      (s : State) (now later : ℕ) (key value : String) (ttl : ℕ)
      → get s now key ≡ some value
      → now ≤ later
      → get (expire s now key ttl) later key ≡ (if ltb later (now + ttl) then some value else none)

-- `redis.call('get', KEYS[1]) == ARGV[1]`
abbrev pub is_owner : Option String → String → Bool
is_owner none owner = false
is_owner (some value) owner = value == owner

module _ (R : RedisStrings) where
  open R use {State, get, set_nx_ex, del, expire}

  abbrev pub granted : String → Bool → Option String
  granted owner true = some owner
  granted owner false = none

  -- The owner's token is fresh from `uuid4`.
  unfoldable pub acquire_redis_lock : State → ℕ → String → String → ℕ → State × Option String
  acquire_redis_lock s now key owner ttl_seconds =
      let (s', acquired) = set_nx_ex s now key owner (max ttl_seconds 1) in
      (s', granted owner acquired)

  -- `reached` is false where the call raises; the warning is left out.
  unfoldable pub release_redis_lock : State → ℕ → String → String → Bool → State
  release_redis_lock s now key owner reached =
      if reached then (if is_owner (get s now key) owner then del s key else s) else s

  -- None where the call raises.
  unfoldable pub renew_redis_lock : State → ℕ → String → String → ℕ → Bool → State × Option Bool
  renew_redis_lock s now key owner ttl_seconds reached =
      if reached
      then (if is_owner (get s now key) owner
          then (expire s now key (max ttl_seconds 1), some true)
          else (s, some false))
      else (s, none)
