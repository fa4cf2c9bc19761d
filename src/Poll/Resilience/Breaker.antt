-- ===== src/Poll/Resilience/Breaker.antt =====
-- What a stored poll outcome does to later polls, and what a Redis outage does to it:
-- app/services/poll_resilience.py.
use infra_scope.Common.{
  ℕ, ◌+◌, ◌≤◌, ◌≡◌, ◌∙◌, refl, Bool, true, false, none, some, String, arith, ltb, if◌then◌else◌,
}
use infra_scope.Poll.Resilience.{PollDecision, circuit_opened, decide_poll_state}
use infra_scope.Poll.Resilience.Store.{
  Field, circuit_open_until, to_int, Payload, merged, open_until, Redis, Settings, resilience_key,
  pause, ttl_of, is_circuit_open, save, decision_of, apply_poll_outcome,
}

-- Redis answers every call.
pub record IsHealthy (R : Redis) : Type 0 where
  pub answering : (s : R.State) → R.answers s ≡ true
  pub writing :
      (s : R.State) (now : ℕ) (key : String) (p : Payload)
      → (s' : R.State) × (R.hset s now key p ≡ some s')
  pub expiring :
      (s : R.State) (now : ℕ) (key : String) (ttl : ℕ)
      → (s' : R.State) × (R.expire s now key ttl ≡ some s')

module _ (R : Redis) (healthy : IsHealthy R) where
  hget-save :
      (s : R.State) (now later : ℕ) (key : String) (p : Payload) (ttl : ℕ) (f : Field)
      → now ≤ later
      → R.hget (save R s now key p ttl) later key f
        ≡ (if ltb later (now + ttl) then merged (p f) (R.hget s now key f) else none)
  unfolding save
  hget-save s now later key p ttl f h =
      let (s₁, wrote) = healthy.writing s now key p in
      let (s₂, timed) = healthy.expiring s₁ now key ttl in
      rw (wrote, save)
        (rw (timed, save)
          (rw (R.hget-expire s₁ s₂ now later key ttl f timed h, R.hget-hset s s₁ now key p f wrote)
            refl))

  module _ (settings : Settings) (s : R.State) (now later : ℕ) (kind entity_id : String)
      (previous probed_online probed_error : Bool) (order : now ≤ later) where
    abbrev decision : PollDecision
    decision =
        decision_of R settings s now (resilience_key kind entity_id) previous probed_online
          probed_error

    abbrev after : R.State
    after =
        (apply_poll_outcome R settings s now kind entity_id previous probed_online probed_error).0

    is_circuit_open-after :
        is_circuit_open R after later kind entity_id
        ≡ ltb later (
            to_int
              (if ltb later (now + ttl_of settings decision)
                then merged
                    (open_until settings decision probed_online now)
                    (R.hget s now (resilience_key kind entity_id) circuit_open_until)
                else none)
              0)
    unfolding apply_poll_outcome is_circuit_open
    is_circuit_open-after = rw (healthy.answering s) (
        rw (healthy.answering _) (
          rw (hget-save s now later (resilience_key kind entity_id) _ _ circuit_open_until order)
            refl))

    -- With Redis healthy, an outcome that opens the circuit makes `is_circuit_open` hold from that
    -- moment for exactly the computed pause: the stored state never expires before the pause ends.
    pub is_circuit_open-opened :
        (apply_poll_outcome R settings s now kind entity_id previous probed_online probed_error).1
          ≡ circuit_opened
        → is_circuit_open R after later kind entity_id
          ≡ ltb later (now + pause settings decision.circuit_failures)
    unfolding apply_poll_outcome
    is_circuit_open-opened opened = is_circuit_open-after ∙ rw opened (ground arith)

    -- With Redis healthy, the circuit is closed after a poll whose probe answered, at any later
    -- time before the next poll.
    pub is_circuit_open-answered :
        probed_online ≡ true → is_circuit_open R after later kind entity_id ≡ false
    unfolding decision_of decide_poll_state
    is_circuit_open-answered up = is_circuit_open-after ∙ rw up (ground arith)
