-- ===== src/Poll/Resilience/Outage.antt =====
-- Polls while Redis does not answer, and polls of other entities: app/services/poll_resilience.py.
use infra_scope.Common.{
  ℕ, ◌≤◌, ◌≡◌, ◌∙◌, refl, ◌≢◌, Bool, true, false, String, arith, Bool-cases, Option-cases, inl, inr,
  List, [], ◌∷◌,
}
use infra_scope.Poll.Resilience.{decide_poll_state}
use infra_scope.Poll.Resilience.Store.{
  Field, Payload, Redis, Settings, resilience_key, is_circuit_open, save, apply_poll_outcome,
}

-- One poll of an entity: its time, and what the probe saw.
pub record PollCall : Type 0 where
  pub now : ℕ
  pub answered : Bool
  pub path_failure : Bool

module _ (R : Redis) where
  -- The polls of one entity in turn (the first one first), each given the state that the one
  -- before returned.
  unfoldable pub polls :
      Settings → String → String → List PollCall → R.State × Bool → R.State × Bool
  polls settings kind entity_id [] (s, online) = (s, online)
  polls settings kind entity_id (c ∷ cs) (s, online) =
      let (s', _, online') =
        apply_poll_outcome R settings s c.now kind entity_id online c.answered c.path_failure in
      polls settings kind entity_id cs (s', online')

  apply-outage :
      (settings : Settings) (s : R.State) (c : PollCall) (kind entity_id : String)
      → R.answers s ≡ false
      → 2 ≤ settings.thresholds.offline_confirmations
      → let r =
          apply_poll_outcome R settings s c.now kind entity_id true c.answered c.path_failure in
        (r.0 ≡ s) × (r.2 ≡ true)
  unfolding apply_poll_outcome decide_poll_state
  apply-outage settings s c kind entity_id down two = (rw down refl, ground arith)

  -- While Redis does not answer and two or more confirmations are asked for, a device shown online
  -- stays online through any number of polls, whatever they see; no circuit is open; and nothing
  -- is stored.
  pub polls-outage :
      (settings : Settings) (s : R.State) (kind entity_id : String) (cs : List PollCall)
      → R.answers s ≡ false
      → 2 ≤ settings.thresholds.offline_confirmations
      → (polls settings kind entity_id cs (s, true) ≡ (s, true))
        × ((now : ℕ) → is_circuit_open R s now kind entity_id ≡ false)
  unfolding polls is_circuit_open
  polls-outage settings s kind entity_id [] down two = (refl, λ now. rw down refl)
  polls-outage settings s kind entity_id (c ∷ cs) down two =
      let (kept, up) = apply-outage settings s c kind entity_id down two in
      (rw (kept, up) (polls-outage settings s kind entity_id cs down two).0, λ now. rw down refl)

  hget-save_ne :
      (s : R.State) (now later : ℕ) (key other : String) (p : Payload) (ttl : ℕ) (f : Field)
      → key ≢ other
      → R.hget (save R s now key p ttl) later other f ≡ R.hget s later other f
  unfolding save
  hget-save_ne s now later key other p ttl f h = elim (Option-cases (R.hset s now key p)) [
    | inl lost ↦ rw (lost, save) refl
    | inr (s₁, wrote) ↦
        let stored : R.hget s₁ later other f ≡ R.hget s later other f =
          R.hget-hset_ne s s₁ now later key other p f wrote h in
        elim (Option-cases (R.expire s₁ now key ttl)) [
          | inl lost ↦ rw (wrote, save) (rw (lost, save) stored)
          | inr (s₂, timed) ↦
              rw (wrote, save)
                (rw (timed, save)
                  (R.hget-expire_ne s₁ s₂ now later key other ttl f timed h ∙ stored))
        ]
  ]

  -- A poll of one entity, failed writes included, leaves every other key as it was.
  pub apply-hget_ne :
      (settings : Settings) (s : R.State) (now later : ℕ) (kind entity_id other : String)
      (previous probed_online probed_error : Bool) (f : Field)
      → resilience_key kind entity_id ≢ other
      → R.hget
          (apply_poll_outcome R settings s now kind entity_id previous probed_online probed_error).0
          later
          other
          f
        ≡ R.hget s later other f
  unfolding apply_poll_outcome
  apply-hget_ne settings s now later kind entity_id other previous probed_online probed_error f h =
      elim (Bool-cases (R.answers s)) [
        | inl up ↦ rw up (hget-save_ne s now later (resilience_key kind entity_id) other _ _ f h)
        | inr down ↦ rw down refl
      ]
