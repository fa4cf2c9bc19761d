-- ===== src/Poll/Resilience/Confirm.antt =====
-- Histories of probes through `decide_poll_state` of app/services/poll_resilience.py, each decision
-- fed back as the next call's previous state, the way the pollers store it.
use infra_scope.Common.{
  ℕ, suc, ◌≤◌, max, ◌≡◌, Bool, true, false, List, [], ◌∷◌, arith, ltb, ◌&&◌, ◌||◌,
}
use infra_scope.Poll.Resilience.{Thresholds, decide_poll_state}

pub data Probe : Type 0 where
  answered refused unreachable : Probe

abbrev pub probed_online : Probe → Bool
probed_online answered = true
probed_online _ = false

abbrev pub probed_error : Probe → Bool
probed_error unreachable = true
probed_error _ = false

-- What the row and the stored counters hold between two polls.
pub record Seen : Type 0 where
  pub online : Bool
  pub failures : ℕ
  pub circuit_failures : ℕ

-- A row with no counters behind it. One that was never polled has no `is_online`, which the pollers
-- read as false.
abbrev pub fresh : Bool → Seen
fresh was_online = record { online = was_online; failures = 0; circuit_failures = 0 }

unfoldable pub poll : Thresholds → Seen → Probe → Seen
poll t s p =
    let d =
      decide_poll_state t s.online (probed_online p) (probed_error p) s.failures
        s.circuit_failures in
    record {
      online = d.effective_online;
      failures = d.failures;
      circuit_failures = d.circuit_failures;
    }

-- The latest probe stands first.
unfoldable pub history : Thresholds → Bool → List Probe → Seen
history t was_online [] = fresh was_online
history t was_online (p ∷ ps) = poll t (history t was_online ps) p

abbrev pub has_answered : List Probe → Bool
has_answered [] = false
has_answered (answered ∷ ps) = true
has_answered (_ ∷ ps) = has_answered ps

-- Failed probes since the last answer.
abbrev pub trailing : List Probe → ℕ
trailing [] = 0
trailing (answered ∷ ps) = 0
trailing (_ ∷ ps) = suc (trailing ps)

-- Path failures since the last answer.
abbrev pub trailing_errors : List Probe → ℕ
trailing_errors [] = 0
trailing_errors (answered ∷ ps) = 0
trailing_errors (refused ∷ ps) = trailing_errors ps
trailing_errors (unreachable ∷ ps) = suc (trailing_errors ps)

record Agrees (t : Thresholds) (was_online : Bool) (ps : List Probe) (s : Seen) : Type 0 where
  counted : s.failures ≡ trailing ps
  shown :
      s.online
      ≡ ((has_answered ps || was_online) && ltb (trailing ps) (max t.offline_confirmations 1))
  errors : s.circuit_failures ≤ trailing_errors ps

poll-Agrees :
    (t : Thresholds) (was_online : Bool) (ps : List Probe) (p : Probe) (s : Seen)
    → Agrees t was_online ps s
    → Agrees t was_online (p ∷ ps) (poll t s p)
unfolding poll decide_poll_state
poll-Agrees t was_online ps answered s a = ground arith
poll-Agrees t was_online ps refused s a = ground arith
poll-Agrees t was_online ps unreachable s a = ground arith

history-Agrees :
    (t : Thresholds) (was_online : Bool) (ps : List Probe)
    → Agrees t was_online ps (history t was_online ps)
unfolding history
history-Agrees t was_online [] = ground arith
history-Agrees t was_online (p ∷ ps) =
    poll-Agrees t was_online ps p (history t was_online ps) (history-Agrees t was_online ps)

-- After any history of probes from a row with no counters, shown online or not (a row that was
-- never polled is not): the failure counter is the number of failed probes since the last answer,
-- the device is shown online exactly if it was shown so at first or has answered since and that
-- number is below the confirmations asked for (at least one), and the circuit counter never
-- exceeds the number of path failures since the last answer.
pub history_lem :
    (t : Thresholds) (was_online : Bool) (ps : List Probe)
    → let s = history t was_online ps in
      (s.failures ≡ trailing ps)
      × (s.online
          ≡ ((has_answered ps || was_online) && ltb (trailing ps) (max t.offline_confirmations 1)))
      × (s.circuit_failures ≤ trailing_errors ps)
history_lem t was_online ps =
    let a = history-Agrees t was_online ps in (a.counted, a.shown, a.errors)
