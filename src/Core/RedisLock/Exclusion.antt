-- ===== src/Core/RedisLock/Exclusion.antt =====
-- Who may believe to hold the lock of app/core/redis_lock.py.
use infra_scope.Common.{
  ℕ, ◌+◌, ◌≤◌, ◌<◌, ◌≡◌, sym, ap, ◌∙◌, Bool, true, false, Option, none, some, List, [], ◌∷◌, String,
  max, if◌then◌else◌, ◌==◌, string_eq, ==_sound, arith, All, All-map, All-mono, Option-cases, inl,
  inr, map, subst,
}
use infra_scope.Core.RedisLock.{
  RedisStrings, is_owner, acquire_redis_lock, release_redis_lock, renew_redis_lock,
}

-- A caller's token, and until when the caller counts on the lock.
pub record Lease : Type 0 where
  pub owner : String
  pub until : ℕ

is_owner-eq : (o : Option String) (owner : String) → is_owner o owner ≡ true → o ≡ some owner
is_owner-eq none owner e = ground arith
is_owner-eq (some value) owner e = ap some (==_sound value owner e)

some_owner : {a b : String} → some a ≡ some b → a ≡ b
some_owner e = cc

module _ (R : RedisStrings) (key : String) where
  open R use {State, get, set-free, set-busy, get-set, get-del, get-expire}

  -- The value stands in Redis for as long as the lease runs.
  abbrev IsBacked : State → ℕ → Lease → Type 0
  IsBacked s now l = (t : ℕ) → now ≤ t → t < l.until → get s t key ≡ some l.owner

  abbrev renewed : String → ℕ → Lease → Lease
  renewed owner until l = if l.owner == owner then record l { until = until } else l

  abbrev given_up : String → Lease → Lease
  given_up owner l = if l.owner == owner then record l { until = 0 } else l

  -- One call by anyone at its time, with the leases that the callers count on after it.
  pub data Call (s : State) (now : ℕ) (ls : List Lease) : State → List Lease → Type 0 where
    acquired :
        (owner : String) (ttl : ℕ)
        → (acquire_redis_lock R s now key owner ttl).1 ≡ some owner
        → Call s now ls
            (acquire_redis_lock R s now key owner ttl).0
            (record { owner = owner; until = now + max ttl 1 } ∷ ls)
    refused :
        (owner : String) (ttl : ℕ)
        → (acquire_redis_lock R s now key owner ttl).1 ≡ none
        → Call s now ls (acquire_redis_lock R s now key owner ttl).0 ls
    released :
        (owner : String) (reached : Bool)
        → Call s now ls (release_redis_lock R s now key owner reached) (map (given_up owner) ls)
    renewal :
        (owner : String) (ttl : ℕ)
        → (renew_redis_lock R s now key owner ttl true).1 ≡ some true
        → Call s now ls
            (renew_redis_lock R s now key owner ttl true).0
            (map (renewed owner (now + max ttl 1)) ls)
    not_renewed :
        (owner : String) (ttl : ℕ) (reached : Bool)
        → (renew_redis_lock R s now key owner ttl reached).1 ≡ some false
        → Call s now ls (renew_redis_lock R s now key owner ttl reached).0 ls

  pub data Reach (s₀ : State) : State → ℕ → List Lease → Type 0 where
    start : Reach s₀ s₀ 0 []
    call :
        {s s' : State} {now : ℕ} {ls ls' : List Lease} (later : ℕ)
        → Reach s₀ s now ls
        → now ≤ later
        → Call s later ls s' ls'
        → Reach s₀ s' later ls'

  was_free :
      (s : State) (now : ℕ) (owner : String) (ttl : ℕ)
      → (acquire_redis_lock R s now key owner ttl).1 ≡ some owner
      → get s now key ≡ none
  unfolding acquire_redis_lock
  was_free s now owner ttl e = elim (Option-cases (get s now key)) [
    | inl free ↦ free
    | inr (old, busy) ↦ absurd (ground (arith, set-busy s now key owner (max ttl 1) old busy))
  ]

  -- A lease that runs is that of the stored token.
  holder :
      (s : State) (now t : ℕ) (l : Lease)
      → IsBacked s now l
      → now ≤ t
      → t < l.until
      → get s now key ≡ some l.owner
  holder s now t l b h u = b now (omega arith) (omega arith)

  acquired-IsBacked :
      (s : State) (now : ℕ) (owner : String) (ttl : ℕ)
      → get s now key ≡ none
      → (l : Lease) → IsBacked s now l
      → IsBacked (acquire_redis_lock R s now key owner ttl).0 now l
  acquired-IsBacked s now owner ttl free l b t h u =
      absurd (ground (arith, free, holder s now t l b h u))

  acquired-IsBacked_self :
      (s : State) (now : ℕ) (owner : String) (ttl : ℕ)
      → get s now key ≡ none
      → IsBacked
          (acquire_redis_lock R s now key owner ttl).0
          now
          (record { owner = owner; until = now + max ttl 1 })
  unfolding acquire_redis_lock
  acquired-IsBacked_self s now owner ttl free t h u =
      ground (arith, get-set s now t key owner (max ttl 1) free h)

  refused_state :
      (s : State) (now : ℕ) (owner : String) (ttl : ℕ)
      → (acquire_redis_lock R s now key owner ttl).1 ≡ none
      → (acquire_redis_lock R s now key owner ttl).0 ≡ s
  unfolding acquire_redis_lock
  refused_state s now owner ttl e = elim (Option-cases (get s now key)) [
    | inl free ↦ absurd (ground (arith, set-free s now key owner (max ttl 1) free))
    | inr (old, busy) ↦ ap (λ r. r.0) (set-busy s now key owner (max ttl 1) old busy)
  ]

  released-IsBacked :
      (s : State) (now : ℕ) (owner : String) (reached : Bool) (l : Lease)
      → IsBacked s now l
      → IsBacked (release_redis_lock R s now key owner reached) now (given_up owner l)
  unfolding release_redis_lock
  released-IsBacked s now owner false l b t h u = ground (arith, b t h)
  released-IsBacked s now owner true l b t h u =
      ground (arith, b t h, b now, string_eq.beq_iff l.owner owner)

  renewed-IsBacked :
      (s : State) (now : ℕ) (owner : String) (ttl : ℕ)
      → (renew_redis_lock R s now key owner ttl true).1 ≡ some true
      → (l : Lease) → IsBacked s now l
      → IsBacked
          (renew_redis_lock R s now key owner ttl true).0
          now
          (renewed owner (now + max ttl 1) l)
  unfolding renew_redis_lock
  renewed-IsBacked s now owner ttl e l b t h u =
      let mine = is_owner-eq (get s now key) owner (ground arith) in
      ground (
        arith,
        mine,
        b now,
        string_eq.beq_iff l.owner owner,
        get-expire s now t key owner (max ttl 1) mine h,
      )

  not_renewed_state :
      (s : State) (now : ℕ) (owner : String) (ttl : ℕ) (reached : Bool)
      → (renew_redis_lock R s now key owner ttl reached).1 ≡ some false
      → (renew_redis_lock R s now key owner ttl reached).0 ≡ s
  unfolding renew_redis_lock
  not_renewed_state s now owner ttl reached e = ground arith

  Call-IsBacked :
      (s : State) (now : ℕ) (ls : List Lease) {s' : State} {ls' : List Lease}
      → Call s now ls s' ls'
      → All (IsBacked s now) ls
      → All (IsBacked s' now) ls'
  Call-IsBacked s now ls (acquired owner ttl e) a =
      let free = was_free s now owner ttl e in
      (
        acquired-IsBacked_self s now owner ttl free,
        All-mono (IsBacked s now) (IsBacked (acquire_redis_lock R s now key owner ttl).0 now)
            (acquired-IsBacked s now owner ttl free) ls a,
      )
  Call-IsBacked s now ls (refused owner ttl e) a =
      subst (λ s'. All (IsBacked s' now) ls) (sym (refused_state s now owner ttl e)) a
  Call-IsBacked s now ls (released owner reached) a =
      All-map (IsBacked s now) (IsBacked (release_redis_lock R s now key owner reached) now)
        (given_up owner) (released-IsBacked s now owner reached) ls a
  Call-IsBacked s now ls (renewal owner ttl e) a =
      All-map (IsBacked s now) (IsBacked (renew_redis_lock R s now key owner ttl true).0 now)
        (renewed owner (now + max ttl 1)) (renewed-IsBacked s now owner ttl e) ls a
  Call-IsBacked s now ls (not_renewed owner ttl reached e) a =
      subst (λ s'. All (IsBacked s' now) ls) (sym (not_renewed_state s now owner ttl reached e)) a

  IsBacked-later :
      (s : State) (now later : ℕ)
      → now ≤ later
      → (l : Lease) → IsBacked s now l
      → IsBacked s later l
  IsBacked-later s now later h l b t k u = b t (omega arith) u

  Reach-IsBacked :
      {s₀ s : State} {now : ℕ} {ls : List Lease} → Reach s₀ s now ls → All (IsBacked s now) ls
  Reach-IsBacked start = tt
  Reach-IsBacked (call {s} {s'} {now} {ls} later r h c) = Call-IsBacked s later ls c (
      All-mono (IsBacked s now) (IsBacked s later) (IsBacked-later s now later h) ls
        (Reach-IsBacked r))

  -- Two leases that both run at `now` have one owner.
  abbrev pub Agree : ℕ → Lease → Lease → Type 0
  Agree now l l' = now < l.until → now < l'.until → l.owner ≡ l'.owner

  -- However the callers interleave, whatever release or renewal fails to reach Redis, and whoever
  -- outlives the time to live: the leases that run at one time all have the same owner.
  pub mutual_exclusion :
      {s₀ s : State} {now : ℕ} {ls : List Lease}
      → Reach s₀ s now ls
      → All (λ l. All (Agree now l) ls) ls
  mutual_exclusion {s₀} {s} {now} {ls} r =
      let backed = Reach-IsBacked r in
      All-mono (IsBacked s now) (λ l. All (Agree now l) ls)
        (λ l b.
          All-mono (IsBacked s now) (Agree now l)
            (λ l' b' u u'. some_owner (sym (b now (omega arith) u) ∙ b' now (omega arith) u')) ls
            backed)
        ls backed

  -- A lock that was granted is granted again to any caller from the end of its time to live on,
  -- although nobody released it.
  pub acquire-acquire :
      (s : State) (now later : ℕ) (owner next : String) (ttl ttl' : ℕ)
      → (acquire_redis_lock R s now key owner ttl).1 ≡ some owner
      → now + max ttl 1 ≤ later
      → let s' = (acquire_redis_lock R s now key owner ttl).0 in
        (acquire_redis_lock R s' later key next ttl').1 ≡ some next
  unfolding acquire_redis_lock
  acquire-acquire s now later owner next ttl ttl' e h =
      let free = was_free s now owner ttl e in
      let s' = (acquire_redis_lock R s now key owner ttl).0 in
      let over : get s' later key ≡ none =
        ground (arith, get-set s now later key owner (max ttl 1) free (omega arith)) in
      ground (arith, set-free s' later key next (max ttl' 1) over)
