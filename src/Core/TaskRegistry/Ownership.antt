-- ===== src/Core/TaskRegistry/Ownership.antt =====
-- Which tasks of app/core/task_registry.py run side by side.
use infra_scope.Common.{
  ℕ, ◌≡◌, refl, sym, ap, ◌∙◌, Bool, true, false, Option, none, some, [], ◌∷◌, String, if◌then◌else◌,
  ◌==◌, nat_eq, string_eq, arith, ==_sound, ==_refl, Bool-cases, inl, inr,
}
use mathlib.Core.Option.{some-injective}
use mathlib.Core.Bool.{true≢false}
use infra_scope.Core.TaskRegistry.{Tasks, task_of, assign, pop, is_running, is_task, start, on_done}

-- The registry, the tasks that run, and the key that each task was started under.
pub record Loop : Type 0 where
  pub tasks : Tasks
  pub running : ℕ → Bool
  pub key_of : ℕ → String

abbrev pub set_at {ℓ} : {A : Type ℓ} → (ℕ → A) → ℕ → A → ℕ → A
set_at f i a j = if i == j then a else f j

-- A start that is accepted or not, the end of a task (which it reaches by itself, by an error or
-- by being cancelled), and the callback, some time after the end.
pub data Event (l : Loop) : Loop → Type 0 where
  started :
      (key : String) (task : ℕ)
      → l.running task ≡ false
      → (start l.running key task l.tasks).1 ≡ true
      → Event l (record {
        tasks = (start l.running key task l.tasks).0;
        running = set_at l.running task true;
        key_of = set_at l.key_of task key;
      })
  refused :
      (key : String) (task : ℕ)
      → (start l.running key task l.tasks).1 ≡ false
      → Event l (record l { tasks = (start l.running key task l.tasks).0 })
  ended : (task : ℕ) → Event l (record l { running = set_at l.running task false })
  called_back :
      (task : ℕ)
      → l.running task ≡ false
      → Event l (record l { tasks = on_done (l.key_of task) task l.tasks })

pub data Reach : Loop → Type 0 where
  empty :
      (key_of : ℕ → String) → Reach (record { tasks = []; running = λ t. false; key_of = key_of })
  next : {l l' : Loop} → Reach l → Event l l' → Reach l'

-- Every task that runs is the registered one of its key.
abbrev IsOwned : Loop → Type 0
IsOwned l = (task : ℕ) → l.running task ≡ true → task_of (l.key_of task) l.tasks ≡ some task

task_of-assign :
    (key q : String) (task : ℕ) (tasks : Tasks)
    → task_of q (assign key task tasks) ≡ (if key == q then some task else task_of q tasks)
unfolding task_of assign
task_of-assign key q task [] = refl
task_of-assign key q task ((k, t) ∷ tasks) = ground (
  arith,
  task_of-assign key q task tasks,
  string_eq.beq_iff key q,
  string_eq.beq_iff k q,
  string_eq.beq_iff k key,
)

task_of-pop :
    (key q : String) (tasks : Tasks)
    → task_of q (pop key tasks) ≡ (if key == q then none else task_of q tasks)
unfolding task_of pop
task_of-pop key q [] = ground arith
task_of-pop key q ((k, t) ∷ tasks) = ground (
  arith,
  task_of-pop key q tasks,
  string_eq.beq_iff key q,
  string_eq.beq_iff k q,
  string_eq.beq_iff k key,
)

clash :
    (running : ℕ → Bool) (t : ℕ) (o : Option ℕ)
    → o ≡ some t
    → is_running running o ≡ false
    → ¬ (running t ≡ true)
clash running t o e idle r = true≢false (sym r ∙ ap (is_running running) (sym e) ∙ idle)

-- `taken` is the test whether `t` is the task that starts.
owned_after_start :
    (l : Loop) (key : String) (task t : ℕ) (taken : Bool)
    → (task == t) ≡ taken
    → is_running l.running (task_of key l.tasks) ≡ false
    → IsOwned l
    → (if taken then true else l.running t) ≡ true
    → task_of (if taken then key else l.key_of t) (assign key task l.tasks) ≡ some t
owned_after_start l key task t true e idle o r =
    task_of-assign key key task l.tasks
    ∙ ap (λ b. if b then some task else task_of key l.tasks) (==_refl key)
    ∙ ap some (==_sound task t e)
owned_after_start l key task t false e idle o r = elim (Bool-cases (key == l.key_of t)) [
  | inl same ↦ absurd (
      clash l.running t (task_of key l.tasks)
        (ap (λ k. task_of k l.tasks) (==_sound key (l.key_of t) same) ∙ o t r) idle r)
  | inr other ↦
      task_of-assign key (l.key_of t) task l.tasks
      ∙ ap (λ b. if b then some task else task_of (l.key_of t) l.tasks) other
      ∙ o t r
]

-- The two results of `start`, by the test that decides.
accepted→idle :
    (busy : Bool) (tasks added : Tasks)
    → (if◌then◌else◌ {A = Tasks × Bool} busy (tasks, false) (added, true)).1 ≡ true
    → (busy ≡ false)
      × ((if◌then◌else◌ {A = Tasks × Bool} busy (tasks, false) (added, true)).0 ≡ added)
accepted→idle true tasks added h = ground arith
accepted→idle false tasks added h = (refl, refl)

refused→same :
    (busy : Bool) (tasks added : Tasks)
    → (if◌then◌else◌ {A = Tasks × Bool} busy (tasks, false) (added, true)).1 ≡ false
    → (if◌then◌else◌ {A = Tasks × Bool} busy (tasks, false) (added, true)).0 ≡ tasks
refused→same true tasks added h = refl
refused→same false tasks added h = ground arith

-- `own` is the test of the callback.
owned_after_done :
    (l : Loop) (task t : ℕ) (own : Bool)
    → is_task (task_of (l.key_of task) l.tasks) task ≡ own
    → l.running task ≡ false
    → IsOwned l
    → l.running t ≡ true
    → task_of (l.key_of t) (if own then pop (l.key_of task) l.tasks else l.tasks) ≡ some t
owned_after_done l task t false e idle o r = o t r
owned_after_done l task t true e idle o r = elim (Bool-cases (l.key_of task == l.key_of t)) [
  | inl same ↦ absurd (
      true≢false (
        sym r
        ∙ ap l.running (
            ==_sound t task (
              ap (λ o. is_task o task)
                (sym (
                  ap (λ k. task_of k l.tasks) (==_sound (l.key_of task) (l.key_of t) same) ∙ o t r))
              ∙ e))
        ∙ idle))
  | inr other ↦
      task_of-pop (l.key_of task) (l.key_of t) l.tasks
      ∙ ap (λ b. if b then none else task_of (l.key_of t) l.tasks) other
      ∙ o t r
]

Event-IsOwned : {l l' : Loop} → Event l l' → IsOwned l → IsOwned l'
unfolding start on_done
Event-IsOwned {l} (started key task idle accepted) o t r =
    let (free, e) =
      accepted→idle (is_running l.running (task_of key l.tasks)) l.tasks (assign key task l.tasks)
        accepted in
    ap (task_of (set_at l.key_of task key t)) e
    ∙ owned_after_start l key task t (task == t) refl free o r
Event-IsOwned {l} (refused key task e) o t r =
    ap (task_of (l.key_of t)) (
      refused→same (is_running l.running (task_of key l.tasks)) l.tasks (assign key task l.tasks) e)
    ∙ o t r
Event-IsOwned {l} (ended task) o t r = ground (arith, o t)
Event-IsOwned {l} (called_back task idle) o t r =
    owned_after_done l task t (is_task (task_of (l.key_of task) l.tasks) task) refl idle o r

Reach-IsOwned : {l : Loop} → Reach l → IsOwned l
Reach-IsOwned (empty key_of) = λ t r. ground arith
Reach-IsOwned (next r e) = Event-IsOwned e (Reach-IsOwned r)

-- In every order of starts, ends and callbacks, a late callback of a task whose key was started
-- again included: two tasks that run under one key are one task, and a task that runs is the
-- registered one of its key, so no start of that key is accepted.
pub one_task_per_key :
    {l : Loop}
    → Reach l
    → ((t t' : ℕ) → l.running t ≡ true → l.running t' ≡ true → l.key_of t ≡ l.key_of t' → t ≡ t')
      × ((t task : ℕ)
          → l.running t ≡ true
          → start l.running (l.key_of t) task l.tasks ≡ (l.tasks, false))
unfolding start
one_task_per_key {l} r = (
  λ t t' a b e.
      some-injective t t'
        (sym (Reach-IsOwned r t a) ∙ ap (λ k. task_of k l.tasks) e ∙ Reach-IsOwned r t' b),
  λ t task a. ground (arith, Reach-IsOwned r t a),
)
