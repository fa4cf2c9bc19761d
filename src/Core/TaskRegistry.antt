-- ===== src/Core/TaskRegistry.antt =====
-- app/core/task_registry.py: background tasks by key. A task is a number; which tasks run is the
-- event loop's, and an argument.
pub mod Ownership
use infra_scope.Common.{
  ℕ, Bool, true, false, not, Option, none, some, List, [], ◌∷◌, String, if◌then◌else◌, ◌==◌, nat_eq,
  string_eq,
}

-- `self._tasks`, by insertion.
abbrev pub Tasks : Type 0
Tasks = List (String × ℕ)

unfoldable pub task_of : String → Tasks → Option ℕ
task_of key [] = none
task_of key ((k, task) ∷ tasks) = if k == key then some task else task_of key tasks

-- `self._tasks[key] = task`
unfoldable pub assign : String → ℕ → Tasks → Tasks
assign key task [] = (key, task) ∷ []
assign key task ((k, t) ∷ tasks) =
    if k == key then (key, task) ∷ tasks else (k, t) ∷ assign key task tasks

-- `self._tasks.pop(key, None)`
unfoldable pub pop : String → Tasks → Tasks
pop key [] = []
pop key ((k, t) ∷ tasks) = if k == key then pop key tasks else (k, t) ∷ pop key tasks

-- `not existing.done()`
abbrev pub is_running : (ℕ → Bool) → Option ℕ → Bool
is_running running none = false
is_running running (some task) = running task

-- `task` is what `create_task` would make of the coroutine. The `bool` of `start`.
unfoldable pub start : (ℕ → Bool) → String → ℕ → Tasks → Tasks × Bool
unfolding task_of assign
start running key task tasks =
    if is_running running (task_of key tasks) then (tasks, false) else (assign key task tasks, true)

abbrev pub is_task : Option ℕ → ℕ → Bool
is_task none task = false
is_task (some t) task = t == task

-- The done callback; what it logs is left out.
unfoldable pub on_done : String → ℕ → Tasks → Tasks
unfolding task_of pop
on_done key task tasks = if is_task (task_of key tasks) task then pop key tasks else tasks
