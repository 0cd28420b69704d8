-- ===== src/Main/Supervision.antt =====
-- When the wait of src/main.rs ends.
use mpconn.Base.{ap, refl, sym, subst, ◌∙◌, ◌≡◌, ◌≢◌, ◌↔◌, All, List, [], ◌∷◌, ◌++◌}
use mpconn.Main.{
  TaskState, running, returned, panicked, await_tasks, run_remote_manager, run_connection_manager,
  run_local_manager, wait,
}

await_tasks-cons :
    (xs ys : List TaskState) → await_tasks (await_tasks xs ∷ ys) ≡ await_tasks (xs ++ ys)
unfolding await_tasks
await_tasks-cons [] ys = refl
await_tasks-cons (running ∷ xs) ys = refl
await_tasks-cons (panicked ∷ xs) ys = refl
await_tasks-cons (returned ∷ xs) ys = await_tasks-cons xs ys

-- All the tasks that the managers spawned, in the order in which they are waited for.
abbrev pub all_tasks : List TaskState → TaskState → List TaskState → List TaskState
all_tasks remote_tasks manager_task tasks = remote_tasks ++ manager_task ∷ tasks

await_tasks_last : (t : TaskState) → await_tasks (t ∷ []) ≡ t
unfolding await_tasks
await_tasks_last running = refl
await_tasks_last panicked = refl
await_tasks_last returned = refl

await_tasks-append :
    (xs ys zs : List TaskState)
    → await_tasks ys ≡ await_tasks zs
    → await_tasks (xs ++ ys) ≡ await_tasks (xs ++ zs)
unfolding await_tasks
await_tasks-append [] ys zs e = e
await_tasks-append (running ∷ xs) ys zs e = refl
await_tasks-append (panicked ∷ xs) ys zs e = refl
await_tasks-append (returned ∷ xs) ys zs e = await_tasks-append xs ys zs e

await_two :
    (t : TaskState) (tasks : List TaskState)
    → await_tasks (run_connection_manager t ∷ await_tasks tasks ∷ []) ≡ await_tasks (t ∷ tasks)
unfolding await_tasks run_connection_manager
await_two running tasks = refl
await_two panicked tasks = refl
await_two returned tasks = await_tasks_last (await_tasks tasks)

wait-all_tasks :
    (remote_tasks : List TaskState) (manager_task : TaskState) (tasks : List TaskState)
    → wait remote_tasks manager_task tasks ≡ await_tasks (all_tasks remote_tasks manager_task tasks)
unfolding wait run_remote_manager run_local_manager
wait-all_tasks remote_tasks manager_task tasks =
    await_tasks-cons remote_tasks (run_connection_manager manager_task ∷ await_tasks tasks ∷ [])
    ∙ await_tasks-append remote_tasks _ _ (await_two manager_task tasks)

-- The state stands in the list, and all before it have returned.
abbrev pub IsFirst : TaskState → List TaskState → Type 0
IsFirst t tasks =
    (before : List TaskState) × (after : List TaskState) × All (λ x. x ≡ returned) before
    × (tasks ≡ before ++ t ∷ after)

await_tasks_found :
    (t : TaskState) (tasks : List TaskState)
    → t ≢ returned
    → await_tasks tasks ≡ t
    → IsFirst t tasks
unfolding await_tasks
await_tasks_found t [] h e = absurd (h (sym e))
await_tasks_found t (running ∷ tasks) h e = ([], tasks, tt, ap (λ x. x ∷ tasks) e)
await_tasks_found t (panicked ∷ tasks) h e = ([], tasks, tt, ap (λ x. x ∷ tasks) e)
await_tasks_found t (returned ∷ tasks) h e =
    let (before, after, all, split) = await_tasks_found t tasks h e in
    (returned ∷ before, after, (refl, all), ap (λ xs. returned ∷ xs) split)

await_tasks-IsFirst :
    (t : TaskState) (before after : List TaskState)
    → t ≢ returned
    → All (λ x. x ≡ returned) before
    → await_tasks (before ++ t ∷ after) ≡ t
unfolding await_tasks
await_tasks-IsFirst running [] after h all = refl
await_tasks-IsFirst panicked [] after h all = refl
await_tasks-IsFirst returned [] after h all = absurd (h refl)
await_tasks-IsFirst t (x ∷ before) after h all =
    subst (λ y. await_tasks (y ∷ before ++ t ∷ after) ≡ t) (sym all.0)
      (await_tasks-IsFirst t before after h all.1)

-- The program's state is that of the first spawned task that has not returned, the tasks of the
-- remotes first, then that of the connection manager, then those of the local manager. So while a
-- remote's task runs, the wait goes on, whatever became of the tasks behind it.
pub wait-IsFirst :
    (t : TaskState) (remote_tasks : List TaskState) (manager_task : TaskState)
    (tasks : List TaskState)
    → t ≢ returned
    → (wait remote_tasks manager_task tasks ≡ t)
      ↔ IsFirst t (all_tasks remote_tasks manager_task tasks)
wait-IsFirst t remote_tasks manager_task tasks h = (
  λ e.
      await_tasks_found t (all_tasks remote_tasks manager_task tasks) h
        (sym (wait-all_tasks remote_tasks manager_task tasks) ∙ e),
  λ (before, after, all, split).
      wait-all_tasks remote_tasks manager_task tasks
      ∙ ap await_tasks split
      ∙ await_tasks-IsFirst t before after h all,
)
