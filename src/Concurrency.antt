-- ===== src/Concurrency.antt =====
-- include/mcrs/concurrency/closeable_queue.hpp. Each method holds the mutex while it reads or changes
-- the queue, so it is one step. `wait_pop` returns as soon as its predicate holds or a stop is
-- requested; until then it is blocked, and the caller tries again. To wake a waiter is to let it try.
use modern_cpp_room_server.Prelude.{
  ℕ, Bool, true, false, ◌||◌, Option, none, some, List, [], ◌∷◌, ◌++◌, length, if◌then◌else◌,
  Expected, ok, err,
}

pub data QueuePushError : Type 0 where
  queue_closed : QueuePushError

pub record CloseableQueue {ℓ} (A : Type ℓ) : Type ℓ where
  pub values : List A
  pub is_closed : Bool

unfoldable pub new_queue {ℓ} : {A : Type ℓ} → CloseableQueue A
new_queue = record { values = []; is_closed = false }

unfoldable pub push {ℓ} :
    {A : Type ℓ} → CloseableQueue A → A → Expected QueuePushError (Unit {0}) × CloseableQueue A
push q value =
    if q.is_closed
    then (err queue_closed, q)
    else (ok tt, record q { values = q.values ++ (value ∷ []) })

pub data Waited {ℓ} (A : Type ℓ) : Type ℓ where
  blocked : Waited A
  returned : Option A → Waited A

-- The code after the wait.
unfoldable pub pop_front {ℓ} :
    {A : Type ℓ} → CloseableQueue A → List A → Waited A × CloseableQueue A
pop_front q [] = (returned none, q)
pop_front q (value ∷ values) = (returned (some value), record q { values = values })

unfoldable pub has_values {ℓ} : {A : Type ℓ} → List A → Bool
has_values [] = false
has_values (value ∷ values) = true

unfoldable pub wait_pop {ℓ} : {A : Type ℓ} → Bool → CloseableQueue A → Waited A × CloseableQueue A
unfolding pop_front has_values
wait_pop stop_requested q =
    if stop_requested || (q.is_closed || has_values q.values)
    then pop_front q q.values
    else (blocked, q)

unfoldable pub close {ℓ} : {A : Type ℓ} → CloseableQueue A → CloseableQueue A
close q = record q { is_closed = true }

unfoldable pub size {ℓ} : {A : Type ℓ} → CloseableQueue A → ℕ
size q = length q.values
