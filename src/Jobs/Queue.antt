-- ===== src/Jobs/Queue.antt =====
-- cad2ml/jobs/queue.py: job ids carried over Redis lists. The Redis client is not part of the
-- repository: its list commands are a parameter, with their documented meaning.
pub mod Release
pub mod Lists
use cad2ml.Prelude.{
  ℕ, zero, suc, ◌+◌, ◌≡◌, Bool, List, [], ◌∷◌, Option, none, some, String, str_eq, keep, not,
  length, if◌then◌else◌, true, false,
}

-- The lists of the transport: `cad2ml:queue`, and `cad2ml:processing:<worker>` for each worker.
pub data Key : Type 0 where
  queue : Key
  processing : String → Key

abbrev pub same_key : Key → Key → Bool
same_key queue queue = true
same_key queue (processing w) = false
same_key (processing v) queue = false
same_key (processing v) (processing w) = str_eq v w

-- A list without its last element, and that element: what `RIGHT` takes.
abbrev pub last_of : List String → Option String
last_of [] = none
last_of (x ∷ []) = some x
last_of (x ∷ y ∷ rest) = last_of (y ∷ rest)

abbrev pub init_of : List String → List String
init_of [] = []
init_of (x ∷ []) = []
init_of (x ∷ y ∷ rest) = x ∷ init_of (y ∷ rest)

-- LPUSH puts a value in front, LMOVE … RIGHT LEFT moves the last value of a list to the front of
-- another, LREM key 0 v removes every v. A blocking move that times out is a move from an empty list.
pub record Client : Type 1 where
  pub Store : Type 0
  pub lrange : Store → Key → List String
  pub lpush : Key → String → Store → Store
  pub lmove : Key → Key → Store → Store
  pub lrem : Key → String → Store → Store
  pub lrange-lpush :
      (k j : Key) (v : String) (s : Store)
      → lrange (lpush k v s) j ≡ (if same_key k j then v ∷ lrange s k else lrange s j)
  pub lrange-lrem :
      (k j : Key) (v : String) (s : Store)
      → lrange (lrem k v s) j
        ≡ (if same_key k j then keep (λ x. not (str_eq x v)) (lrange s k) else lrange s j)
  pub lmove-empty : (k j : Key) (s : Store) → lrange s k ≡ [] → lmove k j s ≡ s
  pub lrange-lmove_from :
      (k j : Key) (s : Store) → same_key k j ≡ false → lrange (lmove k j s) k ≡ init_of (lrange s k)
  pub lrange-lmove_to :
      (k j : Key) (v : String) (s : Store)
      → same_key k j ≡ false
      → last_of (lrange s k) ≡ some v
      → lrange (lmove k j s) j ≡ v ∷ lrange s j
  pub lrange-lmove_ne :
      (k j i : Key) (s : Store)
      → same_key k i ≡ false
      → same_key j i ≡ false
      → lrange (lmove k j s) i ≡ lrange s i

module _ (c : Client) where
  unfoldable pub enqueue : String → c.Store → c.Store
  enqueue job_id s = c.lpush queue job_id s

  unfoldable pub reserve : String → c.Store → Option String × c.Store
  reserve worker_id s = (last_of (c.lrange s queue), c.lmove queue (processing worker_id) s)

  unfoldable pub ack : String → String → c.Store → c.Store
  ack worker_id job_id s = c.lrem (processing worker_id) job_id s

  unfoldable pub depth : c.Store → ℕ
  depth s = length (c.lrange s queue)

  unfoldable pub queued_ids : c.Store → List String
  queued_ids s = c.lrange s queue

  -- `while lmove(…) is not None: n += 1`, on fuel; `none` means that the fuel ran out.
  unfoldable pub release_loop : ℕ → String → ℕ → c.Store → Option (ℕ × c.Store)
  release_loop zero worker_id n s = none
  release_loop (suc f) worker_id n s =
      let rest = release_loop f worker_id (n + 1) (c.lmove (processing worker_id) queue s) in
      elim (last_of (c.lrange s (processing worker_id))) [ none ↦ some (n, s) | some v ↦ rest ]

  -- The loop takes one value off the worker's list in each round.
  unfoldable pub release_worker : String → c.Store → Option (ℕ × c.Store)
  unfolding release_loop
  release_worker worker_id s =
      release_loop (suc (length (c.lrange s (processing worker_id)))) worker_id 0 s
