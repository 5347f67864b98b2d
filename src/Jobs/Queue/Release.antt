-- ===== src/Jobs/Queue/Release.antt =====
-- `release_worker` of cad2ml/jobs/queue.py: the loop that empties a dead worker's processing list.
use cad2ml.Prelude.{
  ℕ, zero, suc, ◌+◌, ◌≡◌, refl, List, [], ◌∷◌, String, Option, none, some, length, arith, ap, ◌<◌,
  Option-cases, inl, inr,
}
use cad2ml.Jobs.Queue.{Client, queue, processing, last_of, init_of, release_loop, release_worker}

length-init_of : (x : String) (xs : List String) → suc (length (init_of (x ∷ xs))) ≡ length (x ∷ xs)
length-init_of x [] = refl
length-init_of x (y ∷ ys) = ap suc (length-init_of y ys)

last_of-none : (xs : List String) → last_of xs ≡ none → xs ≡ []
last_of-none [] h = refl
last_of-none (x ∷ []) h = cc
last_of-none (x ∷ y ∷ ys) h = absurd (no_cons (last_of-none (y ∷ ys) h))
  where
    no_cons : y ∷ ys ≡ [] → ⊥
    no_cons q = cc

module _ (c : Client) (worker : String) where
  -- What a run of the loop from counter `n` has done.
  abbrev pub Released : ℕ → c.Store → Option (ℕ × c.Store) → Type 0
  Released n s none = ⊥
  Released n s (some (k, s')) =
      (k ≡ n + length (c.lrange s (processing worker)))
      × (c.lrange s' (processing worker) ≡ [])
      × (length (c.lrange s' queue)
          ≡ length (c.lrange s queue) + length (c.lrange s (processing worker)))

  -- One round takes the last value of the worker's list to the queue.
  step_counts :
      (s : c.Store) (v : String)
      → last_of (c.lrange s (processing worker)) ≡ some v
      → (suc (length (c.lrange (c.lmove (processing worker) queue s) (processing worker)))
          ≡ length (c.lrange s (processing worker)))
        × (length (c.lrange (c.lmove (processing worker) queue s) queue)
            ≡ suc (length (c.lrange s queue)))
  step_counts s v h = (
    rw (c.lrange-lmove_from (processing worker) queue s refl)
        (shorter (c.lrange s (processing worker)) h),
    rw (c.lrange-lmove_to (processing worker) queue v s refl h) refl,
  )
    where
      shorter : (xs : List String) → last_of xs ≡ some v → suc (length (init_of xs)) ≡ length xs
      shorter [] q = cc
      shorter (x ∷ xs) q = length-init_of x xs

  after_step :
      (n : ℕ) (s : c.Store) (v : String) (r : Option (ℕ × c.Store))
      → last_of (c.lrange s (processing worker)) ≡ some v
      → Released (n + 1) (c.lmove (processing worker) queue s) r
      → Released n s r
  after_step n s v none h a = a
  after_step n s v (some (k, s')) h (a, b, d) =
      let (p, q) = step_counts s v h in (omega (arith, a, p), b, omega (arith, d, p, q))

  release_loop-Released :
      (f n : ℕ) (s : c.Store)
      → length (c.lrange s (processing worker)) < f
      → Released n s (release_loop c f worker n s)
  unfolding release_loop
  release_loop-Released zero n s h = omega (arith, h)
  release_loop-Released (suc f) n s h =
      elim (Option-cases (last_of (c.lrange s (processing worker)))) [
        | inl q ↦
            rw (q, release_loop)
              (
                rw (last_of-none (c.lrange s (processing worker)) q) (omega arith),
                last_of-none (c.lrange s (processing worker)) q,
                rw (last_of-none (c.lrange s (processing worker)) q) (omega arith),
              )
        | inr (v, q) ↦
            rw (q, release_loop)
              (after_step n s v _ q (
                release_loop-Released f (n + 1) (c.lmove (processing worker) queue s)
                  (omega (arith, h, (step_counts s v q).0))))
      ]

  -- The loop ends within the length of the worker's list, leaves that list empty, returns the
  -- number of ids that it held, and the queue has grown by as many.
  pub release_worker-Released : (s : c.Store) → Released 0 s (release_worker c worker s)
  unfolding release_worker
  release_worker-Released s =
      release_loop-Released (suc (length (c.lrange s (processing worker)))) 0 s (omega arith)
