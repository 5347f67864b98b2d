-- ===== src/Jobs/Queue/Lists.antt =====
-- A transport whose lists are a function of the key: the laws that the model asks of the Redis client of
-- cad2ml/jobs/queue.py can be met.
use text.Mathlib.TextPositions.{eq_refl}
use cad2ml.Prelude.{
  ◌≡◌, refl, ap, sym, List, [], ◌∷◌, String, str_eq, Option, none, some, keep, not, true, false,
  if◌then◌else◌, eq_iff, arith,
}
use cad2ml.Jobs.Queue.{Client, Key, queue, processing, same_key, last_of, init_of}

abbrev Store : Type 0
Store = Key → List String

abbrev pub set : Key → List String → Store → Store
set k v s = λ j. if same_key k j then v else s j

abbrev pub move_to : Key → Key → Store → Option String → Store
move_to k j s none = s
move_to k j s (some v) = set j (v ∷ s j) (set k (init_of (s k)) s)

same_key_refl : (k : Key) → same_key k k ≡ true
same_key_refl queue = refl
same_key_refl (processing w) = eq_refl w

same_key_comm : (k j : Key) → same_key k j ≡ same_key j k
same_key_comm queue queue = refl
same_key_comm queue (processing w) = refl
same_key_comm (processing v) queue = refl
same_key_comm (processing v) (processing w) = ground (arith, eq_iff v w, eq_iff w v)

init_of-last : (xs : List String) → last_of xs ≡ none → init_of xs ≡ xs
init_of-last [] h = refl
init_of-last (x ∷ []) h = cc
init_of-last (x ∷ y ∷ ys) h = absurd (last_some y ys h)
  where
    last_some : (a : String) (rest : List String) → last_of (a ∷ rest) ≡ none → ⊥
    last_some a [] q = cc
    last_some a (b ∷ rest) q = last_some b rest q

pub move_from :
    (k j : Key) (s : Store) (o : Option String)
    → last_of (s k) ≡ o
    → same_key k j ≡ false
    → move_to k j s o k ≡ init_of (s k)
move_from k j s none q h = sym (init_of-last (s k) q)
move_from k j s (some v) q h = rw (← same_key_comm k j, h, same_key_refl k) refl

pub move_into :
    (k j : Key) (v : String) (s : Store) (o : Option String)
    → last_of (s k) ≡ o
    → same_key k j ≡ false
    → last_of (s k) ≡ some v
    → move_to k j s o j ≡ v ∷ s j
move_into k j v s none q h l = cc
move_into k j v s (some u) q h l = rw (same_key_refl j) (ap (◌∷ s j) cc)

pub move_other :
    (k j i : Key) (s : Store) (o : Option String)
    → same_key k i ≡ false
    → same_key j i ≡ false
    → move_to k j s o i ≡ s i
move_other k j i s none h l = refl
move_other k j i s (some v) h l = rw (h, l) refl

abbrev pub list_client : Client
list_client = record {
  Store = Key → List String;
  lrange = λ s k. s k;
  lpush = λ k v s. set k (v ∷ s k) s;
  lmove = λ k j s. move_to k j s (last_of (s k));
  lrem = λ k v s. set k (keep (λ x. not (str_eq x v)) (s k)) s;
  lrange-lpush = λ k j v s. refl;
  lrange-lrem = λ k j v s. refl;
  lmove-empty = λ k j s h. rw h refl;
  lrange-lmove_from = λ k j s h. move_from k j s (last_of (s k)) refl h;
  lrange-lmove_to = λ k j v s h l. move_into k j v s (last_of (s k)) refl h l;
  lrange-lmove_ne = λ k j i s h l. move_other k j i s (last_of (s k)) h l;
}
