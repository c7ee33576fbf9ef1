-- ===== src/IoContextPool/RoundRobin.antt =====
-- The contexts are handed out in turn.
use boost_learn.Common.{
  ℕ, zero, suc, ◌+◌, ◌%◌, ◌<◌, ◌≡◌, refl, sym, ap, ◌∙◌, Option, none, some, List, [], ◌∷◌, ◌++◌,
  arith, ◌==◌, if◌then◌else◌, length, Bool-cases, inl, inr, append_assoc, append-nil,
}
use native.Mathlib.Nat.{mod-lt, suc-mod, mod-eq_of_lt, mod_self}
use boost_learn.IoContextPool.{Pool, fill, io_context_pool, get_elem?, get_io_context}

-- The contexts from `i` on.
abbrev pub from : ℕ → ℕ → List ℕ
from i zero = []
from i (suc n) = i ∷ from (i + 1) n

length-from : (i n : ℕ) → length (from i n) ≡ n
length-from i zero = refl
length-from i (suc n) = ap suc (length-from (i + 1) n)

get_elem-from : (i n k : ℕ) → k < n → get_elem? (from i n) k ≡ some (i + k)
get_elem-from i (suc n) zero h = let total : i ≡ i + 0 = omega arith in ap some total
get_elem-from i (suc n) (suc k) h =
    let total : i + 1 + k ≡ i + suc k = omega arith in
    get_elem-from (i + 1) n k (omega arith) ∙ ap some total
get_elem-from i zero k h = ground arith

fill-from :
    (i n : ℕ) (cs ws : List ℕ) (k : ℕ)
    → fill i n (record { io_contexts = cs; work = ws; next_io_context = k })
      ≡ record { io_contexts = cs ++ from i n; work = ws ++ from i n; next_io_context = k }
fill-from i zero cs ws k = rw (append-nil cs) (rw (append-nil ws) refl)
fill-from i (suc n) cs ws k =
    fill-from (i + 1) n (cs ++ i ∷ []) (ws ++ i ∷ []) k
    ∙ rw (append_assoc cs (i ∷ []) (from (i + 1) n))
        (rw (append_assoc ws (i ∷ []) (from (i + 1) n)) refl)

abbrev again : Option (ℕ × Pool) → Option (ℕ × Pool)
again none = none
again (some (c, q)) = get_io_context q

-- Calls of `get_io_context`, one after the other: the last one's result.
abbrev pub get_times : ℕ → Pool → Option (ℕ × Pool)
get_times zero p = get_io_context p
get_times (suc k) p = again (get_times k p)

-- The pool of `n` contexts that stands at `j`.
abbrev pub pool : ℕ → ℕ → Pool
pool n j = record { io_contexts = from 0 n; work = from 0 n; next_io_context = j }

advance : (n j : ℕ) → j < n → (if j + 1 == n then 0 else j + 1) ≡ suc j % n
advance n j h = elim (Bool-cases (j + 1 == n)) [
  | inl e ↦
      let same : n ≡ suc j = ground arith in
      rw e (sym (ap (λ x. suc j % x) same ∙ mod_self (suc j)))
  | inr e ↦
      let below : suc j < n = ground arith in
      let one_more : j + 1 ≡ suc j = omega arith in rw e (one_more ∙ sym (mod-eq_of_lt below))
]

pub next_lem : (n j : ℕ) → j < n → get_io_context (pool n j) ≡ some (j, pool n (suc j % n))
unfolding get_io_context
next_lem n j h = ground (arith, get_elem-from 0 n j h, advance n j h, length-from 0 n)

get_times_lem : (n k : ℕ) → 0 < n → get_times k (pool n 0) ≡ some (k % n, pool n (suc k % n))
get_times_lem n zero h =
    let first : 0 % n ≡ 0 = mod-eq_of_lt h in
    next_lem n 0 h ∙ ap (λ c. some (c, pool n (1 % n))) (sym first)
get_times_lem n (suc k) h =
    ap again (get_times_lem n k h)
    ∙ next_lem n (suc k % n) (mod-lt (suc k) h)
    ∙ ap (λ j. some (suc k % n, pool n j)) (sym (suc-mod (suc k) n))

pub io_context_pool-pool : (n : ℕ) → 0 < n → io_context_pool n ≡ some (pool n 0)
unfolding io_context_pool
io_context_pool-pool n h =
    ap (λ p. if n == 0 then none else some p) (fill-from 0 n [] [] 0) ∙ ground arith

-- A pool of `n` contexts, which must not be 0, is made, and however often `get_io_context` is called
-- on it, it never leaves the range of the contexts: call number `k`, counted from 0, returns
-- context `k % n`.
pub get_times-mod :
    (n k : ℕ)
    → 0 < n
    → (p : Pool) × (io_context_pool n ≡ some p)
      × (length p.io_contexts ≡ n)
      × ((q : Pool) × (get_times k p ≡ some (k % n, q)))
get_times-mod n k h =
    (pool n 0, io_context_pool-pool n h, length-from 0 n, (pool n (suc k % n), get_times_lem n k h))
