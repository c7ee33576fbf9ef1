-- ===== src/IoContextPool/Returns.antt =====
-- When `run` returns.
use mathlib.Core.Path.{subst}
use boost_learn.Common.{
  ℕ, ◌≡◌, ◌⊎◌, inl, inr, refl, sym, ap, ◌∙◌, Bool, true, false, List, [], ◌∷◌, ◌++◌, ◌==◌, update,
  append_assoc, arith, All, Bool-cases,
}
use boost_learn.IoContextPool.{Pool}
use boost_learn.IoContextPool.Threads.{
  Runs, run, stop_all, stop, tracked, Step, creates, ends, joins, stops, Steps, stays, goes, GoesOn,
  ends_here, then,
}

-- The contexts whose threads were joined are stopped; the others are still waited for.
pub record IsWaiting (p : Pool) (r : Runs) : Type 0 where
  pub joined : List ℕ
  pub contexts : p.io_contexts ≡ joined ++ (r.threads ++ r.to_run)
  pub done : All (λ c. r.stopped c ≡ true) joined
  pub ended_stopped : (c : ℕ) → r.ended c ≡ true → r.stopped c ≡ true

stop_all-keeps : (cs : List ℕ) (f : ℕ → Bool) (c : ℕ) → f c ≡ true → stop_all cs f c ≡ true
stop_all-keeps [] f c e = e
stop_all-keeps (x ∷ cs) f c e = stop_all-keeps cs (update f x true) c (ground (arith, e))

stop_all-All :
    (cs ds : List ℕ) (f : ℕ → Bool)
    → All (λ c. f c ≡ true) cs
    → All (λ c. stop_all ds f c ≡ true) cs
stop_all-All [] ds f h = tt
stop_all-All (c ∷ cs) ds f h = (stop_all-keeps ds f c h.0, stop_all-All cs ds f h.1)

stop_all-All_contexts : (cs : List ℕ) (f : ℕ → Bool) → All (λ c. stop_all cs f c ≡ true) cs
stop_all-All_contexts [] f = tt
stop_all-All_contexts (c ∷ cs) f = (
  stop_all-keeps cs (update f c true) c (ground arith),
  stop_all-All_contexts cs (update f c true),
)

tracked-among : (before : List ℕ) (c : ℕ) (after : List ℕ) → tracked c (before ++ c ∷ after) ≡ true
tracked-among [] c after = ground arith
tracked-among (w ∷ before) c after = ground (arith, tracked-among before c after)

All-last :
    (f : ℕ → Bool) (cs : List ℕ) (c : ℕ)
    → All (λ x. f x ≡ true) cs
    → f c ≡ true
    → All (λ x. f x ≡ true) (cs ++ c ∷ [])
All-last f [] c h e = (e, tt)
All-last f (x ∷ cs) c h e = (h.0, All-last f cs c h.1 e)

-- A context with a thread is tracked.
ended-thread :
    (p : Pool) (f : ℕ → Bool) (c : ℕ) (joined before after to_run : List ℕ)
    → p.work ≡ p.io_contexts
    → p.io_contexts ≡ joined ++ ((before ++ c ∷ after) ++ to_run)
    → (f c ≡ true) ⊎ (tracked c p.work ≡ false)
    → f c ≡ true
ended-thread p f c joined before after to_run w e (inl h) = h
ended-thread p f c joined before after to_run w e (inr h) =
    let split : p.work ≡ (joined ++ before) ++ c ∷ (after ++ to_run) =
      w
      ∙ e
      ∙ ap (◌++◌ joined) (append_assoc before (c ∷ after) to_run)
      ∙ sym (append_assoc joined before (c ∷ (after ++ to_run))) in
    let among = ap (tracked c) split ∙ tracked-among (joined ++ before) c (after ++ to_run) in cc

ended-update :
    (ended stopped : ℕ → Bool) (c d : ℕ)
    → update ended c true d ≡ true
    → (ended d ≡ true → stopped d ≡ true)
    → stopped c ≡ true
    → stopped d ≡ true
ended-update ended stopped c d k h e = elim (Bool-cases (d == c)) [
  | inl q ↦ (let same : c ≡ d = ground (arith, q) in subst (λ x. stopped x ≡ true) same e)
  | inr q ↦ h (ground (arith, q, k))
]

Step-IsWaiting :
    {p : Pool} {r s : Runs} → p.work ≡ p.io_contexts → Step p r s → IsWaiting p r → IsWaiting p s
Step-IsWaiting w (creates {r} c cs e) i = record {
  joined = i.joined;
  contexts =
      i.contexts
      ∙ ap (λ l. i.joined ++ (r.threads ++ l)) e
      ∙ ap (◌++◌ i.joined) (sym (append_assoc r.threads (c ∷ []) cs));
  done = i.done;
  ended_stopped = i.ended_stopped;
}
Step-IsWaiting {p} w (ends {r} before c after e h) i = record {
  joined = i.joined;
  contexts = i.contexts;
  done = i.done;
  ended_stopped = λ d k. ended-update r.ended r.stopped c d k (i.ended_stopped d) (
      ended-thread p r.stopped c i.joined before after r.to_run w
        (i.contexts ∙ ap (λ l. i.joined ++ (l ++ r.to_run)) e) h);
}
Step-IsWaiting w (joins {r} c cs e e' k) i = record {
  joined = i.joined ++ c ∷ [];
  contexts =
      i.contexts
      ∙ ap (λ l. i.joined ++ (l ++ r.to_run)) e'
      ∙ sym (append_assoc i.joined (c ∷ []) (cs ++ r.to_run));
  done = All-last r.stopped i.joined c i.done (i.ended_stopped c k);
  ended_stopped = i.ended_stopped;
}

stop-IsWaiting : {p : Pool} {r : Runs} → IsWaiting p r → IsWaiting p (stop p r)
unfolding stop
stop-IsWaiting {p} {r} i = record {
  joined = i.joined;
  contexts = i.contexts;
  done = stop_all-All i.joined p.io_contexts r.stopped i.done;
  ended_stopped = λ c k. stop_all-keeps p.io_contexts r.stopped c (i.ended_stopped c k);
}

pub Steps-IsWaiting :
    {p : Pool} {r s : Runs} → p.work ≡ p.io_contexts → Steps p r s → IsWaiting p r → IsWaiting p s
Steps-IsWaiting w stays i = i
Steps-IsWaiting w (goes k ks) i = Steps-IsWaiting w ks (Step-IsWaiting w k i)
Steps-IsWaiting w (stops ks) i = Steps-IsWaiting w ks (stop-IsWaiting i)

pub run-IsWaiting : (p : Pool) → IsWaiting p (run p)
unfolding run
run-IsWaiting p = record {
  joined = [];
  contexts = refl;
  done = tt;
  ended_stopped = λ c e. ground (arith, e);
}

-- `run` has come to its end.
pub Returned : Runs → Type 0
Returned r = (r.to_run ≡ []) × (r.threads ≡ [])

-- With all threads made, they end and are joined.
joins-Returned :
    (p : Pool) (cs : List ℕ) (stopped ended : ℕ → Bool)
    → All (λ c. stopped c ≡ true) cs
    → (s : Runs) × GoesOn p
        (record { to_run = []; threads = cs; stopped = stopped; ended = ended })
        s
      × Returned s
unfolding Returned
joins-Returned p [] stopped ended h = (
  record { to_run = []; threads = []; stopped = stopped; ended = ended },
  ends_here,
  (refl, refl),
)
joins-Returned p (c ∷ cs) stopped ended h =
    let (s, ks, e) = joins-Returned p cs stopped (update ended c true) h.1 in
    (s, then (ends [] c cs refl (inl h.0)) (then (joins c cs refl refl (ground arith)) ks), e)

creates-Returned :
    (p : Pool) (cs threads : List ℕ) (stopped ended : ℕ → Bool)
    → All (λ c. stopped c ≡ true) threads
    → All (λ c. stopped c ≡ true) cs
    → (s : Runs) × GoesOn p
        (record { to_run = cs; threads = threads; stopped = stopped; ended = ended })
        s
      × Returned s
creates-Returned p [] threads stopped ended h k = joins-Returned p threads stopped ended h
creates-Returned p (c ∷ cs) threads stopped ended h k =
    let (s, ks, e) =
      creates-Returned p cs (threads ++ c ∷ []) stopped ended (All-last stopped threads c h k.0)
        k.1 in
    (s, then (creates c cs refl) ks, e)

All-append_left :
    (f : ℕ → Bool) (a b : List ℕ)
    → All (λ c. f c ≡ true) (a ++ b)
    → All (λ c. f c ≡ true) a × All (λ c. f c ≡ true) b
All-append_left f [] b h = (tt, h)
All-append_left f (x ∷ a) b h = let (l, r) = All-append_left f a b h.1 in ((h.0, l), r)

-- Once all is stopped, `run` can go on to its end.
pub stop-Returned :
    (p : Pool) (r : Runs) → IsWaiting p r → (s : Runs) × GoesOn p (stop p r) s × Returned s
unfolding stop
stop-Returned p r i =
    let f = stop_all p.io_contexts r.stopped in
    let all =
      subst (All (λ c. f c ≡ true)) i.contexts (stop_all-All_contexts p.io_contexts r.stopped) in
    let rest = (All-append_left f i.joined (r.threads ++ r.to_run) all).1 in
    let both = All-append_left f r.threads r.to_run rest in
    creates-Returned p r.to_run r.threads f r.ended both.0 both.1
