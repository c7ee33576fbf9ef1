-- ===== src/Daemon/Detached.antt =====
-- What the daemon has open, and when it runs.
use boost_learn.Common.{
  update, ℕ, ◌<◌, ◌≡◌, ◌≢◌, ◌⊎◌, inl, inr, refl, true, Option, none, some, [], ◌∷◌, ◌++◌, arith,
  ltb, Bool-cases, Option-cases, append_assoc,
}
use boost_learn.Daemon.{
  File, null_device, output, Descriptors, fork_prepare, fork_child, daemon_started, Process, Fork,
  child, parent, failed, End, exits, runs, close, opened, log, notify_fork, after_output,
  open_output, open_null, second_fork, become_daemon, dup_failed, first_fork_failed,
  second_fork_failed, parent, failed, output_failed, null_device_failed,
}

-- The lowest descriptor that is not open.
pub record IsLowest (d : Descriptors) (n : ℕ) : Type 0 where
  pub free : d n ≡ none
  pub taken : (m : ℕ) → m < n → d m ≢ none

IsLowest-unique : (d : Descriptors) (n k : ℕ) → IsLowest d n → IsLowest d k → n ≡ k
IsLowest-unique d n k a b = elim (Bool-cases (ltb n k)) [
  | inl l ↦ absurd (b.taken n (ground (arith, l)) a.free)
  | inr l ↦ elim (Bool-cases (ltb k n)) [
    | inl l' ↦ absurd (a.taken k (ground (arith, l')) b.free)
    | inr l' ↦ ground (arith, l, l')
  ]
]

-- Standard input is the null device, standard output and standard error are the log file, everything
-- else is as it was, and the process has left its terminal, its directory and its mask.
pub record IsDetached (p q : Process) : Type 0 where
  pub input : q.descriptors 0 ≡ some null_device
  pub outputs : (q.descriptors 1 ≡ some output) × (q.descriptors 2 ≡ some output)
  pub others : (k : ℕ) → 2 < k → q.descriptors k ≡ p.descriptors k
  pub alone : (q.session_leader ≡ true) × (q.in_root ≡ true) × (q.mask_cleared ≡ true)
  pub notified : q.notified ≡ p.notified ++ fork_prepare ∷ fork_child ∷ []
  pub logged : q.logged ≡ p.logged ++ daemon_started ∷ []

-- The three descriptors that are closed; behind the first and behind the second `open`.
abbrev pub all_closed : Process → Descriptors
all_closed p = update (update (update p.descriptors 0 none) 1 none) 2 none

abbrev pub with_null : Process → Descriptors
with_null p = update (all_closed p) 0 (some null_device)

abbrev pub with_output : Process → Descriptors
with_output p = update (with_null p) 1 (some output)

-- One of the three calls that are made fails.
abbrev pub Failure :
    (File → Descriptors → Option ℕ) → (ℕ → Descriptors → Option ℕ) → Process → Type 0
Failure open_file duplicate p =
    (open_file null_device (all_closed p) ≡ none)
    ⊎ ((open_file output (with_null p) ≡ none) ⊎ (duplicate 1 (with_output p) ≡ none))

-- How `main` ends: it runs the server, detached, or a parent exits, or a process in which a call failed.
abbrev pub Ending :
    (File → Descriptors → Option ℕ)
    → (ℕ → Descriptors → Option ℕ)
    → Fork
    → Fork
    → Process
    → End
    → Type 0
Ending open_file duplicate first second p e =
    ((first ≡ child) × (second ≡ child) × ((q : Process) × (e ≡ runs q) × IsDetached p q))
    ⊎ ((((first ≡ parent) ⊎ (second ≡ parent)) × ((q : Process) × (e ≡ exits 0 q)))
        ⊎ (((first ≡ failed) ⊎ ((second ≡ failed) ⊎ Failure open_file duplicate p))
            × ((q : Process) × (e ≡ exits 1 q))))

module _ (open_file : File → Descriptors → Option ℕ) (duplicate : ℕ → Descriptors → Option ℕ)
    (open_lowest : (f : File) (d : Descriptors) (n : ℕ) → open_file f d ≡ some n → IsLowest d n)
    (duplicate_lowest : (fd : ℕ) (d : Descriptors) (n : ℕ)
      → duplicate fd d ≡ some n
      → IsLowest d n) where
  -- Either a system call has failed and the process exits with status 1, or it runs as `q`.
  abbrev Succeeds : Type 0 → End → Process → Type 0
  Succeeds failure e q = (failure × ((q' : Process) × (e ≡ exits 1 q'))) ⊎ (e ≡ runs q)

  Succeeds-map : (f g : Type 0) (e : End) (q : Process) → (f → g) → Succeeds f e q → Succeeds g e q
  Succeeds-map f g e q h (inl (a, b)) = inl (h a, b)
  Succeeds-map f g e q h (inr b) = inr b

  after_output-Succeeds :
      (p : Process)
      → IsLowest p.descriptors 2
      → Succeeds
          (duplicate 1 p.descriptors ≡ none)
          (after_output open_file duplicate p)
          (log daemon_started (notify_fork fork_child (opened 2 (p.descriptors 1) p)))
  unfolding after_output
  after_output-Succeeds p l = elim (Option-cases (duplicate 1 p.descriptors)) [
    | inl e ↦ rw (after_output, e) (inl (refl, (log dup_failed p, refl)))
    | inr (n, e) ↦
        let at = IsLowest-unique p.descriptors n 2 (duplicate_lowest 1 p.descriptors n e) l in
        rw (after_output, e, at) (inr refl)
  ]

  -- The process behind the two `open`.
  abbrev with_files : Process → Process
  with_files p = opened 1 (some output) (opened 0 (some null_device) p)

  open_output-Succeeds :
      (p : Process)
      → IsLowest p.descriptors 1
      → IsLowest (opened 1 (some output) p).descriptors 2
      → Succeeds
          ((open_file output p.descriptors ≡ none)
            ⊎ (duplicate 1 (opened 1 (some output) p).descriptors ≡ none))
          (open_output open_file duplicate p)
          (log daemon_started
            (notify_fork fork_child (opened 2 (some output) (opened 1 (some output) p))))
  unfolding open_output
  open_output-Succeeds p l l2 = elim (Option-cases (open_file output p.descriptors)) [
    | inl e ↦ rw (open_output, e) (inl (inl refl, (log output_failed p, refl)))
    | inr (n, e) ↦
        let at = IsLowest-unique p.descriptors n 1 (open_lowest output p.descriptors n e) l in
        rw (open_output, e, at)
          (Succeeds-map (duplicate 1 (opened 1 (some output) p).descriptors ≡ none) _
            (after_output open_file duplicate (opened 1 (some output) p)) _ (λ h. inr h)
            (after_output-Succeeds (opened 1 (some output) p) l2))
  ]

  open_null-Succeeds :
      (p : Process)
      → IsLowest p.descriptors 0
      → IsLowest (opened 0 (some null_device) p).descriptors 1
      → IsLowest (with_files p).descriptors 2
      → Succeeds
          ((open_file null_device p.descriptors ≡ none)
            ⊎ ((open_file output (opened 0 (some null_device) p).descriptors ≡ none)
                ⊎ (duplicate 1 (with_files p).descriptors ≡ none)))
          (open_null open_file duplicate p)
          (log daemon_started (notify_fork fork_child (opened 2 (some output) (with_files p))))
  unfolding open_null
  open_null-Succeeds p l l1 l2 = elim (Option-cases (open_file null_device p.descriptors)) [
    | inl e ↦ rw (open_null, e) (inl (inl refl, (log null_device_failed p, refl)))
    | inr (n, e) ↦
        let at = IsLowest-unique p.descriptors n 0 (open_lowest null_device p.descriptors n e) l in
        rw (open_null, e, at)
          (Succeeds-map
            ((open_file output (opened 0 (some null_device) p).descriptors ≡ none)
              ⊎ (duplicate 1 (with_files p).descriptors ≡ none))
            _ (open_output open_file duplicate (opened 0 (some null_device) p)) _ (λ h. inr h)
            (open_output-Succeeds (opened 0 (some null_device) p) l1 l2))
  ]

  -- The child of the first fork.
  abbrev closed_before : Process → Process
  closed_before p = record (notify_fork fork_prepare p) {
    session_leader = true;
    in_root = true;
    mask_cleared = true;
  }

  -- The grandchild with the standard streams closed.
  abbrev closed : Process → Process
  closed p = close 2 (close 1 (close 0 (closed_before p)))

  -- The process in which the server runs.
  abbrev detached : Process → Process
  detached p =
      log daemon_started (notify_fork fork_child (opened 2 (some output) (with_files (closed p))))

  detached-IsDetached : (p : Process) → IsDetached p (detached p)
  detached-IsDetached p = record {
    input = refl;
    outputs = (refl, refl);
    others = λ k h. ground (arith, h);
    alone = (refl, refl, refl);
    notified = append_assoc p.notified (fork_prepare ∷ []) (fork_child ∷ []);
    logged = refl;
  }

  become_daemon-Succeeds :
      (p : Process)
      → Succeeds
          (Failure open_file duplicate p)
          (become_daemon open_file duplicate child child p)
          (detached p)
  unfolding become_daemon second_fork
  become_daemon-Succeeds p =
      open_null-Succeeds (closed p) (record { free = refl; taken = λ m h. ground (arith, h) })
        (record { free = refl; taken = λ m h e. ground (arith, h, e) })
        (record { free = refl; taken = λ m h e. ground (arith, h, e) })

  -- Where `open` and `dup` return the lowest descriptor that is not open, for all that the forks return:
  -- the server runs in the child of both forks and in no other process, with its input from the null
  -- device, its output and its errors in the log file, its other descriptors untouched, and detached from
  -- its terminal, directory and mask; a parent exits with status 0, and a process exits with status 1 only
  -- if a fork has failed, or one of the two `open` or the `dup` on the descriptors as they are then.
  pub become_daemon-IsDetached :
      (first second : Fork) (p : Process)
      → Ending open_file duplicate first second p (become_daemon open_file duplicate first second p)
  unfolding become_daemon second_fork
  become_daemon-IsDetached child child p = elim (become_daemon-Succeeds p) [
    | inl (h, q) ↦ inr (inr (inr (inr h), q))
    | inr e ↦ inl (refl, refl, (detached p, e, detached-IsDetached p))
  ]
  become_daemon-IsDetached child parent p = inr (inl (inr refl, (closed_before p, refl)))
  become_daemon-IsDetached child failed p =
      inr (inr (inr (inl refl), (log second_fork_failed (closed_before p), refl)))
  become_daemon-IsDetached parent second p =
      inr (inl (inl refl, (notify_fork fork_prepare p, refl)))
  become_daemon-IsDetached failed second p =
      inr (inr (inl refl, (log first_fork_failed (notify_fork fork_prepare p), refl)))
