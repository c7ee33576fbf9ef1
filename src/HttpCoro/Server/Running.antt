-- ===== src/HttpCoro/Server/Running.antt =====
-- The runs of the server: any order of completions. What the code leaves unset is chosen by the run.
use boost_learn.Common.{ℕ, ◌<◌, ◌≡◌, true, false, suc, Option, some, List, [], ◌++◌, Bytes, update}
use boost_learn.Http.Reply.{Reply}
use boost_learn.HttpCoro.Request.{Request}
use boost_learn.HttpCoro.Session.{Session, Point, reading, writing, ended, Call, resumes, fails}
use boost_learn.HttpCoro.Server.{
  Server, leaves, parent_resumes, launched, accept_completes, completes,
}

-- The bytes that a read brings; a write brings none.
abbrev pub brought : Point → Bytes → Bytes
brought reading bytes = bytes
brought writing bytes = []
brought ended bytes = []

module _ (lexical_cast : ℕ → Bytes) (to_size : Bytes → Option ℕ)
    (request_handler : Request → Reply → Reply) (new_reply : Reply) where
  -- The number says how many accepts have failed.
  pub data Reach : ℕ → Server → Type 0 where
    begins : (n : ℕ) (req : Request) (rep : Reply) → Reach 0 (launched n req rep)
    accepted :
        {f : ℕ} {s : Server} (n : ℕ) (req : Request) (rep : Reply)
        → 0 < s.accepts
        → Reach f s
        → Reach f (parent_resumes n req rep false (accept_completes s))
    not_accepted :
        {f : ℕ} {s : Server} (n : ℕ) (req : Request) (rep : Reply)
        → 0 < s.accepts
        → Reach f s
        → Reach (suc f) (parent_resumes n req rep true (accept_completes s))
    resumed :
        {f : ℕ} {s : Server} (k : ℕ) (bytes : Bytes) (t : Session) (calls : List Call)
        → 0 < s.operations k
        → resumes lexical_cast to_size request_handler new_reply bytes (s.session k)
          ≡ some (t, calls)
        → Reach f s
        → Reach f (leaves k (t, calls) (completes k s))
    failed :
        {f : ℕ} {s : Server} (k : ℕ)
        → 0 < s.operations k
        → Reach f s
        → Reach f (
            leaves k
              (fails lexical_cast to_size request_handler new_reply (s.session k))
              (completes k s))

  -- What child `k` has read from its client in a run: nothing when it is forked, and then the bytes of
  -- each of its reads.
  unfoldable pub heard : {f : ℕ} {s : Server} → Reach f s → ℕ → Bytes
  heard (begins n req rep) k = []
  heard (accepted {f} {s} n req rep a r) k = update (heard r) s.forks [] k
  heard (not_accepted n req rep a r) k = heard r k
  heard (resumed {f} {s} j bytes t calls a e r) k =
      update (heard r) j (heard r j ++ brought (s.session j).point bytes) k
  heard (failed j a r) k = heard r k
