-- ===== src/HttpCoro/Server/Operations.antt =====
-- How many operations are outstanding.
use mathlib.Core.Path.{subst}
use boost_learn.Common.{ℕ, ◌<◌, ◌≤◌, ◌≡◌, refl, false, Option, none, some, List, [], arith, Bytes}
use boost_learn.Http.Reply.{Reply}
use boost_learn.Http.Tribool.{Tribool, indeterminate}
use boost_learn.HttpCoro.Request.{Request}
use boost_learn.HttpCoro.Parser.{Parsed, parsed, parse}
use boost_learn.HttpCoro.Session.{
  Session, Point, reading, writing, ended, Call, forked, resumes, fails, on_parsed,
}
use boost_learn.HttpCoro.Server.{
  Server, leaves, parent_resumes, launched, accept_completes, completes, started,
}
use boost_learn.HttpCoro.Server.Running.{Reach, begins, accepted, not_accepted, resumed, failed}

module _ (lexical_cast : ℕ → Bytes) (to_size : Bytes → Option ℕ)
    (request_handler : Request → Reply → Reply) (new_reply : Reply) where
  abbrev AtMostOne : Option (Session × List Call) → Type 0
  AtMostOne none = Unit
  AtMostOne (some (t, calls)) = started calls ≤ 1

  on_parsed-AtMostOne :
      (t : Session) (o : Parsed)
      → AtMostOne (on_parsed lexical_cast to_size request_handler new_reply t o)
  unfolding started
  on_parsed-AtMostOne t Parsed.fault = tt
  on_parsed-AtMostOne t (parsed Tribool.true rest p n r) = omega arith
  on_parsed-AtMostOne t (parsed Tribool.false rest p n r) = omega arith
  on_parsed-AtMostOne t (parsed indeterminate rest p n r) = omega arith

  point-AtMostOne :
      (bytes : Bytes) (t : Session) (p : Point)
      → t.point ≡ p
      → AtMostOne (resumes lexical_cast to_size request_handler new_reply bytes t)
  unfolding resumes started
  point-AtMostOne bytes t reading e = rw e (
      on_parsed-AtMostOne (record t { point = reading })
        (parse to_size t.parser t.content_length t.request bytes))
  point-AtMostOne bytes t writing e = rw e (omega arith)
  point-AtMostOne bytes t ended e = rw e (omega arith)

  -- Of a child that was not forked yet nothing is outstanding.
  abbrev Counted : Server → Type 0
  Counted s = (k : ℕ) → (s.operations k ≤ 1) × (s.forks ≤ k → s.operations k ≡ 0)

  resumed-Counted :
      (s : Server) (j : ℕ) (t : Session) (calls : List Call)
      → Counted s
      → 0 < s.operations j
      → started calls ≤ 1
      → Counted (leaves j (t, calls) (completes j s))
  unfolding leaves
  resumed-Counted s j t calls c h l k = ground (arith, c k, c j)

  accepted-Counted :
      (s : Server) (n : ℕ) (req : Request) (rep : Reply)
      → Counted s
      → Counted (parent_resumes n req rep false (accept_completes s))
  unfolding parent_resumes leaves started forked
  accepted-Counted s n req rep c k = ground (arith, c k, c s.forks)

  Reach-Counted :
      {f : ℕ} {s : Server} → Reach lexical_cast to_size request_handler new_reply f s → Counted s
  unfolding launched parent_resumes started fails
  Reach-Counted (begins n req rep) = λ k. ground arith
  Reach-Counted (accepted {f} {s} n req rep a r) = accepted-Counted s n req rep (Reach-Counted r)
  Reach-Counted (not_accepted n req rep a r) = Reach-Counted r
  Reach-Counted (resumed {f} {s} j bytes t calls a e r) =
      resumed-Counted s j t calls (Reach-Counted r) a
        (subst AtMostOne e (point-AtMostOne bytes (s.session j) (s.session j).point refl))
  Reach-Counted (failed {f} {s} j a r) =
      resumed-Counted s j (s.session j) [] (Reach-Counted r) a (omega arith)

  -- In every run no child has more than one operation outstanding, so that no two calls of the same
  -- coroutine can meet.
  pub Reach-one_operation :
      {f : ℕ} {s : Server} (k : ℕ)
      → Reach lexical_cast to_size request_handler new_reply f s
      → s.operations k ≤ 1
  Reach-one_operation k r = (Reach-Counted r k).0
