-- ===== src/HttpCoro/Server/Invariant.antt =====
-- What holds in every run.
use mathlib.Core.Path.{subst}
use boost_learn.Common.{
  update, ℕ, ◌+◌, ◌≡◌, ◌≢◌, ◌⊎◌, inl, inr, refl, ap, ◌∙◌, Option, none, some, List, [], ◌++◌,
  append-nil, arith, ◌==◌, Bytes, Bool-cases,
}
use boost_learn.Http.Reply.{Reply, to_buffers, stock_reply, bad_request}
use boost_learn.Http.Tribool.{Tribool, indeterminate}
use boost_learn.HttpCoro.Request.{Request}
use boost_learn.HttpCoro.Parser.{Place, start, Parsed, parsed, parse}
use boost_learn.HttpCoro.Parser.Chunks.{resume, parse_pieces}
use boost_learn.HttpCoro.Parser.Messages.{parse-Carries}
use boost_learn.HttpCoro.Parser.Safety.{parse_safe}
use boost_learn.HttpCoro.Session.{
  Session, Point, reading, writing, ended, Call, forked, resumes, fails, on_parsed,
}
use boost_learn.HttpCoro.Session.Answers.{Handled}
use boost_learn.HttpCoro.Server.{Server, leaves, parent_resumes, launched}
use boost_learn.HttpCoro.Server.Running.{
  Reach, begins, accepted, not_accepted, resumed, failed, heard, brought,
}

module _ (lexical_cast : ℕ → Bytes) (to_size : Bytes → Option ℕ)
    (request_handler : Request → Reply → Reply) (new_reply : Reply) where
  abbrev Run : ℕ → Server → Type 0
  Run = Reach lexical_cast to_size request_handler new_reply

  -- In every run one accept is outstanding until an accept has failed, and from then on none, so that
  -- no second one ever fails.
  pub Reach-one_accept : {f : ℕ} {s : Server} → Run f s → s.accepts + f ≡ 1
  unfolding launched parent_resumes leaves
  Reach-one_accept (begins n req rep) = refl
  Reach-one_accept (accepted n req rep h r) = omega (arith, Reach-one_accept r, h)
  Reach-one_accept (not_accepted n req rep h r) = omega (arith, Reach-one_accept r, h)
  Reach-one_accept (resumed k bytes t calls h e r) = Reach-one_accept r
  Reach-one_accept (failed k h r) = Reach-one_accept r

  -- While a child reads, the input so far leaves the parser undecided.
  abbrev Undecided : Bytes → Session → Type 0
  Undecided cs t =
      (n : ℕ) × (req : Request) × (rest : Bytes) × (parse to_size start n req cs
        ≡ parsed indeterminate rest t.parser t.content_length t.request)

  -- The parser refuses the input.
  abbrev pub Refused : Bytes → Type 0
  Refused cs =
      (n : ℕ) × (req : Request) × (rest : Bytes) × (p : Place) × (m : ℕ) × (req' : Request) × (parse
          to_size start n req cs
        ≡ parsed Tribool.false rest p m req')

  -- When it writes, its reply is what is due for its input.
  abbrev Answered : Bytes → Session → Type 0
  Answered cs t =
      Handled lexical_cast to_size request_handler new_reply cs (to_buffers t.reply)
      ⊎ (Refused cs × (t.reply ≡ stock_reply lexical_cast bad_request))

  abbrev pub Heard : Point → Bytes → Session → Type 0
  Heard reading cs t = Undecided cs t
  Heard writing cs t = Answered cs t
  Heard ended cs t = Answered cs t

  abbrev HasHeard : Bytes → Session → Type 0
  HasHeard cs t = Heard t.point cs t

  forked-HasHeard : (n : ℕ) (req : Request) (rep : Reply) → HasHeard [] (forked n req rep).0
  unfolding forked parse
  forked-HasHeard n req rep = (n, req, [], refl)

  abbrev Resumed : Bytes → Option (Session × List Call) → Type 0
  Resumed cs none = ⊥
  Resumed cs (some (t, calls)) = HasHeard cs t

  -- The next piece, for a child that reads.
  read-Resumed :
      (cs : Bytes) (t : Session) (n : ℕ) (req : Request) (o : Parsed)
      → parse to_size start n req cs ≡ o
      → Resumed cs (on_parsed lexical_cast to_size request_handler new_reply t o)
  read-Resumed cs t n req Parsed.fault e = parse_safe to_size cs n req e
  read-Resumed cs t n req (parsed indeterminate rest p m r) e = (n, req, rest, e)
  read-Resumed cs t n req (parsed Tribool.false rest p m r) e =
      inr ((n, req, rest, p, m, r, e), refl)
  read-Resumed cs t n req (parsed Tribool.true rest p m r) e = inl (record {
    rest = rest;
    request = r;
    carries = parse-Carries to_size cs rest n m req r p e;
    sent = refl;
  })

  abbrev call : Bytes → Session → Option (Session × List Call)
  call = resumes lexical_cast to_size request_handler new_reply

  Heard-Resumed :
      (bytes cs : Bytes) (t : Session) (p : Point)
      → t.point ≡ p
      → Heard p cs t
      → Resumed (cs ++ brought p bytes) (call bytes t)
  unfolding resumes
  Heard-Resumed bytes cs t reading e (n, req, rest, h) = rw e (
      read-Resumed (cs ++ bytes) (record t { point = reading }) n req
        (parse to_size t.parser t.content_length t.request bytes)
        (parse_pieces to_size cs bytes start n req ∙ ap (λ o. resume to_size o bytes) h))
  Heard-Resumed bytes cs t writing e h = rw (e, append-nil cs) h
  Heard-Resumed bytes cs t ended e h = rw (e, append-nil cs) h

  HasHeard-Resumed :
      (bytes cs : Bytes) (t : Session)
      → HasHeard cs t
      → Resumed (cs ++ brought t.point bytes) (call bytes t)
  HasHeard-Resumed bytes cs t h = Heard-Resumed bytes cs t t.point refl h

  -- The children after one of them was put in its place.
  update-HasHeard :
      (session : ℕ → Session) (heard : ℕ → Bytes) (j k : ℕ) (cs : Bytes) (t : Session)
      → HasHeard cs t
      → HasHeard (heard k) (session k)
      → HasHeard (update heard j cs k) (update session j t k)
  update-HasHeard session heard j k cs t now other = elim (Bool-cases (k == j)) [
    | inl e ↦ rw e now
    | inr e ↦ rw e other
  ]

  -- A child put in its own place.
  same-HasHeard :
      (session : ℕ → Session) (j k : ℕ) (cs : Bytes)
      → HasHeard cs (session k)
      → HasHeard cs (update session j (session j) k)
  same-HasHeard session j k cs h = elim (Bool-cases (k == j)) [
    | inl e ↦
        (let at : k ≡ j = ground (arith, e) in rw e (subst (λ x. HasHeard cs (session x)) at h))
    | inr e ↦ rw e h
  ]

  Answered-at : (p : Point) (cs : Bytes) (t : Session) → Heard p cs t → p ≢ reading → Answered cs t
  Answered-at reading cs t h n = absurd (n refl)
  Answered-at writing cs t h n = h
  Answered-at ended cs t h n = h

  Resumed-some :
      (cs : Bytes) (o : Option (Session × List Call))
      → Resumed cs o
      → (t : Session) × (calls : List Call) × (o ≡ some (t, calls))
  Resumed-some cs none h = elim h [ ]
  Resumed-some cs (some (t, calls)) h = (t, calls, refl)

  -- What the children have read in a run.
  abbrev pub input : {f : ℕ} {s : Server} → Run f s → ℕ → Bytes
  input = heard lexical_cast to_size request_handler new_reply

  Reach-HasHeard : {f : ℕ} {s : Server} (r : Run f s) (k : ℕ) → HasHeard (input r k) (s.session k)
  unfolding launched parent_resumes leaves fails heard
  Reach-HasHeard (begins n req rep) k = forked-HasHeard n req rep
  Reach-HasHeard (accepted {f} {s} n req rep a r) k =
      update-HasHeard s.session (input r) s.forks k [] (forked n req rep).0
        (forked-HasHeard n req rep) (Reach-HasHeard r k)
  Reach-HasHeard (not_accepted n req rep a r) k = Reach-HasHeard r k
  Reach-HasHeard (resumed {f} {s} j bytes t calls a e r) k =
      let cs = input r j ++ brought (s.session j).point bytes in
      update-HasHeard s.session (input r) j k (input r j ++ brought (s.session j).point bytes) t
        (subst (Resumed (input r j ++ brought (s.session j).point bytes)) e
          (HasHeard-Resumed bytes (input r j) (s.session j) (Reach-HasHeard r j)))
        (Reach-HasHeard r k)
  Reach-HasHeard (failed {f} {s} j a r) k =
      same-HasHeard s.session j k (input r k) (Reach-HasHeard r k)

  -- In every run of the server, with any number of children that are served at once: a child that writes
  -- or has written sends what the request handler makes of the message, with its content, that the bytes
  -- read from its own client carry; or, if the parser refuses those bytes, the page of a bad request.
  pub Reach-answers :
      {f : ℕ} {s : Server} (k : ℕ) (r : Run f s)
      → (s.session k).point ≢ reading
      → Handled lexical_cast to_size request_handler new_reply
          (input r k)
          (to_buffers (s.session k).reply)
        ⊎ (Refused (input r k) × ((s.session k).reply ≡ stock_reply lexical_cast bad_request))
  Reach-answers {f} {s} k r n =
      Answered-at (s.session k).point (input r k) (s.session k) (Reach-HasHeard r k) n

  -- In every run the completion of an operation of any child is handled: the coroutine returns,
  -- whatever bytes have come.
  pub Reach-resumes :
      {f : ℕ} {s : Server} (k : ℕ) (bytes : Bytes)
      → Run f s
      → (t : Session) × (calls : List Call) × (call bytes (s.session k) ≡ some (t, calls))
  Reach-resumes {f} {s} k bytes r =
      Resumed-some _ (call bytes (s.session k))
        (HasHeard-Resumed bytes (input r k) (s.session k) (Reach-HasHeard r k))
