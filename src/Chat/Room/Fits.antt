-- ===== src/Chat/Room/Fits.antt =====
-- A buffer of its size, with a body that fits, is kept by what changes a session.
use boost_learn.Common.{
  ℕ, ◌+◌, ◌≡◌, ◌≤◌, refl, sym, ap, ◌∙◌, Bool, true, false, List, [], ◌∷◌, ◌++◌, arith, Bytes,
  length, take, drop, length-drop, length-take, length-append, ◌==◌, if◌then◌else◌,
}
use mathlib.Core.Path.{subst}
use boost_learn.Chat.Message.{ChatMessage, overwrite, header_length, max_body_length}
use boost_learn.Chat.Session.{Session, body, session_deliver, deliver_all, finish_write, drop_write}
use boost_learn.Chat.Room.{ChatServer, modify}

-- `sizeof(data_)`.
abbrev pub data_size : ℕ
data_size = header_length + max_body_length

-- The buffer has its size, and the body that is being read fits.
abbrev pub Fits : Session → Type 0
Fits k =
    (length k.read_msg.data_ ≡ data_size)
    × (k.reading ≡ body → k.read_msg.body_length ≤ max_body_length)

abbrev pub AllFit : ChatServer → Type 0
AllFit s = (c : ℕ) → Fits (s.sessions c)

pub length-overwrite :
    (offset : ℕ) (bs target : Bytes)
    → offset + length bs ≤ length target
    → length (overwrite offset bs target) ≡ length target
length-overwrite offset bs target h = omega (
  arith,
  length-append (take offset target) (bs ++ drop (offset + length bs) target),
  length-append (take offset target ++ bs) (drop (offset + length bs) target),
  length-append (take offset target) bs,
  length-append bs (drop (offset + length bs) target),
  length-take offset target,
  length-drop (offset + length bs) target,
)

-- A session whose message and read are as they were.
abbrev pub Same : Session → Session → Type 0
Same k k' = (k'.read_msg ≡ k.read_msg) × (k'.reading ≡ k.reading)

pub Same-Fits : (k k' : Session) → Same k k' → Fits k → Fits k'
Same-Fits k k' e h = (
  ap (λ m. length m.data_) e.0 ∙ h.0,
  λ r. ground (arith, h.1 (sym e.1 ∙ r), ap (λ (m : ChatMessage). m.body_length) e.0),
)

pub session_deliver-Same : (m : ChatMessage) (k : Session) → Same k (session_deliver m k)
unfolding session_deliver
session_deliver-Same m k = (refl, refl)

pub deliver_all-Same : (ms : List ChatMessage) (k : Session) → Same k (deliver_all ms k)
deliver_all-Same [] k = (refl, refl)
deliver_all-Same (m ∷ ms) k =
    let d = session_deliver-Same m k in
    let r = deliver_all-Same ms (session_deliver m k) in (r.0 ∙ d.0, r.1 ∙ d.1)

pub finish_write-Same : (k : Session) (w : List Bytes) → Same k (finish_write k w)
finish_write-Same k [] = (refl, refl)
finish_write-Same k (b ∷ bs) = (refl, refl)

pub drop_write-Same : (k : Session) (w : List Bytes) → Same k (drop_write k w)
drop_write-Same k [] = (refl, refl)
drop_write-Same k (b ∷ bs) = (refl, refl)

pub pick-Fits :
    (b : Bool) (k k' : Session) → (b ≡ true → Fits k') → Fits k → Fits (if b then k' else k)
pick-Fits true k k' h' h = h' refl
pick-Fits false k k' h' h = h

pub modify-AllFit :
    (c : ℕ) (f : Session → Session) (s : ChatServer)
    → Fits (f (s.sessions c))
    → AllFit s
    → AllFit (modify c f s)
modify-AllFit c f s now h d =
    pick-Fits (d == c) (s.sessions d) (f (s.sessions d))
      (λ e. let same : d ≡ c = ground arith in subst (λ x. Fits (f (s.sessions x))) (sym same) now)
      (h d)
