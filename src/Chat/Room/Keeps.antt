-- ===== src/Chat/Room/Keeps.antt =====
-- Every handler keeps what holds of the room and its sessions.
use boost_learn.Common.{
  ℕ, ◌+◌, ◌≡◌, ◌≢◌, refl, sym, ap, ◌∙◌, Bool, true, false, some, List, [], ◌∷◌, ◌++◌, arith, Bytes,
  length, leb, ◌==◌, if◌then◌else◌,
}
use mathlib.Core.Path.{subst}
use boost_learn.Chat.Message.{overwrite, ChatMessage, decode_header}
use boost_learn.Chat.Session.{
  Session, Reading, idle, header, body, deliver_all, next_write, was_sent, was_not_sent,
}
use boost_learn.Chat.Room.Serving.{
  due, trim-due, Serving, deliver-Serving, leave-Serving, join-Serving, move-Serving,
  written-Serving, failed-Serving,
}
use boost_learn.Chat.Room.{
  ChatServer, trim, deliver, join, leave, start, handle_accept, handle_read_header,
  handle_read_body, handle_write, modify, begin_read, on_header, was_read, put_session,
}
use boost_learn.Chat.Room.Running.{write_ends}

abbrev pub Served : ChatServer → ℕ → Type 0
Served s c = Serving (s.participants c) (s.sessions c) (s.joined c) s.history (leb s.accepting c)

abbrev pub Kept : ChatServer → Type 0
Kept s = s.recent_msgs ≡ due (length s.history) s.history

deliver-Served : (m : ChatMessage) (s : ChatServer) (c : ℕ) → Served s c → Served (deliver m s) c
unfolding deliver
deliver-Served m s c h =
    deliver-Serving m (s.participants c) (s.sessions c) (s.joined c) s.history (leb s.accepting c) h

leave-Served : (d : ℕ) (s : ChatServer) (c : ℕ) → Served s c → Served (leave d s) c
unfolding leave
leave-Served d s c h =
    leave-Serving (c == d) (s.participants c) (s.sessions c) (s.joined c) s.history
      (leb s.accepting c) h

-- A change of a session that leaves its queue as it is.
modify-Served :
    (d : ℕ) (f : Session → Session) (s : ChatServer) (c : ℕ)
    → Serving (s.participants c) (f (s.sessions c)) (s.joined c) s.history (leb s.accepting c)
    → Served s c
    → Served (modify d f s) c
modify-Served d f s c h' h =
    move-Serving (c == d) (s.participants c) (s.sessions c) (f (s.sessions c)) (s.joined c)
      s.history (leb s.accepting c) h h'

deliver-Kept : (m : ChatMessage) (s : ChatServer) → Kept s → Kept (deliver m s)
unfolding deliver
deliver-Kept m s h = ap (λ r. trim (r ++ m ∷ [])) h ∙ trim-due m s.history

begin_read-Served :
    (d : ℕ) (r : Reading) (s : ChatServer) (c : ℕ) → Served s c → Served (begin_read d r s) c
begin_read-Served d r s c h = modify-Served d (λ k. record k { reading = r }) s c h h

-- Whether or not the session is the one that starts.
start-Serving :
    (b part : Bool) (k : Session) (n : ℕ) (ms recent : List ChatMessage) (f f' : Bool)
    → Serving part k n ms f
    → recent ≡ due (length ms) ms
    → (f' ≡ true → f ≡ true)
    → (b ≡ true → (f ≡ true) × (f' ≡ false))
    → let joined = if b then deliver_all recent k else k in
      Serving
        (if b then true else part)
        (if b then record joined { reading = header } else joined)
        (if b then length ms else n)
        ms
        f'
start-Serving true part k n ms recent f f' h e later mine =
    let j = join-Serving k n ms recent (h.3 (mine refl).0).0 e in (j.0, j.1, j.2, λ q. ground arith)
start-Serving false part k n ms recent f f' h e later mine = (h.0, h.1, h.2, λ q. h.3 (later q))

pub accept-Served :
    (error : Bool) (s : ChatServer) (c : ℕ) → Kept s → Served s c → Served (handle_accept error s) c
unfolding handle_accept start join
accept-Served true s c k h = (h.0, h.1, h.2, λ f. h.3 (ground arith))
accept-Served false s c k h =
    start-Serving (c == s.accepting) (s.participants c) (s.sessions c) (s.joined c) s.history
      s.recent_msgs (leb s.accepting c) (leb (s.accepting + 1) c) h k (ground arith) (ground arith)

-- What holds of the whole server.
abbrev pub Good : ChatServer → Type 0
Good s = Kept s × ((c : ℕ) → Served s c)

pub leave-Good : (d : ℕ) (s : ChatServer) → Good s → Good (leave d s)
unfolding leave
leave-Good d s h = (h.0, λ c. leave-Served d s c (h.1 c))

modify-Good :
    (d : ℕ) (f : Session → Session) (s : ChatServer)
    → ((c : ℕ)
        → Serving (s.participants c) (f (s.sessions c)) (s.joined c) s.history (leb s.accepting c))
    → Good s
    → Good (modify d f s)
modify-Good d f s h' h = (h.0, λ c. modify-Served d f s c (h' c) (h.1 c))

on_header-Good : (d : ℕ) (r : Bool × ChatMessage) (s : ChatServer) → Good s → Good (on_header d r s)
unfolding on_header
on_header-Good d (true, m) s h =
    let decoded = modify-Good d (λ k. record k { read_msg = m }) s (λ c. h.1 c) h in
    modify-Good d (λ k. record k { reading = body }) (modify d (λ k. record k { read_msg = m }) s)
      (λ c. decoded.1 c) decoded
on_header-Good d (false, m) s h =
    leave-Good d (modify d (λ k. record k { read_msg = m }) s)
      (modify-Good d (λ k. record k { read_msg = m }) s (λ c. h.1 c) h)

pub body-Good : (d : ℕ) (error : Bool) (s : ChatServer) → Good s → Good (handle_read_body d error s)
unfolding handle_read_body
body-Good d true s h = leave-Good d s h
body-Good d false s h =
    let m = (s.sessions d).read_msg in
    let after : Good (deliver m s) = (deliver-Kept m s h.0, λ c. deliver-Served m s c (h.1 c)) in
    modify-Good d (λ k. record k { reading = header }) (deliver m s) (λ c. after.1 c) after

pub header-Good :
    (d : ℕ) (error : Bool) (s : ChatServer) → Good s → Good (handle_read_header d error s)
unfolding handle_read_header
header-Good d true s h = leave-Good d s h
header-Good d false s h = on_header-Good d (decode_header (s.sessions d).read_msg) s h

pub read-Good :
    (d offset : ℕ) (bs : Bytes) (s : ChatServer) → Good s → Good (was_read d offset bs s)
read-Good d offset bs s h =
    modify-Good d
      (λ k. record k {
        read_msg = record k.read_msg { data_ = overwrite offset bs k.read_msg.data_ };
        reading = idle;
      })
      s (λ c. h.1 c) h

self-eq : (c : ℕ) → (c == c) ≡ true
self-eq c = ground arith

-- A session that is replaced.
pick-Serving :
    (b part : Bool) (k k' t : Session) (n : ℕ) (ms : List ChatMessage) (f : Bool)
    → (b ≡ true → Serving part t n ms f)
    → Serving part k n ms f
    → Serving part (if b then t else if b then k' else k) n ms f
pick-Serving true part k k' t n ms f h' h = h' refl
pick-Serving false part k k' t n ms f h' h = h

put-Good :
    (d : ℕ) (t : Session) (g : Session → Session) (s : ChatServer)
    → Good s
    → Serving (s.participants d) t (s.joined d) s.history (leb s.accepting d)
    → Good (modify d (λ old. t) (modify d g s))
put-Good d t g s h now = (
  h.0,
  λ c.
      pick-Serving (c == d) (s.participants c) (s.sessions c) (g (s.sessions c)) t (s.joined c)
        s.history (leb s.accepting c)
        (λ e.
          let same : c ≡ d = ground arith in
          subst (λ x. Serving (s.participants x) t (s.joined x) s.history (leb s.accepting x))
            (sym same) now)
        (h.1 c),
)

lost-Serving :
    (b part : Bool) (k : Session) (n : ℕ) (ms : List ChatMessage) (f : Bool)
    → (b ≡ true → k.writing ≢ [])
    → Serving part k n ms f
    → Serving (if b then false else part) (if b then was_not_sent k else k) n ms f
lost-Serving true part k n ms f w h =
    failed-Serving k n ms f (leave-Serving true part k n ms f h) (w refl)
lost-Serving false part k n ms f w h = h

pub write-Good :
    (d : ℕ) (error : Bool) (s : ChatServer)
    → Good s
    → (s.sessions d).writing ≢ []
    → (t : ChatServer) × (handle_write d error (write_ends d error s) ≡ some t) × Good t
unfolding handle_write write_ends
write-Good d true s h w = (
  leave d (modify d was_not_sent s),
  refl,
  (
    h.0,
    λ c.
        lost-Serving (c == d) (s.participants c) (s.sessions c) (s.joined c) s.history
          (leb s.accepting c)
          (λ e.
            let same : c ≡ d = ground arith in
            subst (λ x. (s.sessions x).writing ≢ []) (sym same) w)
          (h.1 c),
  ),
)
write-Good d false s h w =
    let done =
      written-Serving (s.participants d) (s.sessions d) (s.joined d) s.history (leb s.accepting d)
        (h.1 d) w in
    (
      modify d (λ old. done.0) (modify d was_sent s),
      ap
            (λ b.
              put_session d (modify d was_sent s)
                (next_write (if b then was_sent (s.sessions d) else s.sessions d)))
            (self-eq d)
          ∙ ap (put_session d (modify d was_sent s)) done.1,
      put-Good d done.0 was_sent s h done.2,
    )
