-- ===== src/Chat/Room/Serving.antt =====
-- What is kept for one session, by every change of the room.
use boost_learn.Common.{
  ap, sym, ◌∙◌, length-drop, length-append, ◌+◌, ℕ, zero, suc, ◌-◌, ◌≡◌, ◌≢◌, ◌≤◌, inl, inr, refl,
  Bool, true, false, some, List, [], ◌∷◌, ◌++◌, arith, append-nil, append_assoc, length, drop, ltb,
  if◌then◌else◌, Bool-cases,
}
use boost_learn.Chat.Message.{ChatMessage, message_bytes}
use boost_learn.Chat.Session.{
  Session, session_deliver, deliver_all, next_write, was_sent, was_not_sent, write_front,
}
use boost_learn.Chat.Session.Queue.{
  Owed, Left, wire, wire-append, session_deliver-Owed, deliver_all-Owed, next_write-front,
  drop_write-writing, drop_write-front,
}
use boost_learn.Chat.Room.{max_recent_msgs, trim}

-- The messages for a session that joined behind the first `n` of the history: the last of these, as
-- many as the room keeps, and all that came later.
abbrev pub due : ℕ → List ChatMessage → List ChatMessage
due n ms = drop (n - max_recent_msgs) ms

drop-append :
    (n : ℕ) (ms : List ChatMessage) (m : ChatMessage)
    → n ≤ length ms
    → drop n (ms ++ m ∷ []) ≡ drop n ms ++ m ∷ []
drop-append zero ms m h = refl
drop-append (suc n) [] m h = ground arith
drop-append (suc n) (x ∷ ms) m h = drop-append n ms m (omega arith)

-- How many of a list with one more are dropped.
drop-over :
    (m : ChatMessage) (ms : List ChatMessage) (k : ℕ)
    → drop (suc (length ms) - k) (m ∷ ms)
      ≡ (if ltb k (suc (length ms)) then drop (length ms - k) ms else m ∷ ms)
drop-over m ms k = elim (Bool-cases (ltb k (suc (length ms)))) [
  | inl h ↦
      let one_more : suc (length ms) - k ≡ suc (length ms - k) = ground arith in
      rw one_more (rw h refl)
  | inr h ↦ let none_over : suc (length ms) - k ≡ 0 = ground arith in rw none_over (rw h refl)
]

pub trim-drop : (ms : List ChatMessage) → trim ms ≡ drop (length ms - max_recent_msgs) ms
unfolding trim
trim-drop [] = refl
trim-drop (m ∷ ms) = ground (arith, trim-drop ms, drop-over m ms max_recent_msgs)

Owed-Left : (s : Session) (ms : List ChatMessage) → Owed s ms → Left s ms
Owed-Left s ms h = (inr h.0, ([], append-nil (s.sent ++ wire s.write_msgs) ∙ h.1))

Left-more :
    (s : Session) (ms : List ChatMessage) (m : ChatMessage) → Left s ms → Left s (ms ++ m ∷ [])
Left-more s ms m h = (
  h.0,
  (
    h.1.0 ++ message_bytes m ∷ [],
    cc (
      append_assoc (s.sent ++ wire s.write_msgs) h.1.0 (message_bytes m ∷ []),
      wire-append ms (m ∷ []),
      h.1.1,
    ),
  ),
)

pub due-append :
    (n : ℕ) (ms : List ChatMessage) (m : ChatMessage)
    → n ≤ length ms
    → due n (ms ++ m ∷ []) ≡ due n ms ++ m ∷ []
due-append n ms m h = drop-append (n - max_recent_msgs) ms m (omega arith)

drop-nil : (a : ℕ) → drop {A = ChatMessage} a [] ≡ []
drop-nil zero = refl
drop-nil (suc a) = refl

drop-drop : (a b : ℕ) (ms : List ChatMessage) → drop a (drop b ms) ≡ drop (b + a) ms
drop-drop a zero ms = let total : a ≡ 0 + a = omega arith in ap (λ n. drop n ms) total
drop-drop a (suc b) [] = drop-nil a ∙ sym (drop-nil (suc b + a))
drop-drop a (suc b) (m ∷ ms) =
    let total : suc (b + a) ≡ suc b + a = omega arith in
    drop-drop a b ms ∙ ap (λ n. drop n (m ∷ ms)) total

-- The room keeps the last messages of a history that grows by one.
pub trim-due :
    (m : ChatMessage) (ms : List ChatMessage)
    → trim (due (length ms) ms ++ m ∷ []) ≡ due (length (ms ++ m ∷ [])) (ms ++ m ∷ [])
trim-due m ms =
    let all = ms ++ m ∷ [] in
    let kept = length ms - max_recent_msgs in
    ap trim (sym (due-append (length ms) ms m (omega arith)))
    ∙ trim-drop (drop kept all)
    ∙ drop-drop (length (drop kept all) - max_recent_msgs) kept all
    ∙ ap (λ n. drop n all) (omega (arith, length-drop kept all, length-append ms (m ∷ [])))

-- Nothing was ever queued.
abbrev pub Blank : Session → Type 0
Blank k = (k.sent ≡ []) × (k.writing ≡ []) × (k.write_msgs ≡ [])

-- What holds of a session, which takes part or not and joined behind the first `n` messages; `future`
-- says that it has not been started.
abbrev pub Serving : Bool → Session → ℕ → List ChatMessage → Bool → Type 0
Serving part k n ms future =
    (part ≡ true → Owed k (due n ms))
    × Left k (due n ms)
    × (n ≤ length ms)
    × (future ≡ true → Blank k × (part ≡ false))

pub deliver-Serving :
    (m : ChatMessage) (part : Bool) (k : Session) (n : ℕ) (ms : List ChatMessage) (future : Bool)
    → Serving part k n ms future
    → Serving part (if part then session_deliver m k else k) n (ms ++ m ∷ []) future
deliver-Serving m true k n ms future h =
    let owed : Owed (session_deliver m k) (due n (ms ++ m ∷ [])) =
      rw (due-append n ms m h.2) (session_deliver-Owed m k (due n ms) (h.0 refl)) in
    (
      λ p. owed,
      Owed-Left (session_deliver m k) (due n (ms ++ m ∷ [])) owed,
      omega (arith, length-append ms (m ∷ []), h.2),
      λ f. ground (arith, h.3 f),
    )
deliver-Serving m false k n ms future h = (
  λ p. ground arith,
  rw (due-append n ms m h.2) (Left-more k (due n ms) m h.1),
  omega (arith, length-append ms (m ∷ []), h.2),
  h.3,
)

pub leave-Serving :
    (b part : Bool) (k : Session) (n : ℕ) (ms : List ChatMessage) (future : Bool)
    → Serving part k n ms future
    → Serving (if b then false else part) k n ms future
leave-Serving true part k n ms future h = (λ p. ground arith, h.1, h.2, λ f. ((h.3 f).0, refl))
leave-Serving false part k n ms future h = h

-- A session that starts.
pub join-Serving :
    (k : Session) (n : ℕ) (ms : List ChatMessage) (recent : List ChatMessage)
    → Blank k
    → recent ≡ due (length ms) ms
    → Serving true (deliver_all recent k) (length ms) ms false
join-Serving k n ms recent h e =
    let owed : Owed (deliver_all recent k) (due (length ms) ms) =
      rw (sym e) (deliver_all-Owed recent k [] (ground arith)) in
    (
      λ p. owed,
      Owed-Left (deliver_all recent k) (due (length ms) ms) owed,
      omega arith,
      λ f. ground arith,
    )

-- A session's queue goes on, or stays as it was.
pub move-Serving :
    (b part : Bool) (k k' : Session) (n : ℕ) (ms : List ChatMessage) (future : Bool)
    → Serving part k n ms future
    → Serving part k' n ms future
    → Serving part (if b then k' else k) n ms future
move-Serving true part k k' n ms future h h' = h'
move-Serving false part k k' n ms future h h' = h

-- A write is done; `none` does not occur.
pub written-Serving :
    (part : Bool) (k : Session) (n : ℕ) (ms : List ChatMessage) (future : Bool)
    → Serving part k n ms future
    → k.writing ≢ []
    → (t : Session) × (next_write (was_sent k) ≡ some t) × Serving part t n ms future
written-Serving true k n ms future h w =
    let owed = h.0 refl in
    let t =
      next_write-front k [] (wire (due n ms)) w owed.0
        (append-nil (k.sent ++ wire k.write_msgs) ∙ owed.1) in
    let now : Owed t.0 (due n ms) =
      (t.2, sym (append-nil (t.0.sent ++ wire t.0.write_msgs)) ∙ t.3) in
    (t.0, t.1, (λ p. now, Owed-Left t.0 (due n ms) now, h.2, λ f. ground (arith, h.3 f)))
written-Serving false k n ms future h w =
    let front : k.writing ≡ write_front k.write_msgs [] = ground (arith, h.1.0) in
    let t = next_write-front k h.1.1.0 (wire (due n ms)) w front h.1.1.1 in
    (t.0, t.1, (λ p. ground arith, (inr t.2, (h.1.1.0, t.3)), h.2, λ f. ground (arith, h.3 f)))

pub failed-Serving :
    (k : Session) (n : ℕ) (ms : List ChatMessage) (future : Bool)
    → Serving false k n ms future
    → k.writing ≢ []
    → Serving false (was_not_sent k) n ms future
unfolding was_not_sent
failed-Serving k n ms future h w =
    let front : k.writing ≡ write_front k.write_msgs [] = ground (arith, h.1.0) in
    let same = drop_write-writing k k.writing in
    (
      λ p. ground arith,
      (
        inl (drop_write-front k k.write_msgs k.writing front w),
        (h.1.1.0, rw same.0 (rw same.1 h.1.1.1)),
      ),
      h.2,
      λ f. ground (arith, h.3 f),
    )
