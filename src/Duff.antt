-- ===== src/Duff.antt =====
-- `copy` and `copy2` of boost_asio/duff.cpp. Both write every character to the same place, so the
-- destination is one register: the state is the characters that are still to be read and those that
-- have been written, in order.
pub mod Copies
use boost_learn.Common.{
  ℕ, zero, suc, ◌+◌, ◌-◌, ◌*◌, ◌/◌, ◌%◌, ◌^◌, Option, none, some, List, [], ◌∷◌, ◌++◌, Bool, true,
  false, leb, ltb, ◌==◌, if◌then◌else◌, Bytes,
}

pub record Transfer : Type 0 where
  -- behind `from`
  pub unread : Bytes
  -- what was written to `*to`
  pub written : Bytes

-- `*to = *from++`; `none` reads beyond the end.
abbrev pub put : Transfer → Option Transfer
put t = elim t.unread [
  | [] ↦ none
  | c ∷ cs ↦ some (record { unread = cs; written = t.written ++ c ∷ [] })
]

abbrev pub and_then : Option Transfer → (Transfer → Option Transfer) → Option Transfer
and_then none f = none
and_then (some t) f = f t

-- The `case` labels in the order of the source, with one assignment behind each.
abbrev pub labels : List ℕ
labels = 0 ∷ 7 ∷ 6 ∷ 5 ∷ 4 ∷ 3 ∷ 2 ∷ 1 ∷ []

-- `switch (k)` jumps to the label `k`; without one it jumps over all of them.
abbrev pub from_label : ℕ → List ℕ → List ℕ
from_label k [] = []
from_label k (l ∷ ls) = if k == l then l ∷ ls else from_label k ls

-- The labels fall through: one assignment after the other.
abbrev pub assigns : List ℕ → Transfer → Option Transfer
assigns [] t = some t
assigns (l ∷ ls) t = and_then (put t) (assigns ls)

-- The eight assignments of the body of `while (--n)`.
abbrev pub while_body : Transfer → Option Transfer
while_body t =
    and_then
      (and_then (and_then (and_then (and_then (and_then (and_then (put t) put) put) put) put) put)
        put)
      put

-- `while (--n)`, once `n` was decremented.
while_copy : ℕ → Transfer → Option Transfer
while_copy zero t = some t
while_copy (suc n) t = and_then (while_body t) (while_copy n)

-- `count` is an `int` that is not negative, with `count + 7` in range. For 0, `--n` makes an `n` of 0
-- the number -1, which is not 0; it is written by its bits.
unfoldable pub copy : ℕ → Transfer → Option Transfer
unfolding while_copy
copy count t =
    let n = (count + 7) / 8 in
    and_then (assigns (from_label (count % 8) labels) t) (while_copy ((n + (2 ^ 32 - 1)) % 2 ^ 32))

-- `do { .. } while (--n > 0)` from one of its statements on; an `n` of 0 ends it too.
do_copy : ℕ → List ℕ → Transfer → Option Transfer
do_copy zero statements t = assigns statements t
do_copy (suc zero) statements t = assigns statements t
do_copy (suc (suc n)) statements t = and_then (assigns statements t) (do_copy (suc n) labels)

-- The labels stand in the loop, and the jump enters it there.
unfoldable pub copy2 : ℕ → Transfer → Option Transfer
unfolding do_copy
copy2 count t = do_copy ((count + 7) / 8) (from_label (count % 8) labels) t
