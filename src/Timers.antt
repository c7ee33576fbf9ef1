-- ===== src/Timers.antt =====
-- boost_asio/timer/timer4.cpp: two timers whose handlers print and count up one number, serialised by
-- a strand, so that one handler runs after the other. Times are in seconds.
pub mod Counts
use boost_learn.Common.{ℕ, ◌+◌, Bool, true, false, List, [], ◌∷◌, ◌++◌, ltb, if◌then◌else◌}

-- A line of output; `elapsed` is one with the time that has gone by, which is left out.
pub data Printed : Type 0 where
  timer_1 timer_2 : ℕ → Printed
  elapsed : Printed

pub record Printer : Type 0 where
  pub count : ℕ
  pub expiry1 : ℕ
  pub expiry2 : ℕ
  -- whether a timer is waited for
  pub waits1 : Bool
  pub waits2 : Bool
  pub output : List Printed

-- The constructor.
unfoldable pub printer : Printer
printer = record { count = 0; expiry1 = 1; expiry2 = 1; waits1 = true; waits2 = true; output = [] }

unfoldable pub print1 : Printer → Printer
print1 p =
    if ltb p.count 10
    then record p {
      output = p.output ++ timer_1 p.count ∷ [];
      count = p.count + 1;
      expiry1 = p.expiry1 + 1;
      waits1 = true;
    }
    else p

unfoldable pub print2 : Printer → Printer
print2 p =
    if ltb p.count 10
    then record p {
      output = p.output ++ timer_2 p.count ∷ elapsed ∷ elapsed ∷ [];
      count = p.count + 1;
      expiry2 = p.expiry2 + 2;
      waits2 = true;
    }
    else p

-- The waits are over, and the handlers run.
abbrev pub fires1 : Printer → Printer
fires1 p = print1 (record p { waits1 = false })

abbrev pub fires2 : Printer → Printer
fires2 p = print2 (record p { waits2 = false })
