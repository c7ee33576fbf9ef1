-- ===== src/Timers/Counts.antt =====
-- The runs, in which the timers fire in any order.
use boost_learn.Common.{
  ℕ, zero, suc, ◌+◌, ◌≤◌, ◌≡◌, refl, ap, ◌∙◌, Bool, true, false, List, [], ◌∷◌, ◌++◌, arith,
}
use boost_learn.Timers.{
  Printed, timer_1, timer_2, elapsed, Printer, printer, print1, print2, fires1, fires2,
}

-- The number says how many times a timer has fired.
pub data Reach : ℕ → Printer → Type 0 where
  begins : Reach 0 printer
  first : {n : ℕ} {p : Printer} → p.waits1 ≡ true → Reach n p → Reach (suc n) (fires1 p)
  second : {n : ℕ} {p : Printer} → p.waits2 ≡ true → Reach n p → Reach (suc n) (fires2 p)

-- The numbers that were printed, by either timer.
abbrev pub numbers : List Printed → List ℕ
numbers [] = []
numbers (timer_1 n ∷ ls) = n ∷ numbers ls
numbers (timer_2 n ∷ ls) = n ∷ numbers ls
numbers (elapsed ∷ ls) = numbers ls

-- The numbers below a bound, in order.
abbrev pub below : ℕ → List ℕ
below zero = []
below (suc n) = below n ++ n ∷ []

numbers-append : (a b : List Printed) → numbers (a ++ b) ≡ numbers a ++ numbers b
numbers-append [] b = refl
numbers-append (timer_1 n ∷ a) b = rw (numbers-append a b)
numbers-append (timer_2 n ∷ a) b = rw (numbers-append a b)
numbers-append (elapsed ∷ a) b = numbers-append a b

abbrev waiting : Bool → ℕ
waiting true = 1
waiting false = 0

record Counted (n : ℕ) (p : Printer) : Type 0 where
  bounded : p.count ≤ 10
  fired : n + waiting p.waits1 + waiting p.waits2 ≡ p.count + 2
  stops1 : p.waits1 ≡ false → p.count ≡ 10
  stops2 : p.waits2 ≡ false → p.count ≡ 10
  in_order : numbers p.output ≡ below p.count

first-Counted : (n : ℕ) (p : Printer) → p.waits1 ≡ true → Counted n p → Counted (suc n) (fires1 p)
unfolding print1
first-Counted n p w c = record {
  bounded = ground (arith, c.bounded);
  fired = ground (arith, c.fired);
  stops1 = ground (arith, c.bounded);
  stops2 = ground (arith, c.stops2);
  in_order = ground (arith, c.in_order, numbers-append p.output (timer_1 p.count ∷ []));
}

second-Counted : (n : ℕ) (p : Printer) → p.waits2 ≡ true → Counted n p → Counted (suc n) (fires2 p)
unfolding print2
second-Counted n p w c = record {
  bounded = ground (arith, c.bounded);
  fired = ground (arith, c.fired);
  stops1 = ground (arith, c.stops1);
  stops2 = ground (arith, c.bounded);
  in_order =
      ground
        (arith, c.in_order, numbers-append p.output (timer_2 p.count ∷ elapsed ∷ elapsed ∷ []));
}

Reach-Counted : {n : ℕ} {p : Printer} → Reach n p → Counted n p
unfolding printer
Reach-Counted begins = record {
  bounded = omega arith;
  fired = refl;
  stops1 = λ e. cc;
  stops2 = λ e. cc;
  in_order = refl;
}
Reach-Counted (first {n} {p} w r) = first-Counted n p w (Reach-Counted r)
Reach-Counted (second {n} {p} w r) = second-Counted n p w (Reach-Counted r)

at_most : (n k : ℕ) (a b : Bool) → n + waiting a + waiting b ≡ k + 2 → k ≤ 10 → n ≤ 12
at_most n k a b e h = omega (arith, e, h)

-- In every run, however the two timers take turns, the numbers printed are those from 0 on, each once
-- and in order, and none from 10 on; and every run ends: the timers fire at most twelve times in all.
pub Reach-numbers :
    {n : ℕ} {p : Printer}
    → Reach n p
    → (numbers p.output ≡ below p.count) × (p.count ≤ 10) × (n ≤ 12)
Reach-numbers {n} {p} r =
    let c = Reach-Counted r in
    (c.in_order, c.bounded, at_most n p.count p.waits1 p.waits2 c.fired c.bounded)

-- Once no timer is waited for, the numbers printed are those from 0 to 9.
pub Reach-finished :
    {n : ℕ} {p : Printer}
    → p.waits1 ≡ false
    → p.waits2 ≡ false
    → Reach n p
    → (numbers p.output ≡ below 10) × (n ≡ 12)
Reach-finished {n} {p} a b r =
    let c = Reach-Counted r in
    let ten = c.stops1 a in (c.in_order ∙ ap below ten, ground (arith, c.fired))
