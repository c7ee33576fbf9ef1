-- ===== src/Duff/Copies.antt =====
-- Both functions are the plain loop of `count` assignments.
use boost_learn.Common.{
  ℕ, zero, suc, ◌+◌, ◌-◌, ◌*◌, ◌/◌, ◌%◌, ◌^◌, ◌<◌, ◌≡◌, refl, ap, ◌∙◌, Option, none, some, [], ◌∷◌,
  arith, length, List, ◌==◌, if◌then◌else◌,
}
use boost_learn.Duff.{
  Transfer, put, and_then, labels, from_label, assigns, while_body, while_copy, do_copy, copy,
  copy2,
}

and_then_assoc :
    (o : Option Transfer) (f g : Transfer → Option Transfer)
    → and_then (and_then o f) g ≡ and_then o (λ t. and_then (f t) g)
and_then_assoc none f g = refl
and_then_assoc (some t) f g = refl

and_then-cong :
    (o : Option Transfer) (f g : Transfer → Option Transfer)
    → ((t : Transfer) → f t ≡ g t)
    → and_then o f ≡ and_then o g
and_then-cong none f g h = refl
and_then-cong (some t) f g h = h t

-- The plain loop: `count` assignments.
pub one_by_one : ℕ → Transfer → Option Transfer
one_by_one zero t = some t
one_by_one (suc k) t = and_then (put t) (one_by_one k)

one_by_one-plus :
    (a b : ℕ) (t : Transfer) → and_then (one_by_one a t) (one_by_one b) ≡ one_by_one (a + b) t
unfolding one_by_one
one_by_one-plus zero b t = let total : b ≡ 0 + b = omega arith in ap (λ n. one_by_one n t) total
one_by_one-plus (suc a) b t =
    let total : suc (a + b) ≡ suc a + b = omega arith in
    and_then_assoc (put t) (one_by_one a) (one_by_one b)
    ∙ and_then-cong (put t) (λ u. and_then (one_by_one a u) (one_by_one b)) (one_by_one (a + b))
        (one_by_one-plus a b)
    ∙ ap (λ n. one_by_one n t) total

assigns_lem : (ls : List ℕ) (t : Transfer) → assigns ls t ≡ one_by_one (length ls) t
unfolding one_by_one
assigns_lem [] t = refl
assigns_lem (l ∷ ls) t =
    and_then-cong (put t) (assigns ls) (one_by_one (length ls)) (assigns_lem ls)

and_then-some : (o : Option Transfer) → o ≡ and_then o (λ u. some u)
and_then-some none = refl
and_then-some (some t) = refl

put_one : (t : Transfer) → put t ≡ one_by_one 1 t
unfolding one_by_one
put_one t = and_then-some (put t)

-- One assignment more.
put_next :
    (o : Option Transfer) (n : ℕ) (t : Transfer)
    → o ≡ one_by_one n t
    → and_then o put ≡ one_by_one (n + 1) t
put_next o n t e =
    ap (λ x. and_then x put) e
    ∙ and_then-cong (one_by_one n t) put (one_by_one 1) put_one
    ∙ one_by_one-plus n 1 t

while_body_lem : (t : Transfer) → while_body t ≡ one_by_one 8 t
while_body_lem t = put_next _ 7 t (
    put_next _ 6 t (
      put_next _ 5 t
        (put_next _ 4 t (put_next _ 3 t (put_next _ 2 t (put_next _ 1 t (put_one t)))))))

while_copy_lem : (n : ℕ) (t : Transfer) → while_copy n t ≡ one_by_one (n * 8) t
unfolding while_copy one_by_one
while_copy_lem zero t = refl
while_copy_lem (suc n) t =
    let total : 8 + n * 8 ≡ suc n * 8 = omega arith in
    and_then-cong (while_body t) (while_copy n) (one_by_one (n * 8)) (while_copy_lem n)
    ∙ ap (λ o. and_then o (one_by_one (n * 8))) (while_body_lem t)
    ∙ one_by_one-plus 8 (n * 8) t
    ∙ ap (λ k. one_by_one k t) total

do_copy_lem :
    (n : ℕ) (ls : List ℕ) (t : Transfer) → do_copy n ls t ≡ one_by_one (length ls + (n - 1) * 8) t
unfolding do_copy
do_copy_lem zero ls t =
    let total : length ls ≡ length ls + (0 - 1) * 8 = omega arith in
    assigns_lem ls t ∙ ap (λ k. one_by_one k t) total
do_copy_lem (suc zero) ls t =
    let total : length ls ≡ length ls + (1 - 1) * 8 = omega arith in
    assigns_lem ls t ∙ ap (λ k. one_by_one k t) total
do_copy_lem (suc (suc n)) ls t =
    let rest = 8 + (suc n - 1) * 8 in
    let total : length ls + (8 + (suc n - 1) * 8) ≡ length ls + (suc (suc n) - 1) * 8 =
      omega arith in
    and_then-cong (assigns ls t) (do_copy (suc n) labels) (one_by_one (8 + (suc n - 1) * 8))
      (do_copy_lem (suc n) labels)
    ∙ ap (λ o. and_then o (one_by_one (8 + (suc n - 1) * 8))) (assigns_lem ls t)
    ∙ one_by_one-plus (length ls) (8 + (suc n - 1) * 8) t
    ∙ ap (λ k. one_by_one k t) total

-- The assignments from a label on.
entry_lem : (r : ℕ) → r < 8 → length (from_label r labels) ≡ (if r == 0 then 8 else r)
entry_lem zero h = refl
entry_lem (suc zero) h = refl
entry_lem (suc (suc zero)) h = refl
entry_lem (suc (suc (suc zero))) h = refl
entry_lem (suc (suc (suc (suc zero)))) h = refl
entry_lem (suc (suc (suc (suc (suc zero))))) h = refl
entry_lem (suc (suc (suc (suc (suc (suc zero)))))) h = refl
entry_lem (suc (suc (suc (suc (suc (suc (suc zero))))))) h = refl
entry_lem (suc (suc (suc (suc (suc (suc (suc (suc r)))))))) h = absurd (omega arith)

total_lem :
    (count : ℕ)
    → 0 < count
    → length (from_label (count % 8) labels) + ((count + 7) / 8 - 1) * 8 ≡ count
total_lem count h = ground (arith, entry_lem (count % 8) (omega arith))

copy_lem :
    (count : ℕ) (t : Transfer) → 0 < count → count + 7 < 2 ^ 31 → copy count t ≡ one_by_one count t
unfolding copy
copy_lem count t h b =
    let wrapped : ((count + 7) / 8 + (2 ^ 32 - 1)) % 2 ^ 32 ≡ (count + 7) / 8 - 1 = omega arith in
    let ls = from_label (count % 8) labels in
    let n = (count + 7) / 8 - 1 in
    ap (λ n. and_then (assigns (from_label (count % 8) labels) t) (while_copy n)) wrapped
    ∙ and_then-cong (assigns ls t) (while_copy n) (one_by_one (n * 8)) (while_copy_lem n)
    ∙ ap (λ o. and_then o (one_by_one (n * 8))) (assigns_lem ls t)
    ∙ one_by_one-plus (length ls) (n * 8) t
    ∙ ap (λ k. one_by_one k t) (total_lem count h)

copy2_lem : (count : ℕ) (t : Transfer) → 0 < count → copy2 count t ≡ one_by_one count t
unfolding copy2
copy2_lem count t h =
    do_copy_lem ((count + 7) / 8) (from_label (count % 8) labels) t
    ∙ ap (λ k. one_by_one k t) (total_lem count h)

-- For a positive count, with `count + 7` in the range of an `int`, the jump into the labels and the
-- loop make together exactly `count` assignments, one after the other, in both functions: they are the
-- plain loop, also where the source is too short.
pub copy-copy2 :
    (count : ℕ) (t : Transfer)
    → 0 < count
    → count + 7 < 2 ^ 31
    → (copy count t ≡ one_by_one count t) × (copy2 count t ≡ one_by_one count t)
copy-copy2 count t h b = (copy_lem count t h b, copy2_lem count t h)
