-- ===== src/EchoSession/Echoes.antt =====
-- Everything comes back, and the handlers never leave their block.
use boost_learn.Common.{
  ltb, Bool, Bool-cases, inl, inr, ℕ, ◌≡◌, refl, sym, ap, ◌∙◌, true, false, Option, none, some, [],
  ◌++◌, append-nil, Bytes, length, take, drop, take-front,
}
use mathlib.Core.Path.{subst}
use boost_learn.HandlerMemory.{
  Pointer, storage, heap, Memory, handler_memory, storage_size, allocate, deallocate,
}
use boost_learn.EchoSession.{
  Operation, reading, writing, EchoSession, start, handle_read, handle_write, Reach, starts, reads,
  read_fails, writes, write_fails,
}

abbrev pub is_storage : Pointer → Bool
is_storage storage = true
is_storage (heap b) = false

-- What is still to go out, of the bytes that came in.
abbrev pub Waiting : Option (Pointer × Operation) → Bytes → Type 0
Waiting none rest = Unit
Waiting (some (p, reading)) rest = rest ≡ []
Waiting (some (p, writing bs)) rest = rest ≡ bs

-- The handler is in the block if it is small enough, and else on the heap, with the block free.
abbrev pub Stored : (Operation → ℕ) → Memory → Option (Pointer × Operation) → Type 0
Stored size m none = m.in_use ≡ false
Stored size m (some (p, op)) = (ltb (size op) storage_size ≡ m.in_use) × (m.in_use ≡ is_storage p)

abbrev pub Echoing : (Operation → ℕ) → EchoSession → Type 0
Echoing size s =
    ((rest : Bytes) × (s.received ≡ s.echoed ++ rest) × Waiting s.pending rest)
    × Stored size s.memory s.pending

-- The same, of an operation that is known.
known :
    (size : Operation → ℕ) (s : EchoSession) (q : Option (Pointer × Operation))
    → s.pending ≡ q
    → Echoing size s
    → ((rest : Bytes) × (s.received ≡ s.echoed ++ rest) × Waiting q rest) × Stored size s.memory q
known size s q e h =
    subst
      (λ x.
        ((rest : Bytes) × (s.received ≡ s.echoed ++ rest) × Waiting x rest)
        × Stored size s.memory x)
      e h

module _ (handler_size : Operation → ℕ) where
  allocate-Stored :
      (m : Memory) (op : Operation)
      → m.in_use ≡ false
      → Stored handler_size
          (allocate (handler_size op) m).1
          (some ((allocate (handler_size op) m).0, op))
  unfolding allocate
  allocate-Stored m op h = elim (Bool-cases (ltb (handler_size op) storage_size)) [
    | inl l ↦ rw (h, l) (refl, refl)
    | inr l ↦ rw (h, l) (refl, refl)
  ]

  deallocate-Stored :
      (m : Memory) (p : Pointer) → m.in_use ≡ is_storage p → (deallocate p m).in_use ≡ false
  unfolding deallocate
  deallocate-Stored m storage h = refl
  deallocate-Stored m (heap b) h = h

  pub Reach-Echoing :
      (garbage : Bytes) (s : EchoSession) → Reach handler_size garbage s → Echoing handler_size s
  unfolding start handle_read handle_write
  Reach-Echoing garbage s starts = (([], refl, refl), allocate-Stored handler_memory reading refl)
  Reach-Echoing garbage s' (reads {s} p bs r e n) =
      let h = known handler_size s (some (p, reading)) e (Reach-Echoing garbage s r) in
      (
        (
          bs,
          ap (λ t. t ++ bs) (h.0.1 ∙ ap (◌++◌ s.echoed) h.0.2 ∙ append-nil s.echoed),
          sym (take-front (length bs) bs (drop (length bs) s.data_) refl),
        ),
        allocate-Stored (deallocate p s.memory)
            (writing (take (length bs) (bs ++ drop (length bs) s.data_)))
            (deallocate-Stored s.memory p h.1.1),
      )
  Reach-Echoing garbage s' (read_fails {s} p r e) =
      let h = known handler_size s (some (p, reading)) e (Reach-Echoing garbage s r) in
      ((h.0.0, h.0.1, tt), deallocate-Stored s.memory p h.1.1)
  Reach-Echoing garbage s' (writes {s} p bs r e) =
      let h = known handler_size s (some (p, writing bs)) e (Reach-Echoing garbage s r) in
      (
        ([], h.0.1 ∙ ap (◌++◌ s.echoed) h.0.2 ∙ sym (append-nil (s.echoed ++ bs)), refl),
        allocate-Stored (deallocate p s.memory) reading (deallocate-Stored s.memory p h.1.1),
      )
  Reach-Echoing garbage s' (write_fails {s} p bs r e) =
      let h = known handler_size s (some (p, writing bs)) e (Reach-Echoing garbage s r) in
      ((h.0.0, h.0.1, tt), deallocate-Stored s.memory p h.1.1)
