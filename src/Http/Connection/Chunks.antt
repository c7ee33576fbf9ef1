-- ===== src/Http/Connection/Chunks.antt =====
-- A request that arrives in any number of pieces is answered as if it arrived at once.
use boost_learn.Common.{ℕ, ◌≡◌, refl, sym, ap, ◌∙◌, Option, none, some, List, [], ◌∷◌, ◌++◌, Bytes}
use mathlib.Core.Path.{fun_ext}
use boost_learn.Http.Parser.{Parsed, parsed, parse}
use boost_learn.Http.Parser.Chunks.{resume, parse-append}
use boost_learn.Http.Tribool.{Tribool, indeterminate}
use boost_learn.Http.Connection.{Connection, Call, async_read_some, success, handle_read, on_parsed}

-- The pieces in the order of arrival, put together.
abbrev pub joined : List Bytes → Bytes
joined [] = []
joined (b ∷ bs) = b ++ joined bs

module _ (lexical_cast : ℕ → Bytes) (open_file : Bytes → Option Bytes) (doc_root : Bytes) where
  abbrev read : Connection → Bytes → Option (Connection × List Call)
  read c = handle_read lexical_cast open_file doc_root c success

  -- The next piece is handed over only if the handler asked for it.
  abbrev next_read :
      Option (Connection × List Call)
      → (Connection → Option (Connection × List Call))
      → Option (Connection × List Call)
  next_read none more = none
  next_read (some (c, async_read_some ∷ [])) more = more c
  next_read (some (c, calls)) more = some (c, calls)

  pub feed : Connection → List Bytes → Option (Connection × List Call)
  feed c [] = some (c, async_read_some ∷ [])
  feed c (b ∷ bs) = next_read (read c b) (λ c'. feed c' bs)

  resumed :
      (c : Connection) (p : Parsed) (more : Bytes)
      → next_read (on_parsed lexical_cast open_file doc_root c p) (λ c'. read c' more)
        ≡ on_parsed lexical_cast open_file doc_root c (resume p more)
  unfolding handle_read
  resumed c Parsed.fault more = refl
  resumed c (parsed Tribool.true rest s r) more = refl
  resumed c (parsed Tribool.false rest s r) more = refl
  resumed c (parsed indeterminate rest s r) more = refl

  read-append :
      (c : Connection) (b more : Bytes)
      → next_read (read c b) (λ c'. read c' more) ≡ read c (b ++ more)
  unfolding handle_read
  read-append c b more =
      resumed c (parse c.parser c.request b) more
      ∙ ap (on_parsed lexical_cast open_file doc_root c)
          (sym (parse-append b more c.parser c.request))

  read-nil : (c : Connection) → some (c, async_read_some ∷ []) ≡ read c []
  unfolding handle_read parse
  read-nil c = refl

  -- `handle_read` called for one piece after the other, as long as it asks for more, does what one
  -- call for the whole input does: it leaves the same connection and makes the same call, and reads
  -- the pieces that come behind the end of the request in neither case.
  pub feed-joined :
      (bs : List Bytes) (c : Connection)
      → feed c bs ≡ handle_read lexical_cast open_file doc_root c success (joined bs)
  unfolding feed
  feed-joined [] c = read-nil c
  feed-joined (b ∷ bs) c =
      ap (next_read (read c b)) (fun_ext (λ c'. feed-joined bs c')) ∙ read-append c b (joined bs)
