-- ===== src/Http/Parser/Renders.antt =====
-- What stands behind a message stands behind its bytes.
use boost_learn.Common.{◌≡◌, refl, List, [], ◌∷◌, ◌++◌, append_assoc, Bytes}
use boost_learn.Http.Parser.Message.{Fold, Line, Message, crlf, render_folds, render_lines, render}

render_folds-append :
    (fs : List Fold) (rest t : Bytes) → render_folds fs rest ++ t ≡ render_folds fs (rest ++ t)
render_folds-append [] rest t = refl
render_folds-append (f ∷ fs) rest t = rw (append_assoc, append_assoc, render_folds-append fs rest t)

render_lines-append :
    (ls : List Line) (rest t : Bytes) → render_lines ls rest ++ t ≡ render_lines ls (rest ++ t)
render_lines-append [] rest t = refl
render_lines-append (l ∷ ls) rest t =
    rw (append_assoc, append_assoc, render_folds-append l.folds, render_lines-append ls rest t)

pub render-append : (m : Message) (rest t : Bytes) → render m rest ++ t ≡ render m (rest ++ t)
render-append m rest t = rw (
  append_assoc,
  append_assoc,
  append_assoc,
  append_assoc,
  render_lines-append m.lines (crlf rest) t,
)
