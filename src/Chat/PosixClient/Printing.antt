-- ===== src/Chat/PosixClient/Printing.antt =====
-- What the output of the client gets, in a run of both sides.
use mathlib.Core.Path.{subst}
use boost_learn.Common.{
  ℕ, ◌≤◌, ◌≡◌, ◌⊎◌, inl, inr, refl, sym, ◌∙◌, Bool, true, false, Option, none, some, List, [], ◌++◌,
  append-nil, arith, Bytes, length, drop,
}
use boost_learn.Chat.Message.{ChatMessage, header_length}
use boost_learn.Chat.Session.{idle}
use boost_learn.Chat.PosixClient.{
  InputResult, found, not_found, failed, PosixClient, new_client, handle_connect, handle_read_input,
  handle_write, close, send_input, send_encoded,
}
use boost_learn.Chat.PosixClient.Running.{
  Reach, begins, connects, reads_header, reads_body, fails_body, writes_output, fails_output,
  reads_input, written,
}
use boost_learn.Chat.PosixClient.Receiving.{
  printed, InStep, Good, same-Good, header-Good, body-Good, fails_body-Good, output-Good,
  fails_output-Good, listens, shows, stopped,
}

-- The input does not touch the receiving side.
Apart : PosixClient → Option PosixClient → Type 0
Apart c none = Unit
Apart c (some d) =
    (d.read_msg ≡ c.read_msg) × (d.reading ≡ c.reading) × (d.writing_output ≡ c.writing_output)

send_encoded-Apart :
    (c : PosixClient) (rest : Bytes) (o : Option ChatMessage) → Apart c (send_encoded c rest o)
unfolding Apart
send_encoded-Apart c rest none = tt
send_encoded-Apart c rest (some m) = (refl, refl, refl)

send_input-Apart : (n skip : ℕ) (c : PosixClient) → Apart c (send_input n skip c)
unfolding Apart send_input
send_input-Apart n skip c = ground (arith, send_encoded-Apart c (drop skip (drop n c.input_buffer)))

handle_read_input-Apart :
    (result : InputResult) (n : ℕ) (c : PosixClient) → Apart c (handle_read_input result n c)
unfolding Apart handle_read_input close
handle_read_input-Apart found n c = send_input-Apart _ 1 (record c { reads_input = false })
handle_read_input-Apart not_found n c =
    send_input-Apart (length c.input_buffer) 0 (record c { reads_input = false })
handle_read_input-Apart failed n c = (refl, refl, refl)

input-Good :
    (result : InputResult) (n : ℕ) (bs : Bytes) (ms : List Bytes) (out : Bytes) (c d : PosixClient)
    → handle_read_input result n (record c { input_buffer = c.input_buffer ++ bs }) ≡ some d
    → Good ms out c
    → Good ms out d
unfolding Apart
input-Good result n bs ms out c d e g =
    let more = record c { input_buffer = c.input_buffer ++ bs } in
    let (m, r, w) = subst (Apart more) e (handle_read_input-Apart result n more) in
    same-Good ms out c d m r w g

write-Good :
    (error : Bool) (bs : List Bytes) (ms : List Bytes) (out : Bytes) (c : PosixClient)
    → Good ms out c
    → Good ms out (handle_write error (record c { writing = bs }))
unfolding handle_write close
write-Good true bs ms out c g = same-Good ms out c _ refl refl refl g
write-Good false bs ms out c g = same-Good ms out c _ refl refl refl g

connect-Good :
    (first w : ChatMessage) (error : Bool)
    → header_length ≤ length first.data_
    → Good [] [] (handle_connect error (new_client first w))
unfolding handle_connect new_client
connect-Good first w true h = (h, listens refl refl)
connect-Good first w false h = (h, listens refl refl)

Reach-Good :
    {first : ChatMessage} {ms : List Bytes} {out : Bytes} {c : PosixClient}
    → header_length ≤ length first.data_
    → Reach first ms out c
    → Good ms out c
unfolding new_client
Reach-Good h (begins w) = (h, listens refl refl)
Reach-Good h (connects w error) = connect-Good _ w error h
Reach-Good h (reads_header {ms} {out} {c} error bs r l run) =
    header-Good error bs ms out c r (Reach-Good h run)
Reach-Good h (reads_body {ms} {out} {c} bs r l run) = body-Good bs ms out c r l (Reach-Good h run)
Reach-Good h (fails_body {ms} {out} {c} bs r run) = fails_body-Good bs ms out c r (Reach-Good h run)
Reach-Good h (writes_output {ms} {out} {c} b bs w run) =
    output-Good ms out c b bs w (Reach-Good h run)
Reach-Good h (fails_output {ms} {out} {c} b bs n w run) =
    fails_output-Good ms out c b bs n w (Reach-Good h run)
Reach-Good h (reads_input {ms} {out} {c} result n bs d w e run) =
    input-Good result n bs ms out c d e (Reach-Good h run)
Reach-Good h (written {ms} {out} {c} error b bs w run) =
    write-Good error bs ms out c (Reach-Good h run)

-- In every run of the client, whose buffer for a message has room for a header, the output has got a
-- prefix of the bodies received, each with a newline, in order; and while the client reads from the
-- server, it has got all of them.
pub Reach-printed :
    {first : ChatMessage} {ms : List Bytes} {out : Bytes} {c : PosixClient}
    → header_length ≤ length first.data_
    → Reach first ms out c
    → (rest : Bytes) × (printed ms ≡ out ++ rest) × ((c.reading ≡ idle) ⊎ (rest ≡ []))
Reach-printed h run = prefix (Reach-Good h run).1
  where
    prefix :
        {ms : List Bytes} {out : Bytes} {c : PosixClient}
        → InStep ms out c
        → (rest : Bytes) × (printed ms ≡ out ++ rest) × ((c.reading ≡ idle) ⊎ (rest ≡ []))
    prefix (listens w e) = ([], sym e ∙ sym (append-nil _), inr refl)
    prefix (shows b i w e) = (b, sym e, inl i)
    prefix (stopped rest i w e) = (rest, e, inl i)
