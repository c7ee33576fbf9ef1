-- ===== src/Daytime/Replies.antt =====
-- The runs of the two servers, in any order of completions.
use boost_learn.Common.{
  ℕ, suc, ◌+◌, ◌-◌, ◌<◌, ◌≡◌, refl, ap, true, false, List, [], ◌∷◌, ◌++◌, arith, Bytes,
}
use boost_learn.Daytime.{
  TcpServer, UdpServer, start_accept, start, handle_accept, tcp_server, start_receive,
  handle_receive, udp_server,
}

abbrev pub accept_completes : TcpServer → TcpServer
accept_completes s = record s { accepts = s.accepts - 1 }

-- The sender of a datagram is put into `remote_endpoint_`.
abbrev pub receive_completes : ℕ → UdpServer → UdpServer
receive_completes peer s = record s { remote_endpoint = peer; receives = s.receives - 1 }

-- A run, with the connections that were accepted and the datagrams that were received, each with the
-- time of its handler, and with the number of receives that have failed.
pub data Reach : List (ℕ × Bytes) → List (ℕ × Bytes) → ℕ → TcpServer → UdpServer → Type 0 where
  begins : Reach [] [] 0 tcp_server udp_server
  accepted :
      {cs ds : List (ℕ × Bytes)} {f : ℕ} {t : TcpServer} {u : UdpServer} (now : Bytes)
      → 0 < t.accepts
      → Reach cs ds f t u
      → Reach
          (cs ++ (t.new_connection, now) ∷ [])
          ds
          f
          (handle_accept false now (accept_completes t))
          u
  not_accepted :
      {cs ds : List (ℕ × Bytes)} {f : ℕ} {t : TcpServer} {u : UdpServer} (now : Bytes)
      → 0 < t.accepts
      → Reach cs ds f t u
      → Reach cs ds f (handle_accept true now (accept_completes t)) u
  received :
      {cs ds : List (ℕ × Bytes)} {f : ℕ} {t : TcpServer} {u : UdpServer} (peer : ℕ) (now : Bytes)
      → 0 < u.receives
      → Reach cs ds f t u
      → Reach cs (ds ++ (peer, now) ∷ []) f t (handle_receive false now (receive_completes peer u))
  not_received :
      {cs ds : List (ℕ × Bytes)} {f : ℕ} {t : TcpServer} {u : UdpServer} (peer : ℕ) (now : Bytes)
      → 0 < u.receives
      → Reach cs ds f t u
      → Reach cs ds (suc f) t (handle_receive true now (receive_completes peer u))

-- In every run exactly the accepted connections are written to, each once, in order and with the time
-- of its accept, and exactly the datagrams received are answered, to their senders; one accept is
-- outstanding, and one receive until a receive has failed, and from then on none.
pub Reach-replies :
    {cs ds : List (ℕ × Bytes)} {f : ℕ} {t : TcpServer} {u : UdpServer}
    → Reach cs ds f t u
    → (t.writes ≡ cs) × (u.sends ≡ ds) × (t.accepts ≡ 1) × (u.receives + f ≡ 1)
unfolding tcp_server udp_server handle_accept handle_receive start_accept start start_receive
Reach-replies begins = (refl, refl, refl, refl)
Reach-replies (accepted {cs} {ds} {f} {t} {u} now h r) =
    let (w, s, a, b) = Reach-replies r in
    (ap (λ l. l ++ (t.new_connection, now) ∷ []) w, s, omega (arith, a), b)
Reach-replies (not_accepted now h r) =
    let (w, s, a, b) = Reach-replies r in (w, s, omega (arith, a), b)
Reach-replies (received peer now h r) =
    let (w, s, a, b) = Reach-replies r in
    (w, ap (λ l. l ++ (peer, now) ∷ []) s, a, omega (arith, b, h))
Reach-replies (not_received peer now h r) =
    let (w, s, a, b) = Reach-replies r in (w, s, a, omega (arith, b, h))
