-- ===== src/Daemon/Receives.antt =====
-- The server of the daemon goes on after errors.
use boost_learn.Common.{ℕ, ◌-◌, ◌<◌, ◌≡◌, refl, ap, true, false, List, [], ◌∷◌, ◌++◌, arith, Bytes}
use boost_learn.Daemon.{UdpDaytimeServer, start_receive, handle_receive, udp_daytime_server}

abbrev receive_completes : ℕ → UdpDaytimeServer → UdpDaytimeServer
receive_completes peer s = record s { remote_endpoint = peer; receives = s.receives - 1 }

-- The runs, with the datagrams received, each with the time of its handler.
pub data Reach : List (ℕ × Bytes) → UdpDaytimeServer → Type 0 where
  begins : Reach [] udp_daytime_server
  received :
      {ds : List (ℕ × Bytes)} {s : UdpDaytimeServer} (peer : ℕ) (now : Bytes)
      → 0 < s.receives
      → Reach ds s
      → Reach (ds ++ (peer, now) ∷ []) (handle_receive false now (receive_completes peer s))
  not_received :
      {ds : List (ℕ × Bytes)} {s : UdpDaytimeServer} (peer : ℕ) (now : Bytes)
      → 0 < s.receives
      → Reach ds s
      → Reach ds (handle_receive true now (receive_completes peer s))

-- In every run exactly the datagrams received are answered, in order and to their senders, and one
-- receive is outstanding, whatever fails.
pub Reach-answered :
    {ds : List (ℕ × Bytes)} {s : UdpDaytimeServer} → Reach ds s → (s.sends ≡ ds) × (s.receives ≡ 1)
unfolding udp_daytime_server handle_receive start_receive
Reach-answered begins = (refl, refl)
Reach-answered (received {ds} {s} peer now h r) =
    let (e, n) = Reach-answered r in (ap (λ l. l ++ (peer, now) ∷ []) e, omega (arith, n))
Reach-answered (not_received {ds} {s} peer now h r) =
    let (e, n) = Reach-answered r in (e, omega (arith, n))
