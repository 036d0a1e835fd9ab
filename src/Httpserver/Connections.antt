-- ===== src/Httpserver/Connections.antt =====
-- pkg/httpserver/server.go: the connections that `Accept` returns, and how the server ends.
use opn_box.Base.{ℕ, zero, suc, ◌≡◌, refl, Bool, none, some, [], ◌∷◌, ◌==◌, ◌&&◌, if◌then◌else◌}
use opn_box.Base.Outcome.{ok}
use opn_box.Httpserver.{
  Network, PeekConn, secure, plain, client_hello, peek_timeout, dual_accept, peek_read,
}

module _ (net : Network) where
  open net use {World, Raw, Failure, accept, set_read_deadline, read, close, temporary}

  -- The reader gives `b` from any state of the world without touching it, and behind that what the
  -- connection gives.
  pub record Replays (pc : PeekConn Raw) (b : ℕ) : Type 0 where
    pub rest : PeekConn Raw
    pub replayed : (v : World) (n : ℕ) → peek_read net pc v (suc n) ≡ (rest, v, ok (b ∷ []))
    pub direct :
        (v : World) (n : ℕ)
        → peek_read net rest v n ≡ (rest, (read v pc.raw n).0, (read v pc.raw n).1)

  peek-ahead :
      (c : Raw) (b : ℕ) (v : World) (n : ℕ)
      → peek_read net (record { raw = c; ahead = b ∷ [] }) v (suc n)
        ≡ (record { raw = c; ahead = [] }, v, ok (b ∷ []))
  unfolding peek_read
  peek-ahead c b v zero = refl
  peek-ahead c b v (suc n) = refl

  ahead-Replays : (c : Raw) (b : ℕ) → Replays (record { raw = c; ahead = b ∷ [] }) b
  unfolding peek_read
  ahead-Replays c b = record {
    rest = record { raw = c; ahead = [] };
    replayed = peek-ahead c b;
    direct = λ v n. refl;
  }

  -- A client whose first byte arrives gets a TLS side if that byte opens a handshake and TLS is
  -- configured, and a plain connection otherwise. Either reads the byte again and then what follows,
  -- and the deadline of the first read is lifted.
  pub dual_accept-Replays :
      (has_tls : Bool) (w w' w'' : World) (c : Raw) (b : ℕ)
      → accept w ≡ (w', ok c)
      → read (set_read_deadline w' c (some peek_timeout)) c 1 ≡ (w'', ok (b ∷ []))
      → (pc : PeekConn Raw) × (dual_accept net has_tls w ≡ (
        set_read_deadline w'' c none,
        ok (if b == client_hello && has_tls then secure pc else plain pc),
      ))
        × (pc.raw ≡ c)
        × Replays pc b
  unfolding dual_accept
  dual_accept-Replays has_tls w w' w'' c b a r =
      (record { raw = c; ahead = b ∷ [] }, rw (a, r) refl, refl, ahead-Replays c b)
