-- ===== src/Plugin/Repeat.antt =====
-- pkg/plugin/pf_alias.go: a query that `Exec` sees a second time.
use opn_box.Base.{◌≢◌, arith, ℕ, ◌≡◌, refl, ap, sym, ◌∙◌, ◌⊎◌, inl, inr, List, [], ◌∷◌}
use opn_box.Base.Dict.{Dict}
use opn_box.Base.Outcome.{Result, ok, err}
use opn_box.Net.{Ip}
use opn_box.Plugin.{
  Args, Plugin, Socket, Answer, SendError, exec, extract, clamp_ttl, ttl_duration, uncached,
  update_cache, no_ttl, send_to_add_daemon, settle, send_stale,
}
use opn_box.Plugin.Cache.{uncached-update_cache}
use opn_box.Plugin.Pool.{Keeps, send-Keeps}

module _ (answers : List Answer) where
  abbrev resolved : List Ip
  resolved = (extract answers [] no_ttl).0

  abbrev lifetime : Args → ℕ
  lifetime cfg = clamp_ttl cfg (extract answers [] no_ttl).1

-- The addresses of the answers that are to be sent with a configuration and a cache.
abbrev to_send : List Answer → ℕ → Args → Dict ℕ → List Ip
to_send answers now cfg cache =
    uncached cache now (ttl_duration (lifetime answers cfg)) (resolved answers)

module _ (net : Socket) (now : ℕ) (answers : List Answer) where
  open net use {World, Conn}

  exec_fresh :
      (q : Plugin Conn) (w : World)
      → to_send answers now q.cfg q.local_cache ≡ []
      → exec net q w now answers ≡ (q, w)
  unfolding exec
  exec_fresh q w h = ap (send_stale net q w now (lifetime answers q.cfg)) h

  -- The dispatch of the addresses that are to be sent, if there are any, returned an error.
  abbrev pub Fails : Plugin Conn → World → Type 0
  Fails p w =
      (e : SendError) × (to_send answers now p.cfg p.local_cache ≢ [])
      × ((send_to_add_daemon net p w (to_send answers now p.cfg p.local_cache)
            (lifetime answers p.cfg)).2
          ≡ err e)

  settled_again :
      (p q : Plugin Conn) (w w' : World) (ips : List Ip) (r : Result SendError (Unit {0}))
      → Keeps Conn p q
      → to_send answers now p.cfg p.local_cache ≡ ips
      → ((e : SendError) × (r ≡ err e))
        ⊎ (exec net
              (settle net now (ttl_duration (lifetime answers p.cfg)) ips (q, w, r)).0
              w'
              now
              answers
            ≡ ((settle net now (ttl_duration (lifetime answers p.cfg)) ips (q, w, r)).0, w'))
  settled_again p q w w' ips (err e) k h = inl (e, refl)
  settled_again p q w w' ips (ok u) k h =
      let d = ttl_duration (lifetime answers p.cfg) in
      let after = record q { local_cache = update_cache q.local_cache now d ips } in
      let fresh : to_send answers now p.cfg (update_cache p.local_cache now d ips) ≡ [] =
        ap (λ ips'. to_send answers now p.cfg (update_cache p.local_cache now d ips')) (sym h)
        ∙ uncached-update_cache p.local_cache now d (resolved answers) in
      let moved : to_send answers now q.cfg (update_cache q.local_cache now d ips) ≡ [] =
        ap (λ cfg. to_send answers now cfg (update_cache q.local_cache now d ips)) k.cfg
        ∙ ap (λ cache. to_send answers now p.cfg (update_cache cache now d ips)) k.cache
        ∙ fresh in
      inr (exec_fresh after w' moved)

  sent_again :
      (p : Plugin Conn) (w w' : World) (ips : List Ip)
      → to_send answers now p.cfg p.local_cache ≡ ips
      → ((e : SendError) × (ips ≢ [])
          × ((send_to_add_daemon net p w ips (lifetime answers p.cfg)).2 ≡ err e))
        ⊎ (exec net (send_stale net p w now (lifetime answers p.cfg) ips).0 w' now answers
            ≡ ((send_stale net p w now (lifetime answers p.cfg) ips).0, w'))
  sent_again p w w' [] h = inr (exec_fresh p w' h)
  sent_again p w w' (ip ∷ ips) h =
      let ttl = lifetime answers p.cfg in
      let (q, v, r) = send_to_add_daemon net p w (ip ∷ ips) ttl in
      elim (settled_again p q v w' (ip ∷ ips) r (send-Keeps net p w (ip ∷ ips) ttl) h) [
        | inl (e, failed) ↦ inl (e, λ nil. absurd (ground (arith, nil)), failed)
        | inr same ↦ inr same
      ]

  -- Whatever the socket does: unless a query has addresses to send and their dispatch returns an
  -- error, the same answers at the same time are sent no second time, the second query changing
  -- neither the plugin nor the world.
  pub exec_again :
      (p : Plugin Conn) (w w' : World)
      → Fails p w
        ⊎ (exec net (exec net p w now answers).0 w' now answers
            ≡ ((exec net p w now answers).0, w'))
  unfolding exec
  exec_again p w w' = sent_again p w w' (to_send answers now p.cfg p.local_cache) refl
