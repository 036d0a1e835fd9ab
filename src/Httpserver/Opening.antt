-- ===== src/Httpserver/Opening.antt =====
-- pkg/httpserver/server.go: what `ListenAndServeDual` sets up: the handler's headers, and a certificate
-- for every handshake.
use opn_box.Base.{
  ℕ, ◌≡◌, ◌≢◌, refl, ap, ◌∙◌, true, false, Option, none, some, is_some, List, [], ◌∷◌, Bytes,
  length, ◌==◌, bytes_eq, bytes_eq_iff, bytes_eq_self, if◌then◌else◌, arith, Bool-cases, inl, inr,
}
use opn_box.Base.Dict.{Dict, lookup, put, remove, lookup-put, lookup-remove}
use opn_box.Text.{text}
use opn_box.Httpserver.{
  CertManager, new_cert_manager, reload, loaded, on_stat, refreshed, chosen, get_certificate,
}
use opn_box.Httpserver.Start.{
  Config, Crypto, InterfaceAddr, Writer, with_headers, wrapped_handler, manager,
  generate_self_signed_cert,
}

-- The header that the wrapped handler finds: no frame option, any origin, and otherwise what there was.
pub record Opened (before after : Writer) : Type 0 where
  pub framed : lookup (text "X-Frame-Options") after.header ≡ none
  pub origin : lookup (text "Access-Control-Allow-Origin") after.header ≡ some (text "*" ∷ [])
  pub kept :
      (name : Bytes)
      → name ≢ text "X-Frame-Options"
      → name ≢ text "Access-Control-Allow-Origin"
      → name ≢ text "Access-Control-Allow-Methods"
      → name ≢ text "Access-Control-Allow-Headers"
      → lookup name after.header ≡ lookup name before.header
  pub status : after.status ≡ before.status

module _ (a b c x : Bytes) (u v w : List Bytes) (h : Dict (List Bytes)) where
  lookup-set_three :
      (name : Bytes)
      → lookup name (put a u (put b v (put c w (remove x h)))) ≡ (
          if bytes_eq a name
          then some u
          else if bytes_eq b name
          then some v
          else if bytes_eq c name
          then some w
          else if bytes_eq x name
          then none
          else lookup name h)
  lookup-set_three name =
      rw
        (
          lookup-put a name u (put b v (put c w (remove x h))),
          lookup-put b name v (put c w (remove x h)),
          lookup-put c name w (remove x h),
          lookup-remove x name h,
        )
        refl

  lookup-other :
      (name : Bytes)
      → name ≢ x
      → name ≢ c
      → name ≢ b
      → name ≢ a
      → lookup name (put a u (put b v (put c w (remove x h)))) ≡ lookup name h
  lookup-other name not_x not_c not_b not_a =
      let other : (k : Bytes) → name ≢ k → bytes_eq k name ≡ false =
        λ k n. ground (arith, bytes_eq_iff k name, n) in
      lookup-set_three name ∙ rw (other a not_a, other b not_b, other c not_c, other x not_x) refl

with_headers-Opened : (w : Writer) → Opened w (with_headers w)
unfolding with_headers bytes_eq
with_headers-Opened w = record {
  framed = lookup-set_three _ _ _ _ _ _ _ w.header (text "X-Frame-Options");
  origin = lookup-set_three _ _ _ _ _ _ _ w.header (text "Access-Control-Allow-Origin");
  kept = lookup-other _ _ _ _ _ _ _ w.header;
  status = refl;
}

module _ {Request World : Type 0} (method : Request → Bytes)
    (handler : Writer → Request → World → Writer × World) where
  -- Every response can be framed and read from any origin, unless the handler itself says otherwise: the
  -- handler gets the writer without X-Frame-Options, with the header for any origin, and with what else
  -- there was. A request of method OPTIONS is answered with these headers and the status 200, and never
  -- reaches the handler; any other is the handler's.
  pub wrapped_handler-Opened :
      (w : Writer) (r : Request) (world : World)
      → (w' : Writer) × Opened w w'
        × (method r ≡ text "OPTIONS"
            → wrapped_handler method handler w r world ≡ (record w' { status = some 200 }, world))
        × (method r ≢ text "OPTIONS"
            → wrapped_handler method handler w r world ≡ handler w' r world)
  unfolding wrapped_handler
  wrapped_handler-Opened w r world = (
    with_headers w,
    with_headers-Opened w,
    λ h. rw h (rw (bytes_eq_self (text "OPTIONS")) refl),
    λ h. ground (arith, h, bytes_eq_iff (method r) (text "OPTIONS")),
  )

-- The files as one handshake finds them.
pub record Disk (Cert : Type 0) : Type 0 where
  pub stat : Bytes → Option ℕ
  pub restat : Bytes → Option ℕ
  pub load : Bytes → Bytes → Option Cert

module _ {Cert : Type 0} where
  -- The answers of successive handshakes.
  unfoldable pub handshakes : CertManager Cert → List (Disk Cert) → List (Option Cert)
  handshakes cm [] = []
  handshakes cm (disk ∷ disks) =
      let (cm', cert) = get_certificate disk.stat disk.restat disk.load cm in
      cert ∷ handshakes cm' disks

  abbrev pub AllServed : List (Option Cert) → Type 0
  AllServed [] = Unit {0}
  AllServed (cert ∷ certs) = (is_some cert ≡ true) × AllServed certs

  loaded_fallback :
      (stat : Bytes → Option ℕ) (load : Bytes → Bytes → Option Cert) (cm : CertManager Cert) (n : ℕ)
      (o : Option Cert)
      → (loaded stat load cm n o).fallback ≡ cm.fallback
  loaded_fallback stat load cm n none = refl
  loaded_fallback stat load cm n (some cert) = refl

  on_stat_fallback :
      (stat : Bytes → Option ℕ) (load : Bytes → Bytes → Option Cert) (cm : CertManager Cert)
      (o : Option ℕ)
      → (on_stat stat load cm o).fallback ≡ cm.fallback
  on_stat_fallback stat load cm none = refl
  on_stat_fallback stat load cm (some n) = loaded_fallback stat load cm n _

  reload_fallback :
      (stat : Bytes → Option ℕ) (load : Bytes → Bytes → Option Cert) (cm : CertManager Cert)
      → (reload stat load cm).fallback ≡ cm.fallback
  unfolding reload
  reload_fallback stat load cm = elim (Bool-cases (length cm.cert_file == 0)) [
    | inl e ↦ rw e refl
    | inr e ↦ rw e (on_stat_fallback stat load cm (stat cm.cert_file))
  ]

  refreshed_fallback :
      (disk : Disk Cert) (cm : CertManager Cert)
      → (refreshed disk.stat disk.restat disk.load cm).fallback ≡ cm.fallback
  refreshed_fallback disk cm = ground (arith, reload_fallback disk.restat disk.load cm)

  chosen_served :
      (disk : Disk Cert) (cm : CertManager Cert) (o : Option Cert)
      → is_some cm.fallback ≡ true
      → is_some (chosen disk.stat disk.restat disk.load cm o) ≡ true
  chosen_served disk cm (some c) h = refl
  chosen_served disk cm none h = h

  handshakes-AllServed :
      (cm : CertManager Cert) (disks : List (Disk Cert))
      → is_some cm.fallback ≡ true
      → AllServed (handshakes cm disks)
  unfolding handshakes get_certificate
  handshakes-AllServed cm [] h = tt
  handshakes-AllServed cm (disk ∷ disks) h =
      let cm' = refreshed disk.stat disk.restat disk.load cm in
      let h' : is_some cm'.fallback ≡ true = ap is_some (refreshed_fallback disk cm) ∙ h in
      (chosen_served disk cm' cm'.cached h', handshakes-AllServed cm' disks h')

module _ (crypto : Crypto) where
  -- Where a certificate could be made at the start, every handshake is answered with one, whatever the
  -- configuration names, and whatever becomes of the files, at the start and between the handshakes.
  pub manager-AllServed :
      (disk : Disk crypto.Cert) (now : ℕ) (addrs : Option (List InterfaceAddr)) (cfg : Config)
      (disks : List (Disk crypto.Cert))
      → is_some (generate_self_signed_cert crypto now addrs) ≡ true
      → AllServed (handshakes (manager crypto disk.stat disk.load now addrs cfg) disks)
  unfolding manager new_cert_manager
  manager-AllServed disk now addrs cfg disks h =
      handshakes-AllServed _ disks (ap is_some (reload_fallback disk.stat disk.load _) ∙ h)
