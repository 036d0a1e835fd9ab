-- ===== src/Httpserver.antt =====
-- pkg/httpserver/server.go: HTTP and HTTPS on one port, and the certificate that is read again when
-- its file changes. The network is a parameter, a record of operations on a world, and so are the
-- files: `stat` gives a file's modification time, `load` stands for `tls.LoadX509KeyPair`.
pub mod Certificates
pub mod Connections
pub mod Start
pub mod Opening
use opn_box.Base.{
  ℕ, zero, suc, Bool, true, false, ◌&&◌, Option, none, some, List, [], ◌∷◌, Bytes, length, take,
  drop, ltb, ◌==◌, if◌then◌else◌,
}
use opn_box.Base.Outcome.{Result, ok, err}

-- The listener and its connections. `temporary` is the method of `net.Error`, false of other errors.
pub record Network : Type 1 where
  pub World : Type 0
  pub Raw : Type 0
  pub Failure : Type 0
  pub accept : World → World × Result Failure Raw
  pub set_read_deadline : World → Raw → Option ℕ → World
  pub read : World → Raw → ℕ → World × Result Failure Bytes
  pub close : World → Raw → World
  pub temporary : Failure → Bool

-- `peekConn`: the connection, and what is left of the bytes that were read ahead.
pub record PeekConn (Raw : Type 0) : Type 0 where
  pub raw : Raw
  pub ahead : Bytes

-- What `Accept` returns: a TLS server side or a plain connection.
pub data Accepted (Raw : Type 0) : Type 0 where
  secure plain : PeekConn Raw → Accepted Raw

-- `buf[0]`, zero where nothing was read.
abbrev pub first_byte : Bytes → ℕ
first_byte [] = 0
first_byte (b ∷ bs) = b

abbrev pub client_hello : ℕ
client_hello = 0x16

abbrev pub peek_timeout : ℕ
peek_timeout = 3000000000

module _ (net : Network) where
  open net use {World, Raw, Failure, accept, set_read_deadline, read, close, temporary}

  -- `peekConn.Read`: `io.MultiReader` gives what was read ahead first.
  unfoldable pub peek_read : PeekConn Raw → World → ℕ → PeekConn Raw × World × Result Failure Bytes
  peek_read c w n = elim c.ahead [
    | b ∷ bs ↦ (record c { ahead = drop n (b ∷ bs) }, w, ok (take n (b ∷ bs)))
    | [] ↦ let (w', r) = read w c.raw n in (c, w', r)
  ]

  abbrev pub detected : Bool → PeekConn Raw → Accepted Raw
  detected has_tls c = if first_byte c.ahead == client_hello && has_tls then secure c else plain c

  -- What `Accept` makes of the first byte.
  abbrev pub on_first :
      Bool → World → Raw → Result Failure Bytes → World × Result Failure (Accepted Raw)
  on_first has_tls w c (err e) = (close w c, err e)
  on_first has_tls w c (ok bs) = (w, ok (detected has_tls (record { raw = c; ahead = bs })))

  abbrev pub on_accepted : Bool → World × Result Failure Raw → World × Result Failure (Accepted Raw)
  on_accepted has_tls (w, err e) = (w, err e)
  on_accepted has_tls (w, ok c) =
      let (w', r) = read (set_read_deadline w c (some peek_timeout)) c 1 in
      on_first has_tls (set_read_deadline w' c none) c r

  -- `dualListener.Accept`
  unfoldable pub dual_accept : Bool → World → World × Result Failure (Accepted Raw)
  dual_accept has_tls w = on_accepted has_tls (accept w)

  abbrev pub Served : Type 0
  Served = World × List (Accepted Raw) × Option Failure

  abbrev more : Accepted Raw → Served → Served
  more c (w, cs, e) = (w, c ∷ cs, e)

  abbrev on_round : (World → Served) → World × Result Failure (Accepted Raw) → Served
  on_round rest (w, ok c) = more c (rest w)
  on_round rest (w, err e) = if temporary e then rest w else (w, [], some e)

  -- The loop of `srv.Serve` over `n` rounds: the connections that it serves, and the error with which
  -- it returns. A temporary error is retried, any other ends the loop.
  unfoldable pub serve : ℕ → Bool → World → Served
  serve zero has_tls w = (w, [], none)
  serve (suc n) has_tls w = on_round (serve n has_tls) (dual_accept has_tls w)

-- `certManager`; the zero time is 0.
pub record CertManager (Cert : Type 0) : Type 0 where
  pub cert_file : Bytes
  pub key_file : Bytes
  pub last_mod : ℕ
  pub cached : Option Cert
  pub fallback : Option Cert

module _ {Cert : Type 0} (stat : Bytes → Option ℕ) (load : Bytes → Bytes → Option Cert) where
  abbrev pub key_path : CertManager Cert → Bytes
  key_path cm = if length cm.key_file == 0 then cm.cert_file else cm.key_file

  abbrev pub loaded : CertManager Cert → ℕ → Option Cert → CertManager Cert
  loaded cm modified none = cm
  loaded cm modified (some cert) = record cm { cached = some cert; last_mod = modified }

  abbrev pub on_stat : CertManager Cert → Option ℕ → CertManager Cert
  on_stat cm none = cm
  on_stat cm (some modified) = loaded cm modified (load cm.cert_file (key_path cm))

  -- `certManager.reload`; its callers drop its error.
  unfoldable pub reload : CertManager Cert → CertManager Cert
  reload cm = if length cm.cert_file == 0 then cm else on_stat cm (stat cm.cert_file)

  -- `newCertManager`; `made` is the certificate that `generateSelfSignedCert` returns.
  unfoldable pub new_cert_manager : Option Cert → Bytes → Bytes → CertManager Cert
  new_cert_manager made cert_file key_file = reload (record {
    cert_file = cert_file;
    key_file = key_file;
    last_mod = 0;
    cached = none;
    fallback = made;
  })

-- `restat` is what `reload` finds, behind the `stat` of `getCertificate`.
module _ {Cert : Type 0} (stat restat : Bytes → Option ℕ) (load : Bytes → Bytes → Option Cert) where
  abbrev pub is_newer : CertManager Cert → Option ℕ → Bool
  is_newer cm none = false
  is_newer cm (some modified) = ltb cm.last_mod modified

  abbrev pub refreshed : CertManager Cert → CertManager Cert
  refreshed cm =
      if length cm.cert_file == 0
      then cm
      else if is_newer cm (stat cm.cert_file)
      then reload restat load cm
      else cm

  abbrev pub chosen : CertManager Cert → Option Cert → Option Cert
  chosen cm (some cert) = some cert
  chosen cm none = cm.fallback

  -- `certManager.getCertificate`
  unfoldable pub get_certificate : CertManager Cert → CertManager Cert × Option Cert
  get_certificate cm = let cm' = refreshed cm in (cm', chosen cm' cm'.cached)
