-- ===== src/Httpserver/Certificates.antt =====
-- pkg/httpserver/server.go: which certificate the server shows.
use opn_box.Base.{
  ℕ, ◌≤◌, ◌<◌, ◌≡◌, ◌≢◌, refl, sym, ◌⊎◌, inl, inr, Option, none, some, Bytes, length, ltb, ◌==◌,
  arith, Bool-cases, if◌then◌else◌,
}
use mathlib.Core.Path.{subst}
use opn_box.Httpserver.{CertManager, reload, refreshed, chosen, get_certificate}

module _ {Cert : Type 0} (stat restat : Bytes → Option ℕ) (load : Bytes → Bytes → Option Cert) where
  -- What the files of the configured paths hold: without a path for the key it is in the first file.
  abbrev loading : CertManager Cert → Option Cert
  loading cm = load cm.cert_file (if length cm.key_file == 0 then cm.cert_file else cm.key_file)

  -- Why nothing is taken over: no file is configured, it has no time, it is not newer than the one in
  -- use, it has no time when it is looked at again, or it does not load.
  abbrev pub IsCurrent : CertManager Cert → Type 0
  IsCurrent cm =
      (length cm.cert_file ≡ 0)
      ⊎ (stat cm.cert_file ≡ none)
      ⊎ ((modified : ℕ) × (stat cm.cert_file ≡ some modified) × (modified ≤ cm.last_mod))
      ⊎ (restat cm.cert_file ≡ none)
      ⊎ (loading cm ≡ none)

  -- The state stays, for one of these reasons, or takes over a certificate that loads from a file that
  -- was newer than the one in use, with the time that the second look gives.
  abbrev pub Refreshes : CertManager Cert → CertManager Cert → Type 0
  Refreshes cm cm' =
      (cm' ≡ cm) × IsCurrent cm
      ⊎ (seen modified : ℕ) × (cert : Cert) × (length cm.cert_file ≢ 0)
        × (stat cm.cert_file ≡ some seen)
        × (cm.last_mod < seen)
        × (restat cm.cert_file ≡ some modified)
        × (loading cm ≡ some cert)
        × (cm' ≡ record cm { cached = some cert; last_mod = modified })

  -- What is shown: the certificate in use, or the fallback where there is none.
  abbrev pub Shows : CertManager Cert → Option Cert → Type 0
  Shows cm shown =
      ((cert : Cert) × (cm.cached ≡ some cert) × (shown ≡ some cert))
      ⊎ (cm.cached ≡ none) × (shown ≡ cm.fallback)

  chosen-Shows :
      (cm : CertManager Cert) (o : Option Cert)
      → cm.cached ≡ o
      → Shows cm (chosen stat restat load cm o)
  chosen-Shows cm (some cert) e = inl (cert, e, refl)
  chosen-Shows cm none e = inr (e, refl)

  reload-Refreshes :
      (cm : CertManager Cert) (seen : ℕ) (again : Option ℕ) (found : Option Cert)
      → length cm.cert_file ≢ 0
      → stat cm.cert_file ≡ some seen
      → cm.last_mod < seen
      → restat cm.cert_file ≡ again
      → loading cm ≡ found
      → Refreshes cm (reload restat load cm)
  unfolding reload
  reload-Refreshes cm seen none found n s l a e =
      inl (ground (arith, n, a), inr (inr (inr (inl a))))
  reload-Refreshes cm seen (some modified) none n s l a e =
      inl (ground (arith, n, a, e), inr (inr (inr (inr e))))
  reload-Refreshes cm seen (some modified) (some cert) n s l a e =
      inr (seen, modified, cert, n, s, l, a, e, ground (arith, n, a, e))

  stated-Refreshes :
      (cm : CertManager Cert) (found : Option ℕ)
      → length cm.cert_file ≢ 0
      → stat cm.cert_file ≡ found
      → Refreshes cm (refreshed stat restat load cm)
  stated-Refreshes cm none n s = inl (ground (arith, s), inr (inl s))
  stated-Refreshes cm (some seen) n s = elim (Bool-cases (ltb cm.last_mod seen)) [
    | inr l ↦ inl (ground (arith, s, l), inr (inr (inl (seen, s, ground (arith, l)))))
    | inl l ↦
        let taken : refreshed stat restat load cm ≡ reload restat load cm =
          ground (arith, n, s, l) in
        subst (Refreshes cm) (sym taken) (
          reload-Refreshes cm seen (restat cm.cert_file) (loading cm) n s (ground (arith, l)) refl
            refl)
  ]

  -- A handshake takes over the certificate of the configured files, with the time of its second look
  -- at them, exactly where the file is newer than the one in use and loads: it keeps the manager as it
  -- is only if no file is configured, the first look finds none or one that is not newer, the second
  -- look finds none, or the files do not load. It shows the certificate then in use, and the fallback
  -- where there is none.
  pub get_certificate-Refreshes :
      (cm : CertManager Cert)
      → Refreshes cm (get_certificate stat restat load cm).0
        × Shows (get_certificate stat restat load cm).0 (get_certificate stat restat load cm).1
  unfolding get_certificate
  get_certificate-Refreshes cm =
      let cm' = refreshed stat restat load cm in
      let shown = chosen-Shows cm' cm'.cached refl in
      elim (Bool-cases (length cm.cert_file == 0)) [
        | inl e ↦ (inl (rw e refl, inl (ground (arith, e))), shown)
        | inr e ↦ (stated-Refreshes cm (stat cm.cert_file) (ground (arith, e)) refl, shown)
      ]
