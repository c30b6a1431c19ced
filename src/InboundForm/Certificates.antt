-- ===== src/InboundForm/Certificates.antt =====
-- The switch that the form adds to each certificate.
use x_ui_glass.Shared.{
  ◌≡◌, refl, sym, ap, ◌∙◌, Option, none, some, arith, Bool-cases, Option-cases, inl, inr, ◌>>=◌,
  >>=-eq-some,
}
use x_ui_glass.Json.{Value, bool, arr, obj, Items, nil, cons, Fields, prop, with_prop}
use x_ui_glass.Json.Laws.{without-with_prop, with-with_prop, prop-with_prop_self}
use x_ui_glass.Platform.{Web}
use x_ui_glass.Coerce.{as_object}
use x_ui_glass.InboundForm.{
  list_of, synthesize_cert, synthesize_certs, synthesize_tls_cert_use_file, strip_cert, strip_certs,
  strip_tls_cert_use_file, tls_certs, with_certs, is_boolean, use_file_of,
}

module _ {N : Type 0} where
  -- What is written for the certificates is read, and a second time replaces the first.
  tls_certs-with_certs :
      (cs : Items N) (stream : Fields N) → tls_certs (with_certs cs stream) ≡ some cs
  unfolding tls_certs with_certs as_object
  tls_certs-with_certs cs stream =
      let tls = as_object (prop stream "tlsSettings") in
      ap (λ v. list_of (prop (as_object v) "certificates"))
        (prop-with_prop_self "tlsSettings" (obj (with_prop "certificates" (arr cs) tls)) stream)
      ∙ ap list_of (prop-with_prop_self "certificates" (arr cs) tls)

  with-with_certs :
      (cs ds : Items N) (stream : Fields N)
      → with_certs cs (with_certs ds stream) ≡ with_certs cs stream
  unfolding with_certs as_object
  with-with_certs cs ds stream =
      let tls = as_object (prop stream "tlsSettings") in
      let old : Value N = obj (with_prop "certificates" (arr ds) tls) in
      ap
        (λ v.
          with_prop "tlsSettings" (obj (with_prop "certificates" (arr cs) (as_object v)))
            (with_prop "tlsSettings" old stream))
        (prop-with_prop_self "tlsSettings" old stream)
      ∙ ap (λ fs. with_prop "tlsSettings" (obj fs) (with_prop "tlsSettings" old stream))
          (with-with_prop "certificates" (arr cs) (arr ds) tls)
      ∙ with-with_prop "tlsSettings" (obj (with_prop "certificates" (arr cs) tls)) old stream

  module _ (web : Web N) where
    some_inj : {A : Type 0} {a b : A} → some a ≡ some b → a ≡ b
    some_inj h = cc

    strip-synthesize_cert :
        (c d : Value N) → synthesize_cert web c ≡ some d → strip_cert d ≡ strip_cert c
    unfolding synthesize_cert strip_cert
    strip-synthesize_cert (obj c) d h = elim (Bool-cases (is_boolean (prop c "useFile"))) [
      | inl e ↦ ap strip_cert (sym (some_inj (rw e at h)))
      | inr e ↦
          ap strip_cert (sym (some_inj (rw e at h)))
          ∙ ap (λ fs. some (obj fs)) (without-with_prop "useFile" (bool (use_file_of web c)) c)
    ]
    strip-synthesize_cert (arr vs) d h = ground arith
    strip-synthesize_cert Value.undefined d h = cc
    strip-synthesize_cert Value.null d h = cc
    strip-synthesize_cert (bool b) d h = cc
    strip-synthesize_cert (Value.num n) d h = cc
    strip-synthesize_cert (Value.str s) d h = cc

    strip-synthesize_certs :
        (cs ds : Items N) → synthesize_certs web cs ≡ some ds → strip_certs ds ≡ strip_certs cs
    unfolding synthesize_certs strip_certs
    strip-synthesize_certs nil ds h = ap strip_certs (sym (some_inj h))
    strip-synthesize_certs (cons c cs) ds h =
        let one = >>=-eq-some (synthesize_cert web c) _ h in
        let rest = >>=-eq-some (synthesize_certs web cs) _ one.2 in
        ap strip_certs (sym (some_inj rest.2))
        ∙ rw (strip-synthesize_cert c one.0 one.1, strip-synthesize_certs cs rest.0 rest.1) refl

    strip_some :
        (cs : Items N) (stream : Fields N)
        → tls_certs stream ≡ some cs
        → strip_tls_cert_use_file stream ≡ (strip_certs cs >>= λ c. some (with_certs c stream))
    unfolding strip_tls_cert_use_file
    strip_some cs stream e = rw e refl

    synthesize_some :
        (cs : Items N) (stream : Fields N)
        → tls_certs stream ≡ some cs
        → synthesize_tls_cert_use_file web stream
          ≡ (synthesize_certs web cs >>= λ c. some (with_certs c stream))
    unfolding synthesize_tls_cert_use_file
    synthesize_some cs stream e = rw e refl

    replaced :
        (o : Option (Items N)) (ds : Items N) (stream : Fields N)
        → (o >>= λ c. some (with_certs c (with_certs ds stream)))
          ≡ (o >>= λ c. some (with_certs c stream))
    replaced none ds stream = refl
    replaced (some c) ds stream = ap some (with-with_certs c ds stream)

    without_certs :
        (stream filled : Fields N)
        → tls_certs stream ≡ none
        → synthesize_tls_cert_use_file web stream ≡ some filled
        → stream ≡ filled
    unfolding synthesize_tls_cert_use_file
    without_certs stream filled e h = some_inj (rw e at h)

    -- The switch that the form adds to the certificates does not reach the wire: without it the
    -- stream is what it would be, had it never been added.
    pub strip-synthesize :
        (stream filled : Fields N)
        → synthesize_tls_cert_use_file web stream ≡ some filled
        → strip_tls_cert_use_file filled ≡ strip_tls_cert_use_file stream
    strip-synthesize stream filled h = elim (Option-cases (tls_certs stream)) [
      | inl e ↦ ap strip_tls_cert_use_file (sym (without_certs stream filled e h))
      | inr (cs, e) ↦
          let (ds, made, put) =
            >>=-eq-some (synthesize_certs web cs) (λ c. some (with_certs c stream))
              (sym (synthesize_some cs stream e) ∙ h) in
          ap strip_tls_cert_use_file (sym (some_inj put))
          ∙ strip_some ds (with_certs ds stream) (tls_certs-with_certs ds stream)
          ∙ ap (λ o. o >>= λ c. some (with_certs c (with_certs ds stream)))
              (strip-synthesize_certs cs ds made)
          ∙ replaced (strip_certs cs) ds stream
          ∙ sym (strip_some cs stream e)
    ]
