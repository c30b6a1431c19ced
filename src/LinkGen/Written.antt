-- ===== src/LinkGen/Written.antt =====
-- What holds of the parameters of a VLESS link whatever its stream writes into them: a property
-- that every written parameter keeps.
use x_ui_glass.Shared.{
  String, true, false, ◌≡◌, refl, sym, ap, ◌∙◌, Option, none, some, List, [], ◌∷◌, str_eq, eq_iff,
  if_intro, maybe_intro, includes, is_empty,
}
use x_ui_glass.Shared.Property.{lookup, map_set, lookup-map_set}
use x_ui_glass.Json.{Value}
use x_ui_glass.Platform.{Web}
use x_ui_glass.Inbound.{
  plain, http, Transport, tcp, kcp, ws, httpupgrade, grpc, xhttp, hysteria_transport, network_name,
  Security, plain_security, tls, reality, ExternalProxy, XhttpSettings, TlsSettings,
  RealitySettings,
}
use x_ui_glass.LinkGen.Query.{
  Params, put_nonempty, put_list, put_first, network_params, xhttp_extra_params, final_mask_params,
  tls_params, reality_params, external_proxy_params, build_xhttp_extra,
}
use x_ui_glass.LinkGen.Urls.{
  vless_tls_params, vless_tls_branch, vless_reality_branch, tls_branch, reality_branch,
}

-- The names that the network, the mask and the security write.
abbrev pub written : List String
written =
    "path" ∷ "host" ∷ "headerType" ∷ "tti" ∷ "mtu" ∷ "serviceName" ∷ "authority" ∷ "mode"
    ∷ "x_padding_bytes" ∷ "extra" ∷ "fm" ∷ "alpn" ∷ "fp" ∷ "sni" ∷ "ech" ∷ "pcs" ∷ "pbk" ∷ "sid"
    ∷ "spx" ∷ "pqv" ∷ "flow" ∷ []

module _ (P : Params → Type 0)
    (closed : (k v : String) (p : Params)
      → includes written k ≡ true
      → P p
      → P (map_set k v p)) where
  put_nonempty_keeps :
      (k s : String) (p : Params) → includes written k ≡ true → P p → P (put_nonempty k s p)
  put_nonempty_keeps k s p w d = if_intro P (is_empty s) (λ _. d) (λ _. closed k s p w d)

  put_list_keeps :
      (k : String) (xs : List String) (p : Params)
      → includes written k ≡ true
      → P p
      → P (put_list k xs p)
  put_list_keeps k [] p w d = d
  put_list_keeps k (x ∷ xs) p w d = closed k _ p w d

  put_first_keeps :
      (k : String) (xs : List String) (p : Params)
      → includes written k ≡ true
      → P p
      → P (put_first k xs p)
  put_first_keeps k [] p w d = d
  put_first_keeps k (x ∷ xs) p w d = closed k x p w d

  pub tls_params_keeps : (t : TlsSettings) (p : Params) → P p → P (tls_params t p)
  unfolding includes tls_params
  tls_params_keeps t p d =
      search (closed, put_nonempty_keeps, put_list_keeps, put_first_keeps) depth 9

  reality_params_keeps : (r : RealitySettings) (p : Params) → P p → P (reality_params r p)
  unfolding includes reality_params
  reality_params_keeps r p d =
      search (closed, put_nonempty_keeps, put_list_keeps, put_first_keeps) depth 9

  pub external_proxy_params_keeps :
      (proxy : Option ExternalProxy) (security : String) (p : Params)
      → P p
      → P (external_proxy_params proxy security p)
  unfolding includes external_proxy_params
  external_proxy_params_keeps none security p d = d
  external_proxy_params_keeps (some e) security p d =
      if_intro P (str_eq security "tls")
        (λ _. search (closed, put_nonempty_keeps, put_list_keeps, put_first_keeps) depth 9) (λ _. d)

  module _ {N : Type 0} (web : Web N) where
    xhttp_extra_params_keeps :
        (x : XhttpSettings) (p : Params) → P p → P (xhttp_extra_params web x p)
    unfolding includes xhttp_extra_params
    xhttp_extra_params_keeps x p d =
        maybe_intro P (build_xhttp_extra x)
          (λ _. search (closed, put_nonempty_keeps, put_list_keeps, put_first_keeps) depth 9)
          (λ extra _. search (closed, put_nonempty_keeps, put_list_keeps, put_first_keeps) depth 9)

    pub network_params_keeps : (t : Transport) (p : Params) → P p → P (network_params web t p)
    unfolding includes network_params
    network_params_keeps (tcp (some (http (some request) response))) p d =
        search (closed, put_nonempty_keeps, put_list_keeps, put_first_keeps) depth 9
    network_params_keeps (tcp (some (http none response))) p d = d
    network_params_keeps (tcp (some plain)) p d = d
    network_params_keeps (tcp none) p d = d
    network_params_keeps (kcp k) p d =
        search (closed, put_nonempty_keeps, put_list_keeps, put_first_keeps) depth 9
    network_params_keeps (ws w) p d =
        search (closed, put_nonempty_keeps, put_list_keeps, put_first_keeps) depth 9
    network_params_keeps (httpupgrade w) p d =
        search (closed, put_nonempty_keeps, put_list_keeps, put_first_keeps) depth 9
    network_params_keeps (grpc g) p d =
        if_intro P g.multi_mode
          (λ _. search (closed, put_nonempty_keeps, put_list_keeps, put_first_keeps) depth 9)
          (λ _. search (closed, put_nonempty_keeps, put_list_keeps, put_first_keeps) depth 9)
    network_params_keeps (xhttp x) p d = xhttp_extra_params_keeps x p d
    network_params_keeps hysteria_transport p d = d

    vless_tls_params_keeps :
        (transport : Transport) (t : TlsSettings) (flow : String) (p : Params)
        → P p
        → P (vless_tls_params web transport t flow p)
    unfolding includes vless_tls_params
    vless_tls_params_keeps transport t flow p d =
        if_intro P (str_eq (network_name transport) "tcp")
          (λ _. search (closed, put_nonempty_keeps, put_list_keeps, put_first_keeps) depth 9)
          (λ _. search (closed, put_nonempty_keeps, put_list_keeps, put_first_keeps) depth 9)

    pub vless_tls_branch_keeps :
        (transport : Transport) (security : Security) (flow : String) (p : Params)
        → P p
        → P (vless_tls_branch web transport security flow p)
    unfolding includes vless_tls_branch
    vless_tls_branch_keeps transport plain_security flow p d = d
    vless_tls_branch_keeps transport (tls t) flow p d = vless_tls_params_keeps transport t flow p d
    vless_tls_branch_keeps transport (reality r) flow p d = d

    pub vless_reality_branch_keeps :
        (transport : Transport) (security : Security) (flow : String) (p : Params)
        → P p
        → P (vless_reality_branch web transport security flow p)
    unfolding includes vless_reality_branch
    vless_reality_branch_keeps transport plain_security flow p d = d
    vless_reality_branch_keeps transport (tls t) flow p d = d
    vless_reality_branch_keeps transport (reality r) flow p d =
        if_intro P (str_eq (network_name transport) "tcp")
          (λ _. put_nonempty_keeps "flow" flow _ refl (reality_params_keeps r p d))
          (λ _. reality_params_keeps r p d)

    pub final_mask_params_keeps :
        (mask : Option (Value N)) (p : Params) → P p → P (final_mask_params web mask p)
    unfolding includes final_mask_params
    final_mask_params_keeps mask p d =
        search (closed, put_nonempty_keeps, put_list_keeps, put_first_keeps) depth 9

    pub tls_branch_keeps : (security : Security) (p : Params) → P p → P (tls_branch web security p)
    unfolding tls_branch
    tls_branch_keeps plain_security p d = d
    tls_branch_keeps (tls t) p d = tls_params_keeps t p d
    tls_branch_keeps (reality r) p d = d

    pub reality_branch_keeps :
        (security : Security) (p : Params) → P p → P (reality_branch web security p)
    unfolding reality_branch
    reality_branch_keeps plain_security p d = d
    reality_branch_keeps (tls t) p d = d
    reality_branch_keeps (reality r) p d = reality_params_keeps r p d

-- A name that is not among the written ones keeps its value.
pub lookup-closed :
    (n : String) (o : Option String)
    → includes written n ≡ false
    → (k v : String) (p : Params) → includes written k ≡ true
    → lookup n p ≡ o
    → lookup n (map_set k v p) ≡ o
lookup-closed n o h k v p w e =
    lookup-map_set k n v p
    ∙ if_intro (λ x. x ≡ o) (str_eq k n)
        (λ q. cc (sym w ∙ ap (includes written) ((eq_iff k n).0 q) ∙ h)) (λ _. e)
