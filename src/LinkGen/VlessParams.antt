-- ===== src/LinkGen/VlessParams.antt =====
-- The parameters of a VLESS link, and the stream that is read off them.
use x_ui_glass.Shared.{
  String, Bool, true, false, ◌≡◌, refl, ap, ◌∙◌, Option, some, [], str_eq, if◌then◌else◌, includes,
  or_else,
}
use x_ui_glass.Shared.Property.{lookup, map_set, lookup-map_set, Distinct, map_set-Distinct}
use x_ui_glass.Json.{str, prop}
use x_ui_glass.Platform.{Web, get_or}
use x_ui_glass.Inbound.{network_name, ExternalProxy, StreamSettings}
use x_ui_glass.LinkGen.Query.{Params, put, network_params, final_mask_params}
use x_ui_glass.LinkGen.Urls.{vless_params, vless_security_params}
use x_ui_glass.LinkGen.Written.{
  written, external_proxy_params_keeps, vless_tls_branch_keeps, vless_reality_branch_keeps,
  network_params_keeps, final_mask_params_keeps, lookup-closed,
}
use x_ui_glass.LinkParser.Kept.{prop-stream_of_params}
use x_ui_glass.LinkParser.{stream_of_params}

pub map_set-closed :
    (k v : String) (p : Params) → includes written k ≡ true → Distinct p → Distinct (map_set k v p)
map_set-closed k v p w d = map_set-Distinct k v p d

-- The security that a link names.
abbrev pub named_security : String → String
named_security security =
    if str_eq security "tls" then "tls" else if str_eq security "reality" then "reality" else "none"

module _ {N : Type 0} (web : Web N) where
  module _ (P : Params → Type 0)
      (closed : (k v : String) (p : Params) → includes written k ≡ true → P p → P (map_set k v p))
      (start : Params) (stream : StreamSettings N) (flow : String)
      (proxy : Option ExternalProxy) where
    branches :
        (b c : Bool) {x y z : Params}
        → (P (put "security" "tls" start) → P x)
        → (P (put "security" "reality" start) → P y)
        → (P (put "security" "none" start) → P z)
        → P (put "security" (if b then "tls" else if c then "reality" else "none") start)
        → P (if b then x else if c then y else z)
    branches true c f g h k = f k
    branches false true f g h k = g k
    branches false false f g h k = h k

    -- What holds once the security is set holds after the branches on the security.
    security_branches :
        (security : String)
        → P (put "security" (named_security security) start)
        → P (vless_security_params web stream security flow proxy start)
    unfolding vless_security_params
    security_branches security =
        branches (str_eq security "tls") (str_eq security "reality")
          (λ k.
            external_proxy_params_keeps P closed proxy security _
              (vless_tls_branch_keeps P closed web stream.transport stream.security flow _ k))
          (λ k. vless_reality_branch_keeps P closed web stream.transport stream.security flow _ k)
          (λ k. k)

  -- Before the security.
  abbrev vless_start : StreamSettings N → String → Params
  vless_start stream encryption = final_mask_params web stream.finalmask (
      network_params web stream.transport
        (put "encryption" encryption (put "type" (network_name stream.transport) [])))

  vless_start_lem :
      (P : Params → Type 0)
      → ((k v : String) (p : Params) → includes written k ≡ true → P p → P (map_set k v p))
      → (stream : StreamSettings N) (encryption : String)
      → P (put "encryption" encryption (put "type" (network_name stream.transport) []))
      → P (vless_start stream encryption)
  vless_start_lem P closed stream encryption h =
      final_mask_params_keeps P closed web stream.finalmask _
        (network_params_keeps P closed web stream.transport _ h)

  module _ (stream : StreamSettings N) (encryption security flow : String)
      (proxy : Option ExternalProxy) where
    pub vless_params-Distinct : Distinct (vless_params web stream encryption security flow proxy)
    unfolding vless_params
    vless_params-Distinct =
        security_branches Distinct map_set-closed (vless_start stream encryption) stream flow proxy
          security
          (map_set-Distinct "security" (named_security security) (vless_start stream encryption) (
            vless_start_lem Distinct map_set-closed stream encryption (
              map_set-Distinct "encryption" encryption
                (put "type" (network_name stream.transport) [])
                (map_set-Distinct "type" (network_name stream.transport) [] tt))))

    lookup-vless_params :
        (k : String) (o : Option String)
        → includes written k ≡ false
        → str_eq "security" k ≡ false
        → lookup k (put "encryption" encryption (put "type" (network_name stream.transport) [])) ≡ o
        → lookup k (vless_params web stream encryption security flow proxy) ≡ o
    unfolding vless_params
    lookup-vless_params k o h q e =
        security_branches (λ p. lookup k p ≡ o) (lookup-closed k o h)
          (vless_start stream encryption) stream flow proxy security
          (lookup-map_set "security" k _ (vless_start stream encryption)
            ∙ rw q
                (vless_start_lem (λ p. lookup k p ≡ o) (lookup-closed k o h) stream encryption e))

    pub lookup-vless_params_security :
        lookup "security" (vless_params web stream encryption security flow proxy)
        ≡ some (named_security security)
    unfolding vless_params includes
    lookup-vless_params_security =
        security_branches (λ p. lookup "security" p ≡ some (named_security security))
          (lookup-closed "security" (some (named_security security)) refl)
          (vless_start stream encryption) stream flow proxy security
          (lookup-map_set "security" "security" (named_security security)
            (vless_start stream encryption))

    pub lookup-vless_params_type :
        lookup "type" (vless_params web stream encryption security flow proxy)
        ≡ some (network_name stream.transport)
    unfolding includes
    lookup-vless_params_type =
        lookup-vless_params "type" _ refl refl (unfold lookup map_set in refl)

    pub lookup-vless_params_encryption :
        lookup "encryption" (vless_params web stream encryption security flow proxy)
        ≡ some encryption
    unfolding includes
    lookup-vless_params_encryption =
        lookup-vless_params "encryption" _ refl refl (unfold lookup map_set in refl)

  -- The stream that is read off a VLESS link has the network of the inbound's stream, and the
  -- security that the link was generated with, where a security other than TLS and REALITY is
  -- `none`; and the link names the encryption of the inbound.
  pub prop-vless_params :
      (stream : StreamSettings N) (encryption security flow default_security : String)
      (proxy : Option ExternalProxy)
      → (let p = vless_params web stream encryption security flow proxy in
          (prop (stream_of_params web p default_security) "network"
            ≡ str (network_name stream.transport))
          × (prop (stream_of_params web p default_security) "security"
              ≡ str (named_security security))
          × (get_or "encryption" p "none" ≡ encryption))
  prop-vless_params stream encryption security flow default_security proxy =
      let p = vless_params web stream encryption security flow proxy in
      let read : (k d : String) (v : String) → lookup k p ≡ some v → get_or k p d ≡ v =
        λ k d v e. ap (λ o. or_else o d) e in
      let (n, s) = prop-stream_of_params web p default_security in
      (
        n
            ∙ ap str (
                read "type" "tcp" _
                  (lookup-vless_params_type stream encryption security flow proxy)),
        s
            ∙ ap str (
                read "security" default_security _
                  (lookup-vless_params_security stream encryption security flow proxy)),
        read "encryption" "none" _
            (lookup-vless_params_encryption stream encryption security flow proxy),
      )
