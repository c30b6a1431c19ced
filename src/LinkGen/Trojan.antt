-- ===== src/LinkGen/Trojan.antt =====
-- A Trojan link that is generated and then parsed: the generator encodes the password, and the
-- parser takes the user info as it stands.
use x_ui_glass.Shared.{
  String, Bool, true, false, ◌≡◌, refl, ap, ◌∙◌, Option, some, List, [], str_eq, if◌then◌else◌,
}
use x_ui_glass.Shared.Property.{Distinct, map_set-Distinct}
use x_ui_glass.Shared.Numeral.{decimal}
use x_ui_glass.Json.{Value, str, num, arr, obj, nil, cons, field, end}
use x_ui_glass.Platform.{Web, Url, number_or}
use x_ui_glass.Inbound.{
  network_name, Security, ForceTls, forced, ExternalProxy, StreamSettings, trojan, Inbound,
  ClientShape,
}
use x_ui_glass.LinkGen.Query.{Params, Target}
use x_ui_glass.LinkGen.Urls.{trojan_params, trojan_security_params, gen_trojan_link}
use x_ui_glass.LinkGen.Written.{
  external_proxy_params_keeps, tls_branch_keeps, reality_branch_keeps, network_params_keeps,
  final_mask_params_keeps,
}
use x_ui_glass.LinkGen.VlessParams.{map_set-closed}
use x_ui_glass.LinkGen.RoundTrip.{UrlLaws, with_params, linked, link_of_lem, decode_remark_lem}
use x_ui_glass.LinkParser.{
  parse_trojan_link, parse_url_link, decode_remark, stream_of_params, outbound, without_colon,
}

branch-Distinct :
    (b c : Bool) (x y z : Params)
    → Distinct x
    → Distinct y
    → Distinct z
    → Distinct (if b then x else if c then y else z)
branch-Distinct true c x y z h k l = h
branch-Distinct false true x y z h k l = k
branch-Distinct false false x y z h k l = l

module _ {N : Type 0} (web : Web N) where
  trojan_security_params-Distinct :
      (inbound_security : Security) (security : String) (proxy : Option ExternalProxy) (p : Params)
      → Distinct p
      → Distinct (trojan_security_params web inbound_security security proxy p)
  unfolding trojan_security_params
  trojan_security_params-Distinct inbound_security security proxy p d =
      branch-Distinct (str_eq security "tls") (str_eq security "reality") _ _ _
        (external_proxy_params_keeps Distinct map_set-closed proxy security _ (
          tls_branch_keeps Distinct map_set-closed web inbound_security _
            (map_set-Distinct "security" "tls" p d)))
        (reality_branch_keeps Distinct map_set-closed web inbound_security _
          (map_set-Distinct "security" "reality" p d))
        (map_set-Distinct "security" "none" p d)

  trojan_params-Distinct :
      (stream : StreamSettings N) (security : String) (proxy : Option ExternalProxy)
      → Distinct (trojan_params web stream security proxy)
  unfolding trojan_params
  trojan_params-Distinct stream security proxy =
      trojan_security_params-Distinct stream.security security proxy _ (
        final_mask_params_keeps Distinct map_set-closed web stream.finalmask _ (
          network_params_keeps Distinct map_set-closed web stream.transport _
            (map_set-Distinct "type" (network_name stream.transport) [] tt)))

  -- The outbound that a Trojan link with these parameters describes.
  abbrev pub trojan_of : String → Target → Params → Value N
  trojan_of user target p =
      outbound web "trojan" target.remark
        (obj (
          field "servers"
            (arr (
              cons
                (obj (
                  field "address" (str target.address) (
                    field "port" (num (number_or web (str (decimal target.port)) 443))
                      (field "password" (str user) end))))
                nil))
            end))
        (stream_of_params web p "tls")

  parse_trojan_link_lem :
      (link : String) (u : Url) (target : Target)
      → web.parse_url link ≡ some u
      → u.protocol ≡ "trojan:"
      → decode_remark web u ≡ target.remark
      → u.hostname ≡ target.address
      → u.port ≡ decimal target.port
      → parse_trojan_link web link ≡ some (trojan_of u.username target u.params)
  unfolding parse_trojan_link parse_url_link without_colon
  parse_trojan_link_lem link u target e k r h p = rw (e, k, r, h, p) refl

  -- A Trojan inbound with a stream has a link, and the parser reads off it the address, the port
  -- and the name that it was generated from, but as the password the percent encoding of the
  -- client's password, given what the URL interface promises.
  pub parse_trojan_link-gen_trojan_link :
      (inbound : Inbound N) (clients : Option (List ClientShape)) (stream : StreamSettings N)
      (target : Target) (force : ForceTls) (password : String) (proxy : Option ExternalProxy)
      → inbound.protocol ≡ trojan clients
      → inbound.stream ≡ some stream
      → UrlLaws web "trojan://" "trojan:"
          (web.encode_component password)
          target
          (trojan_params web stream (forced force stream.security) proxy)
      → (link : String) × (gen_trojan_link web inbound target force password proxy ≡ some link)
        × (parse_trojan_link web link
            ≡ some (
                trojan_of
                  (web.encode_component password)
                  target
                  (trojan_params web stream (forced force stream.security) proxy)))
  unfolding gen_trojan_link
  parse_trojan_link-gen_trojan_link inbound clients stream target force password proxy e k laws =
      let p = trojan_params web stream (forced force stream.security) proxy in
      let d : Distinct p = trojan_params-Distinct stream (forced force stream.security) proxy in
      let user = web.encode_component password in
      let u : Url = linked web "trojan:" user target p in
      let v : Url = record (with_params web "trojan:" user target p) { hash = u.hash } in
      (
        web.print_url u,
        rw (e, k) (link_of_lem web "trojan://" "trojan:" user target p laws d),
        parse_trojan_link_lem (web.print_url u) v target
            (laws.reads_back ∙ ap (λ x. some x) laws.sets_hash) refl
            (decode_remark_lem web v target.remark laws.decodes_hash) refl refl,
      )
