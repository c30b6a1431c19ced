-- ===== src/LinkGen/RoundTrip.antt =====
-- A link that is generated and then parsed: what the outbound has of the inbound.
use mathlib.Core.Path.{subst}
use mathlib.Core.List.{append_assoc, append-nil}
use x_ui_glass.Shared.{String, ◌≡◌, refl, sym, ap, ◌∙◌, Option, some, List, [], ◌∷◌, ◌++◌, ◌+++◌}
use x_ui_glass.Shared.Property.{Distinct, map_set_new, Distinct-middle}
use x_ui_glass.Shared.Numeral.{decimal}
use x_ui_glass.Json.{Value, str, num, obj, field, end}
use x_ui_glass.Platform.{Web, Url, get_or, number_or}
use x_ui_glass.Inbound.{
  ForceTls, forced, ExternalProxy, StreamSettings, vless, Inbound, ClientShape,
}
use x_ui_glass.LinkGen.Query.{Params, Target}
use x_ui_glass.LinkGen.Urls.{put_all, link_of, vless_params, gen_vless_link}
use x_ui_glass.LinkGen.VlessParams.{vless_params-Distinct}
use x_ui_glass.LinkGen.Written.{}
use x_ui_glass.LinkParser.{
  parse_vless_link, parse_url_link, decode_remark, stream_of_params, outbound, without_mark,
  without_colon,
}

put_all-append : (p q : Params) → Distinct (q ++ p) → put_all p q ≡ q ++ p
unfolding put_all
put_all-append [] q d = sym (append-nil q)
put_all-append ((k, v) ∷ p) q d =
    ap (put_all p) (map_set_new k v q (Distinct-middle q k v p d))
    ∙ put_all-append p (q ++ (k, v) ∷ []) (subst Distinct (sym (append_assoc q ((k, v) ∷ []) p)) d)
    ∙ append_assoc q ((k, v) ∷ []) p

module _ {N : Type 0} (web : Web N) where
  -- The URL that the text of a user info, an address and a port is.
  abbrev pub base_url : String → String → Target → Url
  base_url scheme user target = record {
    protocol = scheme;
    username = user;
    hostname = target.address;
    port = decimal target.port;
    params = [];
    hash = "";
  }

  -- The URL with the parameters of a link, before its name is set.
  abbrev pub with_params : String → String → Target → Params → Url
  with_params protocol user target p = record (base_url protocol user target) { params = p }

  abbrev pub linked : String → String → Target → Params → Url
  linked protocol user target p =
      web.set_hash (web.encode_component target.remark) (with_params protocol user target p)

  -- What the URL interface and the percent encoding promise of a link: its base URL is read into
  -- its parts, setting the hash sets nothing else, the printed URL is read back, and the name that
  -- was encoded and set as the hash is decoded from it.
  pub record UrlLaws (scheme protocol user : String) (target : Target) (p : Params) : Type 0 where
    pub reads_base :
        web.parse_url ((scheme +++ user) +++ "@" +++ target.address +++ ":" +++ decimal target.port)
        ≡ some (base_url protocol user target)
    pub sets_hash : linked protocol user target p ≡ record (with_params protocol user target p) {
      hash = (linked protocol user target p).hash;
    }
    pub reads_back :
        web.parse_url (web.print_url (linked protocol user target p))
        ≡ some (linked protocol user target p)
    pub decodes_hash :
        web.decode_component (without_mark (linked protocol user target p).hash)
        ≡ some target.remark

  pub link_of_lem :
      (scheme protocol user : String) (target : Target) (p : Params)
      → UrlLaws scheme protocol user target p
      → Distinct p
      → link_of web (scheme +++ user) target p
        ≡ some (web.print_url (linked protocol user target p))
  unfolding link_of
  link_of_lem scheme protocol user target p laws d =
      rw (laws.reads_base, put_all-append p [] d) refl

  -- The outbound that a VLESS link with these parameters describes.
  abbrev pub vless_of : String → Target → Params → Value N
  vless_of user target p =
      outbound web "vless" target.remark
        (obj (
          field "address" (str target.address) (
            field "port" (num (number_or web (str (decimal target.port)) 443)) (
              field "id" (str user) (
                field "flow" (str (get_or "flow" p ""))
                  (field "encryption" (str (get_or "encryption" p "none")) end))))))
        (stream_of_params web p "none")

  parse_vless_link_lem :
      (link : String) (u : Url)
      → web.parse_url link ≡ some u
      → u.protocol ≡ "vless:"
      → parse_vless_link web link
        ≡ some (
            outbound web "vless"
              (decode_remark web u)
              (obj (
                field "address" (str u.hostname) (
                  field "port" (num (number_or web (str u.port) 443)) (
                    field "id" (str u.username) (
                      field "flow"
                        (str (get_or "flow" u.params ""))
                        (field "encryption" (str (get_or "encryption" u.params "none")) end))))))
              (stream_of_params web u.params "none"))
  unfolding parse_vless_link parse_url_link without_colon
  parse_vless_link_lem link u e k = rw (e, k) refl

  pub decode_remark_lem :
      (u : Url) (name : String)
      → web.decode_component (without_mark u.hash) ≡ some name
      → decode_remark web u ≡ name
  unfolding decode_remark
  decode_remark_lem u name e = rw e refl

  parse_linked :
      (scheme user : String) (target : Target) (p : Params)
      → UrlLaws scheme "vless:" user target p
      → parse_vless_link web (web.print_url (linked "vless:" user target p))
        ≡ some (vless_of user target p)
  parse_linked scheme user target p laws =
      let u : Url = linked "vless:" user target p in
      let v : Url = record (with_params "vless:" user target p) { hash = u.hash } in
      parse_vless_link_lem (web.print_url u) v (laws.reads_back ∙ ap (λ x. some x) laws.sets_hash)
        refl
      ∙ rw (decode_remark_lem v target.remark laws.decodes_hash) refl

  -- A VLESS inbound with a stream has a link, and the parser reads off it the address, the port,
  -- the client and the name that it was generated from, with the flow, the encryption and the
  -- stream that the parameters of the link say, given what the URL interface promises.
  pub parse_vless_link-gen_vless_link :
      (inbound : Inbound N) (clients : Option (List ClientShape)) (stream : StreamSettings N)
      (target : Target) (force : ForceTls) (id encryption flow : String)
      (proxy : Option ExternalProxy)
      → inbound.protocol ≡ vless encryption clients
      → inbound.stream ≡ some stream
      → UrlLaws "vless://" "vless:" id target
          (vless_params web stream encryption (forced force stream.security) flow proxy)
      → (link : String) × (gen_vless_link web inbound target force id flow proxy ≡ some link)
        × (parse_vless_link web link
            ≡ some (
                vless_of id target
                  (vless_params web stream encryption (forced force stream.security) flow proxy)))
  unfolding gen_vless_link
  parse_vless_link-gen_vless_link inbound clients stream target force id encryption flow proxy e k
        laws =
      let p = vless_params web stream encryption (forced force stream.security) flow proxy in
      let d : Distinct p =
        vless_params-Distinct web stream encryption (forced force stream.security) flow proxy in
      (
        web.print_url (linked "vless:" id target p),
        rw (e, k) (link_of_lem "vless://" "vless:" id target p laws d),
        parse_linked "vless://" id target p laws,
      )
