-- ===== src/LinkGen/FanOut.antt =====
-- One link for each external proxy of an inbound, or one link without a proxy.
use x_ui_glass.Shared.{
  ℕ, suc, ◌+◌, ◌*◌, length, length-append, arith, String, ◌≡◌, refl, sym, ap, ◌∙◌, Option, none,
  some, List, [], ◌∷◌, map, or_else, >>=-eq-some,
}
use x_ui_glass.Platform.{Web}
use x_ui_glass.Inbound.{ExternalProxy, ClientShape, Inbound}
use x_ui_glass.LinkGen.{
  LinkEntry, Naming, sequence, named_entry, proxies_of, proxy_entry, direct_entry, fan_out,
  gen_all_links, client_links, compose_remark,
}

some_inj {ℓ} : {A : Type ℓ} {x y : A} → some x ≡ some y → x ≡ y
some_inj h = cc

sequence-cons {ℓ} :
    {A : Type ℓ} (o : Option A) (os : List (Option A)) (bs : List A)
    → sequence (o ∷ os) ≡ some bs
    → (b : A) × (cs : List A) × (o ≡ some b) × (sequence os ≡ some cs) × (bs ≡ b ∷ cs)
unfolding sequence
sequence-cons none os bs h = cc
sequence-cons (some a) os bs h =
    let (cs, e, k) = >>=-eq-some (sequence os) _ h in (a, cs, refl, e, sym (some_inj k))

-- What each of the results is, all of them are.
map-sequence {ℓ κ ι} :
    {A : Type ℓ} {B : Type κ} {C : Type ι} (f : A → Option B) (g : A → C) (h : B → C) (xs : List A)
    → ((x : A) (b : B) → f x ≡ some b → h b ≡ g x)
    → (bs : List B) → sequence (map f xs) ≡ some bs
    → map h bs ≡ map g xs
unfolding sequence
map-sequence f g h [] k bs e = sym (ap (map h) (some_inj e))
map-sequence f g h (x ∷ xs) k bs e =
    let (b, cs, p, q, r) = sequence-cons (f x) (map f xs) bs e in
    ap (map h) r
    ∙ ap (λ c. c ∷ map h cs) (k x b p)
    ∙ ap (λ cs. g x ∷ cs) (map-sequence f g h xs k cs q)

length-map {ℓ κ} :
    {A : Type ℓ} {B : Type κ} (f : A → B) (xs : List A) → length (map f xs) ≡ length xs
length-map f [] = refl
length-map f (x ∷ xs) = ap suc (length-map f xs)

none_times : (k : ℕ) → 0 ≡ 0 * k
none_times k = grind arith

one_more : (n k : ℕ) → k + n * k ≡ suc n * k
one_more n k = grind arith

abbrev pub links_per_client : List ExternalProxy → ℕ
links_per_client [] = 1
links_per_client (p ∷ ps) = length (p ∷ ps)

module _ {N : Type 0} (web : Web N) where
  -- The names of the links of a client.
  abbrev pub expected_remarks : List ExternalProxy → Naming → ClientShape → List String
  expected_remarks [] naming client =
      compose_remark naming.remark_model naming.remark (or_else client.email "") "" ∷ []
  expected_remarks (p ∷ ps) naming client =
      map (λ q. compose_remark naming.remark_model naming.remark (or_else client.email "") q.remark)
        (p ∷ ps)

  named_entry_lem :
      (r : String) (link : Option String) (e : LinkEntry)
      → named_entry web r link ≡ some e
      → e.remark ≡ r
  named_entry_lem r none e h = cc
  named_entry_lem r (some l) e h = sym (ap (λ x. x.remark) (some_inj h))

  fan_out-remarks :
      (ps : List ExternalProxy) (inbound : Inbound N) (naming : Naming) (client : ClientShape)
      (es : List LinkEntry)
      → fan_out web ps inbound naming client ≡ some es
      → map (λ e. e.remark) es ≡ expected_remarks ps naming client
  unfolding fan_out sequence direct_entry proxy_entry
  fan_out-remarks [] inbound naming client es h =
      let (b, cs, p, q, r) = sequence-cons (direct_entry web inbound naming client) [] es h in
      ap (map (λ (e : LinkEntry). e.remark)) (r ∙ ap (λ t. b ∷ t) (sym (some_inj q)))
      ∙ ap (λ t. t ∷ []) (named_entry_lem _ _ b p)
  fan_out-remarks (p ∷ ps) inbound naming client es h =
      map-sequence (proxy_entry web inbound naming client) _ (λ e. e.remark) (p ∷ ps)
        (λ q e k. named_entry_lem _ _ e k) es h

  -- The links of a client are named and counted by the external proxies of the stream, in their
  -- order; without external proxies there is one link.
  pub gen_all_links-remarks :
      (inbound : Inbound N) (naming : Naming) (client : ClientShape) (es : List LinkEntry)
      → gen_all_links web inbound naming client ≡ some es
      → map (λ e. e.remark) es ≡ expected_remarks (proxies_of web inbound.stream) naming client
  unfolding gen_all_links
  gen_all_links-remarks inbound naming client es h =
      fan_out-remarks (proxies_of web inbound.stream) inbound naming client es h

  expected_remarks-length :
      (ps : List ExternalProxy) (naming : Naming) (client : ClientShape)
      → length (expected_remarks ps naming client) ≡ links_per_client ps
  expected_remarks-length [] naming client = refl
  expected_remarks-length (p ∷ ps) naming client = length-map _ (p ∷ ps)

  -- All clients of an inbound together have as many links as there are clients, times the number
  -- of external proxies of the stream, or times one where it has none, if no URL is refused.
  pub length-client_links :
      (inbound : Inbound N) (naming : Naming) (clients : List ClientShape) (links : List String)
      → client_links web inbound naming clients ≡ some links
      → length links ≡ length clients * links_per_client (proxies_of web inbound.stream)
  unfolding client_links
  length-client_links inbound naming [] links h =
      ap length (sym (some_inj h)) ∙ none_times (links_per_client (proxies_of web inbound.stream))
  length-client_links inbound naming (c ∷ cs) links h =
      let k = links_per_client (proxies_of web inbound.stream) in
      let (es, p, q) = >>=-eq-some (gen_all_links web inbound naming c) _ h in
      let (rest, r, t) = >>=-eq-some (client_links web inbound naming cs) _ q in
      let mine : length (map (λ (e : LinkEntry). e.link) es) ≡ k =
        length-map (λ (e : LinkEntry). e.link) es
        ∙ sym (length-map (λ (e : LinkEntry). e.remark) es)
        ∙ ap length (gen_all_links-remarks inbound naming c es p)
        ∙ expected_remarks-length (proxies_of web inbound.stream) naming c in
      ap length (sym (some_inj t))
      ∙ length-append (map (λ (e : LinkEntry). e.link) es) rest
      ∙ ap (λ n. n + length rest) mine
      ∙ ap (λ n. k + n) (length-client_links inbound naming cs rest r)
      ∙ one_more (length cs) k
