-- ===== src/Scylladb/Connect/Hosts.antt =====
-- The dummy hosts stand for the configured ones.
use text.Mathlib.TextLemmas.{append_cancel_left, cons-append, nil-append}
use terraform_provider_scyll.Base.Exec.{Result, ok, err}
use terraform_provider_scyll.Go.Maps.{RangeOrder}
use terraform_provider_scyll.Scylladb.Cluster.{ProxyHostDialer, Url}
use terraform_provider_scyll.Base.{
  contains, ℕ, zero, suc, ◌+◌, ◌/◌, ◌%◌, ◌<◌, String, ◌<>◌, ◌≡◌, ◌∙◌, refl, sym, ap, true, false,
  Option, none, some, List, [], ◌∷◌, ◌==◌, if◌then◌else◌, arith,
}
use terraform_provider_scyll.Base.Dict
use terraform_provider_scyll.Base.Dict.{Dict, lookup-insert, lookup-eq-none}
use terraform_provider_scyll.Go.Strings.{split}
use terraform_provider_scyll.Go.Strings.Split.{split-append, split_of_lacks}
use terraform_provider_scyll.Go.Strconv.{decimal}
use terraform_provider_scyll.Go.Strconv.Read.{lacks-decimal, decimal-injective}
use terraform_provider_scyll.Scylladb.Connect.{
  Network, dummy_host, address, add_hosts, create_proxy_host_map, real_host, get_proxy_host_dialer,
  made_dialer, dialer_of_url, proxy_url,
}

abbrev pub get_elem? : {A : Type 0} → List A → ℕ → Option A
get_elem? [] n = none
get_elem? (x ∷ xs) zero = some x
get_elem? (x ∷ xs) (suc n) = get_elem? xs n

split-decimals : (a b : ℕ) → split "." (decimal a <> "." <> decimal b) ≡ decimal a ∷ decimal b ∷ []
split-decimals a b =
    ap (λ (s : String). split "." (decimal a <> s))
      (cons-append "." "" (decimal b) ∙ ap (String.◌∷◌ ".") (nil-append (decimal b)))
    ∙ split-append "." (decimal a) (decimal b) (lacks-decimal "." a refl)
    ∙ ap (λ ps. decimal a ∷ ps) (split_of_lacks "." (decimal b) (lacks-decimal "." b refl))

two-injective : (a b c d : String) → a ∷ b ∷ [] ≡ c ∷ d ∷ [] → (a ≡ c) × (b ≡ d)
two-injective a b c d h = (cc, cc)

same_number : (i j : ℕ) → i / 254 ≡ j / 254 → i % 254 + 1 ≡ j % 254 + 1 → i ≡ j
same_number i j h k = omega arith

dummy_host-injective : (i j : ℕ) → dummy_host i ≡ dummy_host j → i ≡ j
unfolding dummy_host
dummy_host-injective i j h =
    let rest = append_cancel_left "127.0." _ _ h in
    let (quotients, remainders) = two-injective _ _ _ _ (
      sym (split-decimals (i / 254) (i % 254 + 1))
      ∙ ap (split ".") rest
      ∙ split-decimals (j / 254) (j % 254 + 1)) in
    same_number i j (decimal-injective _ _ quotients) (decimal-injective _ _ remainders)

zero_plus : (k : ℕ) → k ≡ 0 + k
zero_plus k = omega arith

get_or_found :
    (k : String) (d : Dict String) (fallback v : String)
    → Dict.lookup k d ≡ some v
    → Dict.get_or k d fallback ≡ v
get_or_found k d fallback v h = rw (h, Dict.get_or) refl

plus_zero : (i : ℕ) → i + 0 ≡ i
plus_zero i = omega arith

itself : {A : Type 0} (k : String) (x y : A) → (if k == k then x else y) ≡ x
itself k x y = ground arith

some-injective : {A : Type 0} (a b : A) → some a ≡ some b → a ≡ b
some-injective a b h = cc

ok-injective : {A : Type 0} (a b : A) → ok a ≡ ok b → a ≡ b
ok-injective a b h = cc

dummy_host-differ : (i j : ℕ) → i < j → (dummy_host i == dummy_host j) ≡ false
dummy_host-differ i j h = ground (arith, dummy_host-injective i j)

module _ (N : Network) where
  add_hosts-below :
      (i j : ℕ) (d : Dict String) (hs : List String)
      → j < i
      → Dict.lookup (dummy_host j) (add_hosts N i d hs) ≡ Dict.lookup (dummy_host j) d
  unfolding add_hosts
  add_hosts-below i j d [] h = refl
  add_hosts-below i j d (x ∷ xs) h = ground (
    arith,
    add_hosts-below (suc i) j (Dict.insert (dummy_host i) (address N x) d) xs (omega arith),
    lookup-insert (dummy_host j) (dummy_host i) (address N x) d,
    dummy_host-differ j i h,
  )

  add_hosts-at :
      (i k : ℕ) (d : Dict String) (hs : List String) (name : String)
      → get_elem? hs k ≡ some name
      → Dict.lookup (dummy_host (i + k)) (add_hosts N i d hs) ≡ some (address N name)
  unfolding add_hosts
  add_hosts-at i k d [] name h = cc
  add_hosts-at i zero d (x ∷ xs) name h =
      let d' = Dict.insert (dummy_host i) (address N x) d in
      ap (λ n. Dict.lookup (dummy_host n) (add_hosts N (suc i) d' xs)) (plus_zero i)
      ∙ add_hosts-below (suc i) i d' xs (omega arith)
      ∙ lookup-insert (dummy_host i) (dummy_host i) (address N x) d
      ∙ itself (dummy_host i) _ _
      ∙ ap (λ y. some (address N y)) (some-injective x name h)
  add_hosts-at i (suc k) d (x ∷ xs) name h =
      ap
        (λ n.
          Dict.lookup (dummy_host n)
            (add_hosts N (suc i) (Dict.insert (dummy_host i) (address N x) d) xs))
        (omega arith)
      ∙ add_hosts-at (suc i) k (Dict.insert (dummy_host i) (address N x) d) xs name h

  module _ (order : RangeOrder (Unit {0})) (hosts : List String) (dialer : ProxyHostDialer)
      (dummies : List String) where
    open order use {visit}

    -- The dialer and the hosts that are given to gocql are those of the map.
    abbrev pub IsMapped : Type 0
    IsMapped =
        (dialer.host_map ≡ create_proxy_host_map N hosts)
        × (dummies ≡ visit tt (Dict.keys (create_proxy_host_map N hosts)))

    made_dialer-IsMapped :
        (url : Url) (r : Result (Unit {0}))
        → made_dialer N order hosts url r ≡ ok (dialer, dummies)
        → IsMapped
    unfolding made_dialer
    made_dialer-IsMapped url (ok _) h =
        let e = ok-injective _ (dialer, dummies) h in
        (sym (ap (λ o. o.0.host_map) e), sym (ap (λ o. o.1) e))
    made_dialer-IsMapped url (err e) h = cc

    dialer_of_url-IsMapped :
        (r : Result Url) → dialer_of_url N order hosts r ≡ ok (dialer, dummies) → IsMapped
    unfolding dialer_of_url
    dialer_of_url-IsMapped (ok url) h = made_dialer-IsMapped url (N.from_url url) h
    dialer_of_url-IsMapped (err e) h = cc

    pub get_proxy_host_dialer-IsMapped :
        (proxy_addr : String)
        → get_proxy_host_dialer N order hosts proxy_addr ≡ ok (dialer, dummies)
        → IsMapped
    unfolding get_proxy_host_dialer
    get_proxy_host_dialer-IsMapped proxy_addr h = dialer_of_url-IsMapped (proxy_url N proxy_addr) h

  -- Each configured host has a dummy host of its own, under its place in the list, that gocql is
  -- given; asked to dial that one, the dialer dials the configured host, with the default port
  -- where none is named.
  pub get_proxy_host_dialer-hosts :
      (order : RangeOrder (Unit {0})) (hosts : List String) (proxy_addr : String)
      (dialer : ProxyHostDialer) (dummies : List String) (k : ℕ) (name : String)
      → get_proxy_host_dialer N order hosts proxy_addr ≡ ok (dialer, dummies)
      → get_elem? hosts k ≡ some name
      → (contains dummies (dummy_host k) ≡ true)
        × ((fallback : String) → real_host N dialer (dummy_host k) fallback ≡ address N name)
  unfolding real_host create_proxy_host_map
  get_proxy_host_dialer-hosts order hosts proxy_addr dialer dummies k name made there =
      let (mapped, given) =
        get_proxy_host_dialer-IsMapped order hosts dialer dummies proxy_addr made in
      let map = create_proxy_host_map N hosts in
      let entry =
        ap (λ n. Dict.lookup (dummy_host n) map) (zero_plus k)
        ∙ add_hosts-at 0 k [] hosts name there in
      (
        ap (λ ds. contains ds (dummy_host k)) given
            ∙ order.contains-visit tt (Dict.keys map) (dummy_host k)
            ∙ ground (arith, lookup-eq-none map (dummy_host k), entry),
        λ fallback.
            ap (λ m. Dict.get_or (dummy_host k) m fallback) mapped
            ∙ get_or_found (dummy_host k) map fallback (address N name) entry,
      )
