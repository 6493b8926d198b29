-- ===== src/Scylladb/Connect/Octets.antt =====
-- The dummy hosts that gocql is given are addresses of the loopback network.
use terraform_provider_scyll.Base.{
  ℕ, suc, ◌+◌, ◌/◌, ◌%◌, ◌<◌, ◌≤◌, String, ◌<>◌, ◌≡◌, ◌∙◌, refl, sym, ap, true, ◌⊎◌, inl, inr, List,
  [], ◌∷◌, contains, length, ◌==◌, ◌||◌, Bool-cases, arith,
}
use terraform_provider_scyll.Base.Dict
use terraform_provider_scyll.Base.Dict.{Dict, contains-keys-insert}
use terraform_provider_scyll.Base.Exec.{ok}
use terraform_provider_scyll.Go.Maps.{RangeOrder}
use terraform_provider_scyll.Go.Strconv.{decimal}
use terraform_provider_scyll.Scylladb.Cluster.{ProxyHostDialer}
use terraform_provider_scyll.Scylladb.Connect.{
  Network, dummy_host, address, add_hosts, create_proxy_host_map, get_proxy_host_dialer,
}
use terraform_provider_scyll.Scylladb.Connect.Hosts.{get_proxy_host_dialer-IsMapped}

-- An address of 127.0.0.0/16 whose last octet is neither that of a network nor that of a broadcast
abbrev pub IsLoopback : String → Type 0
IsLoopback host =
    (a : ℕ) × (b : ℕ) × (host ≡ "127.0." <> decimal a <> "." <> decimal b)
    × (a < 256)
    × (0 < b)
    × (b < 255)

dummy_host-IsLoopback : (i : ℕ) → i < 65024 → IsLoopback (dummy_host i)
unfolding dummy_host
dummy_host-IsLoopback i h = (i / 254, i % 254 + 1, refl, omega arith, omega arith, omega arith)

module _ (N : Network) where
  -- The keys that the loop adds are the dummies of its indices.
  keys-add_hosts :
      (i : ℕ) (d : Dict String) (hs : List String) (k : String)
      → contains (Dict.keys (add_hosts N i d hs)) k ≡ true
      → (contains (Dict.keys d) k ≡ true) ⊎ ((j : ℕ) × (j < i + length hs) × (k ≡ dummy_host j))
  unfolding add_hosts
  keys-add_hosts i d [] k h = inl h
  keys-add_hosts i d (x ∷ xs) k h =
      elim (keys-add_hosts (suc i) (Dict.insert (dummy_host i) (address N x) d) xs k h) [
        | inr (j, below, e) ↦ inr (j, omega arith, e)
        | inl there ↦ elim (Bool-cases (k == dummy_host i)) [
          | inl same ↦ inr (i, omega arith, ground arith)
          | inr other ↦ inl (
              sym (
                contains-keys-insert k (dummy_host i) (address N x) d
                ∙ ap (λ b. b || contains (Dict.keys d) k) other)
              ∙ there)
        ]
      ]

  -- For at most 65024 configured hosts, each dummy host that gocql is given is an address
  -- `127.0.a.b` with `a` up to 255 and `b` from 1 to 254.
  pub get_proxy_host_dialer-IsLoopback :
      (order : RangeOrder (Unit {0})) (hosts : List String) (proxy_addr : String)
      (dialer : ProxyHostDialer) (dummies : List String) (host : String)
      → get_proxy_host_dialer N order hosts proxy_addr ≡ ok (dialer, dummies)
      → length hosts ≤ 65024
      → contains dummies host ≡ true
      → IsLoopback host
  unfolding create_proxy_host_map Dict.keys
  get_proxy_host_dialer-IsLoopback order hosts proxy_addr dialer dummies host made few there =
      let (mapped, given) =
        get_proxy_host_dialer-IsMapped N order hosts dialer dummies proxy_addr made in
      let map = create_proxy_host_map N hosts in
      let key : contains (Dict.keys map) host ≡ true =
        sym (order.contains-visit tt (Dict.keys map) host)
        ∙ sym (ap (λ ds. contains ds host) given)
        ∙ there in
      elim (keys-add_hosts 0 [] hosts host key) [
        | inl none ↦ absurd (cc none)
        | inr (j, below, e) ↦ rw e (dummy_host-IsLoopback j (omega arith))
      ]
