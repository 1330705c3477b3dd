-- ===== src/Datapath/Session/Paired.antt =====
-- The two session maps mirror one another.
use xdp_nat_forward.Base.{◌≡◌, ◌≢◌, ap, arith, Option, none, some, Option-cases, inl, inr}
use xdp_nat_forward.Datapath.Types.{SessionKey, SessionVal, RevSessionKey, RevSessionVal}
use xdp_nat_forward.Datapath.Maps.{HashMap, Bpf, Tables}
use xdp_nat_forward.Datapath.Session.{rev_key}

-- The reverse key of a session.
abbrev pub reverse_of : SessionKey → SessionVal → RevSessionKey
reverse_of k v = rev_key k.target_ip v.nat_port k.target_port k.proto

-- The session that a reverse entry stands for.
abbrev pub session_of : RevSessionKey → RevSessionVal → SessionKey
session_of k v = record {
  client_ip = v.client_ip;
  target_ip = k.target_ip;
  client_port = v.client_port;
  target_port = k.target_port;
  proto = k.proto;
  pad = 0;
}

-- A reverse entry names the client of a session.
pub record Names (k : SessionKey) (v : SessionVal) (r : RevSessionVal) : Type 0 where
  pub client_ip : r.client_ip ≡ k.client_ip
  pub client_port : r.client_port ≡ k.client_port
  pub client_mac : r.client_mac ≡ v.client_mac

pub some_of_ne_none : {A : Type 0} {o : Option A} → o ≢ none → (a : A) × (o ≡ some a)
some_of_ne_none {o} h = elim (Option-cases o) [ inl e ↦ absurd (h e) | inr found ↦ found ]

module _ (bpf : Bpf) where
  open bpf use {session, reverse}

  -- Every session has its reverse entry, and every reverse entry its session.
  pub record Paired (t : Tables bpf) : Type 0 where
    pub padded :
        (k : SessionKey) (v : SessionVal) → HashMap.get session t.session_map k ≡ some v → k.pad ≡ 0
    pub rev_padded :
        (k : RevSessionKey) (r : RevSessionVal)
        → HashMap.get reverse t.reverse_session_map k ≡ some r
        → k.pad ≡ 0
    pub forth :
        (k : SessionKey) (v : SessionVal)
        → HashMap.get session t.session_map k ≡ some v
        → (r : RevSessionVal) × (HashMap.get reverse t.reverse_session_map (reverse_of k v)
            ≡ some r)
          × Names k v r
    pub back :
        (k : RevSessionKey) (r : RevSessionVal)
        → HashMap.get reverse t.reverse_session_map k ≡ some r
        → (v : SessionVal) × (HashMap.get session t.session_map (session_of k r) ≡ some v)
          × (v.nat_port ≡ k.nat_port)

  -- Two sessions never share a NAT port towards the same target, where each has its reverse entry.
  pub reverse_of-injective :
      (t : Tables bpf)
      → ((k : SessionKey) (v : SessionVal)
          → HashMap.get session t.session_map k ≡ some v
          → k.pad ≡ 0)
      → ((k : SessionKey) (v : SessionVal)
          → HashMap.get session t.session_map k ≡ some v
          → (r : RevSessionVal) × (HashMap.get reverse t.reverse_session_map (reverse_of k v)
              ≡ some r)
            × Names k v r)
      → (j k : SessionKey) (v w : SessionVal) → HashMap.get session t.session_map j ≡ some v
      → HashMap.get session t.session_map k ≡ some w
      → reverse_of j v ≡ reverse_of k w
      → j ≡ k
  reverse_of-injective t padded forth j k v w ej ek same =
      let (r, er, nr) = forth j v ej in
      let (s, es, ns) = forth k w ek in
      let one : r ≡ s = cc in
      ground (
        arith,
        padded j v ej,
        padded k w ek,
        nr,
        ns,
        one,
        ap (λ (x : RevSessionKey). x.target_ip) same,
        ap (λ (x : RevSessionKey). x.target_port) same,
        ap (λ (x : RevSessionKey). x.proto) same,
      )

  pub Paired-injective :
      (t : Tables bpf) (j k : SessionKey) (v w : SessionVal)
      → Paired t
      → HashMap.get session t.session_map j ≡ some v
      → HashMap.get session t.session_map k ≡ some w
      → reverse_of j v ≡ reverse_of k w
      → j ≡ k
  Paired-injective t j k v w p = reverse_of-injective t p.padded p.forth j k v w

  -- Neither session map is full.
  pub record HasRoom (t : Tables bpf) : Type 0 where
    pub session_room :
        (k : SessionKey) (v : SessionVal) → HashMap.insert session t.session_map k v ≢ none
    pub reverse_room :
        (k : RevSessionKey) (v : RevSessionVal)
        → HashMap.insert reverse t.reverse_session_map k v ≢ none
