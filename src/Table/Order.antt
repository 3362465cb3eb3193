-- ===== src/Table/Order.antt =====
-- The order of endpoints.
use mclog.Base.{◌≡◌, ◌↔◌, refl, ap, ◌∙◌, sym, true, false, arith, Bool-cases, inl, inr}
use mclog.Table.{Addresses, UdpEndpoint, endpoint_less, endpoint_equal, equivalent}

-- What libDwm's addresses promise: `==` is equality and `<` is a total order without equals.
pub record IsOrder (a : Addresses) : Type 0 where
  pub equal_iff : (x y : a.IpAddress) → (a.equal x y ≡ true) ↔ (x ≡ y)
  pub irreflexive : (x : a.IpAddress) → a.less x x ≡ false
  pub transitive : (x y z : a.IpAddress) → a.less x y ≡ true → a.less y z ≡ true → a.less x z ≡ true
  pub total : (x y : a.IpAddress) → a.less x y ≡ false → a.less y x ≡ false → x ≡ y

module _ (a : Addresses) (order : IsOrder a) where
  pub equivalent→eq : (e f : UdpEndpoint a) → equivalent a e f ≡ true → e ≡ f
  unfolding equivalent endpoint_less
  equivalent→eq e f h =
      let addrs : e.addr ≡ f.addr = order.total e.addr f.addr (ground arith) (ground arith) in
      let same = (order.equal_iff e.addr f.addr).1 addrs in
      let back = (order.equal_iff f.addr e.addr).1 (sym addrs) in
      let ports : e.port ≡ f.port = ground (arith, same, back) in
      ap (λ x. record { addr = x; port = e.port }) addrs
      ∙ ap (λ n. record { addr = f.addr; port = n }) ports

  pub equivalent_self : (e : UdpEndpoint a) → equivalent a e e ≡ true
  unfolding equivalent endpoint_less
  equivalent_self e =
      ground (arith, order.irreflexive e.addr, (order.equal_iff e.addr e.addr).1 refl)

  endpoint_equal→eq : (e f : UdpEndpoint a) → endpoint_equal a e f ≡ true → e ≡ f
  unfolding endpoint_equal
  endpoint_equal→eq e f h =
      let addrs : e.addr ≡ f.addr = (order.equal_iff e.addr f.addr).0 (ground arith) in
      let ports : e.port ≡ f.port = ground arith in
      ap (λ x. record { addr = x; port = e.port }) addrs
      ∙ ap (λ n. record { addr = f.addr; port = n }) ports

  endpoint_equal_self : (e : UdpEndpoint a) → endpoint_equal a e e ≡ true
  unfolding endpoint_equal
  endpoint_equal_self e = ground (arith, (order.equal_iff e.addr e.addr).1 refl)

  -- The map of sources takes two endpoints for the same key exactly where `==` holds of them.
  pub equivalent-eq-endpoint_equal : (e f : UdpEndpoint a) → equivalent a e f ≡ endpoint_equal a e f
  equivalent-eq-endpoint_equal e f = elim (Bool-cases (endpoint_equal a e f)) [
    | inl same ↦ rw (endpoint_equal→eq e f same) (equivalent_self f ∙ sym (endpoint_equal_self f))
    | inr other ↦ elim (Bool-cases (equivalent a e f)) [
      | inr apart ↦ apart ∙ sym other
      | inl both ↦ rw (equivalent→eq e f both) (equivalent_self f ∙ sym (endpoint_equal_self f))
    ]
  ]

  -- `operator <` of endpoints is transitive, as std::map requires.
  pub endpoint_less_trans :
      (e f g : UdpEndpoint a)
      → endpoint_less a e f ≡ true
      → endpoint_less a f g ≡ true
      → endpoint_less a e g ≡ true
  unfolding endpoint_less
  endpoint_less_trans e f g h k = elim (Bool-cases (a.less e.addr f.addr)) [
    | inl below ↦ elim (Bool-cases (a.less f.addr g.addr)) [
      | inl next ↦ ground (arith, order.transitive e.addr f.addr g.addr below next)
      | inr same ↦
          let fg : f.addr ≡ g.addr = (order.equal_iff f.addr g.addr).0 (ground arith) in
          let eg : a.less e.addr g.addr ≡ true = rw (sym fg) below in ground (arith, eg)
    ]
    | inr level ↦
        let ef : e.addr ≡ f.addr = (order.equal_iff e.addr f.addr).0 (ground arith) in
        rw ef (ground arith)
  ]
