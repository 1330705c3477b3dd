-- ===== src/Daemon/Service/Laws.antt =====
-- forward/src/rule.rs, `set_timeout`: the bounds of the timeouts.
use xdp_nat_forward.Base.{
  ℕ, ◌*◌, ◌≤◌, ◌≡◌, ◌∙◌, ap, sym, refl, arith, some, ◌==◌, if◌then◌else◌, inl, inr, List, ◌↔◌,
  Bool-cases, some_injective,
}
use xdp_nat_forward.Daemon.Cleanup.{Timeouts}
use xdp_nat_forward.Daemon.Rules.{set_timeout, parse_proto, nanoseconds}

-- The timeouts with the value for one protocol replaced.
abbrev pub with_timeout : Timeouts → ℕ → ℕ → Timeouts
with_timeout t proto ns = if proto == 6 then record t { tcp_ns = ns } else record t { udp_ns = ns }

abbrev pub timeout_for : ℕ → Timeouts → ℕ
timeout_for proto t = if proto == 6 then t.tcp_ns else t.udp_ns

timeout_for-with_timeout :
    (t : Timeouts) (proto ns : ℕ) → timeout_for proto (with_timeout t proto ns) ≡ ns
timeout_for-with_timeout t proto ns = elim (Bool-cases (proto == 6)) [
  | inl e ↦ rw e refl
  | inr e ↦ rw e refl
]

-- Setting the timeout of a protocol stores the seconds in nanoseconds if and only if they are at most
-- 18446744073, where the product still fits 64 bits.
pub set_timeout_iff :
    (t : Timeouts) (proto_str : List ℕ) (proto seconds : ℕ)
    → parse_proto proto_str ≡ some proto
    → (set_timeout t proto_str seconds ≡ some (with_timeout t proto (seconds * 1_000_000_000)))
      ↔ (seconds ≤ 18_446_744_073)
unfolding set_timeout
set_timeout_iff t proto_str proto seconds h = (
  λ e.
      let same = ap (timeout_for proto) (some_injective (rw h at e)) in
      let exact : nanoseconds seconds ≡ seconds * 1_000_000_000 =
        sym (timeout_for-with_timeout t proto (nanoseconds seconds))
        ∙ (same ∙ timeout_for-with_timeout t proto (seconds * 1_000_000_000)) in
      omega (arith, exact),
  λ k.
      let same : nanoseconds seconds ≡ seconds * 1_000_000_000 = omega (arith, k) in
      rw (h, same) refl,
)
