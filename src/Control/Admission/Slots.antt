-- ===== src/Control/Admission/Slots.antt =====
-- `reserve` and `release` of internal/control/server.go without an interleaving.
use gremlind.Prelude.{
  ℕ, suc, ◌-◌, ◌<◌, ◌≡◌, ap, ◌↔◌, true, ◌==◌, nat_eq, list_eq, if◌then◌else◌, arith,
}
use gremlind.Prelude.Bytes.{Bytes}
use gremlind.Prelude.Maps.{lookup, lookup-insert}
use gremlind.Control.Admission.{Server, or_zero, take_slot, give_slot, count_ip, reserve, release}
use gremlind.Control.Admission.Counting.{drop_ip-counts, drop_ip_frame, bytes_iff}

-- The pending handshakes of a source, as the map has them.
abbrev pub pending : Server → Bytes → ℕ
pending s ip = or_zero (lookup ip s.per_ip)

-- `reserve` succeeds exactly if a global slot and a slot of the source are free; it then takes one of
-- each, for no other source. If it fails it holds neither.
pub reserve_iff :
    (s : Server) (ip j : Bytes)
    → ((reserve s ip).1 ≡ true ↔ ((s.sem < s.max_pending) × (pending s ip < s.max_per_ip)))
      × ((reserve s ip).0.sem ≡ (if (reserve s ip).1 then suc s.sem else s.sem))
      × (pending (reserve s ip).0 j ≡ (
          if (reserve s ip).1
          then (if ip == j then suc (pending s ip) else pending s j)
          else pending s j))
unfolding reserve take_slot count_ip give_slot
reserve_iff s ip j = ground (arith, lookup-insert ip j (suc (pending s ip)) s.per_ip)

release-pending :
    (s : Server) (ip j : Bytes)
    → pending (release s ip) j ≡ (if ip == j then pending s ip - 1 else pending s j)
unfolding release
release-pending s ip j = drop_ip-counts s ip j

release-sem : (s : Server) (ip : Bytes) → (release s ip).sem ≡ s.sem - 1
unfolding release give_slot
release-sem s ip = ap (λ n. n - 1) (drop_ip_frame s ip).0

-- A `release` gives back both slots that a successful `reserve` took, and every count is what it was.
pub release-reserve :
    (s : Server) (ip j : Bytes)
    → (reserve s ip).1 ≡ true
    → ((release (reserve s ip).0 ip).sem ≡ s.sem)
      × (pending (release (reserve s ip).0 ip) j ≡ pending s j)
release-reserve s ip j h =
    let (_, sem, own) = reserve_iff s ip ip in
    let (_, _, other) = reserve_iff s ip j in
    (
      ground (arith, release-sem (reserve s ip).0 ip, sem, h),
      ground (
        arith,
        release-pending (reserve s ip).0 ip j,
        own,
        other,
        h,
        bytes_iff ip ip,
        bytes_iff ip j,
        ap (pending s),
      ),
    )
