-- ===== src/Control/Admission/Counting.antt =====
-- The sources of the pending handshakes of internal/control/server.go, counted.
use gremlind.Prelude.{
  ℕ, zero, suc, ◌-◌, ◌≤◌, ◌≡◌, refl, ap, ◌↔◌, true, some, List, [], ◌∷◌, length, Key, ◌==◌, nat_eq,
  list_eq, if◌then◌else◌, arith,
}
use gremlind.Prelude.Bytes.{Bytes}
use gremlind.Prelude.Maps.{lookup, lookup-insert, lookup-delete}
use gremlind.Control.Admission.{
  Server, or_zero, drop_ip, Accepting, waiting, holding, refusing, nth, remove_at,
}

abbrev pub count : Bytes → List Bytes → ℕ
count ip [] = 0
count ip (x ∷ s) = if x == ip then suc (count ip s) else count ip s

abbrev pub held : Accepting → ℕ
held waiting = 0
held (holding ip) = 1
held refusing = 1

pub remove_at-length :
    (i : ℕ) (s : List Bytes) (ip : Bytes)
    → nth i s ≡ some ip
    → length s ≡ suc (length (remove_at i s))
unfolding nth remove_at
remove_at-length i [] ip h = cc
remove_at-length zero (x ∷ s) ip h = refl
remove_at-length (suc i) (x ∷ s) ip h = ap suc (remove_at-length i s ip h)

pub remove_at-count :
    (i : ℕ) (s : List Bytes) (ip j : Bytes)
    → nth i s ≡ some ip
    → count j s ≡ (if ip == j then suc (count j (remove_at i s)) else count j (remove_at i s))
unfolding nth remove_at
remove_at-count i [] ip j h = cc
remove_at-count zero (x ∷ s) ip j h = let same : x ≡ ip = cc in rw same refl
remove_at-count (suc i) (x ∷ s) ip j h = ground (arith, remove_at-count i s ip j h)

pub bytes_iff : (c d : Bytes) → (c == d ≡ true) ↔ (c ≡ d)
bytes_iff c d = same.decides c d
  where
    same : Key Bytes
    same = list_eq

-- The locked section of `release` takes one from the count of its address, and no other.
pub drop_ip-counts :
    (s : Server) (ip j : Bytes)
    → or_zero (lookup j (drop_ip s ip).per_ip)
      ≡ (if ip == j then or_zero (lookup ip s.per_ip) - 1 else or_zero (lookup j s.per_ip))
unfolding drop_ip
drop_ip-counts s ip j = ground (
  arith,
  lookup-insert ip j (or_zero (lookup ip s.per_ip) - 1) s.per_ip,
  lookup-delete ip j s.per_ip,
  bytes_iff ip j,
)

pub drop_ip-present :
    (s : Server) (ip j : Bytes) (n : ℕ)
    → ((m : ℕ) → lookup j s.per_ip ≡ some m → 1 ≤ m)
    → lookup j (drop_ip s ip).per_ip ≡ some n
    → 1 ≤ n
unfolding drop_ip
drop_ip-present s ip j n old h = ground (
  arith,
  lookup-insert ip j (or_zero (lookup ip s.per_ip) - 1) s.per_ip,
  lookup-delete ip j s.per_ip,
  old n,
  h,
)

pub drop_ip_frame :
    (s : Server) (ip : Bytes)
    → ((drop_ip s ip).sem ≡ s.sem)
      × ((drop_ip s ip).max_pending ≡ s.max_pending)
      × ((drop_ip s ip).max_per_ip ≡ s.max_per_ip)
unfolding drop_ip
drop_ip_frame s ip = ground arith
