-- ===== src/Gre/Overhead.antt =====
-- `Overhead`, `OverheadWithOptions` and `OverheadWithFOU` of internal/gre/link_linux.go.
use gremlind.Prelude.{ℕ, ◌+◌, Bool, true, false, List, [], ◌∷◌, if◌then◌else◌}
use gremlind.Net.{Addr, is6}

unfoldable pub overhead_with_fou : Addr → Bool → Bool → Bool → ℕ
overhead_with_fou outer keyed seq fou =
    let gre_header : ℕ = 4 in
    let gre_header = if keyed then gre_header + 4 else gre_header in
    let gre_header = if seq then gre_header + 4 else gre_header in
    let overhead = if is6 outer then gre_header + 40 else gre_header + 20 in
    if fou then overhead + 8 else overhead

-- `OverheadWithOptions`
unfoldable pub overhead_with_options : Addr → Bool → Bool → ℕ
unfolding overhead_with_fou
overhead_with_options outer keyed seq = overhead_with_fou outer keyed seq false

-- `Overhead`: the variadic parameter is a list.
unfoldable pub overhead : Addr → List Bool → ℕ
unfolding overhead_with_options
overhead outer [] = overhead_with_options outer true false
overhead outer (keyed ∷ more) = overhead_with_options outer keyed false
