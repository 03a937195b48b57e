-- ===== src/Session/Capacity.antt =====
-- The tunnel MTU that the manager negotiates, against what the outer path carries.
use gremlind.Prelude.{ℕ, ◌+◌, ◌≡◌, ◌⊎◌, ◌&&◌, ◌==◌, nat_eq, if◌then◌else◌}
use gremlind.Prelude.Int.{ℤ, pos, ◌-ℤ◌, ◌≤ℤ◌, leb_ℤ, ltb_ℤ}
use gremlind.Net.{is6}
use gremlind.Session.Defs.{Config}

-- The headers in front of a tunnelled packet: the outer IP, UDP where FOU is on, and GRE with its
-- optional words.
abbrev pub headers : Config → ℕ
headers c =
    (if is6 c.gre_local then 40 else 20)
    + (if c.fou_port == 0 then 0 else 8)
    + (4 + (if c.use_gre_key then 4 else 0) + (if c.use_gre_seq then 4 else 0))

-- The smallest MTU that a network of the outer family must carry.
abbrev pub smallest : Config → ℕ
smallest c = if is6 c.gre_local then 1280 else 576

-- The outer MTU of the server's end: the measured one, or the configured one where none is.
abbrev pub server_end : Config → ℤ → ℤ
server_end c server = if leb_ℤ server (pos 0) then c.outer_mtu else server

-- `mtu` with `over` bytes of headers is the most that an end of `outer` bytes, another of `client`
-- bytes where it gave one, and the cap where there is one, let through, and `least` at least.
abbrev pub Most : ℤ → ℤ → ℤ → ℕ → ℕ → ℤ → Type 0
Most outer client cap over least mtu =
    (pos least ≤ℤ mtu)
    × ((mtu ≡ pos least)
        ⊎ ((mtu ≤ℤ (outer -ℤ pos over))
            × ((client ≤ℤ pos 0) ⊎ (mtu ≤ℤ (client -ℤ pos over)))
            × ((cap ≤ℤ pos 0) ⊎ (mtu ≤ℤ cap))))
    × (((outer -ℤ pos over) ≤ℤ mtu)
        ⊎ (((pos 1 ≤ℤ client) × ((client -ℤ pos over) ≤ℤ mtu)) ⊎ ((pos 1 ≤ℤ cap) × (cap ≤ℤ mtu))))

-- The cap and the minimum, as `negotiateMTUWithServerOuter` applies them.
abbrev clamped : ℤ → ℤ → ℤ → ℤ
clamped mtu cap least =
    let mtu = if ltb_ℤ (pos 0) cap && ltb_ℤ cap mtu then cap else mtu in
    if ltb_ℤ mtu least then least else mtu

abbrev smaller : ℤ → ℤ → ℤ
smaller outer client = if ltb_ℤ (pos 0) client && ltb_ℤ client outer then client else outer
