-- ===== src/MssClamp/Counting.antt =====
-- What internal/mssclamp/mssclamp.go relies on of iptables: how often a rule stands in a chain.
use gremlind.Prelude.{
  ℕ, ◌+◌, ◌-◌, ◌<◌, ◌≡◌, refl, arith, Bool, true, false, List, [], ◌∷◌, ◌++◌, ltb, ◌==◌, nat_eq,
  list_eq, if◌then◌else◌,
}
use gremlind.Prelude.Bytes.{Bytes}
use gremlind.Prelude.Texts.{ascii}
use gremlind.MssClamp.Iptables.{Firewall, command}

-- A rule of a chain of a program's mangle table.
abbrev pub Slot : Type 0
Slot = List Bytes

abbrev pub slot : Bytes → Bytes → List Bytes → Slot
slot tool chain rule = tool ∷ chain ∷ rule

-- -C tells whether the rule is there, -A adds it where it succeeds, and -D takes one and fails where
-- there is none. None of them touches another rule.
pub record Lawful {W : Type 0} (run : Firewall W) (count : W → Slot → ℕ) : Type 0 where
  pub check_ok :
      (tool chain : Bytes) (rule : List Bytes) (w : W)
      → (run tool (command (ascii "-C") chain rule) w).0 ≡ ltb 0 (count w (slot tool chain rule))
  pub check_keeps :
      (tool chain : Bytes) (rule : List Bytes) (w : W) (s : Slot)
      → count (run tool (command (ascii "-C") chain rule) w).1 s ≡ count w s
  pub appended :
      (tool chain : Bytes) (rule : List Bytes) (w : W) (s : Slot)
      → (run tool (command (ascii "-A") chain rule) w).0 ≡ true
      → count (run tool (command (ascii "-A") chain rule) w).1 s
        ≡ (if s == slot tool chain rule then count w s + 1 else count w s)
  pub delete_ok :
      (tool chain : Bytes) (rule : List Bytes) (w : W)
      → (run tool (command (ascii "-D") chain rule) w).0 ≡ ltb 0 (count w (slot tool chain rule))
  pub deleted :
      (tool chain : Bytes) (rule : List Bytes) (w : W) (s : Slot)
      → count (run tool (command (ascii "-D") chain rule) w).1 s
        ≡ (if s == slot tool chain rule then count w s - 1 else count w s)

abbrev pub listed : Slot → List Slot → Bool
listed s [] = false
listed s (t ∷ ts) = if s == t then true else listed s ts

pub listed-append :
    (s : Slot) (xs ys : List Slot)
    → listed s (xs ++ ys) ≡ (if listed s xs then true else listed s ys)
listed-append s [] ys = refl
listed-append s (x ∷ xs) ys = ground (arith, listed-append s xs ys)

-- Every rule is there less than `fuel` times.
abbrev pub Below : {W : Type 0} → (W → Slot → ℕ) → ℕ → W → Type 0
Below count fuel w = (s : Slot) → count w s < fuel
