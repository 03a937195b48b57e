-- ===== src/Control/Secure/Streams.antt =====
-- Lists of messages over the channel of internal/control/secure.go.
use mathlib.Core.List.{append_assoc}
use gremlind.Prelude.{
  ℕ, zero, suc, ◌≡◌, refl, sym, ap, subst, ◌∙◌, List, [], ◌∷◌, ◌++◌, Result, ok, err, length, All,
  >>=-eq-ok, ◌>>=◌,
}
use gremlind.Prelude.Bytes.{Bytes}
use gremlind.Control.Proto.{Message}
use gremlind.Control.Frame.{Error}
use gremlind.Control.Secure.{SecureChannel, write_secure, read_secure}
use gremlind.Control.Secure.Plain.{Carries}
use gremlind.Control.Secure.Channel.{IsAead, InStep, read-write_secure}

-- The writing end sends some messages one after the other.
unfoldable pub write_all : SecureChannel → List Message → SecureChannel × Result Error Bytes
write_all c [] = (c, ok [])
write_all c (m ∷ ms) =
    let (c, first) = write_secure c m in
    let (c, others) = write_all c ms in (c, first >>= λ out. others >>= λ more. ok (out ++ more))

-- The reading end reads a number of messages.
unfoldable pub read_all :
    ℕ → SecureChannel → Bytes → SecureChannel × Result Error (List Message × Bytes)
read_all zero d s = (d, ok ([], s))
read_all (suc n) d s = elim (read_secure d s).1 [
  | err e ↦ ((read_secure d s).0, err e)
  | ok (m, rest) ↦
      let (d, others) = read_all n (read_secure d s).0 rest in
      (d, others >>= λ r. ok (m ∷ r.0, r.1))
]

read_all_step :
    (n : ℕ) (d : SecureChannel) (s : Bytes) (m : Message) (mid : Bytes) (ms : List Message)
    (rest : Bytes)
    → (read_secure d s).1 ≡ ok (m, mid)
    → (read_all n (read_secure d s).0 mid).1 ≡ ok (ms, rest)
    → (read_all (suc n) d s).1 ≡ ok (m ∷ ms, rest)
unfolding read_all
read_all_step n d s m mid ms rest first others = rw (first, read_all) (rw others refl)

write_key-IsAead :
    (c : SecureChannel) (m : Message) → IsAead c.write_key → IsAead (write_secure c m).0.write_key
unfolding write_secure
write_key-IsAead c m law = law

-- Under an AEAD that keeps its laws, whatever list of well-formed messages, none of them an
-- envelope, one end has sent, the other end in step with it reads that list, in that order, and
-- leaves what follows in the stream.
pub read-write_all :
    (c d : SecureChannel) (ms : List Message) (out rest : Bytes)
    → InStep c d
    → IsAead c.write_key
    → All Carries ms
    → (write_all c ms).1 ≡ ok out
    → (read_all (length ms) d (out ++ rest)).1 ≡ ok (ms, rest)
unfolding write_all read_all
read-write_all c d [] out rest step law carry sent =
    let none_sent : [] ≡ out = cc in ap (λ x. ok ([], x ++ rest)) (sym none_sent)
read-write_all c d (m ∷ ms) out rest step law carry sent =
    let (o1, e1, f1) = >>=-eq-ok (write_secure c m).1 _ sent in
    let (o2, e2, f2) = >>=-eq-ok (write_all (write_secure c m).0 ms).1 _ f1 in
    let whole : o1 ++ o2 ≡ out = cc in
    let (first, in_step) = read-write_secure c d step law m o1 (o2 ++ rest) carry.0 e1 in
    let split : out ++ rest ≡ o1 ++ (o2 ++ rest) =
      ap (λ x. x ++ rest) (sym whole) ∙ append_assoc o1 o2 rest in
    let others =
      read-write_all (write_secure c m).0 (read_secure d (o1 ++ (o2 ++ rest))).0 ms o2 rest in_step
        (write_key-IsAead c m law) carry.1 e2 in
    subst (λ x. (read_all (suc (length ms)) d x).1 ≡ ok (m ∷ ms, rest)) (sym split)
      (read_all_step (length ms) d (o1 ++ (o2 ++ rest)) m (o2 ++ rest) ms rest (ap (λ r. r.1) first)
        others)
