-- ===== src/Gre/Netlink/Exec.antt =====
-- `nlExecProto` of internal/gre/netlink_linux.go over what `Recvfrom` returns.
use gremlind.Prelude.{
  ℕ, zero, suc, ◌-◌, ◌^◌, Bool, ◌||◌, List, [], ◌∷◌, ◌++◌, Option, none, some, Result, ok, err,
  length, take, drop, ltb, leb, ◌==◌, nat_eq, if◌then◌else◌,
}
use gremlind.Prelude.Bytes.{Bytes}
use gremlind.Gre.Netlink.Words.{Endian, native_value}
use gremlind.Gre.Netlink.Message.{align4, sizeof_nl_msghdr}

pub data ExecError : Type 0 where
  recv_failed malformed : ExecError
  errno : ℕ → ExecError

-- Where the loop over the messages of one datagram stands: it returns from `nlExecProto`, or the
-- datagram is done.
pub data Progress : Type 0 where
  ended : Result ExecError (List Bytes) → Progress
  more : List Bytes → Progress
  panicked : Progress

-- The error is `int32(v)`: none, or `Errno(-errno)`, which has 64 bits.
unfoldable pub ack : ℕ → List Bytes → Result ExecError (List Bytes)
ack v out = if v == 0 then ok out else err (errno ((if leb (2 ^ 31) v then 2 ^ 32 else 2 ^ 64) - v))

-- NLMSG_ERROR: the payload starts with the error.
unfoldable pub on_error : Endian → Bytes → List Bytes → Progress
unfolding native_value ack
on_error e payload out =
    if ltb (length payload) 4 then panicked else ended (ack (native_value e (take 4 payload)) out)

-- The loop over one datagram, on fuel.
unfoldable pub messages : Endian → ℕ → Bytes → List Bytes → Progress
unfolding native_value align4 on_error
messages e zero b out = more out
messages e (suc fuel) b out =
    let l = native_value e (take 4 b) in
    let typ = native_value e (take 2 (drop 4 b)) in
    let payload = drop sizeof_nl_msghdr (take l b) in
    let rest = messages e fuel (drop (align4 l) b) (out ++ payload ∷ []) in
    if ltb (length b) sizeof_nl_msghdr
    then more out
    else if ltb l sizeof_nl_msghdr || ltb (length b) l
    then ended (err malformed)
    else if typ == 2
    then on_error e payload out
    else if typ == 3
    then ended (ok out)
    else if ltb (length b) (align4 l)
    then panicked
    else rest

-- What `nlExecProto` has come to after the datagrams, `none` where `Recvfrom` fails.
pub data Exec : Type 0 where
  done : Result ExecError (List Bytes) → Exec
  waits : Exec
  panicks : Exec

unfoldable pub receiving : Endian → Bool → List (Option Bytes) → List Bytes → Exec
unfolding messages
receiving e dump [] out = waits
receiving e dump (none ∷ rest) out = done (err recv_failed)
receiving e dump (some b ∷ rest) out = elim (messages e (length b) b out) [
  | ended r ↦ done r
  | panicked ↦ panicks
  | more now ↦ if dump then receiving e dump rest now else done (ok now)
]

-- `nlExecProto` once the request is sent.
unfoldable pub nl_exec : Endian → Bool → List (Option Bytes) → Exec
unfolding receiving
nl_exec e dump datagrams = receiving e dump datagrams []
