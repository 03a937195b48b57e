-- ===== src/Control/Frame/Writing.antt =====
-- `writeFull` of internal/control/codec.go under every behaviour of the writer.
use mathlib.Core.List.{append-nil, append_assoc}
use gremlind.Prelude.{
  zero, suc, ◌≤◌, ◌<◌, ◌≡◌, refl, sym, ap, ap₂, ◌∙◌, List, [], ◌∷◌, ◌++◌, arith, length, take, drop,
  length-drop, take-append-drop,
}
use gremlind.Prelude.Bytes.{Bytes}
use gremlind.Control.Frame.{Answer, took, failed, Outcome, done, write_full}

-- What was sent is a prefix of the frame, `out ++ left`, and all of it on success.
pub record Sent (p sent : Bytes) (r : Outcome × Bytes) : Type 0 where
  pub left : Bytes
  pub prefix : r.1 ++ left ≡ sent ++ p
  pub whole : r.0 ≡ done → r.1 ≡ sent ++ p

write_full-Sent_from :
    (answers : List Answer) (p sent : Bytes) → Sent p sent (write_full answers p sent)
unfolding write_full
write_full-Sent_from [] [] sent = record {
  left = [];
  prefix = refl;
  whole = λ _. sym (append-nil sent);
}
write_full-Sent_from (a ∷ answers) [] sent = record {
  left = [];
  prefix = refl;
  whole = λ _. sym (append-nil sent);
}
write_full-Sent_from [] (b ∷ p) sent = record { left = b ∷ p; prefix = refl; whole = λ h. cc }
write_full-Sent_from (failed ∷ answers) (b ∷ p) sent = record {
  left = b ∷ p;
  prefix = refl;
  whole = λ h. cc;
}
write_full-Sent_from (took zero ∷ answers) (b ∷ p) sent = record {
  left = b ∷ p;
  prefix = refl;
  whole = λ h. cc;
}
write_full-Sent_from (took (suc n) ∷ answers) (b ∷ p) sent =
    let ih = write_full-Sent_from answers (drop n p) (sent ++ b ∷ take n p) in
    let joined : (sent ++ b ∷ take n p) ++ drop n p ≡ sent ++ b ∷ p =
      append_assoc sent (b ∷ take n p) (drop n p)
      ∙ ap (λ t. sent ++ b ∷ t) (take-append-drop n p) in
    record { left = ih.left; prefix = ih.prefix ∙ joined; whole = λ h. ih.whole h ∙ joined }

-- Whatever the writer answers, the peer has a prefix of the bytes, in order, and all of them if
-- `writeFull` reports no error.
pub write_full-Sent : (answers : List Answer) (p : Bytes) → Sent p [] (write_full answers p [])
write_full-Sent answers p = write_full-Sent_from answers p []

-- A writer that keeps io.Writer's contract without an error: it takes a byte or more each time.
abbrev pub Progress : List Answer → Type 0
Progress [] = Unit {0}
Progress (failed ∷ answers) = ⊥
Progress (took n ∷ answers) = (0 < n) × Progress answers

write_full-done :
    (answers : List Answer) (p sent : Bytes)
    → Progress answers
    → length p ≤ length answers
    → (write_full answers p sent).0 ≡ done
unfolding write_full
write_full-done [] [] sent g h = refl
write_full-done (a ∷ answers) [] sent g h = refl
write_full-done [] (b ∷ p) sent g h = absurd (omega arith)
write_full-done (failed ∷ answers) (b ∷ p) sent g h = absurd g
write_full-done (took zero ∷ answers) (b ∷ p) sent g h = absurd (omega arith)
write_full-done (took (suc n) ∷ answers) (b ∷ p) sent g h =
    write_full-done answers (drop n p) (sent ++ b ∷ take n p) g.1 (omega (arith, length-drop n p))

-- Against a writer that takes a byte or more each time, `writeFull` ends without an error, after as
-- many rounds as there are bytes at most, and the peer has all of the bytes.
pub write_full-all :
    (answers : List Answer) (p : Bytes)
    → Progress answers
    → length p ≤ length answers
    → write_full answers p [] ≡ (done, p)
write_full-all answers p g h =
    let ended = write_full-done answers p [] g h in
    let sent = (write_full-Sent answers p).whole ended in ap₂ (λ o b. (o, b)) ended sent
