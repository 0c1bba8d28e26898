-- ===== src/AttachEscape/Order/Feeds.antt =====
-- A whole read (src/attach_escape.rs): what `feed` and `flush_expired` do with the bytes typed.
use agenttender.Common.{
  ℕ, zero, suc, Bool, true, false, [], ◌∷◌, ◌++◌, Option, none, some, Bytes, take, drop,
  take-append-drop, ◌≡◌, refl, sym, ap, arith, ◌∙◌, append_assoc, append-nil,
}
use mathlib.Core.Path.{subst}
use agenttender.AttachEscape.Parser.{holds_back, EscapeParser, EscapeMode, since}
use agenttender.AttachEscape.Progress.{Fed, Runs, drained, held, through, detached, decided}
use agenttender.AttachEscape.Order.{
  nothing, keep, Within-none, Within, Within-refl, Within-append, Within-trans, held_bytes,
  IsParser, decide-Decided,
}

-- A time is held exactly with an unfinished sequence.
pub data Timed : Bytes → Option ℕ → Type 0 where
  untimed : Timed [] none
  timed : (b : ℕ) (bs : Bytes) (t : ℕ) → Timed (b ∷ bs) (some t)

-- What a read may do: it sends bytes, and these and the bytes still held stand, in order, among the
-- bytes that were held and typed.
pub record Accounts (m : EscapeMode) (before forward : Bytes) (out : Fed) : Type 0 where
  pub sent : Bytes
  pub forwarded : out.1 ≡ forward ++ sent
  pub ordered : Within (sent ++ (held_bytes out.0 ++ out.0.partial)) before
  pub valid : IsParser out.0
  pub time : Timed out.0.partial out.0.partial_since
  pub mode : out.0.mode ≡ m

since-Timed :
    (now : ℕ) (moved : Bool) (o : Option ℕ) (b : ℕ) (bs : Bytes)
    → Timed (b ∷ bs) (since now moved o)
unfolding since
since-Timed now moved none b bs = timed b bs now
since-Timed now true (some t) b bs = timed b bs now
since-Timed now false (some t) b bs = timed b bs t

pub untimed_none : (partial : Bytes) → partial ≡ [] → Timed partial none
untimed_none partial eq = subst (λ xs. Timed xs none) (sym eq) untimed

holds_back-none :
    (p : EscapeParser) (b : ℕ) (bs : Bytes) → holds_back p (b ∷ bs) ≡ false → p.prefix ≡ none
unfolding holds_back
holds_back-none p b bs h = ground arith

pub take-Within : (n : ℕ) (xs : Bytes) → Within (take n xs) xs
take-Within zero xs = Within-none xs
take-Within (suc n) [] = nothing
take-Within (suc n) (x ∷ xs) = keep x (take n xs) xs (take-Within n xs)

-- Two steps in a row: what the first sends stands before what the second sends and holds.
pub join :
    (sent sent' left kept before typed : Bytes)
    → Within (sent ++ kept) before
    → Within (sent' ++ left) (kept ++ typed)
    → Within ((sent ++ sent') ++ left) (before ++ typed)
join sent sent' left kept before typed v w =
    subst (λ xs. Within xs (before ++ typed)) (sym (append_assoc sent sent' left))
      (Within-trans _ _ _ (Within-append sent sent _ _ (Within-refl sent) w) (
        subst (λ xs. Within xs (before ++ typed)) (append_assoc sent kept typed)
          (Within-append _ _ typed typed v (Within-refl typed))))

chain :
    (sent sent' left kept before : Bytes) (n : ℕ) (rest : Bytes)
    → Within (sent ++ kept) (before ++ take n rest)
    → Within (sent' ++ left) (kept ++ drop n rest)
    → Within ((sent ++ sent') ++ left) (before ++ rest)
chain sent sent' left kept before n rest v w =
    subst (Within ((sent ++ sent') ++ left))
      (append_assoc before (take n rest) (drop n rest)
        ∙ ap (λ xs. before ++ xs) (take-append-drop n rest))
      (join sent sent' left kept (before ++ take n rest) (drop n rest) v w)

alone :
    (sent kept partial before : Bytes) (n : ℕ) (rest : Bytes)
    → partial ≡ []
    → Within (sent ++ kept) (before ++ take n rest)
    → Within (sent ++ (kept ++ partial)) (before ++ rest)
alone sent kept partial before n rest e v =
    rw (e, append-nil kept)
      (Within-trans _ _ _ v
        (Within-append before before (take n rest) rest (Within-refl before) (take-Within n rest)))

pub Runs-Accounts :
    (now : ℕ) (moved : Bool) (rest : Bytes) (p : EscapeParser) (forward : Bytes) (r : Fed)
    → Runs now moved rest p forward r
    → IsParser p
    → p.partial ≡ []
    → Accounts p.mode (held_bytes p ++ rest) forward r
Runs-Accounts now moved rest p forward r (drained m q f) v e = record {
  sent = [];
  forwarded = sym (append-nil forward);
  ordered = rw e (Within-refl _);
  valid = record { kept = v.kept; idle = v.idle };
  time = untimed_none p.partial e;
  mode = refl;
}
Runs-Accounts now moved rest p forward r (held m b bs q f t h) v e = record {
  sent = [];
  forwarded = sym (append-nil forward);
  ordered = Within-refl _;
  valid = record { kept = v.kept; idle = v.idle };
  time = since-Timed now moved p.partial_since b bs;
  mode = refl;
}
Runs-Accounts now moved rest p forward r (through m b bs q f t h) v e = record {
  sent = rest;
  forwarded = refl;
  ordered =
      rw (holds_back-none p b bs h, v.idle (holds_back-none p b bs h), e)
        (subst (λ xs. Within xs rest) (sym (append-nil rest)) (Within-refl rest));
  valid = record { kept = v.kept; idle = v.idle };
  time = untimed_none p.partial e;
  mode = refl;
}
Runs-Accounts now moved rest p forward r (detached m rs q f n k t d) v e =
    let out = decide-Decided (take n rest) forward k p v in
    record {
      sent = out.sent;
      forwarded = out.forwarded;
      ordered = alone out.sent _ _ (held_bytes p) n rest (out.partial ∙ e) out.ordered;
      valid = record { kept = out.valid.kept; idle = out.valid.idle };
      time = untimed_none _ (out.partial ∙ e);
      mode = out.mode;
    }
Runs-Accounts now moved rest p forward r (decided m rs q f n k r' t d more) v e =
    let out = decide-Decided (take n rest) forward k p v in
    let a = Runs-Accounts now true (drop n rest) _ _ r more out.valid (out.partial ∙ e) in
    record {
      sent = out.sent ++ a.sent;
      forwarded =
          a.forwarded
          ∙ ap (λ xs. xs ++ a.sent) out.forwarded
          ∙ append_assoc forward out.sent a.sent;
      ordered =
          chain out.sent a.sent (held_bytes r.0 ++ r.0.partial) _ (held_bytes p) n rest out.ordered
            a.ordered;
      valid = a.valid;
      time = a.time;
      mode = a.mode ∙ out.mode;
    }
