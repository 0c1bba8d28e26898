-- ===== src/Recording/Order/Joins.antt =====
-- Where the loop of `decode_recording` (src/recording.rs) stands between two segments.
use agenttender.Common.{
  ℕ, Bool, true, false, not, List, [], ◌∷◌, ◌++◌, Option, none, some, ok, is_empty, ◌≡◌, refl, sym,
  ap, ◌∙◌, arith,
}
use mathlib.Core.Path.{subst}
use agenttender.Recording.Format.{Record, SegmentHeader, next_sequence_of}
use agenttender.Recording.Decoded.{DecodedSegment, SegmentSummary}
use agenttender.Recording.Decoder.{summary_after}
use agenttender.Recording.Segment.{
  violation_of, previous_elapsed, check_header_continuity, continues_from, initial_summary, is_next,
  bool_eq,
}
use agenttender.Recording.Order.{InOrder}
use agenttender.Recording.Order.Segments.{summary_of, FirstAfter, SegmentFacts}
use agenttender.Recording.Join.{
  Joined, or_else, continuity, zip, interior_error, add_segment, accept_segment,
}

-- What is expected after some records.
abbrev pub next_after : Option ℕ → List Record → Option ℕ
next_after next [] = next
next_after next (r ∷ rs) = next_after (next_sequence_of r.sequence) rs

abbrev pub elapsed_after : Option ℕ → List Record → Option ℕ
elapsed_after last [] = last
elapsed_after last (r ∷ rs) = elapsed_after (some r.elapsed_ns) rs

next_after-append :
    (xs ys : List Record) (n : Option ℕ) → next_after n (xs ++ ys) ≡ next_after (next_after n xs) ys
next_after-append [] ys n = refl
next_after-append (x ∷ xs) ys n = next_after-append xs ys (next_sequence_of x.sequence)

elapsed_after-append :
    (xs ys : List Record) (l : Option ℕ)
    → elapsed_after l (xs ++ ys) ≡ elapsed_after (elapsed_after l xs) ys
elapsed_after-append [] ys l = refl
elapsed_after-append (x ∷ xs) ys l = elapsed_after-append xs ys (some x.elapsed_ns)

InOrder-append :
    (b : Bool) (xs ys : List Record) (n l : Option ℕ)
    → InOrder b n l xs
    → InOrder b (next_after n xs) (elapsed_after l xs) ys
    → InOrder b n l (xs ++ ys)
InOrder-append b [] ys n l o p = p
InOrder-append b (x ∷ xs) ys n l (q, r, a, o) p = (q, r, a, InOrder-append b xs ys _ _ o p)

summary_of-next :
    (s : SegmentSummary) (rs : List Record)
    → (summary_of s rs).next_sequence ≡ next_after s.next_sequence rs
unfolding summary_after
summary_of-next s [] = refl
summary_of-next s (r ∷ rs) = summary_of-next (summary_after s r) rs

summary_of-elapsed :
    (s : SegmentSummary) (rs : List Record)
    → (summary_of s rs).last_elapsed_ns ≡ elapsed_after s.last_elapsed_ns rs
unfolding summary_after
summary_of-elapsed s [] = refl
summary_of-elapsed s (r ∷ rs) = summary_of-elapsed (summary_after s r) rs

-- Records in order on their own are so behind a segment that ended before the first of them.
InOrder-behind :
    (b : Bool) (n l : Option ℕ) (rs : List Record)
    → FirstAfter l rs
    → InOrder b n none rs
    → InOrder b n l rs
InOrder-behind b n l [] f o = tt
InOrder-behind b n l (r ∷ rs) f (q, _, a, o) = (q, f, a, o)

elapsed_after-non_empty :
    (l : Option ℕ) (rs : List Record)
    → is_empty rs ≡ false
    → elapsed_after l rs ≡ elapsed_after none rs
elapsed_after-non_empty l [] p = absurd (ground arith)
elapsed_after-non_empty l (r ∷ rs) p = refl

bool_eq-path : (a b : Bool) → bool_eq a b ≡ true → a ≡ b
unfolding bool_eq
bool_eq-path true b p = sym p
bool_eq-path false b p = ground arith

is_next-some : (o : Option ℕ) (n : ℕ) → is_next o n ≡ true → o ≡ some n
unfolding is_next
is_next-some none n p = absurd (ground arith)
is_next-some (some m) n p = ap some (ground arith)

-- What a header that continues a recording shares with it.
continues_from-none :
    (header first : SegmentHeader) (prev : SegmentSummary)
    → continues_from header first prev ≡ none
    → (header.input_recorded ≡ first.input_recorded)
      × (prev.next_sequence ≡ some header.first_sequence)
unfolding continues_from
continues_from-none header first prev eq = (
  ground (arith, bool_eq-path header.input_recorded first.input_recorded),
  ground (arith, is_next-some prev.next_sequence header.first_sequence),
)

-- Where the loop stands behind at least one segment, when `more` says that another one follows.
pub record Stands (more : Bool) (j : Joined) (h : SegmentHeader) (p : SegmentSummary) : Type 0 where
  pub first : j.first ≡ some h
  pub previous : j.previous ≡ some p
  pub in_order : InOrder h.input_recorded (some h.first_sequence) none j.records
  pub next : next_after (some h.first_sequence) j.records ≡ p.next_sequence
  pub elapsed : more ≡ true → elapsed_after none j.records ≡ p.last_elapsed_ns

interior_error-none :
    (j : Joined) (is_final : Bool) (d : DecodedSegment) (s : SegmentSummary)
    → is_final ≡ false
    → interior_error j is_final d s ≡ none
    → is_empty d.records ≡ false
unfolding interior_error
interior_error-none j true d s f eq = absurd (ground arith)
interior_error-none j false d s f eq = ground arith

-- An accepted segment adds its records, and is not empty when another one follows.
accept_segment-ok :
    (j after : Joined) (is_final : Bool) (d : DecodedSegment) (s : SegmentSummary)
    → accept_segment j is_final d s ≡ ok after
    → (after.first ≡ or_else j.first (some d.header))
      × (after.previous ≡ some s)
      × (after.records ≡ j.records ++ d.records)
      × (is_final ≡ false → is_empty d.records ≡ false)
unfolding accept_segment add_segment
accept_segment-ok j after is_final d s eq = (
  ground arith,
  ground arith,
  ground arith,
  λ q. ground (arith, interior_error-none j is_final d s),
)

-- The first segment.
pub Stands-first :
    (j after : Joined) (is_final : Bool) (d : DecodedSegment) (s : SegmentSummary)
    → j.first ≡ none
    → j.records ≡ []
    → SegmentFacts d.header (continuity j) d.records s
    → accept_segment j is_final d s ≡ ok after
    → Stands (not is_final) after d.header s
unfolding initial_summary or_else
Stands-first j after is_final d s f e facts eq =
    let (a, b, c, _) = accept_segment-ok j after is_final d s eq in
    let start = initial_summary d.header facts.header_len in
    record {
      first = a ∙ ap (λ o. or_else o (some d.header)) f;
      previous = b;
      in_order = rw (c, e) facts.in_order;
      next =
          rw (c, e)
            (sym (summary_of-next start d.records) ∙ sym (ap (λ s. s.next_sequence) facts.summary));
      elapsed = λ _.
          rw (c, e)
            (sym (summary_of-elapsed start d.records)
              ∙ sym (ap (λ s. s.last_elapsed_ns) facts.summary));
    }

-- Any further segment.
module _ (j after : Joined) (h : SegmentHeader) (p : SegmentSummary) (is_final : Bool)
    (d : DecodedSegment) (s : SegmentSummary) where
  continuity-elapsed : Stands true j h p → previous_elapsed (continuity j) ≡ p.last_elapsed_ns
  unfolding continuity zip previous_elapsed
  continuity-elapsed stands = rw (stands.first, stands.previous) refl

  continued :
      Stands true j h p
      → SegmentFacts d.header (continuity j) d.records s
      → (d.header.input_recorded ≡ h.input_recorded)
        × (p.next_sequence ≡ some d.header.first_sequence)
        × FirstAfter p.last_elapsed_ns d.records
  unfolding continuity zip violation_of check_header_continuity previous_elapsed
  continued stands facts =
      let (i, n) =
        continues_from-none d.header h p
          (ground (arith, stands.first, stands.previous, facts.continues)) in
      (i, n, subst (λ o. FirstAfter o d.records) (continuity-elapsed stands) facts.first_after)

  pub Stands-next :
      Stands true j h p
      → SegmentFacts d.header (continuity j) d.records s
      → accept_segment j is_final d s ≡ ok after
      → Stands (not is_final) after h s
  unfolding initial_summary or_else
  Stands-next stands facts eq =
      let (a, b, c, e) = accept_segment-ok j after is_final d s eq in
      let start = initial_summary d.header facts.header_len in
      let (i, n, f) = continued stands facts in
      record {
        first = a ∙ ap (λ o. or_else o (some d.header)) stands.first;
        previous = b;
        in_order = rw c (
            InOrder-append h.input_recorded j.records d.records (some h.first_sequence) none
              stands.in_order
              (rw (stands.next, stands.elapsed refl, n)
                (InOrder-behind h.input_recorded _ _ d.records f (rw (sym i) facts.in_order))));
        next = rw c (
            next_after-append j.records d.records (some h.first_sequence)
            ∙ ap (λ o. next_after o d.records) (stands.next ∙ n)
            ∙ sym (summary_of-next start d.records)
            ∙ sym (ap (λ s. s.next_sequence) facts.summary));
        elapsed = λ m. rw c (
            elapsed_after-append j.records d.records none
            ∙ elapsed_after-non_empty _ d.records (e (ground arith))
            ∙ sym (summary_of-elapsed start d.records)
            ∙ sym (ap (λ s. s.last_elapsed_ns) facts.summary));
      }
