-- ===== src/PtyInput/Cancelled.antt =====
-- What a disconnect leaves (src/pty_input.rs).
use agenttender.Common.{
  ℕ, true, false, List, [], ◌∷◌, ◌++◌, Option, none, some, ok, ◌≡◌, ◌≢◌, refl, ◌∙◌, arith, inl, inr,
  Bool, Bool-cases, All, ◌==◌, ◌↔◌, ◌⊎◌, ap, ==_iff,
}
use agenttender.Model.PtyControl.Arbiter.{
  ControllerKind, ControllerState, unowned, owned, HandleKey, ControllerHandle, InputArbiter,
  stale_reason, authorize,
}
use agenttender.Model.PtyControl.Requests.{PtyInputSink, PendingInput, write_step}
use agenttender.PtyInput.Items.{Control, InputItem, write, end_of, others, theirs, belongs}
use agenttender.PtyInput.Serving.{
  Current, Cancelling, EndMarker, cancel, cancel_all, release_input, staged, in_flight, kept_end,
  kept_current,
}
use agenttender.PtyInput.Totals.{WriteStep-cases}
use agenttender.PtyInput.Rounds.{Phase, Thread, cancelled, served_disconnect}

-- The item is a write or an end of input under a handle of the holder.
abbrev pub IsOf : ℕ → InputItem → Type 0
IsOf holder (write p reply) = p.key.holder ≡ holder
IsOf holder (end_of handle ended) = handle.key.holder ≡ holder

not_both : (b : Bool) → b ≡ false → b ≢ true
not_both b f t = ground arith

belongs_iff : (holder : ℕ) (item : InputItem) → (belongs holder item ≡ true) ↔ IsOf holder item
unfolding belongs
belongs_iff holder (write p reply) = ==_iff p.key.holder holder
belongs_iff holder (end_of handle ended) = ==_iff handle.key.holder holder

not-IsOf : (holder : ℕ) (item : InputItem) → belongs holder item ≡ false → ¬ IsOf holder item
not-IsOf holder item b i = not_both (belongs holder item) b ((belongs_iff holder item).1 i)

-- The second list is the first without the holder's items: all of the others', in their order.
pub data Splits (holder : ℕ) : List InputItem → List InputItem → Type 0 where
  nothing : Splits holder [] []
  gone :
      (item : InputItem) (xs ys : List InputItem)
      → IsOf holder item
      → Splits holder xs ys
      → Splits holder (item ∷ xs) ys
  stays :
      (item : InputItem) (xs ys : List InputItem)
      → (¬ IsOf holder item)
      → Splits holder xs ys
      → Splits holder (item ∷ xs) (item ∷ ys)

others-Splits : (holder : ℕ) (items : List InputItem) → Splits holder items (others holder items)
unfolding others
others-Splits holder [] = Splits.nothing
others-Splits holder (item ∷ items) = elim (Bool-cases (belongs holder item)) [
  | inl b ↦ rw b (
      Splits.gone item items (others holder items) ((belongs_iff holder item).0 b)
        (others-Splits holder items))
  | inr b ↦ rw b (
      Splits.stays item items (others holder items) (not-IsOf holder item b)
        (others-Splits holder items))
]

kept_end-Splits :
    (holder : ℕ) (e : Option EndMarker) → Splits holder (staged e) (staged (kept_end holder e))
unfolding kept_end
kept_end-Splits holder none = Splits.nothing
kept_end-Splits holder (some (handle, ended)) =
    elim (Bool-cases (belongs holder (end_of handle ended))) [
      | inl b ↦
          rw b (Splits.gone _ [] [] ((belongs_iff holder (end_of handle ended)).0 b) Splits.nothing)
      | inr b ↦ rw b (Splits.stays _ [] [] (not-IsOf holder (end_of handle ended) b) Splits.nothing)
    ]

kept_current-Splits :
    (holder : ℕ) (w : Option Current)
    → Splits holder (in_flight w) (in_flight (kept_current holder w))
unfolding kept_current
kept_current-Splits holder none = Splits.nothing
kept_current-Splits holder (some w) =
    let item = write w.request w.reply in
    elim (Bool-cases (belongs holder item)) [
      | inl b ↦ rw b (Splits.gone item [] [] ((belongs_iff holder item).0 b) Splits.nothing)
      | inr b ↦ rw b (Splits.stays item [] [] (not-IsOf holder item b) Splits.nothing)
    ]

-- The holder does not hold control.
abbrev pub HoldsNothing : ℕ → ControllerState → Type 0
HoldsNothing holder (unowned e) = Unit
HoldsNothing holder (owned e owner kind) = (owner == holder) ≡ false

stale_of_HoldsNothing :
    (holder : ℕ) (a : InputArbiter) (k : HandleKey)
    → HoldsNothing holder a.state
    → (k.holder == holder) ≡ true
    → authorize a k ≢ ok tt
unfolding authorize stale_reason
stale_of_HoldsNothing holder a k h b = ground arith

write_step-unauthorized :
    (sink : PtyInputSink) (a : InputArbiter) (p : PendingInput) (s : sink.State)
    → authorize a p.key ≢ ok tt
    → (write_step sink a p s).1 ≡ s
unfolding write_step authorize
write_step-unauthorized sink a p s h = ground arith

theirs-All :
    (holder : ℕ) (items : List InputItem)
    → All (λ item. belongs holder item ≡ true) (theirs holder items)
unfolding theirs
theirs-All holder [] = tt
theirs-All holder (item ∷ items) = elim (Bool-cases (belongs holder item)) [
  | inl b ↦ rw b (b, theirs-All holder items)
  | inr b ↦ rw b (theirs-All holder items)
]

All-append :
    (P : InputItem → Type 0) (xs ys : List InputItem) → All P xs → All P ys → All P (xs ++ ys)
All-append P [] ys px py = py
All-append P (x ∷ xs) ys (p, px) py = (p, All-append P xs ys px py)

cancel-pty :
    (sink : PtyInputSink) (holder : ℕ) (a : InputArbiter) (item : InputItem)
    (k : Cancelling sink.State)
    → HoldsNothing holder a.state
    → belongs holder item ≡ true
    → (cancel sink a item k).pty ≡ k.pty
unfolding cancel belongs
cancel-pty sink holder a (write p reply) k h b =
    let same = write_step-unauthorized sink a p k.pty (stale_of_HoldsNothing holder a p.key h b) in
    elim (WriteStep-cases (write_step sink a p k.pty).2) [
      | inl n ↦ rw (cancel, n) same
      | inr (o, n) ↦ rw (cancel, n) same
    ]
cancel-pty sink holder a (end_of handle ended) k h b = refl

cancel_all-pty :
    (sink : PtyInputSink) (holder : ℕ) (a : InputArbiter) (items : List InputItem)
    (k : Cancelling sink.State)
    → HoldsNothing holder a.state
    → All (λ item. belongs holder item ≡ true) items
    → (cancel_all sink a items k).pty ≡ k.pty
unfolding cancel_all
cancel_all-pty sink holder a [] k h b = refl
cancel_all-pty sink holder a (item ∷ items) k h (b, bs) =
    cancel_all-pty sink holder a items (cancel sink a item k) h bs
    ∙ cancel-pty sink holder a item k h b

-- The holder has control.
abbrev pub Controls : ℕ → ControllerState → Type 0
Controls holder s = (epoch : ℕ) × (kind : ControllerKind) × (s ≡ owned epoch holder kind)

control-cases : (holder : ℕ) (s : ControllerState) → HoldsNothing holder s ⊎ Controls holder s
control-cases holder (unowned e) = inl tt
control-cases holder (owned e owner kind) = elim (Bool-cases (owner == holder)) [
  | inl b ↦ inr (e, kind, ap (λ x. owned e x kind) ((==_iff owner holder).0 b))
  | inr b ↦ inl b
]

-- Serving a disconnect takes what is the holder's, and nothing else, out of the queue, the staged end
-- marker and the write in flight: the others' items stay, in their order, and so do the controls. The
-- PTY gets no byte by it,
-- unless the holder has control with another handle when this one has been released.
pub served_disconnect-Splits :
    (sink : PtyInputSink) (handle : ControllerHandle) (rest : List Control) (e : Option EndMarker)
    (y : Thread sink.State)
    → let y' = served_disconnect sink handle rest e y in
      let holder = handle.key.holder in
      (Splits holder y.queues.inputs y'.queues.inputs)
      × ((kept : Option EndMarker) × (y'.phase ≡ Phase.serving rest kept)
          × Splits holder (staged e) (staged kept))
      × (Splits holder (in_flight y.current) (in_flight y'.current))
      × (y'.queues.controls ≡ y.queues.controls)
      × ((y'.pty ≡ y.pty) ⊎ Controls holder (release_input handle y.arbiter).0.state)
unfolding served_disconnect cancelled
served_disconnect-Splits sink handle rest e y =
    let holder = handle.key.holder in
    let Q = λ (item : InputItem). belongs holder item ≡ true in
    let queued = theirs holder y.queues.inputs in
    let end = theirs holder (staged e) in
    let writing = theirs holder (in_flight y.current) in
    (
      others-Splits holder y.queues.inputs,
      (kept_end holder e, refl, kept_end-Splits holder e),
      kept_current-Splits holder y.current,
      refl,
      elim (control-cases holder (release_input handle y.arbiter).0.state) [
        | inr c ↦ inr c
        | inl h ↦ inl (
            cancel_all-pty sink holder (release_input handle y.arbiter).0
              (queued ++ (end ++ writing))
              (record {
                pty = y.pty;
                effects = y.effects ++ (release_input handle y.arbiter).1;
                accepted = 0;
                total = 0;
              })
              h
              (All-append Q queued (end ++ writing) (theirs-All holder y.queues.inputs) (
                All-append Q end writing (theirs-All holder (staged e))
                  (theirs-All holder (in_flight y.current)))))
      ],
    )
