-- ===== src/Receiver/Pieces.antt =====
-- The receiver of src/frame.rs over a whole conversation: it is drained after each piece of input.
use mathlib.Core.Path.{subst}
use stcbsl.Base.{
  concat, ◌≡◌, refl, sym, ap, ◌∙◌, none, some, Option, List, [], ◌∷◌, ◌++◌, append_assoc,
  append-nil, Result,
}
use stcbsl.Base.Bytes.{Bytes}
use stcbsl.Frame.{Frame, FrameError}
use stcbsl.Receiver.{Receiver, Polled, next_frame, feed, after_hunt}
use stcbsl.Receiver.Loop.{next_frame_loop, next_frame_waits}
use stcbsl.Receiver.Chunks.{Drains, idle, got, Drains-feed, Drains-total}

abbrev Answer : Type 0
Answer = Result FrameError Frame

first :
    {r s : Answer} {a b : Receiver} → ◌≡◌ {A = Polled} (some r, a) (some s, b) → (r ≡ s) × (a ≡ b)
first {r} e = (ap (λ (x : Polled). answer x.0) e, ap (λ (x : Polled). x.1) e)
  where
    answer : Option Answer → Answer
    answer none = r
    answer (some s) = s

-- Draining has one outcome.
pub Drains-det :
    {a b c : Receiver} {rs ss : List Answer} → Drains a rs b → Drains a ss c → (rs ≡ ss) × (b ≡ c)
Drains-det (idle q) (idle p) = (refl, ap (λ (x : Polled). x.1) (sym q ∙ p))
Drains-det (idle q) (got p d) = absurd (cc (ap (λ (x : Polled). x.0) (sym q ∙ p)))
Drains-det (got p d) (idle q) = absurd (cc (ap (λ (x : Polled). x.0) (sym q ∙ p)))
Drains-det {c = c} (got q d) (got {rs = ss} p e) =
    let (one, next) = first (sym q ∙ p) in
    let (others, last) = Drains-det d (subst (λ (x : Receiver). Drains x ss c) (sym next) e) in
    (λ i. one i ∷ others i, last)

-- A drained receiver waits.
Drains-idle : {a b : Receiver} {rs : List Answer} → Drains a rs b → next_frame b ≡ (none, b)
unfolding after_hunt
Drains-idle {b = b} (idle {rx = a} q) = next_frame_loop b ∙ rw (next_frame_waits a b q) refl
Drains-idle (got q d) = Drains-idle d

-- The answers to the pieces in sequence, and the receiver at the end.
pub data Listens : Receiver → List Bytes → List Answer → Receiver → Type 0 where
  silence : {rx : Receiver} → Listens rx [] [] rx
  heard :
      {rx rx' rx'' : Receiver} {bs : Bytes} {rest : List Bytes} {rs rs' out : List Answer}
      → Drains (feed rx bs) rs rx'
      → Listens rx' rest rs' rx''
      → out ≡ rs ++ rs'
      → Listens rx (bs ∷ rest) out rx''

feed-nil : (rx : Receiver) → feed rx [] ≡ rx
feed-nil rx = ap (λ (l : Bytes). record rx { buf = l }) (append-nil rx.buf)

feed-feed : (rx : Receiver) (a b : Bytes) → feed (feed rx a) b ≡ feed rx (a ++ b)
feed-feed rx a b = ap (λ (l : Bytes). record rx { buf = l }) (append_assoc rx.buf a b)

-- The pieces do not matter: all of the input at once drains to the same.
pub Listens-Drains :
    {rx rx' : Receiver} {pieces : List Bytes} {rs : List Answer}
    → next_frame rx ≡ (none, rx)
    → Listens rx pieces rs rx'
    → Drains (feed rx (concat pieces)) rs rx'
Listens-Drains {rx} q silence = idle (ap next_frame (feed-nil rx) ∙ q)
Listens-Drains {rx} q (heard {bs = bs} {rest = rest} d later e) =
    rw (sym (feed-feed rx bs (concat rest)), e)
      (Drains-feed (concat rest) d (Listens-Drains (Drains-idle d) later))

pub Listens-total :
    (pieces : List Bytes) (rx : Receiver)
    → (rs : List Answer) × (rx' : Receiver) × Listens rx pieces rs rx'
Listens-total [] rx = ([], rx, silence)
Listens-total (bs ∷ rest) rx =
    let (rs, rx', d) = Drains-total (feed rx bs) in
    let (rs', last, later) = Listens-total rest rx' in (rs ++ rs', last, heard d later refl)
