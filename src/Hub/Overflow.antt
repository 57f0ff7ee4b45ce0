-- ===== src/Hub/Overflow.antt =====
-- What a client whose channel is full does to the hub: SendMessage closes the channel and hands the
-- client to `unregister`. The hub's own goroutine waits there for itself; from another goroutine, the
-- hub closes the channel a second time.
use zentora_backend.Prelude.{
  ◌≡◌, All, ℕ, ◌∙◌, refl, ap, subst, Bool, true, false, ◌&&◌, not, Option, none, some, List, [],
  ◌∷◌, ◌++◌, if◌then◌else◌, ltb, length, arith,
}
use zentora_backend.Text.{Text}
use zentora_backend.Hub.{
  Client, Outcome, done, panicked, blocked, and_then, is_subscribed, capacity, Sent, kept,
  overflowed, sent_on_closed, send_message, close, unregister_client, each, broadcast_message,
  send_from_hub,
}

-- The client takes no more: its channel is open and full, and its context is not done.
pub record IsFull (c : Client) : Type 0 where
  pub open_ : c.is_closed ≡ false
  pub running : c.is_cancelled ≡ false
  pub full : length c.send ≡ capacity

abbrev WhenOver : (Client → Type 0) → Sent → Type 0
WhenOver P (kept c) = Unit
WhenOver P (overflowed c) = P c
WhenOver P sent_on_closed = Unit

if_WhenOver :
    (P : Client → Type 0) (b : Bool) (x y : Sent)
    → WhenOver P x
    → WhenOver P y
    → WhenOver P (if b then x else y)
if_WhenOver P true x y h k = h
if_WhenOver P false x y h k = k

abbrev IsClosedOf : Client → Client → Type 0
IsClosedOf c d = (d.is_closed ≡ true) × (d.is_registered ≡ c.is_registered)

send_message-WhenOver :
    (p : Bool) (m : Option Text) (c : Client) → WhenOver (IsClosedOf c) (send_message p m c)
unfolding send_message
send_message-WhenOver p none c = tt
send_message-WhenOver p (some m) c =
    if_WhenOver (IsClosedOf c) c.is_closed _ _
      (if_WhenOver (IsClosedOf c) (c.is_cancelled && not p) _ _ tt tt)
      (if_WhenOver (IsClosedOf c) (ltb (length c.send) capacity) _ _
        (if_WhenOver (IsClosedOf c) (c.is_cancelled && not p) _ _ tt tt)
        (if_WhenOver (IsClosedOf c) c.is_cancelled _ _ tt (refl, refl)))

-- A registered client whose channel overflowed brings the hub down when the hub takes it from
-- `unregister`: it closes the closed channel, and panics.
pub unregister_client-send_message :
    (p : Bool) (m : Option Text) (c d : Client)
    → send_message p m c ≡ overflowed d
    → c.is_registered ≡ true
    → unregister_client d ≡ panicked
unfolding unregister_client close
unregister_client-send_message p m c d h registered =
    let (closed, same) = subst (WhenOver (IsClosedOf c)) h (send_message-WhenOver p m c) in
    ap (λ b. if b then close (record d { is_registered = false }) else done d) (same ∙ registered)
    ∙ ap
        (λ b.
          if b
          then panicked
          else done (record d { is_registered = false; is_closed = true; is_cancelled = true }))
        closed

full_overflows :
    (p : Bool) (m : Text) (c : Client)
    → IsFull c
    → send_from_hub (send_message p (some m) c) ≡ blocked
unfolding send_message send_from_hub
full_overflows p m c f =
    let no_room : ltb (length c.send) capacity ≡ false = ground (arith, f.full) in
    rw (f.open_, no_room, f.running) refl

-- The hub's own send to a client whose channel is open either ends or waits for ever.
abbrev EndsOrBlocks : Outcome Client → Type 0
EndsOrBlocks (done c) = Unit
EndsOrBlocks panicked = ⊥
EndsOrBlocks blocked = Unit

if_EndsOrBlocks :
    (b : Bool) (x y : Sent)
    → EndsOrBlocks (send_from_hub x)
    → EndsOrBlocks (send_from_hub y)
    → EndsOrBlocks (send_from_hub (if b then x else y))
if_EndsOrBlocks true x y h k = h
if_EndsOrBlocks false x y h k = k

open_EndsOrBlocks :
    (p : Bool) (m : Text) (c : Client)
    → c.is_closed ≡ false
    → EndsOrBlocks (send_from_hub (send_message p (some m) c))
unfolding send_message send_from_hub
open_EndsOrBlocks p m c open_ = rw open_ (
    if_EndsOrBlocks (ltb (length c.send) capacity) _ _
      (if_EndsOrBlocks (c.is_cancelled && not p) _ _ tt tt)
      (if_EndsOrBlocks c.is_cancelled _ _ tt tt))

each_blocked :
    (f : Client → Outcome Client) (before : List Client) (c : Client) (after_ : List Client)
    → All (λ b. EndsOrBlocks (f b)) before
    → f c ≡ blocked
    → each f (before ++ c ∷ after_) ≡ blocked
each_blocked f [] c after_ ends stuck = rw stuck refl
each_blocked f (b ∷ before) c after_ ends stuck =
    let rest = each_blocked f before c after_ ends.1 stuck in first (f b) ends.0 rest
  where
    first :
        {r : Outcome (List Client)} (o : Outcome Client)
        → EndsOrBlocks o
        → r ≡ blocked
        → and_then o (λ d. and_then r (λ ds. done (d ∷ ds))) ≡ blocked
    first (done d) h e = rw e refl
    first panicked h e = absurd h
    first blocked h e = refl

open_ends :
    (picks : ℕ → Bool) (channel m : Text) (before : List Client)
    → All (λ b. b.is_closed ≡ false) before
    → All
        (λ b. EndsOrBlocks (
          if b.is_registered && is_subscribed b channel
          then send_from_hub (send_message (picks b.id) (some m) b)
          else done b))
        before
open_ends picks channel m [] h = tt
open_ends picks channel m (b ∷ before) h =
    (chosen (b.is_registered && is_subscribed b channel), open_ends picks channel m before h.1)
  where
    chosen :
        (x : Bool)
        → EndsOrBlocks (if x then send_from_hub (send_message (picks b.id) (some m) b) else done b)
    chosen true = open_EndsOrBlocks (picks b.id) m b h.0
    chosen false = tt

-- A broadcast to all waits for ever when a registered client that is subscribed to its channel is
-- full and the channels of the clients before it are open.
pub broadcast_message-IsFull :
    (picks : ℕ → Bool) (channel m : Text) (before : List Client) (c : Client) (after_ : List Client)
    → All (λ b. b.is_closed ≡ false) before
    → IsFull c
    → c.is_registered ≡ true
    → is_subscribed c channel ≡ true
    → broadcast_message picks none channel (some m) (before ++ c ∷ after_) ≡ blocked
unfolding broadcast_message
broadcast_message-IsFull picks channel m before c after_ open_ f registered subscribed =
    let chosen : (c.is_registered && is_subscribed c channel) ≡ true =
      ground (arith, registered, subscribed) in
    each_blocked _ before c after_ (open_ends picks channel m before open_) (
      ap (λ b. if b then send_from_hub (send_message (picks c.id) (some m) c) else done c) chosen
      ∙ full_overflows (picks c.id) m c f)
