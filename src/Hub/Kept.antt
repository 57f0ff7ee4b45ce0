-- ===== src/Hub/Kept.antt =====
-- What the hub's calls keep of a client: its roles and its subscriptions. IsGuarded is that the first
-- allow the second.
use zentora_backend.Prelude.{
  ◌≡◌, refl, sym, ap, ◌∙◌, subst, inl, inr, ◌⊎◌, Bool, true, false, ◌&&◌, not, Option, none, some,
  List, [], ◌∷◌, if◌then◌else◌, All, ltb, length,
}
use zentora_backend.Text.{Text}
use zentora_backend.Hub.{
  Client, Outcome, done, panicked, blocked, and_then, may_subscribe, Sent, kept, overflowed,
  sent_on_closed, capacity, send_message, close, send_from_hub, each, send_elsewhere,
}

-- The client's roles allow its subscriptions.
abbrev pub IsGuarded : Client → Type 0
IsGuarded c = All (λ s. may_subscribe c.client_auth s ≡ true) c.subscriptions

-- The same client, as far as subscriptions go.
abbrev pub IsSame : Client → Client → Type 0
IsSame c d = (d.client_auth ≡ c.client_auth) × (d.subscriptions ≡ c.subscriptions)

pub IsGuarded-same : (c d : Client) → IsSame c d → IsGuarded c → IsGuarded d
IsGuarded-same c d (a, s) h =
    subst (λ x. All (λ y. may_subscribe x y ≡ true) d.subscriptions) (sym a)
      (subst (All (λ y. may_subscribe c.client_auth y ≡ true)) (sym s) h)

-- What a step gives, if it ends, satisfies a predicate.
abbrev pub Gives : {A : Type 0} → (A → Type 0) → Outcome A → Type 0
Gives P (done a) = P a
Gives P panicked = Unit
Gives P blocked = Unit

abbrev pub Sends : (Client → Type 0) → Sent → Type 0
Sends P (kept c) = P c
Sends P (overflowed c) = P c
Sends P sent_on_closed = Unit

pub if_Sends :
    (P : Client → Type 0) (b : Bool) (x y : Sent)
    → Sends P x
    → Sends P y
    → Sends P (if b then x else y)
if_Sends P true x y h k = h
if_Sends P false x y h k = k

module _ {A : Type 0} (P : A → Type 0) where
  pub if_Gives :
      (b : Bool) (x y : Outcome A)
      → ((b ≡ true) → Gives P x)
      → Gives P y
      → Gives P (if b then x else y)
  if_Gives true x y h k = h refl
  if_Gives false x y h k = k

module _ {A B : Type 0} (P : A → Type 0) (Q : B → Type 0) where
  pub then-Gives :
      (o : Outcome A) (f : A → Outcome B)
      → Gives P o
      → ((a : A) → P a → Gives Q (f a))
      → Gives Q (and_then o f)
  then-Gives (done a) f h k = k a h
  then-Gives panicked f h k = tt
  then-Gives blocked f h k = tt

module _ (P : Client → Type 0) (f : Client → Outcome Client) where
  pub each-Gives :
      (cs : List Client)
      → ((c : Client) → P c → Gives P (f c))
      → All P cs
      → Gives (All P) (each f cs)
  each-Gives [] k h = tt
  each-Gives (c ∷ cs) k h =
      then-Gives P (All P) (f c) _ (k c h.0)
        (λ d hd. then-Gives (All P) (All P) (each f cs) _ (each-Gives cs k h.1) (λ ds hs. (hd, hs)))

pub send_message-IsSame :
    (p : Bool) (m : Option Text) (c : Client) → Sends (IsSame c) (send_message p m c)
unfolding send_message
send_message-IsSame p none c = (refl, refl)
send_message-IsSame p (some m) c =
    if_Sends (IsSame c) c.is_closed _ _
      (if_Sends (IsSame c) (c.is_cancelled && not p) _ _ (refl, refl) tt)
      (if_Sends (IsSame c) (ltb (length c.send) capacity) _ _
        (if_Sends (IsSame c) (c.is_cancelled && not p) _ _ (refl, refl) (refl, refl))
        (if_Sends (IsSame c) c.is_cancelled _ _ (refl, refl) (refl, refl)))

pub send_from_hub-IsSame : (P : Client → Type 0) (x : Sent) → Sends P x → Gives P (send_from_hub x)
unfolding send_from_hub
send_from_hub-IsSame P (kept c) h = h
send_from_hub-IsSame P (overflowed c) h = tt
send_from_hub-IsSame P sent_on_closed h = tt

pub send_elsewhere-IsSame :
    (P : Client → Type 0) (x : Sent) → Sends P x → Gives P (send_elsewhere x)
unfolding send_elsewhere
send_elsewhere-IsSame P (kept c) h = h
send_elsewhere-IsSame P (overflowed c) h = h
send_elsewhere-IsSame P sent_on_closed h = tt

pub close-IsSame : (c d : Client) → IsSame c d → Gives (IsSame c) (close d)
unfolding close
close-IsSame c d h = if_Gives (IsSame c) d.is_closed _ _ (λ e. tt) h

pub same-IsGuarded :
    (c : Client) (o : Outcome Client) → IsGuarded c → Gives (IsSame c) o → Gives IsGuarded o
same-IsGuarded c (done d) h k = IsGuarded-same c d k h
same-IsGuarded c panicked h k = tt
same-IsGuarded c blocked h k = tt

-- A broadcast that is let through: the client's channel is as it was, or its roles allow it.
abbrev pub Reaches : Text → Client → Client → Type 0
Reaches channel c d =
    (d.client_auth ≡ c.client_auth)
    × (d.subscriptions ≡ c.subscriptions)
    × ((d.send ≡ c.send) ⊎ (may_subscribe c.client_auth channel ≡ true))

-- Client by client.
abbrev pub OnlyTo : Text → List Client → List Client → Type 0
OnlyTo channel [] [] = Unit
OnlyTo channel [] (d ∷ ds) = ⊥
OnlyTo channel (c ∷ cs) [] = ⊥
OnlyTo channel (c ∷ cs) (d ∷ ds) = Reaches channel c d × OnlyTo channel cs ds

pub OnlyTo-refl : (channel : Text) (cs : List Client) → OnlyTo channel cs cs
OnlyTo-refl channel [] = tt
OnlyTo-refl channel (c ∷ cs) = ((refl, refl, inl refl), OnlyTo-refl channel cs)

pub Reaches-trans :
    (channel : Text) (c d e : Client)
    → Reaches channel c d
    → Reaches channel d e
    → Reaches channel c e
Reaches-trans channel c d e (a, s, inr ok) (b, t, k) = (b ∙ a, t ∙ s, inr ok)
Reaches-trans channel c d e (a, s, inl u) (b, t, inl v) = (b ∙ a, t ∙ s, inl (v ∙ u))
Reaches-trans channel c d e (a, s, inl u) (b, t, inr ok) =
    (b ∙ a, t ∙ s, inr (ap (λ x. may_subscribe x channel) (sym a) ∙ ok))

pub OnlyTo-trans :
    (channel : Text) (cs ds es : List Client)
    → OnlyTo channel cs ds
    → OnlyTo channel ds es
    → OnlyTo channel cs es
OnlyTo-trans channel [] [] es h k = k
OnlyTo-trans channel [] (d ∷ ds) es h k = elim h [ ]
OnlyTo-trans channel (c ∷ cs) [] es h k = elim h [ ]
OnlyTo-trans channel (c ∷ cs) (d ∷ ds) [] h k = k
OnlyTo-trans channel (c ∷ cs) (d ∷ ds) (e ∷ es) h k =
    (Reaches-trans channel c d e h.0 k.0, OnlyTo-trans channel cs ds es h.1 k.1)

pub only-IsGuarded :
    (channel : Text) (cs ds : List Client)
    → OnlyTo channel cs ds
    → All IsGuarded cs
    → All IsGuarded ds
only-IsGuarded channel [] [] h g = tt
only-IsGuarded channel [] (d ∷ ds) h g = elim h [ ]
only-IsGuarded channel (c ∷ cs) [] h g = tt
only-IsGuarded channel (c ∷ cs) (d ∷ ds) ((a, s, r), h) g =
    (IsGuarded-same c d (a, s) g.0, only-IsGuarded channel cs ds h g.1)
