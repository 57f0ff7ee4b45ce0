-- ===== src/Hub/Guarded.antt =====
-- Who receives what: over any run of events, a client is subscribed only to channels that its roles
-- allow, so that a broadcast reaches nobody else.
use zentora_backend.Prelude.{
  ℕ, ◌≡◌, refl, sym, ap, ◌∙◌, subst, inl, inr, Bool, true, false, ◌&&◌, Option, none, some, List,
  [], ◌∷◌, ◌==◌, any, All, Bool-cases, arith,
}
use zentora_backend.Prelude.Int.{ℤ, ◌==ℤ◌}
use zentora_backend.Text.{Text, text_eq, text_eq_iff}
use zentora_backend.Hub.{
  Client, Outcome, done, panicked, blocked, new_client, is_subscribed, may_subscribe, subscribe,
  without, unsubscribe, Sent, kept, overflowed, sent_on_closed, send_message, register_client,
  unregister_client, deliver, to_identities, broadcast_message, disconnect_user, at_client, Event,
  connect, unregister, broadcast, disconnect, subscribe_to, unsubscribe_from, reply, write, handle,
  handle_all,
}
use zentora_backend.Hub.Kept.{
  IsGuarded, IsSame, Gives, Sends, if_Gives, then-Gives, each-Gives, send_message-IsSame,
  send_from_hub-IsSame, send_elsewhere-IsSame, close-IsSame, same-IsGuarded, Reaches, OnlyTo,
  OnlyTo-refl, OnlyTo-trans, only-IsGuarded,
}

-- A guarded client that is subscribed to a channel may be.
subscribed_allowed :
    (c : Client) (channel : Text)
    → IsGuarded c
    → is_subscribed c channel ≡ true
    → may_subscribe c.client_auth channel ≡ true
unfolding is_subscribed
subscribed_allowed c channel g h = among c.subscriptions g h
  where
    among :
        (ss : List Text)
        → All (λ s. may_subscribe c.client_auth s ≡ true) ss
        → any (λ s. text_eq s channel) ss ≡ true
        → may_subscribe c.client_auth channel ≡ true
    among [] k e = absurd cc
    among (s ∷ ss) k e = elim (Bool-cases (text_eq s channel)) [
      | inl same ↦ ap (may_subscribe c.client_auth) (sym ((text_eq_iff s channel).0 same)) ∙ k.0
      | inr apart ↦ among ss k.1 (rw apart at e)
    ]

deliver-OnlyTo :
    (channel : Text) (picks : ℕ → Bool) (m : Option Text) (receives : Client → Bool)
    (cs : List Client)
    → ((c : Client) → receives c ≡ true → is_subscribed c channel ≡ true)
    → All IsGuarded cs
    → Gives (OnlyTo channel cs) (deliver picks m receives cs)
deliver-OnlyTo channel picks m receives [] only g = tt
deliver-OnlyTo channel picks m receives (c ∷ cs) only g =
    then-Gives (Reaches channel c) (OnlyTo channel (c ∷ cs)) _ _
      (if_Gives (Reaches channel c) (receives c) _ _
        (λ e. send_from_hub-IsSame (Reaches channel c) (send_message (picks c.id) m c) (
          allowed (send_message (picks c.id) m c) (subscribed_allowed c channel g.0 (only c e))
            (send_message-IsSame (picks c.id) m c)))
        (refl, refl, inl refl))
      (λ d hd.
        then-Gives (OnlyTo channel cs) (OnlyTo channel (c ∷ cs)) (deliver picks m receives cs) _
          (deliver-OnlyTo channel picks m receives cs only g.1) (λ ds hs. (hd, hs)))
  where
    allowed :
        (x : Sent)
        → may_subscribe c.client_auth channel ≡ true
        → Sends (IsSame c) x
        → Sends (Reaches channel c) x
    allowed (kept d) ok h = (h.0, h.1, inr ok)
    allowed (overflowed d) ok h = (h.0, h.1, inr ok)
    allowed sent_on_closed ok h = tt

broadcast-OnlyTo :
    (channel : Text) (picks : ℕ → Bool) (is : Option (List ℤ)) (m : Option Text) (cs : List Client)
    → All IsGuarded cs
    → Gives (OnlyTo channel cs) (broadcast_message picks is channel m cs)
unfolding broadcast_message
broadcast-OnlyTo channel picks none m cs g =
    deliver-OnlyTo channel picks m (λ c. c.is_registered && is_subscribed c channel) cs
      (λ c e. ground (arith, e)) g
broadcast-OnlyTo channel picks (some is) m cs g = round is cs g
  where
    round :
        (js : List ℤ) (ds : List Client)
        → All IsGuarded ds
        → Gives (OnlyTo channel ds) (to_identities picks m channel js ds)
    round [] ds k = OnlyTo-refl channel ds
    round (j ∷ js) ds k =
        then-Gives (OnlyTo channel ds) (OnlyTo channel ds) _ _
          (deliver-OnlyTo channel picks m
            (λ c. c.is_registered && (c.client_auth.identity_id ==ℤ j && is_subscribed c channel))
            ds (λ c e. ground (arith, e)) k)
          (λ es h.
            through ds es h (to_identities picks m channel js es)
              (round js es (only-IsGuarded channel ds es h k)))
      where
        through :
            (as_ es : List Client)
            → OnlyTo channel as_ es
            → (o : Outcome (List Client)) → Gives (OnlyTo channel es) o
            → Gives (OnlyTo channel as_) o
        through as_ es h (done fs) q = OnlyTo-trans channel as_ es fs h q
        through as_ es h panicked q = tt
        through as_ es h blocked q = tt

subscribe-IsGuarded : (channel : Text) (c : Client) → IsGuarded c → IsGuarded (subscribe channel c)
unfolding subscribe
subscribe-IsGuarded channel c g = elim (Bool-cases (may_subscribe c.client_auth channel)) [
  | inl e ↦ rw e (e, g)
  | inr e ↦ rw e g
]

unsubscribe-IsGuarded :
    (channel : Text) (c : Client) → IsGuarded c → IsGuarded (unsubscribe channel c)
unfolding unsubscribe
unsubscribe-IsGuarded channel c g = remaining c.subscriptions g
  where
    remaining :
        (ss : List Text)
        → All (λ s. may_subscribe c.client_auth s ≡ true) ss
        → All (λ s. may_subscribe c.client_auth s ≡ true) (without channel ss)
    remaining [] k = tt
    remaining (s ∷ ss) k = elim (Bool-cases (text_eq s channel)) [
      | inl e ↦ rw e (remaining ss k.1)
      | inr e ↦ rw e (k.0, remaining ss k.1)
    ]

at_client-IsGuarded :
    (id : ℕ) (f : Client → Outcome Client) (cs : List Client)
    → ((c : Client) → IsGuarded c → Gives IsGuarded (f c))
    → All IsGuarded cs
    → Gives (All IsGuarded) (at_client id f cs)
at_client-IsGuarded id f cs k g =
    each-Gives IsGuarded _ cs (λ c h. if_Gives IsGuarded (c.id == id) _ _ (λ e. k c h) h) g

IsGuarded-outcome :
    (channel : Text) (cs : List Client) (o : Outcome (List Client))
    → All IsGuarded cs
    → Gives (OnlyTo channel cs) o
    → Gives (All IsGuarded) o
IsGuarded-outcome channel cs (done ds) g h = only-IsGuarded channel cs ds h g
IsGuarded-outcome channel cs panicked g h = tt
IsGuarded-outcome channel cs blocked g h = tt

handle-IsGuarded :
    (e : Event) (cs : List Client) → All IsGuarded cs → Gives (All IsGuarded) (handle e cs)
unfolding handle register_client unregister_client disconnect_user new_client
handle-IsGuarded (connect id auth welcome) cs g =
    let c : Client = record (new_client id auth) { is_registered = true } in
    then-Gives IsGuarded (All IsGuarded) _ _
      (same-IsGuarded c _ tt
        (send_from_hub-IsSame (IsSame c) _ (send_message-IsSame true welcome c)))
      (λ d h. (h, g))
handle-IsGuarded (unregister id) cs g =
    at_client-IsGuarded id _ cs
      (λ c h.
        if_Gives IsGuarded c.is_registered _ _
          (λ e.
            same-IsGuarded c _ h (close-IsSame c (record c { is_registered = false }) (refl, refl)))
          h)
      g
handle-IsGuarded (broadcast picks is channel m) cs g =
    IsGuarded-outcome channel cs _ g (broadcast-OnlyTo channel picks is m cs g)
handle-IsGuarded (disconnect picks m id) cs g =
    each-Gives IsGuarded _ cs
      (λ c h.
        if_Gives IsGuarded (c.is_registered && c.client_auth.identity_id ==ℤ id) _ _
          (λ e.
            then-Gives (IsSame c) IsGuarded _ _
              (send_elsewhere-IsSame (IsSame c) _ (send_message-IsSame (picks c.id) m c))
              (λ d k. same-IsGuarded c _ h (close-IsSame c (record d { is_registered = false }) k)))
          h)
      g
handle-IsGuarded (subscribe_to id channel) cs g =
    at_client-IsGuarded id _ cs (λ c h. subscribe-IsGuarded channel c h) g
handle-IsGuarded (unsubscribe_from id channel) cs g =
    at_client-IsGuarded id _ cs (λ c h. unsubscribe-IsGuarded channel c h) g
handle-IsGuarded (reply picks_send id m) cs g =
    at_client-IsGuarded id _ cs
      (λ c h.
        same-IsGuarded c _ h
          (send_elsewhere-IsSame (IsSame c) _ (send_message-IsSame picks_send m c)))
      g
handle-IsGuarded (write id) cs g = at_client-IsGuarded id _ cs (λ c h. h) g

handle_all-IsGuarded :
    (es : List Event) (cs : List Client)
    → All IsGuarded cs
    → Gives (All IsGuarded) (handle_all es cs)
unfolding handle_all
handle_all-IsGuarded [] cs g = g
handle_all-IsGuarded (e ∷ es) cs g =
    then-Gives (All IsGuarded) (All IsGuarded) (handle e cs) _ (handle-IsGuarded e cs g)
      (λ ds h. handle_all-IsGuarded es ds h)

-- After any events from an empty hub, a broadcast that ends changes the channels of clients only whose
-- roles allow them the message's channel.
pub broadcast_message-handle_all :
    (es : List Event) (picks : ℕ → Bool) (is : Option (List ℤ)) (channel : Text) (m : Option Text)
    (cs ds : List Client)
    → handle_all es [] ≡ done cs
    → broadcast_message picks is channel m cs ≡ done ds
    → OnlyTo channel cs ds
broadcast_message-handle_all es picks is channel m cs ds before sent =
    let g : All IsGuarded cs =
      subst (Gives (All IsGuarded)) before (handle_all-IsGuarded es [] tt) in
    subst (Gives (OnlyTo channel cs)) sent (broadcast-OnlyTo channel picks is m cs g)
