-- ===== src/Hub/Tests.antt =====
-- A hub with an administrator and a customer.
use zentora_backend.Prelude.{ℕ, zero, suc, ◌≡◌, refl, true, false, none, some, List, [], ◌∷◌, ◌++◌}
use zentora_backend.Prelude.Int.{ℤ, pos}
use zentora_backend.Text.{Text, lit}
use zentora_backend.Hub.{
  ClientAuth, Client, done, panicked, blocked, Event, connect, subscribe_to, handle_all, handle,
  broadcast_message, is_subscribed, may_subscribe, subscribe, new_client, register_client,
  client_has_role, send_message, send_from_hub, overflowed, unregister_client, capacity,
}
use zentora_backend.Hub.Kept.{OnlyTo}
use zentora_backend.Hub.Guarded.{broadcast_message-handle_all}
use zentora_backend.Hub.Overflow.{IsFull, unregister_client-send_message, broadcast_message-IsFull}

abbrev auth_of : ℤ → List Text → ClientAuth
auth_of id roles = record {
  identity_id = id;
  session_id = lit "s";
  roles = roles;
  permissions = [];
  email = [];
  device = [];
}

abbrev admin : ClientAuth
admin = auth_of (pos 1) (lit "admin" ∷ [])

abbrev customer : ClientAuth
customer = auth_of (pos 2) []

abbrev channel : Text
channel = lit "permissions"

-- Both ask for the channel of permissions.
abbrev events : List Event
events =
    connect 1 admin none
    ∷ connect 2 customer none
    ∷ subscribe_to 1 channel
    ∷ subscribe_to 2 channel
    ∷ []

abbrev of_auth : ℕ → ClientAuth → List Text → List Text → Client
of_auth id auth subscriptions send = record {
  id = id;
  client_auth = auth;
  subscriptions = subscriptions;
  send = send;
  is_closed = false;
  is_cancelled = false;
  is_registered = true;
}

abbrev clients : List Client
clients = of_auth 2 customer [] [] ∷ of_auth 1 admin (channel ∷ []) [] ∷ []

abbrev told : List Client
told = of_auth 2 customer [] [] ∷ of_auth 1 admin (channel ∷ []) (lit "m" ∷ []) ∷ []

connected : handle_all events [] ≡ done clients
unfolding handle_all handle register_client send_from_hub send_message new_client subscribe
    may_subscribe client_has_role
connected = refl

delivered : broadcast_message (λ i. true) none channel (some (lit "m")) clients ≡ done told
unfolding broadcast_message is_subscribed send_from_hub send_message
delivered = refl

broadcast_message-handle_all_example : OnlyTo channel clients told
broadcast_message-handle_all_example =
    broadcast_message-handle_all events (λ i. true) none channel (some (lit "m")) clients told
      connected delivered

abbrev filled : ℕ → List Text
filled zero = []
filled (suc n) = lit "m" ∷ filled n

abbrev stalled : Client
stalled = of_auth 3 admin (channel ∷ []) (filled capacity)

stalled-IsFull : IsFull stalled
stalled-IsFull = record { open_ = refl; running = refl; full = refl }

listening : is_subscribed stalled channel ≡ true
unfolding is_subscribed
listening = refl

broadcast_message-IsFull_example :
    broadcast_message (λ i. true) none channel (some (lit "m")) (clients ++ stalled ∷ clients)
    ≡ blocked
broadcast_message-IsFull_example =
    broadcast_message-IsFull (λ i. true) channel (lit "m") clients stalled clients
      (refl, (refl, tt)) stalled-IsFull refl listening

abbrev given_up : Client
given_up = record stalled { is_closed = true }

overflowing : send_message true (some (lit "m")) stalled ≡ overflowed given_up
unfolding send_message
overflowing = refl

unregister_client-send_message_example : unregister_client given_up ≡ panicked
unregister_client-send_message_example =
    unregister_client-send_message true (some (lit "m")) stalled given_up overflowing refl
