-- ===== src/Hub.antt =====
-- The WebSocket hub and its clients (internal/websocket/hub.go, client.go): who is registered, what
-- each client subscribes to, what waits in its channel, and what happens when that is full or closed.
-- A select between two cases that are ready takes either: which one is an argument. The bytes of a
-- message are what ToJSON makes, `none` where that fails.
pub mod Kept
pub mod Guarded
pub mod Overflow
mod Tests
use zentora_backend.Prelude.{
  ℕ, ◌+◌, ◌==◌, Bool, true, false, ◌&&◌, ◌||◌, not, Option, none, some, List, [], ◌∷◌, ◌++◌,
  if◌then◌else◌, ltb, any, length,
}
use zentora_backend.Prelude.Int.{ℤ, ◌==ℤ◌}
use zentora_backend.Text.{Text, lit, text_eq}

pub record ClientAuth : Type 0 where
  pub identity_id : ℤ
  pub session_id : Text
  pub roles : List Text
  pub permissions : List Text
  pub email : Text
  pub device : Text

-- A client object: its pointer, what it may see, and its channel `send`. `is_cancelled` is that its
-- context is done, `is_registered` that the hub's map holds it.
pub record Client : Type 0 where
  pub id : ℕ
  pub client_auth : ClientAuth
  pub subscriptions : List Text
  pub send : List Text
  pub is_closed : Bool
  pub is_cancelled : Bool
  pub is_registered : Bool

-- How a call ends: with its result, with a panic, or never.
pub data Outcome {ℓ} (A : Type ℓ) : Type ℓ where
  done : A → Outcome A
  panicked : Outcome A
  blocked : Outcome A

abbrev pub and_then {ℓ κ} : {A : Type ℓ} {B : Type κ} → Outcome A → (A → Outcome B) → Outcome B
and_then (done a) f = f a
and_then panicked f = panicked
and_then blocked f = blocked

-- The capacity of `send`.
abbrev pub capacity : ℕ
capacity = 256

pub new_client : ℕ → ClientAuth → Client
new_client id auth = record {
  id = id;
  client_auth = auth;
  subscriptions = [];
  send = [];
  is_closed = false;
  is_cancelled = false;
  is_registered = false;
}

pub client_has_role : ClientAuth → Text → Bool
client_has_role auth role = any (λ r. text_eq r role) auth.roles

pub is_subscribed : Client → Text → Bool
is_subscribed c channel = any (λ s. text_eq s channel) c.subscriptions

-- What the channels of permissions and of the audit ask for.
pub may_subscribe : ClientAuth → Text → Bool
may_subscribe auth channel =
    if text_eq channel (lit "permissions")
    then client_has_role auth (lit "admin") || client_has_role auth (lit "super_admin")
    else if text_eq channel (lit "audit")
    then client_has_role auth (lit "super_admin")
    else true

pub subscribe : Text → Client → Client
subscribe channel c =
    if may_subscribe c.client_auth channel
    then record c { subscriptions = channel ∷ c.subscriptions }
    else c

abbrev pub without : Text → List Text → List Text
without channel [] = []
without channel (s ∷ ss) =
    let rest = without channel ss in if text_eq s channel then rest else s ∷ rest

pub unsubscribe : Text → Client → Client
unsubscribe channel c = record c { subscriptions = without channel c.subscriptions }

-- What SendMessage does to the client; `overflowed` is that its channel was full: it is closed, and
-- the client waits for the hub to take it from `unregister`.
pub data Sent : Type 0 where
  kept : Client → Sent
  overflowed : Client → Sent
  sent_on_closed : Sent

-- `picks_send` is the choice between sending and the end of the context.
abbrev pub offered : Bool → Text → Client → Sent
offered picks_send m c =
    if c.is_closed
    then (if c.is_cancelled && not picks_send then kept c else sent_on_closed)
    else if ltb (length c.send) capacity
    then (if c.is_cancelled && not picks_send
        then kept c
        else kept (record c { send = c.send ++ m ∷ [] }))
    else if c.is_cancelled
    then kept c
    else overflowed (record c { is_closed = true })

pub send_message : Bool → Option Text → Client → Sent
send_message picks_send none c = kept c
send_message picks_send (some m) c = offered picks_send m c

-- Closing a channel twice panics.
pub close : Client → Outcome Client
close c =
    if c.is_closed then panicked else done (record c { is_closed = true; is_cancelled = true })

-- SendMessage on the hub's own goroutine, which alone receives from `unregister`.
pub send_from_hub : Sent → Outcome Client
send_from_hub (kept c) = done c
send_from_hub (overflowed c) = blocked
send_from_hub sent_on_closed = panicked

pub register_client : Bool → Option Text → Client → Outcome Client
register_client picks_send welcome c =
    send_from_hub (send_message picks_send welcome (record c { is_registered = true }))

pub unregister_client : Client → Outcome Client
unregister_client c = if c.is_registered then close (record c { is_registered = false }) else done c

-- Every client object in turn.
abbrev pub each : (Client → Outcome Client) → List Client → Outcome (List Client)
each f [] = done []
each f (c ∷ cs) = let rest = each f cs in and_then (f c) (λ d. and_then rest (λ ds. done (d ∷ ds)))

abbrev pub deliver :
    (ℕ → Bool) → Option Text → (Client → Bool) → List Client → Outcome (List Client)
deliver picks m receives cs =
    each (λ c. if receives c then send_from_hub (send_message (picks c.id) m c) else done c) cs

abbrev pub to_identities :
    (ℕ → Bool) → Option Text → Text → List ℤ → List Client → Outcome (List Client)
to_identities picks m channel [] cs = done cs
to_identities picks m channel (i ∷ is) cs =
    and_then
      (deliver picks m
        (λ c. c.is_registered && (c.client_auth.identity_id ==ℤ i && is_subscribed c channel)) cs)
      (to_identities picks m channel is)

-- BroadcastMessage, as the hub's goroutine runs it.
pub broadcast_message :
    (ℕ → Bool) → Option (List ℤ) → Text → Option Text → List Client → Outcome (List Client)
broadcast_message picks none channel m cs =
    deliver picks m (λ c. c.is_registered && is_subscribed c channel) cs
broadcast_message picks (some is) channel m cs = to_identities picks m channel is cs

-- SendMessage on another goroutine, where the hub can take the client from `unregister`.
pub send_elsewhere : Sent → Outcome Client
send_elsewhere (kept c) = done c
send_elsewhere (overflowed c) = done c
send_elsewhere sent_on_closed = panicked

pub disconnect_user : (ℕ → Bool) → Option Text → ℤ → List Client → Outcome (List Client)
disconnect_user picks m id cs =
    each
      (λ c.
        if c.is_registered && c.client_auth.identity_id ==ℤ id
        then and_then (send_elsewhere (send_message (picks c.id) m c))
            (λ d. close (record d { is_registered = false }))
        else done c)
      cs

pub shutdown : List Client → Outcome (List Client)
shutdown cs = each (λ c. if c.is_registered then close c else done c) cs

abbrev pub count : (Client → Bool) → List Client → ℕ
count p [] = 0
count p (c ∷ cs) = let rest = count p cs in if p c then 1 + rest else rest

pub get_connected_clients : ℤ → List Client → ℕ
get_connected_clients id cs = count (λ c. c.is_registered && c.client_auth.identity_id ==ℤ id) cs

pub total_clients : List Client → ℕ
total_clients cs = count (λ c. c.is_registered) cs

pub is_user_connected : ℤ → List Client → Bool
is_user_connected id cs = ltb 0 (get_connected_clients id cs)

abbrev pub at_client : ℕ → (Client → Outcome Client) → List Client → Outcome (List Client)
at_client id f cs = each (λ c. if c.id == id then f c else done c) cs

abbrev pub written : List Text → List Text
written [] = []
written (m ∷ ms) = ms

-- What happens around the hub: a connection, the ends of ReadPump, messages, subscriptions, replies
-- of a client's own goroutine, and WritePump taking a message.
pub data Event : Type 0 where
  connect : ℕ → ClientAuth → Option Text → Event
  unregister : ℕ → Event
  broadcast : (ℕ → Bool) → Option (List ℤ) → Text → Option Text → Event
  disconnect : (ℕ → Bool) → Option Text → ℤ → Event
  subscribe_to : ℕ → Text → Event
  unsubscribe_from : ℕ → Text → Event
  reply : Bool → ℕ → Option Text → Event
  write : ℕ → Event

pub handle : Event → List Client → Outcome (List Client)
handle (connect id auth welcome) cs =
    and_then (register_client true welcome (new_client id auth)) (λ c. done (c ∷ cs))
handle (unregister id) cs = at_client id unregister_client cs
handle (broadcast picks is channel m) cs = broadcast_message picks is channel m cs
handle (disconnect picks m id) cs = disconnect_user picks m id cs
handle (subscribe_to id channel) cs = at_client id (λ c. done (subscribe channel c)) cs
handle (unsubscribe_from id channel) cs = at_client id (λ c. done (unsubscribe channel c)) cs
handle (reply picks_send id m) cs =
    at_client id (λ c. send_elsewhere (send_message picks_send m c)) cs
handle (write id) cs = at_client id (λ c. done (record c { send = written c.send })) cs

pub handle_all : List Event → List Client → Outcome (List Client)
handle_all [] cs = done cs
handle_all (e ∷ es) cs = and_then (handle e cs) (handle_all es)
