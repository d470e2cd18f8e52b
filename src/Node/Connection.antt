-- ===== src/Node/Connection.antt =====
-- The connection of src/nodeservice/node.go: the websocket and the JSON-RPC client over it. `websocket.Dial` and
-- `Close` answer with a websocket's number or an error.
use hxscanner.Prelude.{ℕ, ◌≡◌, refl, Bool, true, false, Option, none, some, List, [], ◌∷◌}
use hxscanner.Env.{Error, Result, ok, err}

-- `_ws` and `_client`, which stands over the websocket of this number.
pub record Connection : Type 0 where
  pub ws : Option ℕ
  pub client : Option ℕ

abbrev pub no_connection : Connection
no_connection = record { ws = none; client = none }

-- `_ws, err = websocket.Dial(…)`, with nil where it fails, and the client only where it does not.
abbrev pub connect_hx_node : Result ℕ → Connection → Option Error × Connection
connect_hx_node (err e) c = (some e, record c { ws = none })
connect_hx_node (ok n) c = (none, record { ws = some n; client = some n })

abbrev close_ws : Option ℕ → Option Error → Connection → Option Error × Connection
close_ws none closed c = (none, c)
close_ws (some n) closed c = (closed, no_connection)

abbrev pub close_hx_node_conn : Option Error → Connection → Option Error × Connection
close_hx_node_conn closed c = close_ws c.ws closed c

abbrev is_some : {A : Type 0} → Option A → Bool
is_some none = false
is_some (some a) = true

abbrev pub is_hx_node_connected : Connection → Bool
is_hx_node_connected c = is_some c.ws

-- A call of one of the two functions, with the answer of the websocket.
pub data Event : Type 0 where
  connects : Result ℕ → Event
  closes : Option Error → Event

abbrev pub handle : Event → Connection → Connection
handle (connects dialed) c = (connect_hx_node dialed c).1
handle (closes closed) c = (close_hx_node_conn closed c).1

abbrev pub after : List Event → Connection → Connection
after [] c = c
after (e ∷ es) c = after es (handle e c)

-- An open websocket has its own client.
abbrev IsPaired : Connection → Type 0
IsPaired c = is_hx_node_connected c ≡ true → c.client ≡ c.ws

handle-IsPaired : (e : Event) (c : Connection) → IsPaired c → IsPaired (handle e c)
handle-IsPaired (connects (err e)) c h = λ f. cc
handle-IsPaired (connects (ok n)) c h = λ f. refl
handle-IsPaired (closes closed) c h = part c.ws c refl h
  where
    part :
        (o : Option ℕ) (c : Connection) → c.ws ≡ o → IsPaired c → IsPaired (close_ws o closed c).1
    part none c e h = h
    part (some n) c e h = λ f. refl

after-IsPaired : (es : List Event) (c : Connection) → IsPaired c → IsPaired (after es c)
after-IsPaired [] c h = h
after-IsPaired (e ∷ es) c h = after-IsPaired es (handle e c) (handle-IsPaired e c h)

-- After any calls of ConnectHxNode and CloseHxNodeConn, whatever the websocket answered to them, when
-- IsHxNodeConnected says that there is a connection, the client is the one over the open websocket, and not nil.
pub after-client :
    (es : List Event)
    → is_hx_node_connected (after es no_connection) ≡ true
    → (after es no_connection).client ≡ (after es no_connection).ws
after-client es = after-IsPaired es no_connection (λ f. refl)
